-- ===== src/Tests/Stockroom.antt =====
-- Two books in stock: reserved, released, sent out and brought back.
use brothers_book_house.Money.{Money}
use mathlib.Core.List.{Perm}
use brothers_book_house.Base.{
  All, Bool-cases, List, Option, [], arith, false, if◌then◌else◌, inl, inr, insert_by, map,
  map_option, none, refl, some, sort_by, sum_by, true, ℕ, ◌+◌, ◌<◌, ◌==◌, ◌∷◌, ◌≡◌, ◌≢◌, ◌≤◌,
}
use brothers_book_house.Base.Int.{pos}
use brothers_book_house.Base.Outcome.{is_ok, ok}
use brothers_book_house.Money.Rounding.{paisa_decimal}
use brothers_book_house.Inventory.{
  Lot, LotSource, Product, Stock, StockContext, StockLine, StockMovement, StockMovementType,
  add_line, add_lines, each_line, log, low_hit, merge, write_product,
}
use brothers_book_house.Inventory.Lots.{
  average_cost, consume, consumption_rows, oldest_first, refresh_cost, stamp_order_cost, take_lots,
  take_oldest,
}
use brothers_book_house.Inventory.Lines.{units_of}
use brothers_book_house.Inventory.Steps.{
  fulfill, fulfill_row, release, reserve, reserve_row, restock_lines, stamp,
}
use brothers_book_house.Inventory.Shelf.{shelf}
use brothers_book_house.Inventory.Refines.{bring, hold, send, shelf-Refines, unhold}
use brothers_book_house.Inventory.Balance.{
  Calls, Calls-IsBalanced, IsBalanced, none_yet, reserves, then_one,
}
use brothers_book_house.Inventory.Fifo.{Batch, IsFifo, IsSameBatch, left_of, take_oldest_lem}
use brothers_book_house.Inventory.Undo.{IsWithin, release-reserve}
use brothers_book_house.Inventory.Cost.{
  IsAverage, known_cost, known_units, refresh_cost_lem, repriced,
}

abbrev pub novel : Product
novel = record {
  stock_on_hand = 10;
  stock_reserved = 1;
  sold_count = 0;
  initial_copies = none;
  low_stock_threshold = none;
  track_inventory = true;
  allow_backorder = false;
  deleted = false;
  price = 40_000;
  cost_price = some 25_000;
}

abbrev batch : ℕ → ℕ → ℕ → Lot
batch id qty cost = record {
  id = id;
  product_id = 7;
  source = LotSource.purchase;
  qty_in = qty;
  qty_left = qty;
  unit_cost = some cost;
  sale_price = none;
  received_at = id;
}

abbrev pub bought : StockMovement
bought = record {
  product_id = 7;
  type = StockMovementType.purchase_receipt;
  qty_on_hand_delta = pos 10;
  qty_reserved_delta = pos 0;
  unit_cost = none;
  balance_after = 10;
  order_id = none;
  purchase_id = none;
}

abbrev only_novel : ℕ → Option Product
only_novel id = if id == 7 then some novel else none

abbrev pub stockroom : Stock
stockroom = record {
  products = only_novel;
  lots = batch 1 3 20_000 ∷ batch 2 7 26_000 ∷ [];
  consumptions = [];
  movements = bought ∷ [];
  order_costs = [];
  next_lot = 3;
  now = 9;
}

abbrev asked : List StockLine
asked = record { product_id = 7; qty = 2 } ∷ record { product_id = 7; qty = 3 } ∷ []

abbrev pub for_order : StockContext
for_order = record { order_id = some 12; purchase_id = none }

abbrev after_reserve : Stock
after_reserve = record stockroom {
  products = λ q. if q == 7 then some (record novel { stock_reserved = 6 }) else only_novel q;
  movements =
      record bought {
        type = StockMovementType.order_reserve;
        qty_on_hand_delta = pos 0;
        qty_reserved_delta = pos 5;
        order_id = some 12;
      }
      ∷ bought
      ∷ [];
}

reserves_all : reserve asked for_order stockroom ≡ ok after_reserve
unfolding reserve merge add_lines add_line sort_by insert_by each_line reserve_row write_product log
reserves_all = refl

stockroom-IsWithin : IsWithin stockroom
stockroom-IsWithin id i e = elim (Bool-cases (id == 7)) [
  | inl t ↦ ground arith
  | inr t ↦ ground arith
]

release-reserve_example :
    (u : Stock) × (release asked for_order after_reserve ≡ ok u)
    × ((id : ℕ) → shelf u id ≡ shelf stockroom id)
release-reserve_example =
    release-reserve asked for_order for_order stockroom after_reserve stockroom-IsWithin
      reserves_all

shelf-Refines_example :
    (reserve asked for_order stockroom ≡ ok after_reserve
      → shelf after_reserve 7 ≡ map_option (hold (units_of 7 asked)) (shelf stockroom 7))
    × (release asked for_order stockroom ≡ ok after_reserve
        → shelf after_reserve 7 ≡ map_option (unhold (units_of 7 asked)) (shelf stockroom 7))
    × (fulfill ⦃dec = paisa_decimal⦄ asked for_order stockroom ≡ ok (after_reserve, [])
        → shelf after_reserve 7 ≡ map_option (send (units_of 7 asked)) (shelf stockroom 7))
    × (restock_lines ⦃dec = paisa_decimal⦄ asked for_order stockroom ≡ ok after_reserve
        → shelf after_reserve 7 ≡ map_option (bring (units_of 7 asked)) (shelf stockroom 7))
shelf-Refines_example =
    shelf-Refines ⦃dec = paisa_decimal⦄ asked for_order stockroom after_reserve [] 7

stockroom-IsBalanced : IsBalanced 7 stockroom
stockroom-IsBalanced = ground arith

one_call : Calls ⦃dec = paisa_decimal⦄ stockroom after_reserve
one_call = then_one none_yet (reserves asked for_order reserves_all)

Calls-IsBalanced_example : IsBalanced 7 after_reserve
Calls-IsBalanced_example =
    Calls-IsBalanced ⦃dec = paisa_decimal⦄ 7 stockroom after_reserve one_call stockroom-IsBalanced

-- The batch that was received first stands last in the table, and is used up first.
abbrev entered_late : List Lot
entered_late = batch 2 7 26_000 ∷ batch 1 3 20_000 ∷ []

takes_oldest : map (λ u. u.qty) (take_oldest 7 5 entered_late).used ≡ 3 ∷ 2 ∷ []
unfolding take_oldest oldest_first sort_by insert_by take_lots
takes_oldest = refl

take_oldest_lem_example :
    let t = take_oldest 7 5 entered_late in
    (sum_by (λ u. u.qty) t.used + t.need ≡ 5)
    × (left_of 7 t.lots + 5 ≡ left_of 7 entered_late + t.need)
    × (0 < t.need → left_of 7 t.lots ≡ 0)
    × ((q : ℕ) → q ≢ 7 → left_of q t.lots ≡ left_of q entered_late)
    × (bs : List Batch) × Perm (map (λ b. b.0) bs) entered_late
    × (map (λ b. b.1) bs ≡ t.lots)
    × All IsSameBatch bs
    × IsFifo 7 bs
take_oldest_lem_example = take_oldest_lem 7 5 entered_late

refresh_cost_lem_example :
    (known_units 7 stockroom.lots ≡ 0 → refresh_cost ⦃dec = paisa_decimal⦄ 7 stockroom ≡ stockroom)
    × (0 < known_units 7 stockroom.lots
        → (a : Money) × (refresh_cost ⦃dec = paisa_decimal⦄ 7 stockroom
            ≡ repriced 7 a novel stockroom)
          × IsAverage (known_units 7 stockroom.lots) (known_cost 7 stockroom.lots) a
          × (20_000 ≤ a)
          × (a ≤ 26_000))
refresh_cost_lem_example =
    refresh_cost_lem ⦃dec = paisa_decimal⦄ 7 20_000 26_000 novel stockroom refl
      (λ e. omega arith, (λ e. omega arith, tt))

-- Sent out, the five copies take the first batch and two of the second; the order is charged their
-- average, and the cost price is that of the rest.
sent_out : is_ok (fulfill ⦃dec = paisa_decimal⦄ asked for_order after_reserve) ≡ true
unfolding fulfill merge add_lines add_line sort_by insert_by each_line fulfill_row write_product log
    consume take_oldest oldest_first take_lots consumption_rows refresh_cost average_cost stamp
    stamp_order_cost low_hit
sent_out = refl
