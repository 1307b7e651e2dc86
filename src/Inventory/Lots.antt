-- ===== src/Inventory/Lots.antt =====
-- backend/src/modules/inventory/inventory.service.ts, the batches: consume, unconsume, stampOrderCost
-- and refreshCost. The database rounds a quotient as decimal.js does, half up.
use brothers_book_house.Base.{
  Bool, List, Option, [], any, get_or, if◌then◌else◌, is_empty, is_some, keep, ltb, map, map_option,
  none, not, some, sort_by, suc, sum_by, zero, ℕ, ◌&&◌, ◌*◌, ◌++◌, ◌+◌, ◌-◌, ◌==◌, ◌||◌, ◌∷◌,
}
use brothers_book_house.Money.{Decimal, Money, min}
use brothers_book_house.Inventory.{
  Lot, LotConsumption, LotSource, Product, Stock, StockContext, return, set_product,
}

-- What was taken of a batch, or of none.
pub record Used : Type 0 where
  pub lot_id : Option ℕ
  pub qty : ℕ
  pub unit_cost : Option Money

pub record Taken : Type 0 where
  pub lots : List Lot
  pub used : List Used
  pub need : ℕ

abbrev pub is_open : ℕ → Lot → Bool
is_open id l = l.product_id == id && ltb 0 l.qty_left

-- The loop over the open batches of a product.
unfoldable pub take_lots : ℕ → ℕ → List Lot → Taken
take_lots id need [] = record { lots = []; used = []; need = need }
take_lots id need (l ∷ ls) =
    let take = if is_open id l then min need l.qty_left else 0 in
    let rest = take_lots id (need - take) ls in
    record {
      lots = record l { qty_left = l.qty_left - take } ∷ rest.lots;
      used =
          if take == 0
          then rest.used
          else record { lot_id = some l.id; qty = take; unit_cost = l.unit_cost } ∷ rest.used;
      need = rest.need;
    }

-- `ORDER BY received_at, created_at, id`: a row that was created later has a higher identifier.
abbrev pub comes_later : Lot → Lot → Bool
comes_later a b =
    ltb b.received_at a.received_at || (a.received_at == b.received_at && ltb b.id a.id)

unfoldable pub oldest_first : List Lot → List Lot
unfolding sort_by
oldest_first lots = sort_by comes_later lots

-- The batches of the table in this order, and the loop over them.
unfoldable pub take_oldest : ℕ → ℕ → List Lot → Taken
unfolding take_lots oldest_first
take_oldest id need lots = take_lots id need (oldest_first lots)

-- a row of consumption, if a batch was used
abbrev pub add_row : ℕ → ℕ → Option ℕ → Used → List LotConsumption → List LotConsumption
add_row id order none u rows = rows
add_row id order (some lot) u rows =
    record {
      lot_id = lot;
      product_id = id;
      order_id = order;
      qty = u.qty;
      unit_cost = u.unit_cost;
      returned = 0;
    }
    ∷ rows

-- A row for each batch used, if it is for an order; the last one is the newest.
unfoldable pub consumption_rows :
    ℕ → Option ℕ → List Used → List LotConsumption → List LotConsumption
consumption_rows id none used rows = rows
consumption_rows id (some order) [] rows = rows
consumption_rows id (some order) (u ∷ us) rows =
    consumption_rows id (some order) us (add_row id order u.lot_id u rows)

abbrev pub cost_price_of : Stock → ℕ → Option Money
cost_price_of s id = elim (s.products id) [ none ↦ none | some p ↦ p.cost_price ]

abbrev pub price_of : Stock → ℕ → Option Money
price_of s id = map_option (λ p. p.price) (s.products id)

-- What the shelf had and the batches did not know of, at today's cost.
abbrev pub uncovered : ℕ → Option Money → List Used
uncovered zero cost = []
uncovered (suc n) cost = record { lot_id = none; qty = suc n; unit_cost = cost } ∷ []

abbrev pub counted_lot : ℕ → Lot → Bool
counted_lot id l = is_open id l && is_some l.unit_cost

abbrev pub set_cost : ℕ → Option Money → Option Product → Stock → Stock
set_cost id (some avg) (some p) s = set_product s id (record p { cost_price = some avg })
set_cost id none _ s = s
set_cost id (some avg) none s = s

module _ ⦃dec : Decimal⦄ where
  -- the average cost of the copies on the shelf whose cost is known, if there are any
  unfoldable pub average_cost : ℕ → List Lot → Option Money
  average_cost id lots =
      let known = keep (counted_lot id) lots in
      let units = sum_by (λ l. l.qty_left) known in
      if units == 0
      then none
      else some (dec.half_up (sum_by (λ l. get_or l.unit_cost 0 * l.qty_left) known) units)

  unfoldable pub refresh_cost : ℕ → Stock → Stock
  unfolding average_cost
  refresh_cost id s = set_cost id (average_cost id s.lots) (s.products id) s

  unfoldable pub consume : ℕ → ℕ → Option ℕ → Stock → Stock × List Used
  unfolding take_oldest consumption_rows refresh_cost
  consume id qty order s =
      let taken = take_oldest id qty s.lots in
      let used = taken.used ++ uncovered taken.need (cost_price_of s id) in
      (
        refresh_cost id (record s {
          lots = taken.lots;
          consumptions = consumption_rows id order taken.used s.consumptions;
        }),
        used,
      )

  -- the average of what was used, if every part of it has a cost
  unfoldable pub stamp_order_cost : ℕ → ℕ → List Used → Stock → Stock
  stamp_order_cost order id used s =
      if is_empty used || any (λ u. not (is_some u.unit_cost)) used then s else record s {
        order_costs =
            record {
              order_id = order;
              product_id = id;
              unit_cost =
                  dec.half_up (sum_by (λ u. get_or u.unit_cost 0 * u.qty) used)
                    (sum_by (λ u. u.qty) used);
            }
            ∷ s.order_costs;
      }

-- What goes back into which batch.
pub record Back : Type 0 where
  pub lot_id : ℕ
  pub qty : ℕ

pub record Returned : Type 0 where
  pub rows : List LotConsumption
  pub back : List Back
  pub left : ℕ

abbrev pub is_use : ℕ → ℕ → LotConsumption → Bool
is_use order id u = u.order_id == order && u.product_id == id

-- The loop over what an order used of a product, the newest first.
unfoldable pub return_rows : ℕ → ℕ → ℕ → List LotConsumption → Returned
return_rows order id left [] = record { rows = []; back = []; left = left }
return_rows order id left (u ∷ us) =
    let back = if is_use order id u then min left (u.qty - u.returned) else 0 in
    let rest = return_rows order id (left - back) us in
    record {
      rows = record u { returned = u.returned + back } ∷ rest.rows;
      back = if back == 0 then rest.back else record { lot_id = u.lot_id; qty = back } ∷ rest.back;
      left = rest.left;
    }

unfoldable pub give_back : Back → List Lot → List Lot
give_back b lots =
    map
      (λ l.
        if l.id == b.lot_id then record l { qty_left = min (l.qty_left + b.qty) l.qty_in } else l)
      lots

unfoldable pub give_all_back : List Back → List Lot → List Lot
unfolding give_back
give_all_back [] lots = lots
give_all_back (b ∷ bs) lots = give_all_back bs (give_back b lots)

-- A new row of the table of batches.
unfoldable pub create_lot :
    ℕ → LotSource → ℕ → Option Money → Option Money → Option ℕ → Stock → Stock
create_lot id source qty cost price received s = record s {
  lots =
      record {
        id = s.next_lot;
        product_id = id;
        source = source;
        qty_in = qty;
        qty_left = qty;
        unit_cost = cost;
        sale_price = price;
        received_at = get_or received s.now;
      }
      ∷ s.lots;
  next_lot = s.next_lot + 1;
}

unfoldable pub give_lots_back : Option ℕ → ℕ → ℕ → Stock → Stock × ℕ
unfolding return_rows give_all_back
give_lots_back none id qty s = (s, qty)
give_lots_back (some order) id qty s =
    let r = return_rows order id qty s.consumptions in
    (record s { consumptions = r.rows; lots = give_all_back r.back s.lots }, r.left)

module _ ⦃dec : Decimal⦄ where
  unfoldable pub unconsume : ℕ → ℕ → StockContext → Stock → Stock
  unfolding give_lots_back create_lot refresh_cost
  unconsume id qty ctx s =
      let (given, left) = give_lots_back ctx.order_id id qty s in
      refresh_cost id (
        if left == 0
        then given
        else create_lot id return left (cost_price_of given id) (price_of given id) none given)
