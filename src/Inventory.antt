-- ===== src/Inventory.antt =====
-- backend/src/modules/inventory/inventory.service.ts: the rows that the service keeps, and what its
-- methods share. The products are a map from identifiers; batches stand in the order in which they are
-- used up (received_at, created_at, id), rows of consumption and of movement newest first. An UPDATE
-- that breaks a CHECK of prisma/migrations/20260929072842_constraints fails and takes the transaction
-- with it. Titles, notes, actors and counters of the telemetry are left out.
pub mod Lots
pub mod Steps
pub mod Lines
pub mod Shelf
pub mod Rows
pub mod Refines
pub mod Balance
pub mod Fifo
pub mod Cost
pub mod Undo
use brothers_book_house.Base.{
  Bool, List, Option, [], any, get_or, if◌then◌else◌, insert_by, leb, ltb, none, some, sort_by, ℕ,
  ◌+◌, ◌==◌, ◌||◌, ◌∷◌,
}
use brothers_book_house.Base.Int.{ℤ}
use brothers_book_house.Base.Outcome.{Outcome, fail, ok, ◌>>=◌}
use brothers_book_house.Money.{Money}

pub record StockLine : Type 0 where
  pub product_id : ℕ
  pub qty : ℕ

pub record StockContext : Type 0 where
  pub order_id : Option ℕ
  pub purchase_id : Option ℕ

pub record LowStockHit : Type 0 where
  pub product_id : ℕ
  pub stock_on_hand : ℕ
  pub threshold : ℕ

pub data LotSource : Type 0 where
  opening purchase restock return adjust : LotSource

pub data StockMovementType : Type 0 where
  order_reserve order_release order_fulfill return_restock purchase_receipt adjustment opening :
      StockMovementType

pub record Product : Type 0 where
  pub stock_on_hand : ℕ
  pub stock_reserved : ℕ
  pub sold_count : ℕ
  pub initial_copies : Option ℕ
  pub low_stock_threshold : Option ℕ
  pub track_inventory : Bool
  pub allow_backorder : Bool
  pub deleted : Bool
  pub price : Money
  pub cost_price : Option Money

pub record Lot : Type 0 where
  pub id : ℕ
  pub product_id : ℕ
  pub source : LotSource
  pub qty_in : ℕ
  pub qty_left : ℕ
  pub unit_cost : Option Money
  pub sale_price : Option Money
  pub received_at : ℕ

pub record LotConsumption : Type 0 where
  pub lot_id : ℕ
  pub product_id : ℕ
  pub order_id : ℕ
  pub qty : ℕ
  pub unit_cost : Option Money
  pub returned : ℕ

pub record StockMovement : Type 0 where
  pub product_id : ℕ
  pub type : StockMovementType
  pub qty_on_hand_delta : ℤ
  pub qty_reserved_delta : ℤ
  pub unit_cost : Option Money
  pub balance_after : ℕ
  pub order_id : Option ℕ
  pub purchase_id : Option ℕ

-- The real cost of a product in an order, as `stampOrderCost` writes it to the order's lines.
pub record OrderCost : Type 0 where
  pub order_id : ℕ
  pub product_id : ℕ
  pub unit_cost : Money

pub record Stock : Type 0 where
  pub products : ℕ → Option Product
  pub lots : List Lot
  pub consumptions : List LotConsumption
  pub movements : List StockMovement
  pub order_costs : List OrderCost
  pub next_lot : ℕ
  pub now : ℕ

-- products_reserved_lte_hand
abbrev pub within_checks : Product → Bool
within_checks p = p.allow_backorder || leb p.stock_reserved p.stock_on_hand

abbrev pub set_product : Stock → ℕ → Product → Stock
set_product s id p = record s { products = λ q. if q == id then some p else s.products q }

unfoldable pub write_product : Stock → ℕ → Product → Outcome Stock
write_product s id p =
    if within_checks p then ok (set_product s id p) else fail "products_reserved_lte_hand"

unfoldable pub log :
    Stock → ℕ → Product → StockMovementType → ℤ → ℤ → StockContext → Option Money → Stock
log s id p type on_hand reserved ctx cost = record s {
  movements =
      record {
        product_id = id;
        type = type;
        qty_on_hand_delta = on_hand;
        qty_reserved_delta = reserved;
        unit_cost = cost;
        balance_after = p.stock_on_hand;
        order_id = ctx.order_id;
        purchase_id = ctx.purchase_id;
      }
      ∷ s.movements;
}

unfoldable pub low_hit : ℕ → Product → Option LowStockHit
low_hit id p =
    let threshold = get_or p.low_stock_threshold 5 in
    if leb p.stock_on_hand threshold
    then some (record { product_id = id; stock_on_hand = p.stock_on_hand; threshold = threshold })
    else none

-- `map.set(id, (map.get(id) ?? 0) + qty)`
unfoldable pub add_line : StockLine → List StockLine → List StockLine
add_line l [] = l ∷ []
add_line l (m ∷ ms) =
    let rest = add_line l ms in
    if m.product_id == l.product_id
    then record { product_id = l.product_id; qty = m.qty + l.qty } ∷ ms
    else m ∷ rest

unfoldable pub add_lines : List StockLine → List StockLine → List StockLine
unfolding add_line
add_lines merged [] = merged
add_lines merged (l ∷ ls) = add_lines (add_line l merged) ls

-- One row to a product, in the order of their identifiers.
unfoldable pub merge : List StockLine → Outcome (List StockLine)
unfolding add_lines sort_by insert_by
merge lines =
    if any (λ l. l.qty == 0) lines
    then fail "stock.qty_invalid"
    else ok (sort_by (λ a b. ltb b.product_id a.product_id) (add_lines [] lines))

-- The loop of a method over its rows; the first failure ends it.
unfoldable pub each_line {ℓ} :
    {S : Type ℓ} → (StockLine → S → Outcome S) → List StockLine → S → Outcome S
each_line step [] s = ok s
each_line step (l ∷ ls) s = step l s >>= each_line step ls
