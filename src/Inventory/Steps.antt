-- ===== src/Inventory/Steps.antt =====
-- backend/src/modules/inventory/inventory.service.ts: the methods that change stock.
use brothers_book_house.Base.{
  Bool, List, Option, [], get_or, if◌then◌else◌, leb, ltb, none, not, some, ℕ, ◌&&◌, ◌++◌, ◌+◌, ◌-◌,
  ◌==◌, ◌||◌, ◌∷◌,
}
use brothers_book_house.Base.Int.{negsuc, pos, sub_ℕ, ℤ}
use brothers_book_house.Base.Outcome.{Outcome, fail, ok, ◌>>=◌}
use brothers_book_house.Money.{Decimal, Money}
use brothers_book_house.Inventory.{
  LotSource, LowStockHit, Product, Stock, StockContext, StockLine, StockMovementType, adjust,
  adjustment, each_line, log, low_hit, merge, opening, order_fulfill, order_release, order_reserve,
  purchase, purchase_receipt, return_restock, write_product,
}
use brothers_book_house.Inventory.Lots.{
  Used, consume, create_lot, refresh_cost, stamp_order_cost, unconsume,
}

-- `-n`
abbrev pub minus : ℕ → ℤ
minus n = sub_ℕ 0 n

abbrev pub can_reserve : ℕ → Product → Bool
can_reserve qty p =
    not p.deleted
    && (not p.track_inventory || p.allow_backorder || leb (p.stock_reserved + qty) p.stock_on_hand)

unfoldable pub reserve_row : StockContext → StockLine → Stock → Option Product → Outcome Stock
unfolding write_product log
reserve_row ctx l s none = fail "not_found"
reserve_row ctx l s (some p) = if not (can_reserve l.qty p) then fail "stock.insufficient" else do
  let p' = record p { stock_reserved = p.stock_reserved + l.qty }
  s' ← write_product s l.product_id p'
  ok (log s' l.product_id p' order_reserve (pos 0) (pos l.qty) ctx none)

unfoldable pub reserve : List StockLine → StockContext → Stock → Outcome Stock
unfolding reserve_row
reserve lines ctx s = do
  merged ← merge lines
  each_line (λ l s. reserve_row ctx l s (s.products l.product_id)) merged s

unfoldable pub release_row : StockContext → StockLine → Stock → Option Product → Outcome Stock
unfolding write_product log
release_row ctx l s none = ok s
release_row ctx l s (some p) = do
  let p' = record p { stock_reserved = p.stock_reserved - l.qty }
  s' ← write_product s l.product_id p'
  ok (log s' l.product_id p' order_release (pos 0) (minus l.qty) ctx none)

unfoldable pub release : List StockLine → StockContext → Stock → Outcome Stock
unfolding release_row
release lines ctx s = do
  merged ← merge lines
  each_line (λ l s. release_row ctx l s (s.products l.product_id)) merged s

module _ ⦃dec : Decimal⦄ where
  -- the cost that the order is charged
  unfoldable pub stamp : Option ℕ → ℕ → List Used → Stock → Stock
  unfolding stamp_order_cost
  stamp none id used s = s
  stamp (some order) id used s = stamp_order_cost order id used s

  -- On a shelf that holds too little, back order passes the guard of the UPDATE, and the CHECK on
  -- stock_on_hand stops it.
  unfoldable pub fulfill_row :
      StockContext
      → StockLine
      → Stock × List LowStockHit
      → Option Product
      → Outcome (Stock × List LowStockHit)
  unfolding write_product log consume stamp low_hit
  fulfill_row ctx l (s, low) none = fail "stock.fulfil_failed"
  fulfill_row ctx l (s, low) (some p) =
      if not (p.allow_backorder || leb l.qty p.stock_on_hand)
      then fail "stock.fulfil_failed"
      else if ltb p.stock_on_hand l.qty
      then fail "products_stock_nonneg"
      else do
        let p' = record p {
          stock_on_hand = p.stock_on_hand - l.qty;
          stock_reserved = p.stock_reserved - l.qty;
          sold_count = p.sold_count + l.qty;
        }
        s' ← write_product s l.product_id p'
        let logged = log s' l.product_id p' order_fulfill (minus l.qty) (minus l.qty) ctx none
        let (taken, used) = consume l.product_id l.qty ctx.order_id logged
        ok (
          stamp ctx.order_id l.product_id used taken,
          elim (low_hit l.product_id p') [ none ↦ low | some hit ↦ low ++ (hit ∷ []) ],
        )

  unfoldable pub fulfill :
      List StockLine → StockContext → Stock → Outcome (Stock × List LowStockHit)
  unfolding fulfill_row
  fulfill lines ctx s = do
    merged ← merge lines
    each_line (λ l (s, low). fulfill_row ctx l (s, low) (s.products l.product_id)) merged (s, [])

  unfoldable pub restock_row : StockContext → StockLine → Stock → Option Product → Outcome Stock
  unfolding write_product log unconsume
  restock_row ctx l s none = ok s
  restock_row ctx l s (some p) = do
    let p' = record p { stock_on_hand = p.stock_on_hand + l.qty; sold_count = p.sold_count - l.qty }
    s' ← write_product s l.product_id p'
    ok (
        unconsume l.product_id l.qty ctx
          (log s' l.product_id p' return_restock (pos l.qty) (pos 0) ctx none))

  unfoldable pub restock_lines : List StockLine → StockContext → Stock → Outcome Stock
  unfolding restock_row
  restock_lines lines ctx s = do
    merged ← merge lines
    each_line (λ l s. restock_row ctx l s (s.products l.product_id)) merged s

  -- `batch.unitCost ?? cur.costPrice` and the like
  abbrev pub given_or : Option Money → Option Money → Option Money
  given_or none b = b
  given_or (some a) b = some a

  unfoldable pub add_batch_row :
      ℕ
      → ℕ
      → Option Money
      → Option Money
      → LotSource
      → Option ℕ
      → StockContext
      → Stock
      → Option Product
      → Outcome Stock
  unfolding write_product log create_lot refresh_cost
  add_batch_row id qty cost sale source received ctx s none = fail "not_found"
  add_batch_row id qty cost sale source received ctx s (some p) = do
    let p' = record p {
      stock_on_hand = p.stock_on_hand + qty;
      initial_copies = some (get_or p.initial_copies 0 + qty);
    }
    s' ← write_product s id p'
    let unit_cost = given_or cost p.cost_price
    let logged = log s' id p' purchase_receipt (pos qty) (pos 0) ctx unit_cost
    ok (
        refresh_cost id
          (create_lot id source qty unit_cost (given_or sale (some p.price)) received logged))

  unfoldable pub add_batch :
      ℕ
      → ℕ
      → Option Money
      → Option Money
      → LotSource
      → Option ℕ
      → StockContext
      → Stock
      → Outcome Stock
  unfolding add_batch_row
  add_batch id qty cost sale source received ctx s =
      if qty == 0
      then fail "stock.qty_invalid"
      else add_batch_row id qty cost sale source received ctx s (s.products id)

  unfoldable pub receive : ℕ → ℕ → Money → StockContext → Stock → Outcome Stock
  unfolding add_batch
  receive id qty cost ctx s = add_batch id qty (some cost) none purchase none ctx s

  abbrev pub source_of : StockMovementType → LotSource
  source_of opening = LotSource.opening
  source_of _ = adjust

  -- the batches follow the count: a new one for what was found, the oldest ones for what is missing
  unfoldable pub follow_count : ℕ → ℕ → ℕ → StockMovementType → Product → Stock → Stock
  unfolding create_lot consume
  follow_count id before on_hand type p s =
      if ltb before on_hand
      then create_lot id (source_of type) (on_hand - before) p.cost_price (some p.price) none s
      else (consume id (before - on_hand) none s).0

  unfoldable pub set_on_hand_row :
      ℕ → ℕ → StockMovementType → StockContext → Stock → Option Product → Outcome Stock
  unfolding write_product log follow_count refresh_cost
  set_on_hand_row id on_hand type ctx s none = fail "not_found"
  set_on_hand_row id on_hand type ctx s (some p) =
      if on_hand == p.stock_on_hand
      then ok s
      else if ltb on_hand p.stock_reserved
      then fail "stock.below_reserved"
      else do
        let p' = record p { stock_on_hand = on_hand }
        s' ← write_product s id p'
        let logged = log s' id p' type (sub_ℕ on_hand p.stock_on_hand) (pos 0) ctx none
        ok (refresh_cost id (follow_count id p.stock_on_hand on_hand type p logged))

  unfoldable pub set_on_hand :
      ℕ → ℤ → Option StockMovementType → StockContext → Stock → Outcome Stock
  unfolding set_on_hand_row
  set_on_hand id (negsuc n) type ctx s = fail "stock.negative"
  set_on_hand id (pos n) type ctx s =
      set_on_hand_row id n (get_or type adjustment) ctx s (s.products id)
