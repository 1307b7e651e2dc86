-- ===== src/Inventory/Rows.antt =====
-- backend/src/modules/inventory/inventory.service.ts: what one row of each method writes.
use brothers_book_house.Base.{
  Bool-cases, List, Option, ap, arith, get_or, inl, inr, leb, ltb, none, not, refl, some, subst,
  true, ℕ, ◌+◌, ◌-◌, ◌==◌, ◌||◌, ◌≡◌, ◌≢◌, ◌≤◌,
}
use brothers_book_house.Base.Int.{pos, sub_ℕ, ℤ}
use brothers_book_house.Base.Outcome.{>>=-eq-ok, Outcome, ok, ok-inj, ◌>>=◌}
use brothers_book_house.Inventory.{
  LotSource, LowStockHit, Product, Stock, StockContext, StockLine, StockMovementType, log,
  order_fulfill, order_release, order_reserve, purchase_receipt, return_restock, set_product,
  within_checks, write_product,
}
use brothers_book_house.Inventory.Lots.{Used, consume, create_lot, refresh_cost, unconsume}
use brothers_book_house.Inventory.Steps.{
  add_batch_row, can_reserve, follow_count, fulfill_row, given_or, minus, release_row, reserve_row,
  restock_row, set_on_hand_row, stamp,
}
use brothers_book_house.Inventory.Shelf.{
  Kept, Kept-trans, Wrote, Wrote-Kept, consume-Kept, follow_count-Kept, refresh_cost-Kept,
  stamp-Kept, unconsume-Kept, write_product-Wrote,
}
use brothers_book_house.Money.{Decimal, Money}

-- A row that was written meets the CHECKs, and what follows the UPDATE leaves the shelf alone.
abbrev pub Writes : Stock → ℕ → Product → ℤ → Stock → Type 0
Writes s id p d s' = (within_checks p ≡ true) × Wrote s id p d s'

abbrev pub held : StockLine → Product → Product
held l p = record p { stock_reserved = p.stock_reserved + l.qty }

abbrev pub unheld : StockLine → Product → Product
unheld l p = record p { stock_reserved = p.stock_reserved - l.qty }

abbrev pub sent : StockLine → Product → Product
sent l p = record p {
  stock_on_hand = p.stock_on_hand - l.qty;
  stock_reserved = p.stock_reserved - l.qty;
  sold_count = p.sold_count + l.qty;
}

abbrev pub brought : StockLine → Product → Product
brought l p = record p {
  stock_on_hand = p.stock_on_hand + l.qty;
  sold_count = p.sold_count - l.qty;
}

abbrev pub with_batch : ℕ → Product → Product
with_batch qty p = record p {
  stock_on_hand = p.stock_on_hand + qty;
  initial_copies = some (get_or p.initial_copies 0 + qty);
}

-- An UPDATE, its movement, and what follows them.
written :
    (s s' : Stock) (id : ℕ) (p : Product) (type : StockMovementType) (d r : ℤ) (ctx : StockContext)
    (cost : Option Money) (then_ : Stock → Stock)
    → ((t : Stock) → Kept t (then_ t))
    → (write_product s id p >>= λ t. ok (then_ (log t id p type d r ctx cost))) ≡ ok s'
    → Writes s id p d s'
written s s' id p type d r ctx cost then_ keeps h =
    let (t, e, f) =
      >>=-eq-ok (write_product s id p) (λ t. ok (then_ (log t id p type d r ctx cost))) s' h in
    let (checks, w) = write_product-Wrote s t id p type d r ctx cost e in
    let after = log t id p type d r ctx cost in
    let same : then_ after ≡ s' = ground arith in
    (checks, subst (Wrote s id p d) same (Wrote-Kept s after (then_ after) id p d w (keeps after)))

same-Kept : (t : Stock) → Kept t t
same-Kept t = (λ q. refl, refl)

pub reserve_row_ne :
    (ctx : StockContext) (l : StockLine) (s s' : Stock) → reserve_row ctx l s none ≢ ok s'
unfolding reserve_row
reserve_row_ne ctx l s s' h = cc

pub reserve_row-Writes :
    (ctx : StockContext) (l : StockLine) (s s' : Stock) (p : Product)
    → reserve_row ctx l s (some p) ≡ ok s'
    → (can_reserve l.qty p ≡ true) × Writes s l.product_id (held l p) (pos 0) s'
unfolding reserve_row
reserve_row-Writes ctx l s s' p h = elim (Bool-cases (can_reserve l.qty p)) [
  | inl t ↦ (
    t,
    written s s' l.product_id (held l p) order_reserve (pos 0) (pos l.qty) ctx none (λ t. t)
        same-Kept (rw t at h),
  )
  | inr t ↦ cc (rw t at h)
]

pub release_row-Writes :
    (ctx : StockContext) (l : StockLine) (s s' : Stock) (p : Product)
    → release_row ctx l s (some p) ≡ ok s'
    → Writes s l.product_id (unheld l p) (pos 0) s'
unfolding release_row
release_row-Writes ctx l s s' p h =
    written s s' l.product_id (unheld l p) order_release (pos 0) (minus l.qty) ctx none (λ t. t)
      same-Kept h

pub release_row_within :
    (ctx : StockContext) (l : StockLine) (s : Stock) (p : Product)
    → within_checks (unheld l p) ≡ true
    → release_row ctx l s (some p)
      ≡ ok (
          log
            (set_product s l.product_id (unheld l p))
            l.product_id
            (unheld l p)
            order_release
            (pos 0)
            (minus l.qty)
            ctx
            none)
unfolding release_row write_product
release_row_within ctx l s p h = rw h refl

pub release_row_absent :
    (ctx : StockContext) (l : StockLine) (s : Stock) → release_row ctx l s none ≡ ok s
unfolding release_row
release_row_absent ctx l s = refl

module _ ⦃dec : Decimal⦄ where
  pub restock_row_absent :
      (ctx : StockContext) (l : StockLine) (s : Stock) → restock_row ctx l s none ≡ ok s
  unfolding restock_row
  restock_row_absent ctx l s = refl

  pub add_batch_row_ne :
      (id qty : ℕ) (cost sale : Option Money) (source : LotSource) (received : Option ℕ)
      (ctx : StockContext) (s s' : Stock)
      → add_batch_row id qty cost sale source received ctx s none ≢ ok s'
  unfolding add_batch_row
  add_batch_row_ne id qty cost sale source received ctx s s' h = cc

  pub set_on_hand_row_ne :
      (id on_hand : ℕ) (type : StockMovementType) (ctx : StockContext) (s s' : Stock)
      → set_on_hand_row id on_hand type ctx s none ≢ ok s'
  unfolding set_on_hand_row
  set_on_hand_row_ne id on_hand type ctx s s' h = cc

  pub set_on_hand_row_same :
      (id on_hand : ℕ) (type : StockMovementType) (ctx : StockContext) (s s' : Stock) (p : Product)
      → (on_hand == p.stock_on_hand) ≡ true
      → set_on_hand_row id on_hand type ctx s (some p) ≡ ok s'
      → s ≡ s'
  unfolding set_on_hand_row
  set_on_hand_row_same id on_hand type ctx s s' p t h = ok-inj (rw t at h)

  pub restock_row-Writes :
      (ctx : StockContext) (l : StockLine) (s s' : Stock) (p : Product)
      → restock_row ctx l s (some p) ≡ ok s'
      → Writes s l.product_id (brought l p) (pos l.qty) s'
  unfolding restock_row
  restock_row-Writes ctx l s s' p h =
      written s s' l.product_id (brought l p) return_restock (pos l.qty) (pos 0) ctx none
        (unconsume l.product_id l.qty ctx) (unconsume-Kept l.product_id l.qty ctx) h

  pub add_batch_row-Writes :
      (id qty : ℕ) (cost sale : Option Money) (source : LotSource) (received : Option ℕ)
      (ctx : StockContext) (s s' : Stock) (p : Product)
      → add_batch_row id qty cost sale source received ctx s (some p) ≡ ok s'
      → Writes s id (with_batch qty p) (pos qty) s'
  unfolding add_batch_row
  add_batch_row-Writes id qty cost sale source received ctx s s' p h =
      let unit_cost = given_or cost p.cost_price in
      let lot = create_lot id source qty unit_cost (given_or sale (some p.price)) received in
      written s s' id (with_batch qty p) purchase_receipt (pos qty) (pos 0) ctx unit_cost
        (λ t. refresh_cost id (lot t)) (λ t. refresh_cost-Kept id (lot t)) h

  -- what the method does after the UPDATE
  abbrev after_sent : StockContext → StockLine → Product → Stock → Stock × List Used
  after_sent ctx l p t =
      consume l.product_id l.qty ctx.order_id
        (log t l.product_id (sent l p) order_fulfill (minus l.qty) (minus l.qty) ctx none)

  abbrev after_consume : StockContext → StockLine → Stock × List Used → Stock
  after_consume ctx l r = stamp ctx.order_id l.product_id r.1 r.0

  abbrev sent_result :
      StockContext
      → StockLine
      → Product
      → List LowStockHit
      → Stock
      → Outcome (Stock × List LowStockHit)
  sent_result ctx l p low t = ok (after_consume ctx l (after_sent ctx l p t), low)

  sent-Writes :
      (ctx : StockContext) (l : StockLine) (s s' : Stock) (low low' : List LowStockHit)
      (p : Product)
      → (write_product s l.product_id (sent l p) >>= sent_result ctx l p low) ≡ ok (s', low')
      → Writes s l.product_id (sent l p) (minus l.qty) s'
  sent-Writes ctx l s s' low low' p h =
      let (t, e, f) =
        >>=-eq-ok (write_product s l.product_id (sent l p)) (sent_result ctx l p low) (s', low')
          h in
      let used : Stock → Stock × List Used = consume l.product_id l.qty ctx.order_id in
      written s s' l.product_id (sent l p) order_fulfill (minus l.qty) (minus l.qty) ctx none
        (λ x. after_consume ctx l (used x))
        (λ x.
          Kept-trans x (used x).0 (after_consume ctx l (used x))
            (consume-Kept l.product_id l.qty ctx.order_id x)
            (stamp-Kept ctx.order_id l.product_id (used x).1 (used x).0))
        (rw e (ap (λ (o : Stock × List LowStockHit). ok o.0) (ok-inj f)))

  pub fulfill_row_ne :
      (ctx : StockContext) (l : StockLine) (r r' : Stock × List LowStockHit)
      → fulfill_row ctx l r none ≢ ok r'
  unfolding fulfill_row
  fulfill_row_ne ctx l r r' h = cc

  pub fulfill_row-Writes :
      (ctx : StockContext) (l : StockLine) (s s' : Stock) (low low' : List LowStockHit)
      (p : Product)
      → fulfill_row ctx l (s, low) (some p) ≡ ok (s', low')
      → (l.qty ≤ p.stock_on_hand) × Writes s l.product_id (sent l p) (minus l.qty) s'
  unfolding fulfill_row
  fulfill_row-Writes ctx l s s' low low' p h =
      elim (Bool-cases (not (p.allow_backorder || leb l.qty p.stock_on_hand))) [
        | inl t ↦ cc (rw t at h)
        | inr t ↦ elim (Bool-cases (ltb p.stock_on_hand l.qty)) [
          | inl u ↦ cc (rw u at (rw t at h))
          | inr u ↦ (ground arith, sent-Writes ctx l s s' _ low' p (rw u at (rw t at h)))
        ]
      ]

  pub set_on_hand_row-Writes :
      (id on_hand : ℕ) (type : StockMovementType) (ctx : StockContext) (s s' : Stock) (p : Product)
      → on_hand ≢ p.stock_on_hand
      → set_on_hand_row id on_hand type ctx s (some p) ≡ ok s'
      → (p.stock_reserved ≤ on_hand)
        × Writes s id (record p { stock_on_hand = on_hand }) (sub_ℕ on_hand p.stock_on_hand) s'
  unfolding set_on_hand_row
  set_on_hand_row-Writes id on_hand type ctx s s' p ne h =
      elim (Bool-cases (on_hand == p.stock_on_hand)) [
        | inl t ↦ absurd (ne (ground arith))
        | inr t ↦ elim (Bool-cases (ltb on_hand p.stock_reserved)) [
          | inl u ↦ cc (rw u at (rw t at h))
          | inr u ↦ (
            ground arith,
            written s s' id (record p { stock_on_hand = on_hand }) type
                (sub_ℕ on_hand p.stock_on_hand) (pos 0) ctx none
                (λ x. refresh_cost id (follow_count id p.stock_on_hand on_hand type p x))
                (λ x.
                  Kept-trans x (follow_count id p.stock_on_hand on_hand type p x)
                    (refresh_cost id (follow_count id p.stock_on_hand on_hand type p x))
                    (follow_count-Kept id p.stock_on_hand on_hand type p x)
                    (refresh_cost-Kept id (follow_count id p.stock_on_hand on_hand type p x)))
                (rw u at (rw t at h)),
          )
        ]
      ]
