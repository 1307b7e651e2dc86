-- ===== src/Orders/Transition/Unshelved.antt =====
-- backend/src/modules/orders/application/order-transition.service.ts: a transition puts no product on the
-- shelf.
use brothers_book_house.Base.{
  Bool-cases, List, [], ap, inl, inr, none, not, refl, some_and, subst, ℕ, ◌==◌, ◌∙◌, ◌∷◌, ◌≡◌,
}
use brothers_book_house.Base.Outcome.{>>=-eq-ok, ok, ok-inj}
use brothers_book_house.Money.{Decimal}
use brothers_book_house.Inventory.{LowStockHit, Stock, StockContext, StockLine}
use brothers_book_house.Inventory.Shelf.{shelf}
use brothers_book_house.Inventory.Steps.{restock_lines}
use brothers_book_house.Inventory.Steps
use brothers_book_house.Inventory.Refines.{fulfill_change, release_change, restock_change}
use brothers_book_house.Orders.Status.{
  StockEffect, TransitionActor, TransitionPlan, fulfil, nothing, plan_transition,
}
use brothers_book_house.Orders.Transition.{
  Applied, Order, TransitionCommand, World, applied, apply_plan, apply_read, apply_stock, book,
  changed, context_of, on_lines, request_of, snapshot_of, stock_effect, stock_lines_of, write_order,
}
use brothers_book_house.Orders.Transition.Units.{write_order_lem}

module _ ⦃dec : Decimal⦄ where
  stock_effect-none :
      (effect : StockEffect) (lines : List StockLine) (ctx : StockContext) (s s' : Stock)
      (low : List LowStockHit) (id : ℕ)
      → stock_effect effect lines ctx s ≡ ok (s', low)
      → shelf s id ≡ none
      → shelf s' id ≡ none
  unfolding stock_effect
  stock_effect-none nothing lines ctx s s' low id h e =
      subst (λ (t : Stock). shelf t id ≡ none)
        (ap (λ (r : Stock × List LowStockHit). r.0) (ok-inj h)) e
  stock_effect-none fulfil lines ctx s s' low id h e =
      fulfill_change lines ctx s s' low id h ∙ rw e refl
  stock_effect-none StockEffect.release lines ctx s s' low id h e =
      let (t, r, f) = >>=-eq-ok (Steps.release lines ctx s) (λ t. ok (t, [])) (s', low) h in
      let same : t ≡ s' = ap (λ (r : Stock × List LowStockHit). r.0) (ok-inj f) in
      release_change lines ctx s s' id (rw same at r) ∙ rw e refl
  stock_effect-none StockEffect.restock lines ctx s s' low id h e =
      let (t, r, f) = >>=-eq-ok (restock_lines lines ctx s) (λ t. ok (t, [])) (s', low) h in
      let same : t ≡ s' = ap (λ (r : Stock × List LowStockHit). r.0) (ok-inj f) in
      restock_change lines ctx s s' id (rw same at r) ∙ rw e refl

  on_lines-none :
      (effect : StockEffect) (lines : List StockLine) (ctx : StockContext) (s s' : Stock)
      (low : List LowStockHit) (id : ℕ)
      → on_lines effect lines ctx s ≡ ok (s', low)
      → shelf s id ≡ none
      → shelf s' id ≡ none
  unfolding on_lines
  on_lines-none effect [] ctx s s' low id h e =
      subst (λ (t : Stock). shelf t id ≡ none)
        (ap (λ (r : Stock × List LowStockHit). r.0) (ok-inj h)) e
  on_lines-none effect (l ∷ ls) ctx s s' low id h e =
      stock_effect-none effect (l ∷ ls) ctx s s' low id h e

  apply_stock-none :
      (o : Order) (plan : TransitionPlan) (actor : TransitionActor) (now : ℕ) (w : World)
      (r : Applied) (id : ℕ)
      → apply_stock o plan actor now w ≡ ok r
      → shelf w.stock id ≡ none
      → shelf r.world.stock id ≡ none
  unfolding apply_stock applied book
  apply_stock-none o plan actor now w r id h e =
      let ((s, low), m, same) =
        >>=-eq-ok (on_lines plan.stock (stock_lines_of o.items) (context_of o) w.stock)
          (λ moved. ok (applied o plan actor now w moved)) r h in
      subst (λ (x : Applied). shelf x.world.stock id ≡ none) (ok-inj same)
        (on_lines-none plan.stock (stock_lines_of o.items) (context_of o) w.stock s low id m e)

  pub apply_read-none :
      (o : Order) (cmd : TransitionCommand) (actor : TransitionActor) (now : ℕ) (w : World)
      (r : Applied) (id : ℕ)
      → apply_read o cmd actor now w ≡ ok r
      → shelf w.stock id ≡ none
      → shelf r.world.stock id ≡ none
  unfolding apply_read apply_plan
  apply_read-none o cmd actor now w r id h none_there =
      elim (Bool-cases (some_and cmd.expected_version (λ v. not (v == o.version)))) [
        | inl t ↦ cc (rw t at h)
        | inr t ↦
            let (plan, p, e) =
              >>=-eq-ok (plan_transition (snapshot_of o) (request_of cmd actor now))
                (apply_plan o cmd actor now w) r (rw t at h) in
            let update = changed o cmd plan now in
            let (w', written, f) =
              >>=-eq-ok (write_order o.version o.id update w)
                (λ w'. apply_stock o plan actor now w') r e in
            let (_, _, _, _, stock) = write_order_lem o.version o.id update w w' written in
            apply_stock-none o plan actor now w' r id f
              (ap (λ (s : Stock). shelf s id) stock ∙ none_there)
      ]
