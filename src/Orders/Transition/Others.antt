-- ===== src/Orders/Transition/Others.antt =====
-- backend/src/modules/orders/application/order-transition.service.ts: an order that is written is the only
-- one that changes.
use brothers_book_house.Base.{
  Bool-cases, Option, ap, false, inl, inr, not, refl, some_and, sym, ℕ, ◌==◌, ◌∙◌, ◌≡◌,
}
use brothers_book_house.Base.Outcome.{>>=-eq-ok, ok, ok-inj}
use brothers_book_house.Money.{Decimal}
use brothers_book_house.Orders.Status.{TransitionActor, TransitionPlan, plan_transition}
use brothers_book_house.Orders.Transition.{
  Applied, Order, TransitionCommand, World, applied, apply_plan, apply_read, apply_stock, book,
  changed, context_of, on_lines, request_of, same_version, snapshot_of, stock_lines_of, write_order,
}

pub write_order_others :
    (version ref : ℕ) (update : Order → Order) (w w' : World) (id : ℕ)
    → id == ref ≡ false
    → write_order version ref update w ≡ ok w'
    → w'.orders id ≡ w.orders id
unfolding write_order
write_order_others version ref update w w' id other h =
    elim (Bool-cases (same_version version (w.orders ref))) [
      | inl t ↦ rw (sym (ok-inj (rw t at h))) (rw other refl)
      | inr t ↦ cc (rw t at h)
    ]

module _ ⦃dec : Decimal⦄ where
  apply_stock_orders :
      (o : Order) (plan : TransitionPlan) (actor : TransitionActor) (now : ℕ) (w : World)
      (r : Applied)
      → apply_stock o plan actor now w ≡ ok r
      → r.world.orders ≡ w.orders
  unfolding apply_stock applied book
  apply_stock_orders o plan actor now w r h =
      let (moved, m, same) =
        >>=-eq-ok (on_lines plan.stock (stock_lines_of o.items) (context_of o) w.stock)
          (λ moved. ok (applied o plan actor now w moved)) r h in
      ap (λ (x : Applied). x.world.orders) (sym (ok-inj same))

  pub apply_read_others :
      (o : Order) (cmd : TransitionCommand) (actor : TransitionActor) (now : ℕ) (w : World)
      (r : Applied) (id : ℕ)
      → id == o.id ≡ false
      → apply_read o cmd actor now w ≡ ok r
      → r.world.orders id ≡ w.orders id
  unfolding apply_read apply_plan changed
  apply_read_others o cmd actor now w r id other h =
      elim (Bool-cases (some_and cmd.expected_version (λ v. not (v == o.version)))) [
        | inl t ↦ cc (rw t at h)
        | inr t ↦
            let (plan, p, e) =
              >>=-eq-ok (plan_transition (snapshot_of o) (request_of cmd actor now))
                (apply_plan o cmd actor now w) r (rw t at h) in
            let update = changed o cmd plan now in
            let (w', written, f) =
              >>=-eq-ok (write_order o.version o.id update w)
                (λ w'. apply_stock o plan actor now w') r e in
            ap (λ (os : ℕ → Option Order). os id) (apply_stock_orders o plan actor now w' r f)
            ∙ write_order_others o.version o.id update w w' id other written
      ]
