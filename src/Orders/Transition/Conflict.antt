-- ===== src/Orders/Transition/Conflict.antt =====
-- backend/src/modules/orders/application/order-transition.service.ts: of two that read the same order,
-- only one writes it.
use Prim.Native.String.{String}
use brothers_book_house.Orders.Transition.Units.{write_order_lem}
use brothers_book_house.Money.{Decimal}
use brothers_book_house.Orders.Status.{TransitionActor, TransitionPlan, plan_transition}
use brothers_book_house.Base.Outcome.{>>=-eq-ok, Outcome-cases, fail, ok, ok-inj}
use brothers_book_house.Base.{
  Bool-cases, Option, ap, arith, false, inl, inr, not, refl, some, some_and, subst, ℕ, ◌+◌, ◌==◌,
  ◌≡◌, ◌⊎◌,
}
use brothers_book_house.Orders.Transition.{
  Applied, Order, TransitionCommand, World, applied, apply_plan, apply_read, apply_stock, book,
  changed, context_of, on_lines, request_of, same_version, snapshot_of, stock_lines_of, write_order,
}

-- The order, once it is written: it is the next version of what was read.
abbrev pub IsNext : Order → Option Order → Type 0
IsNext o cur = (o' : Order) × (cur ≡ some o') × (o'.version ≡ o.version + 1)

not_same_version :
    (o : Order) (cur : Option Order) → IsNext o cur → same_version o.version cur ≡ false
not_same_version o cur (o', found, v) = rw found (ground (arith, v))

module _ ⦃dec : Decimal⦄ where
  apply_stock-IsNext :
      (o : Order) (plan : TransitionPlan) (actor : TransitionActor) (now : ℕ) (w : World)
      (r : Applied)
      → IsNext o (w.orders o.id)
      → apply_stock o plan actor now w ≡ ok r
      → IsNext o (r.world.orders o.id)
  unfolding apply_stock applied book
  apply_stock-IsNext o plan actor now w r k h =
      let (moved, m, same) =
        >>=-eq-ok (on_lines plan.stock (stock_lines_of o.items) (context_of o) w.stock)
          (λ moved. ok (applied o plan actor now w moved)) r h in
      subst (λ (x : Applied). IsNext o (x.world.orders o.id)) (ok-inj same) k

  apply_read-IsNext :
      (o : Order) (cmd : TransitionCommand) (actor : TransitionActor) (now : ℕ) (w : World)
      (r : Applied)
      → apply_read o cmd actor now w ≡ ok r
      → IsNext o (r.world.orders o.id)
  unfolding apply_read apply_plan changed
  apply_read-IsNext o cmd actor now w r h =
      elim (Bool-cases (some_and cmd.expected_version (λ v. not (v == o.version)))) [
        | inl t ↦ cc (rw t at h)
        | inr t ↦
            let (plan, p, e) =
              >>=-eq-ok (plan_transition (snapshot_of o) (request_of cmd actor now))
                (apply_plan o cmd actor now w) r (rw t at h) in
            let update = changed o cmd plan now in
            let (w', written, f) =
              >>=-eq-ok (write_order o.version o.id update w)
                (λ w'. apply_stock o plan actor now w') r e in
            let (row, _, version, there, _) = write_order_lem o.version o.id update w w' written in
            apply_stock-IsNext o plan actor now w' r (update row, there, ap (λ n. n + 1) version) f
      ]

  write_order-eq-fail :
      (o : Order) (update : Order → Order) (w : World)
      → same_version o.version (w.orders o.id) ≡ false
      → write_order o.version o.id update w ≡ fail "order.version_conflict"
  unfolding write_order
  write_order-eq-fail o update w h = rw h refl

  apply_plan-eq-fail :
      (o : Order) (cmd : TransitionCommand) (actor : TransitionActor) (now : ℕ) (w : World)
      (plan : TransitionPlan)
      → same_version o.version (w.orders o.id) ≡ false
      → apply_plan o cmd actor now w plan ≡ fail "order.version_conflict"
  unfolding apply_plan changed
  apply_plan-eq-fail o cmd actor now w plan h =
      rw (write_order-eq-fail o (changed o cmd plan now) w h) refl

  -- An order that one transaction read and moved: another that read the same order is refused with a
  -- version conflict, whatever it asks for, unless its own request is not a legal move anyway, and
  -- then with the code of that.
  pub apply_read_twice :
      (o : Order) (cmd cmd' : TransitionCommand) (actor actor' : TransitionActor) (now now' : ℕ)
      (w : World) (r : Applied)
      → apply_read o cmd actor now w ≡ ok r
      → (apply_read o cmd' actor' now' r.world ≡ fail "order.version_conflict")
        ⊎ ((code : String) × (plan_transition (snapshot_of o) (request_of cmd' actor' now')
              ≡ fail code)
            × (apply_read o cmd' actor' now' r.world ≡ fail code))
  unfolding apply_read
  apply_read_twice o cmd cmd' actor actor' now now' w r h =
      let late =
        not_same_version o (r.world.orders o.id) (apply_read-IsNext o cmd actor now w r h) in
      elim (Bool-cases (some_and cmd'.expected_version (λ v. not (v == o.version)))) [
        | inl t ↦ inl (rw t refl)
        | inr t ↦
            elim (Outcome-cases (plan_transition (snapshot_of o) (request_of cmd' actor' now'))) [
              | inl (plan, p) ↦
                  inl (rw t (rw p (apply_plan-eq-fail o cmd' actor' now' r.world plan late)))
              | inr (code, p) ↦ inr (code, p, rw t (rw p refl))
            ]
      ]
