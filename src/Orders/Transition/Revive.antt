-- ===== src/Orders/Transition/Revive.antt =====
-- backend/src/modules/orders/application/order-transition.service.ts: an order that is brought back holds
-- its units again.
use brothers_book_house.Base.{
  Bool-cases, List, Option, [], ap, arith, false, inl, inr, map_option, none, not, refl, some,
  some_and, subst, sym, ℕ, ◌==◌, ◌∙◌, ◌∷◌, ◌≡◌,
}
use brothers_book_house.Base.Outcome.{>>=-eq-ok, ok, ok-inj}
use brothers_book_house.Inventory.{Stock, StockContext, StockLine}
use brothers_book_house.Inventory.Lines.{units_of}
use brothers_book_house.Inventory.Refines.{hold, reserve_change}
use brothers_book_house.Inventory.Shelf.{Item, shelf}
use brothers_book_house.Orders.Status.{is_terminal}
use brothers_book_house.Orders.Reopen.{
  ReopenPlan, ReopenRequest, ReopenTarget, plan_reopen, to_confirmed, to_pending,
}
use brothers_book_house.Orders.Transition.{
  Order, World, book_reopen, context_of, reopen_plan, reopen_read, reopen_stock, reserve_lines,
  revived, snapshot_of, stock_lines_of, write_order,
}
use brothers_book_house.Orders.Transition.Units.{IsConsistent, write_order_lem}
use brothers_book_house.Orders.Transition.Others.{write_order_others}

hold_nothing : (o : Option Item) → o ≡ map_option (hold 0) o
hold_nothing none = refl
hold_nothing (some i) = ground arith

reserve_lines_change :
    (lines : List StockLine) (ctx : StockContext) (s s' : Stock) (id : ℕ)
    → reserve_lines lines ctx s ≡ ok s'
    → shelf s' id ≡ map_option (hold (units_of id lines)) (shelf s id)
reserve_lines_change [] ctx s s' id h =
    subst (λ (t : Stock). shelf t id ≡ map_option (hold 0) (shelf s id)) (ok-inj h)
      (hold_nothing (shelf s id))
reserve_lines_change (l ∷ ls) ctx s s' id h = reserve_change (l ∷ ls) ctx s s' id h

pub revived-IsConsistent :
    (to : ReopenTarget) (now : ℕ) (row : Order) → IsConsistent (revived to now row)
unfolding revived is_terminal
revived-IsConsistent to_pending now row = refl
revived-IsConsistent to_confirmed now row = refl

-- An order that is brought back is in the target state, consistent, and holds the units of its lines
-- again: of each product on the shelf they are reserved more than before; no other order changes.
abbrev pub IsRevived : Order → ReopenTarget → ℕ → World → World → Type 0
IsRevived o to now w w' =
    (w'.orders o.id ≡ map_option (revived to now) (w.orders o.id))
    × ((id : ℕ) → id == o.id ≡ false → w'.orders id ≡ w.orders id)
    × ((id : ℕ)
        → shelf w'.stock id
          ≡ map_option (hold (units_of id (stock_lines_of o.items))) (shelf w.stock id))

pub reopen_read-IsRevived :
    (o : Order) (req : ReopenRequest) (version : Option ℕ) (now : ℕ) (w w' : World)
    → reopen_read o req version now w ≡ ok w'
    → (plan : ReopenPlan) × (plan_reopen (snapshot_of o) o.cancelled_from req ≡ ok plan)
      × IsRevived o plan.to now w w'
unfolding reopen_read reopen_plan reopen_stock book_reopen revived
reopen_read-IsRevived o req version now w w' h =
    elim (Bool-cases (some_and version (λ v. not (v == o.version)))) [
      | inl t ↦ cc (rw t at h)
      | inr t ↦
          let (plan, p, e) =
            >>=-eq-ok (plan_reopen (snapshot_of o) o.cancelled_from req) (reopen_plan o req now w)
              w' (rw t at h) in
          let update = revived plan.to now in
          let (m, written, f) =
            >>=-eq-ok (write_order o.version o.id update w) (reopen_stock o req plan) w' e in
          let (s, r, g) =
            >>=-eq-ok (reserve_lines (stock_lines_of o.items) (context_of o) m.stock)
              (λ s. ok (book_reopen o plan req.actor (record m { stock = s }))) w' f in
          let (row, stored, _, there, stock) = write_order_lem o.version o.id update w m written in
          let revives : IsRevived o plan.to now w
              (book_reopen o plan req.actor (record m { stock = s })) =
            (
              there ∙ ap (λ (x : Option Order). map_option update x) (sym stored),
              λ id other. write_order_others o.version o.id update w m id other written,
              λ id.
                  subst
                    (λ (x : Stock).
                      shelf s id
                      ≡ map_option (hold (units_of id (stock_lines_of o.items))) (shelf x id))
                    stock
                    (reserve_lines_change (stock_lines_of o.items) (context_of o) m.stock s id r),
            ) in
          (plan, p, subst (IsRevived o plan.to now w) (ok-inj g) revives)
    ]
