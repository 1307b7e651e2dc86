-- ===== src/Orders/Life/Moved.antt =====
-- backend/src/modules/orders/application/order-transition.service.ts and order-placement.service.ts: each
-- transaction changes one order, and the reserved units by what this order holds.
use brothers_book_house.Inventory.Lines.{units_of}
use brothers_book_house.Orders.Placement.{
  Priced, line_of, placed_order, redeem_with, take_coupon, with_order, write_placed,
}
use brothers_book_house.Orders.Reopen.{ReopenPlan, ReopenRequest, plan_reopen, plan_reopen_lem}
use brothers_book_house.Orders.Quote.{both, stock_units_from}
use brothers_book_house.Base.{
  Option, Option-cases, [], ap, arith, false, inl, inr, map, map_option, none, refl, some, subst,
  sym, true, ℕ, ◌+◌, ◌==◌, ◌∙◌, ◌≡◌, ◌≤◌,
}
use brothers_book_house.Base.Outcome.{>>=-eq-ok, ok, ok-inj}
use brothers_book_house.Money.{Decimal}
use brothers_book_house.Inventory.Shelf.{Item, shelf}
use brothers_book_house.Inventory.Steps.{reserve}
use brothers_book_house.Inventory.Refines.{hold}
use brothers_book_house.Orders.Status.{PaymentMethod, TransitionActor, is_terminal}
use brothers_book_house.Orders.Transition.{
  Applied, Order, TransitionCommand, World, apply_read, changed, context_of, reopen_read, revived,
  snapshot_of, stock_lines_of,
}
use brothers_book_house.Orders.Transition.Units.{IsConsistent, apply_read-IsCarried}
use brothers_book_house.Orders.Life.{held_units}
use brothers_book_house.Orders.Transition.Unshelved.{apply_read-none}
use brothers_book_house.Orders.Placement.Holds.{write_placed-IsHeld}
use brothers_book_house.Orders.Transition.Others.{apply_read_others}
use brothers_book_house.Orders.Transition.Revive.{reopen_read-IsRevived, revived-IsConsistent}

-- Order `k` changes, and of each product on the shelf the reserved units by what it holds.
pub record Change (k : ℕ) (w w' : World) : Type 0 where
  pub after : Order
  pub found : w'.orders k ≡ some after
  pub numbered : after.id ≡ k
  pub consistent : IsConsistent after
  pub others : (j : ℕ) → j == k ≡ false → w'.orders j ≡ w.orders j
  pub units :
      (id : ℕ) (i' : Item)
      → shelf w'.stock id ≡ some i'
      → (i : Item) × (shelf w.stock id ≡ some i)
        × (held_units id (w.orders k) ≤ i.reserved
            → i'.reserved + held_units id (w.orders k) ≡ i.reserved + held_units id (some after))

-- A product that is held more is on the shelf before as well.
held_before :
    (n : ℕ) (o : Option Item) (i' : Item)
    → map_option (hold n) o ≡ some i'
    → (i : Item) × (o ≡ some i) × (i'.reserved ≡ i.reserved + n)
held_before n none i' h = cc
held_before n (some i) i' h = (i, refl, ground (arith, h))

-- A closed order holds nothing.
closed_not_held :
    (o : Order) → IsConsistent o → is_terminal o.status ≡ true → o.stock_reserved ≡ false
closed_not_held o k t = ground (arith, rw t at k)

plan_reopen_closed :
    (o : Order) (req : ReopenRequest) (plan : ReopenPlan)
    → plan_reopen (snapshot_of o) o.cancelled_from req ≡ ok plan
    → is_terminal o.status ≡ true
plan_reopen_closed o req plan h =
    let l = plan_reopen_lem (snapshot_of o) o.cancelled_from req plan h in
    subst (λ s. is_terminal s ≡ true) l.2 l.1

write_placed_others :
    (p : Priced) (o : Order) (w w' : World) (j : ℕ)
    → j == o.id ≡ false
    → write_placed p o w ≡ ok w'
    → w'.orders j ≡ w.orders j
unfolding write_placed take_coupon with_order
write_placed_others p o w w' j other h =
    let (stock, r, g) =
      >>=-eq-ok (reserve (map line_of p.quote.stock_units) (context_of o) w.stock)
        (take_coupon p o w) w' h in
    let (coupons, c, e) =
      >>=-eq-ok (redeem_with p.coupon_id p.quote.coupon o w.coupons)
        (λ coupons. ok (with_order o w stock coupons)) w' g in
    ap (λ (x : World). x.orders j) (sym (ok-inj e)) ∙ rw other refl

module _ ⦃dec : Decimal⦄ where
  apply_read-units :
      (o : Order) (cmd : TransitionCommand) (actor : TransitionActor) (now : ℕ) (w : World)
      (r : Applied)
      → w.orders o.id ≡ some o
      → IsConsistent o
      → apply_read o cmd actor now w ≡ ok r
      → (id : ℕ) (i' : Item) → shelf r.world.stock id ≡ some i'
      → (i : Item) × (shelf w.stock id ≡ some i)
        × (held_units id (some o) ≤ i.reserved
            → i'.reserved + held_units id (some o)
              ≡ i.reserved + held_units id (some (changed o cmd r.plan now o)))
  unfolding changed
  apply_read-units o cmd actor now w r stored k h id i' found =
      elim (Option-cases (shelf w.stock id)) [
        | inl e ↦ cc (apply_read-none o cmd actor now w r id h e)
        | inr (i, e) ↦
            let (there, consistent, moves) =
              apply_read-IsCarried o o cmd actor now w r stored (λ _. (refl, refl, refl)) k h in
            (
              i,
              e,
              λ enough.
                  let (j, at_shelf, both) = moves id i e (λ t. ground (arith, rw t at enough)) in
                  let same : i' ≡ j = ground (arith, sym found ∙ at_shelf) in rw same both.0,
            )
      ]

  -- A transition, a reopening and a placement are such changes.
  pub apply-Change :
      (ref : ℕ) (o : Order) (cmd : TransitionCommand) (actor : TransitionActor) (now : ℕ)
      (w : World) (r : Applied)
      → w.orders ref ≡ some o
      → o.id ≡ ref
      → IsConsistent o
      → apply_read o cmd actor now w ≡ ok r
      → Change ref w r.world
  unfolding changed
  apply-Change ref o cmd actor now w r found same k h =
      let stored = ap w.orders same ∙ found in
      let (there, consistent, units) =
        apply_read-IsCarried o o cmd actor now w r stored (λ _. (refl, refl, refl)) k h in
      record {
        after = changed o cmd r.plan now o;
        found = ap r.world.orders (sym same) ∙ there;
        numbered = same;
        consistent = consistent;
        others = λ j other. apply_read_others o cmd actor now w r j (rw same other) h;
        units = rw found (apply_read-units o cmd actor now w r stored k h);
      }

pub reopen-Change :
    (ref : ℕ) (o : Order) (req : ReopenRequest) (version : Option ℕ) (now : ℕ) (w w' : World)
    → w.orders ref ≡ some o
    → o.id ≡ ref
    → IsConsistent o
    → reopen_read o req version now w ≡ ok w'
    → Change ref w w'
unfolding revived
reopen-Change ref o req version now w w' found same k h =
    let (plan, p, revival) = reopen_read-IsRevived o req version now w w' h in
    let (there, others, held) = revival in
    let idle : o.stock_reserved ≡ false = closed_not_held o k (plan_reopen_closed o req plan p) in
    record {
      after = revived plan.to now o;
      found =
          ap w'.orders (sym same)
          ∙ there
          ∙ ap (λ (x : Option Order). map_option (revived plan.to now) x)
              (ap w.orders same ∙ found);
      numbered = same;
      consistent = revived-IsConsistent plan.to now o;
      others = λ j other. others j (rw same other);
      units = λ id i' at_shelf.
          let (i, e, more) =
            held_before (units_of id (stock_lines_of o.items)) (shelf w.stock id) i'
              (sym (held id) ∙ at_shelf) in
          (i, e, λ enough. rw found (rw idle (omega (arith, more))));
    }

pub write_placed-Change :
    (p : Priced) (number buyer : ℕ) (method : PaymentMethod) (w w' : World)
    → w.orders number ≡ none
    → p.quote.stock_units ≡ stock_units_from p.quote.lines []
    → write_placed p (placed_order number buyer method p.quote) w ≡ ok w'
    → Change number w w'
write_placed-Change p number buyer method w w' fresh asked h =
    let o : Order = placed_order number buyer method p.quote in
    let (there, consistent, held) = write_placed-IsHeld p number buyer method w w' asked h in
    record {
      after = o;
      found = there;
      numbered = refl;
      consistent = consistent;
      others = λ j other. write_placed_others p o w w' j other h;
      units = λ id i' at_shelf.
          let (i, e, more) =
            held_before (units_of id (stock_lines_of o.items)) (shelf w.stock id) i'
              (sym (held id) ∙ at_shelf) in
          (i, e, λ enough. rw fresh (omega (arith, more)));
    }
