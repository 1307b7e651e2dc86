-- ===== src/Orders/Placement/Holds.antt =====
-- backend/src/modules/orders/application/order-placement.service.ts: an order that is placed holds the
-- units of its lines.
use brothers_book_house.Base.Outcome.{>>=-eq-ok, ok, ok-inj}
use brothers_book_house.Inventory.Steps.{reserve}
use brothers_book_house.Inventory.Refines.{hold, reserve_change}
use brothers_book_house.Base.{
  List, Option, [], ap, arith, if◌then◌else◌, map, map_option, none, refl, some, subst, sum_by,
  sum_by-append, true, ℕ, ◌++◌, ◌+◌, ◌==◌, ◌∷◌, ◌≡◌,
}
use brothers_book_house.Inventory.{StockLine}
use brothers_book_house.Inventory.Lines.{units_for, units_of}
use brothers_book_house.Inventory.Shelf.{shelf}
use brothers_book_house.Orders.Lines.{LineKind, bundle_line, product_line}
use brothers_book_house.Orders.Quote.{
  QuotedComponent, QuotedLine, StockUnit, add_components, add_own, stock_units_from,
}
use brothers_book_house.Orders.Quote.Units
use brothers_book_house.Orders.Transition.{Order, World, context_of, own_line, stock_lines_of}
use brothers_book_house.Orders.Quote.Units.{units_of-add_components, units_of-add_units}
use brothers_book_house.Orders.Placement.{
  Priced, line_of, order_item_of, placed_order, redeem_with, take_coupon, with_order, write_placed,
}
use brothers_book_house.Orders.Transition.Units.{IsConsistent}
use brothers_book_house.Orders.Status.{PaymentMethod, is_terminal}

units_of-append :
    (id : ℕ) (xs ys : List StockLine) → units_of id (xs ++ ys) ≡ units_of id xs + units_of id ys
units_of-append id xs ys = sum_by-append (units_for id) xs ys

units_of-components :
    (id : ℕ) (cs : List QuotedComponent)
    → units_of id (map (λ c. record { product_id = c.product_id; qty = c.quantity }) cs)
      ≡ sum_by (λ c. if c.product_id == id then c.quantity else 0) cs
units_of-components id [] = refl
units_of-components id (c ∷ cs) = omega (arith, units_of-components id cs)

units_of-own :
    (id : ℕ) (kind : LineKind) (product : Option ℕ) (q : ℕ) (us : List StockUnit)
    → Units.units_of id (add_own kind product q us)
      ≡ Units.units_of id us + units_of id (own_line kind product q)
unfolding add_own
units_of-own id product_line none q us = omega arith
units_of-own id product_line (some p) q us = omega (arith, units_of-add_units id p q us)
units_of-own id bundle_line none q us = omega arith
units_of-own id bundle_line (some p) q us = omega arith

-- The units that a quote asks for are those of the lines of its order.
pub units_of-stock_units_from :
    (id : ℕ) (ls : List QuotedLine) (us : List StockUnit)
    → Units.units_of id (stock_units_from ls us)
      ≡ Units.units_of id us + units_of id (stock_lines_of (map order_item_of ls))
unfolding stock_units_from stock_lines_of
units_of-stock_units_from id [] us = omega arith
units_of-stock_units_from id (l ∷ ls) us =
    let parts : List StockLine =
      map (λ c. record { product_id = c.product_id; qty = c.quantity }) l.components in
    let rest = stock_lines_of (map order_item_of ls) in
    let own = add_own l.kind l.product_id l.quantity us in
    omega (
      arith,
      units_of-stock_units_from id ls (add_components l.components own),
      units_of-add_components id l.components own,
      units_of-own id l.kind l.product_id l.quantity us,
      units_of-append id (own_line l.kind l.product_id l.quantity) (parts ++ rest),
      units_of-append id parts rest,
      units_of-components id l.components,
    )

units_of-line_of :
    (id : ℕ) (us : List StockUnit) → units_of id (map line_of us) ≡ Units.units_of id us
units_of-line_of id [] = refl
units_of-line_of id (u ∷ us) = omega (arith, units_of-line_of id us)

-- What a placed order leaves in the database: it holds the units of its lines.
abbrev pub IsHeld : Order → World → World → Type 0
IsHeld o w w' =
    (w'.orders o.id ≡ some o)
    × IsConsistent o
    × ((id : ℕ)
        → shelf w'.stock id
          ≡ map_option (hold (units_of id (stock_lines_of o.items))) (shelf w.stock id))

module _ (p : Priced) (number buyer : ℕ) (method : PaymentMethod) (w w' : World) where
  -- An order that is written from a quote that asks for the units of its lines is consistent and holds
  -- these units.
  pub write_placed-IsHeld :
      let o = placed_order number buyer method p.quote in
      p.quote.stock_units ≡ stock_units_from p.quote.lines []
      → write_placed p o w ≡ ok w'
      → IsHeld o w w'
  unfolding write_placed take_coupon with_order is_terminal
  write_placed-IsHeld units h =
      let o : Order = placed_order number buyer method p.quote in
      let (stock, r, g) =
        >>=-eq-ok (reserve (map line_of p.quote.stock_units) (context_of o) w.stock)
          (take_coupon p o w) w' h in
      let (coupons, c, e) =
        >>=-eq-ok (redeem_with p.coupon_id p.quote.coupon o w.coupons)
          (λ coupons. ok (with_order o w stock coupons)) w' g in
      let asked : (id : ℕ)
          → units_of id (map line_of p.quote.stock_units) ≡ units_of id (stock_lines_of o.items) =
        λ id. omega (
          arith,
          units_of-line_of id p.quote.stock_units,
          ap (Units.units_of id) units,
          units_of-stock_units_from id p.quote.lines [],
        ) in
      let self : number == number ≡ true = ground arith in
      subst (IsHeld o w) (ok-inj e) (
        rw self refl,
        refl,
        λ id.
            subst (λ (n : ℕ). shelf stock id ≡ map_option (hold n) (shelf w.stock id)) (asked id)
              (reserve_change (map line_of p.quote.stock_units) (context_of o) w.stock stock id r),
      )
