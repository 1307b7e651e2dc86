-- ===== src/Orders/Placement/Written.antt =====
-- backend/src/modules/orders/application/order-placement.service.ts: the order that a placement writes.
use brothers_book_house.Inventory.Refines.{hold}
use brothers_book_house.Inventory.Lines.{units_of}
use brothers_book_house.Money.{Decimal}
use brothers_book_house.Inventory.Shelf.{Item, shelf}
use brothers_book_house.Orders.Quote.{Quote, QuoteInput, calculate_quote, stock_units_from}
use brothers_book_house.Orders.Transition.{Order, World, stock_lines_of}
use brothers_book_house.Orders.Transition.Units.{IsConsistent}
use brothers_book_house.Orders.Quote.Units.{calculate_quote_units, need_of}
use brothers_book_house.Orders.Idempotency.{Prepared}
use brothers_book_house.Base.{
  Bool-cases, Option, Option-cases, [], ap, arith, false, inl, inr, is_empty, is_some, map, none,
  not, refl, some, subst, sum_by, sym, true, ℕ, ◌&&◌, ◌+◌, ◌∙◌, ◌≡◌,
}
use brothers_book_house.Base.Outcome.{>>=-eq-ok, ok, ok-inj}
use brothers_book_house.Orders.Status.{PaymentMethod}
use brothers_book_house.Orders.Placement.{
  Found, PlacedOrder, Priced, Shop, accepted, check_priced, is_cod, order_item_of, place_in_tx,
  placed_order, write_placed,
}
use brothers_book_house.Orders.Quote.Units
use brothers_book_house.Orders.Placement.Committed.{place_in_tx-Committed}
use brothers_book_house.Orders.Placement.Holds.{units_of-stock_units_from, write_placed-IsHeld}

check_priced_lem :
    (method : PaymentMethod) (p r : Priced)
    → check_priced method p ≡ ok r
    → (p ≡ r)
      × (p.quote.coupon_rejection ≡ none)
      × (is_some p.quote.shipping_fee ≡ true)
      × (is_empty p.quote.lines ≡ false)
unfolding check_priced
check_priced_lem method p r h = elim (Option-cases p.quote.coupon_rejection) [
  | inr (code, e) ↦ cc (rw e at h)
  | inl e ↦ let g = rw e at h in (ground (arith, g), e, ground (arith, g), ground (arith, g))
]

accepted_lem :
    (method : PaymentMethod) (found : Found) (r : Priced)
    → accepted method found ≡ ok r
    → (is_some found.phone ≡ true)
      × (found.is_blocked && is_cod method ≡ false)
      × (found.priced ≡ ok r)
      × (r.quote.coupon_rejection ≡ none)
      × (is_some r.quote.shipping_fee ≡ true)
      × (is_empty r.quote.lines ≡ false)
unfolding accepted
accepted_lem method found r h = elim (Bool-cases (not (is_some found.phone))) [
  | inl t ↦ cc (rw t at h)
  | inr t ↦ elim (Bool-cases (found.is_blocked && is_cod method)) [
    | inl b ↦ cc (rw b at (rw t at h))
    | inr b ↦
        let (p, e, c) = >>=-eq-ok found.priced (check_priced method) r (rw b at (rw t at h)) in
        let (same, a, f, l) = check_priced_lem method p r c in
        (
          ground arith,
          b,
          e ∙ ap (λ (x : Priced). ok x) same,
          rw (sym same) a,
          rw (sym same) f,
          rw (sym same) l,
        )
  ]
]

-- What holds of the shop after an order was placed from a quote of some lines.
abbrev pub IsPlaced : Order → Quote → (ℕ → ℕ) → World → World → Type 0
IsPlaced o q needs w w' =
    (w'.orders o.id ≡ some o)
    × IsConsistent o
    × (is_empty q.lines ≡ false)
    × (q.coupon_rejection ≡ none)
    × (is_some q.shipping_fee ≡ true)
    × ((id : ℕ) (i : Item)
        → shelf w.stock id ≡ some i
        → shelf w'.stock id ≡ some (record i { reserved = i.reserved + needs id }))

calculate_quote-stock_units :
    ⦃dec : Decimal⦄ (input : QuoteInput)
    → (calculate_quote input).stock_units ≡ stock_units_from (calculate_quote input).lines []
unfolding calculate_quote
calculate_quote-stock_units input = refl

-- The lines of the order of a quote need what the lines of the cart need.
quote_needs :
    ⦃dec : Decimal⦄ (input : QuoteInput) (id : ℕ)
    → units_of id (stock_lines_of (map order_item_of (calculate_quote input).lines))
      ≡ sum_by (need_of id) input.lines
quote_needs input id = omega (
  arith,
  calculate_quote_units input id,
  ap (Units.units_of id) (calculate_quote-stock_units input),
  units_of-stock_units_from id (calculate_quote input).lines [],
)

module _ ⦃dec : Decimal⦄ (input : QuoteInput) (coupon : Option ℕ) (found : Found) where
  -- A placement that commits from the quote of some lines, at a known phone number and not against
  -- delivery for a blocked customer, writes the consistent order of the quote under the next
  -- number; the quote has lines and a delivery fee and its coupon was not refused; and of each
  -- product on the shelf the units that the lines need, bundles expanded, are reserved more than
  -- before, and all else of it is as before.
  pub place_in_tx-IsPlaced :
      (method : PaymentMethod) (idem : Option Prepared) (now : ℕ) (shop shop' : Shop)
      (body : PlacedOrder)
      → found.priced ≡ ok (record { quote = calculate_quote input; coupon_id = coupon })
      → place_in_tx method found idem now shop ≡ ok (shop', body)
      → let q = calculate_quote input in
        (is_some found.phone ≡ true)
        × (found.is_blocked && is_cod method ≡ false)
        × (body.id ≡ shop.next_order)
        × (shop'.next_order ≡ shop.next_order + 1)
        × IsPlaced
            (placed_order shop.next_order found.customer_id method q)
            q
            (λ id. sum_by (need_of id) input.lines)
            shop.world
            shop'.world
  place_in_tx-IsPlaced method idem now shop shop' body quoted h =
      let q = calculate_quote input in
      let t = place_in_tx-Committed method found idem now shop shop' body h in
      let (phone, blocked, e, rejection, fee, lines) =
        accepted_lem method found t.priced t.is_accepted in
      let same : t.priced ≡ record { quote = q; coupon_id = coupon } = ok-inj (sym e ∙ quoted) in
      let written =
        subst
          (λ (p : Priced).
            write_placed p (placed_order shop.next_order found.customer_id method p.quote)
              shop.world
            ≡ ok shop'.world)
          same t.is_written in
      let (there, consistent, held) =
        write_placed-IsHeld (record { quote = q; coupon_id = coupon }) shop.next_order
          found.customer_id method shop.world shop'.world (calculate_quote-stock_units input)
          written in
      let placed : IsPlaced (placed_order shop.next_order found.customer_id method q) q
          (λ id. sum_by (need_of id) input.lines) shop.world shop'.world =
        (
          there,
          consistent,
          subst (λ (p : Priced). is_empty p.quote.lines ≡ false) same lines,
          subst (λ (p : Priced). p.quote.coupon_rejection ≡ none) same rejection,
          subst (λ (p : Priced). is_some p.quote.shipping_fee ≡ true) same fee,
          λ id i at_shelf.
              held id ∙ rw at_shelf (ap (λ (n : ℕ). some (hold n i)) (quote_needs input id)),
        ) in
      (phone, blocked, ap (λ (b : PlacedOrder). b.id) (sym t.is_body), t.is_counted, placed)
