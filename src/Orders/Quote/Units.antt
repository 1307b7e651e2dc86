-- ===== src/Orders/Quote/Units.antt =====
-- What a quote of backend/src/modules/orders/pricing/domain/quote-calculator.ts holds of each product,
-- and how the price of a bundle is split.
use brothers_book_house.Base.{
  All, Bool, List, [], arith, if◌then◌else◌, length, length-map, map, refl, sum, sum_by, ℕ, ◌*◌,
  ◌+◌, ◌-◌, ◌==◌, ◌∙◌, ◌∷◌, ◌≡◌, ◌≢◌, ◌≤◌,
}
use brothers_book_house.Money.{Decimal, Money}
use brothers_book_house.Money.Allocate.Exact.{length-allocate, sum-allocate}
use brothers_book_house.Orders.Quote.{
  Component, QuoteInput, QuoteLineInput, QuotedComponent, QuotedLine, StockUnit, add_components,
  add_own, add_units, calculate_quote, coupon_effect, gross_of, of_bundle, of_product,
  quoted_components, quoted_line, quoted_lines, shares_of, stock_units_from,
}
use brothers_book_house.Orders.Quote.Totals.{Fits, Fits-tail, coupon_effect-Fits}

-- The units of a product in a list of units.
abbrev pub units_of : ℕ → List StockUnit → ℕ
units_of p us = sum_by (λ u. if u.product_id == p then u.qty else 0) us

-- The units of a product that a line of the cart needs, bundles expanded.
abbrev pub need_of : ℕ → QuoteLineInput → ℕ
need_of p (of_product product q) = if product.id == p then q else 0
need_of p (of_bundle b q) =
    sum_by (λ c. if c.product.id == p then c.quantity * q else 0) b.components

pub units_of-add_units :
    (p id q : ℕ) (us : List StockUnit)
    → units_of p (add_units id q us) ≡ units_of p us + (if id == p then q else 0)
unfolding add_units
units_of-add_units p id q [] = ground arith
units_of-add_units p id q (u ∷ us) = ground (arith, units_of-add_units p id q us)

pub units_of-add_components :
    (p : ℕ) (cs : List QuotedComponent) (us : List StockUnit)
    → units_of p (add_components cs us)
      ≡ units_of p us + sum_by (λ c. if c.product_id == p then c.quantity else 0) cs
unfolding add_components
units_of-add_components p [] us = omega arith
units_of-add_components p (c ∷ cs) us = omega (
  arith,
  units_of-add_components p cs (add_units c.product_id c.quantity us),
  units_of-add_units p c.product_id c.quantity us,
)

module _ ⦃dec : Decimal⦄ where
  length-shares_of : (net : Money) (cs : List Component) → length (shares_of net cs) ≡ length cs
  unfolding shares_of
  length-shares_of net cs =
      length-allocate net (map (λ c. c.product.list_price * c.quantity) cs)
      ∙ length-map (λ (c : Component). c.product.list_price * c.quantity) cs

  units-quoted_components :
      (p q : ℕ) (cs : List Component) (ss : List Money)
      → length ss ≡ length cs
      → sum_by (λ c. if c.product_id == p then c.quantity else 0) (quoted_components q cs ss)
        ≡ sum_by (λ c. if c.product.id == p then c.quantity * q else 0) cs
  unfolding quoted_components
  units-quoted_components p q [] ss h = refl
  units-quoted_components p q (c ∷ cs) [] h = absurd (omega arith)
  units-quoted_components p q (c ∷ cs) (s ∷ ss) h =
      ground (arith, units-quoted_components p q cs ss)

  -- the units that one line adds
  units-quoted_line :
      (p : ℕ) (l : QuoteLineInput) (d : Money) (e : Bool) (us : List StockUnit)
      → let q = quoted_line l d e in
        units_of p (add_components q.components (add_own q.kind q.product_id q.quantity us))
        ≡ units_of p us + need_of p l
  unfolding quoted_line add_own
  units-quoted_line p (of_product product q) d e us =
      units_of-add_components p [] (add_units product.id q us)
      ∙ omega (arith, units_of-add_units p product.id q us)
  units-quoted_line p (of_bundle b q) d e us =
      let shares = shares_of (b.unit_price * q - d) b.components in
      omega (
        arith,
        units_of-add_components p (quoted_components q b.components shares) us,
        units-quoted_components p q b.components shares
            (length-shares_of (b.unit_price * q - d) b.components),
      )

  units-quoted_lines :
      (p : ℕ) (ls : List QuoteLineInput) (ds : List Money) (es : List Bool) (us : List StockUnit)
      → Fits ls ds es
      → units_of p (stock_units_from (quoted_lines ls ds es) us)
        ≡ units_of p us + sum_by (need_of p) ls
  unfolding quoted_lines stock_units_from
  units-quoted_lines p [] [] es us f = omega arith
  units-quoted_lines p [] (d ∷ ds) es us f = absurd (omega (arith, f.as_many))
  units-quoted_lines p (l ∷ ls) [] es us f = absurd (omega (arith, f.as_many))
  units-quoted_lines p (l ∷ ls) (d ∷ ds) [] us f = absurd (omega (arith, f.flags))
  units-quoted_lines p (l ∷ ls) (d ∷ ds) (e ∷ es) us f =
      let q = quoted_line l d e in
      let next = add_components q.components (add_own q.kind q.product_id q.quantity us) in
      omega (arith, units-quoted_lines p ls ds es next (Fits-tail f), units-quoted_line p l d e us)

  -- The units to be reserved of each product are those that the lines need, bundles expanded.
  pub calculate_quote_units :
      (input : QuoteInput) (p : ℕ)
      → units_of p (calculate_quote input).stock_units ≡ sum_by (need_of p) input.lines
  unfolding calculate_quote
  calculate_quote_units input p =
      let e = coupon_effect input input.coupon in
      omega (
        arith,
        units-quoted_lines p input.lines e.allocations e.eligible []
            (coupon_effect-Fits input input.coupon).0,
      )

  sum-shares_of : (net : Money) (cs : List Component) → cs ≢ [] → sum (shares_of net cs) ≡ net
  unfolding shares_of
  sum-shares_of net [] h = absurd (h refl)
  sum-shares_of net (c ∷ cs) h =
      sum-allocate net (map (λ c. c.product.list_price * c.quantity) (c ∷ cs)) (λ e. cc)

  sum-quoted_components :
      (q : ℕ) (cs : List Component) (ss : List Money)
      → length ss ≡ length cs
      → sum_by (λ c. c.allocated_revenue) (quoted_components q cs ss) ≡ sum ss
  unfolding quoted_components
  sum-quoted_components q [] [] h = refl
  sum-quoted_components q [] (s ∷ ss) h = absurd (omega arith)
  sum-quoted_components q (c ∷ cs) [] h = absurd (omega arith)
  sum-quoted_components q (c ∷ cs) (s ∷ ss) h = omega (arith, sum-quoted_components q cs ss)

  -- The revenue of the parts of a bundle line is what the line brings in before tax.
  abbrev pub IsSplit : QuotedLine → Type 0
  IsSplit l =
      l.components ≢ [] → sum_by (λ c. c.allocated_revenue) l.components + l.discount ≡ l.gross

  quoted_line-IsSplit :
      (l : QuoteLineInput) (d : Money) (e : Bool) → d ≤ gross_of l → IsSplit (quoted_line l d e)
  unfolding quoted_line
  quoted_line-IsSplit (of_product p q) d e h n = absurd (n refl)
  quoted_line-IsSplit (of_bundle b q) d e h n =
      let net = b.unit_price * q - d in
      let shared : sum (shares_of net b.components) ≡ net =
        sum-shares_of net b.components (λ z. n (empty b.components z)) in
      omega (
        arith,
        sum-quoted_components q b.components (shares_of net b.components)
            (length-shares_of net b.components),
      )
    where
      empty :
          (cs : List Component)
          → cs ≡ []
          → quoted_components q cs (shares_of (b.unit_price * q - d) cs) ≡ []
      empty [] z = unfold quoted_components in refl
      empty (c ∷ cs) z = cc

  quoted_lines-IsSplit :
      (ls : List QuoteLineInput) (ds : List Money) (es : List Bool)
      → Fits ls ds es
      → All IsSplit (quoted_lines ls ds es)
  unfolding quoted_lines
  quoted_lines-IsSplit [] ds es f = tt
  quoted_lines-IsSplit (l ∷ ls) [] es f = tt
  quoted_lines-IsSplit (l ∷ ls) (d ∷ ds) [] f = tt
  quoted_lines-IsSplit (l ∷ ls) (d ∷ ds) (e ∷ es) f =
      (quoted_line-IsSplit l d e (f.below 0), quoted_lines-IsSplit ls ds es (Fits-tail f))

  -- In every bundle line of a quote the revenues of the parts and the discount add up to the gross.
  pub calculate_quote-IsSplit : (input : QuoteInput) → All IsSplit (calculate_quote input).lines
  unfolding calculate_quote
  calculate_quote-IsSplit input =
      let e = coupon_effect input input.coupon in
      quoted_lines-IsSplit input.lines e.allocations e.eligible
        (coupon_effect-Fits input input.coupon).0
