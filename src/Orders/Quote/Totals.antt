-- ===== src/Orders/Quote/Totals.antt =====
-- The totals of `calculateQuote` in backend/src/modules/orders/pricing/domain/quote-calculator.ts.
use Prim.Native.String.{String}
use brothers_book_house.Base.{
  Bool, Bool-cases, List, Option, [], ap, arith, false, get_or, if◌then◌else◌, inl, inr, is_empty,
  length, length-map, map, map_option, none, refl, some, suc, sum, sum_by, zero, ℕ, ◌+◌, ◌∙◌, ◌∷◌,
  ◌≡◌, ◌≤◌,
}
use brothers_book_house.Money.{Decimal, Money}
use brothers_book_house.Money.Allocate.Bounds.{Below, nth-zeros}
use brothers_book_house.Orders.Coupon.{
  CouponApplied, CouponRule, CouponUsage, evaluate_coupon, line_eligible,
}
use brothers_book_house.Orders.Quote.{
  QuoteInput, QuoteLineInput, calculate_quote, coupon_effect, effect_of, gross_of, no_effect,
  of_bundle, of_product, quoted_line, quoted_lines, to_coupon_line,
}
use brothers_book_house.Money.Allocate.Exact.{sum-zeros}
use brothers_book_house.Base.Outcome.{Outcome-cases, ok}
use brothers_book_house.Orders.Coupon.Evaluate.{eligible_of_ok, evaluate_coupon_exact}

-- Discounts that fit: one for each line, none above the gross of its line.
pub record Fits (ls : List QuoteLineInput) (ds : List Money) (es : List Bool) : Type 0 where
  pub below : Below ds (map gross_of ls)
  pub as_many : length ds ≡ length ls
  pub flags : length es ≡ length ls

pub Fits-tail :
    {l : QuoteLineInput} {ls : List QuoteLineInput} {d : Money} {ds : List Money} {e : Bool}
    {es : List Bool}
    → Fits (l ∷ ls) (d ∷ ds) (e ∷ es)
    → Fits ls ds es
Fits-tail f = record { below = λ i. f.below (suc i); as_many = omega arith; flags = omega arith }

module _ ⦃dec : Decimal⦄ where
  quoted_line_parts :
      (l : QuoteLineInput) (d : Money) (e : Bool)
      → d ≤ gross_of l
      → let q = quoted_line l d e in
        (q.gross ≡ gross_of l) × (q.discount ≡ d) × (q.line_total + d ≡ q.gross + q.tax_amount)
  unfolding quoted_line
  quoted_line_parts (of_product p q) d e h = (refl, refl, omega arith)
  quoted_line_parts (of_bundle b q) d e h = (refl, refl, omega arith)

  quoted_lines_sums :
      (ls : List QuoteLineInput) (ds : List Money) (es : List Bool)
      → Fits ls ds es
      → let qs = quoted_lines ls ds es in
        (sum_by (λ l. l.gross) qs ≡ sum (map gross_of ls))
        × (sum_by (λ l. l.discount) qs ≡ sum ds)
        × (sum_by (λ l. l.line_total) qs + sum ds
            ≡ sum (map gross_of ls) + sum_by (λ l. l.tax_amount) qs)
        × (sum ds ≤ sum (map gross_of ls))
  unfolding quoted_lines
  quoted_lines_sums [] [] es f = omega arith
  quoted_lines_sums [] (d ∷ ds) es f = absurd (omega (arith, f.as_many))
  quoted_lines_sums (l ∷ ls) [] es f = absurd (omega (arith, f.as_many))
  quoted_lines_sums (l ∷ ls) (d ∷ ds) [] f = absurd (omega (arith, f.flags))
  quoted_lines_sums (l ∷ ls) (d ∷ ds) (e ∷ es) f =
      let first : d ≤ gross_of l = f.below 0 in
      omega (arith, quoted_lines_sums ls ds es (Fits-tail f), quoted_line_parts l d e first)

  weights-below :
      (rule : CouponRule) (ls : List QuoteLineInput)
      → Below
          (map (λ l. if line_eligible rule l then l.gross else 0) (map to_coupon_line ls))
          (map gross_of ls)
  unfolding to_coupon_line
  weights-below rule [] i = omega arith
  weights-below rule (of_product p q ∷ ls) zero = ground arith
  weights-below rule (of_bundle b q ∷ ls) zero = ground arith
  weights-below rule (l ∷ ls) (suc i) = weights-below rule ls i

  no_effect-Fits :
      (r : Option String) (ls : List QuoteLineInput)
      → Fits ls (no_effect r ls).allocations (no_effect r ls).eligible
  unfolding no_effect
  no_effect-Fits r ls = record {
    below = λ i. omega (arith, nth-zeros ls i);
    as_many = length-map {0, 0} {B = ℕ} (λ _. 0) ls;
    flags = length-map {0, 0} (λ _. false) ls;
  }

  Below_trans : (a b c : List Money) → Below a b → Below b c → Below a c
  Below_trans a b c p q i = omega (arith, p i, q i)

  effect_of-Fits :
      (rule : CouponRule) (usage : CouponUsage) (now : ℕ) (ls : List QuoteLineInput)
      → let e = effect_of ls (evaluate_coupon rule (map to_coupon_line ls) usage now) in
        Fits ls e.allocations e.eligible
        × (sum e.allocations ≡ get_or (map_option (λ c. c.discount) e.coupon) 0)
  unfolding effect_of
  effect_of-Fits rule usage now ls =
      elim (Outcome-cases (evaluate_coupon rule (map to_coupon_line ls) usage now)) [
        | inl (a, e) ↦ rw e (accepted a e)
        | inr (c, e) ↦ rw e (no_effect-Fits (some c) ls, unfold no_effect in sum-zeros ls)
      ]
    where
      accepted :
          (a : CouponApplied)
          → evaluate_coupon rule (map to_coupon_line ls) usage now ≡ ok a
          → Fits ls a.allocations a.eligible × (sum a.allocations ≡ a.discount)
      accepted a e =
          let (total, _, _, below, as_many) =
            evaluate_coupon_exact rule (map to_coupon_line ls) usage now e in
          let flags = eligible_of_ok rule (map to_coupon_line ls) usage now e in
          (
            record {
              below =
                  Below_trans a.allocations
                    (map (λ l. if line_eligible rule l then l.gross else 0) (map to_coupon_line ls))
                    (map gross_of ls) below (weights-below rule ls);
              as_many = as_many ∙ length-map to_coupon_line ls;
              flags =
                  ap length flags
                  ∙ length-map (line_eligible rule) (map to_coupon_line ls)
                  ∙ length-map to_coupon_line ls;
            },
            total,
          )

  pub coupon_effect-Fits :
      (input : QuoteInput) (c : Option (CouponRule × CouponUsage))
      → let e = coupon_effect input c in
        Fits input.lines e.allocations e.eligible
        × (sum e.allocations ≡ get_or (map_option (λ c. c.discount) e.coupon) 0)
  unfolding coupon_effect
  coupon_effect-Fits input none =
      (no_effect-Fits none input.lines, unfold no_effect in sum-zeros input.lines)
  coupon_effect-Fits input (some (rule, usage)) = elim (Bool-cases (is_empty input.lines)) [
    | inl e ↦ rw e (no_effect-Fits none input.lines, unfold no_effect in sum-zeros input.lines)
    | inr e ↦ rw e (effect_of-Fits rule usage input.now input.lines)
  ]

  -- The totals of a quote: the discount is that of the coupon and at most the subtotal; the grand
  -- total is the subtotal less the discount plus delivery and tax; and it is also the sum of the line
  -- totals plus delivery.
  pub calculate_quote_totals :
      (input : QuoteInput)
      → let q = calculate_quote input in
        (q.discount_total ≡ get_or (map_option (λ c. c.discount) q.coupon) 0)
        × (q.discount_total ≤ q.items_subtotal)
        × (q.grand_total + q.discount_total
            ≡ q.items_subtotal + get_or q.shipping_fee 0 + q.tax_total)
        × (q.grand_total ≡ sum_by (λ l. l.line_total) q.lines + get_or q.shipping_fee 0)
        × (q.items_subtotal ≡ sum (map gross_of input.lines))
  unfolding calculate_quote
  calculate_quote_totals input =
      let e = coupon_effect input input.coupon in
      let (fits, total) = coupon_effect-Fits input input.coupon in
      omega (arith, total, quoted_lines_sums input.lines e.allocations e.eligible fits)
