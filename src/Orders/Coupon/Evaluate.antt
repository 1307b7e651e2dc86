-- ===== src/Orders/Coupon/Evaluate.antt =====
-- What `evaluateCoupon` of backend/src/modules/orders/promotions/domain/coupon-rules.ts gives away.
use brothers_book_house.Base.{
  Bool-cases, List, [], ap, arith, if◌then◌else◌, inl, inr, keep, length, length-map, map, refl,
  sum, sum_by, sym, ℕ, ◌==◌, ◌∙◌, ◌∷◌, ◌≡◌, ◌≢◌, ◌≤◌,
}
use brothers_book_house.Base.Outcome.{ok}
use brothers_book_house.Money.{Decimal, Money}
use brothers_book_house.Money.Allocate.Exact.{length-allocate, sum-allocate, sum-zeros}
use brothers_book_house.Money.Allocate.Bounds.{Below, Below-allocate, nth-zeros}
use brothers_book_house.Orders.Coupon.{
  CouponApplied, CouponLine, CouponRule, CouponType, CouponUsage, allocations_of, discount_of,
  evaluate_coupon, fixed, free_shipping, kept, line_eligible, percent, weight,
}

sum-weights :
    (rule : CouponRule) (lines : List CouponLine)
    → sum (map (weight rule) lines) ≡ sum_by (λ l. l.gross) (kept rule lines)
unfolding weight kept
sum-weights rule [] = refl
sum-weights rule (l ∷ ls) = ground (arith, sum-weights rule ls)

pub kept-le-all :
    (rule : CouponRule) (lines : List CouponLine)
    → sum_by (λ l. l.gross) (kept rule lines) ≤ sum_by (λ l. l.gross) lines
unfolding kept
kept-le-all rule [] = omega arith
kept-le-all rule (l ∷ ls) = ground (arith, kept-le-all rule ls)

module _ ⦃dec : Decimal⦄ where
  discount_of-le : (t : CouponType) (rule : CouponRule) (s : Money) → discount_of t rule s ≤ s
  unfolding discount_of
  discount_of-le percent rule s = ground arith
  discount_of-le fixed rule s = ground arith
  discount_of-le free_shipping rule s = omega arith

  Below-allocations_of : (d : Money) (w : List Money) → d ≤ sum w → Below (allocations_of d w) w
  unfolding allocations_of
  Below-allocations_of d w h = elim (Bool-cases (d == 0)) [
    | inl e ↦ rw e (λ i. omega (arith, nth-zeros w i))
    | inr e ↦ rw e (Below-allocate d w h)
  ]

  sum-allocations_of : (d : Money) (w : List Money) → w ≢ [] → sum (allocations_of d w) ≡ d
  unfolding allocations_of
  sum-allocations_of d w h = elim (Bool-cases (d == 0)) [
    | inl e ↦ rw e (ground (arith, sum-zeros w))
    | inr e ↦ rw e (sum-allocate d w h)
  ]

  length-allocations_of : (d : Money) (w : List Money) → length (allocations_of d w) ≡ length w
  unfolding allocations_of
  length-allocations_of d w = elim (Bool-cases (d == 0)) [
    | inl e ↦ rw e (length-map {0, 0} {B = ℕ} (λ _. 0) w)
    | inr e ↦ rw e (length-allocate d w)
  ]

  evaluated :
      (rule : CouponRule) (lines : List CouponLine) (usage : CouponUsage) (now : ℕ)
      {a : CouponApplied}
      → evaluate_coupon rule lines usage now ≡ ok a
      → let s = sum_by (λ l. l.gross) (kept rule lines) in
        let d = discount_of rule.type rule s in
        (a.discount ≡ d)
        × (a.allocations ≡ allocations_of d (map (weight rule) lines))
        × (a.eligible_subtotal ≡ s)
        × (s ≢ 0)
  unfolding evaluate_coupon
  evaluated rule lines usage now h = (ground arith, ground arith, ground arith, ground arith)

  -- An accepted coupon: the parts add up to the discount; the discount is at most the eligible
  -- subtotal; no line gets more off than its own gross, and a line outside the scope gets nothing.
  pub evaluate_coupon_exact :
      (rule : CouponRule) (lines : List CouponLine) (usage : CouponUsage) (now : ℕ)
      {a : CouponApplied}
      → evaluate_coupon rule lines usage now ≡ ok a
      → (sum a.allocations ≡ a.discount)
        × (a.discount ≤ a.eligible_subtotal)
        × (a.eligible_subtotal ≡ sum_by (λ l. l.gross) (keep (line_eligible rule) lines))
        × Below a.allocations (map (λ l. if line_eligible rule l then l.gross else 0) lines)
        × (length a.allocations ≡ length lines)
  unfolding evaluate_coupon
  evaluate_coupon_exact rule lines usage now {a} h =
      let (ed, ea, es, positive) = evaluated rule lines usage now h in
      let s = sum_by (λ l. l.gross) (kept rule lines) in
      let w = map (weight rule) lines in
      let fits : discount_of rule.type rule s ≤ sum w =
        omega (arith, discount_of-le rule.type rule s, sum-weights rule lines) in
      let some_line : w ≢ [] = λ e. positive (sym (sum-weights rule lines) ∙ ap sum e) in
      rw (ed, ea, es)
        (
          sum-allocations_of (discount_of rule.type rule s) w some_line,
          discount_of-le rule.type rule s,
          unfold kept in refl,
          unfold weight in Below-allocations_of (discount_of rule.type rule s) w fits,
          length-allocations_of (discount_of rule.type rule s) w ∙ length-map (weight rule) lines,
        )

  pub eligible_of_ok :
      (rule : CouponRule) (lines : List CouponLine) (usage : CouponUsage) (now : ℕ)
      {a : CouponApplied}
      → evaluate_coupon rule lines usage now ≡ ok a
      → a.eligible ≡ map (line_eligible rule) lines
  unfolding evaluate_coupon
  eligible_of_ok rule lines usage now h = ground arith
