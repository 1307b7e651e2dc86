-- ===== src/Orders/Coupon/Availability.antt =====
-- When a coupon of backend/src/modules/orders/promotions/domain/coupon-rules.ts is accepted at all.
use brothers_book_house.Base.{
  Bool, List, Option, [], any, arith, false, keep, leb, ltb, map, none, refl, some, some_and,
  sum_by, true, ℕ, ◌&&◌, ◌<◌, ◌↔◌, ◌∷◌, ◌≡◌, ◌≤◌,
}
use brothers_book_house.Orders.Coupon.{
  CouponLine, CouponRule, CouponUsage, coupon_availability, evaluate_coupon, kept, line_eligible,
}
use brothers_book_house.Money.{Decimal}
use brothers_book_house.Base.Outcome.{is_ok}

-- Nothing about the coupon itself, its window or its use so far stands in the way. What is not known
-- of the customer does not count.
pub record IsRedeemable (rule : CouponRule) (usage : CouponUsage) (now : ℕ) : Type 0 where
  pub active : rule.is_active ≡ true
  pub not_deleted : rule.deleted_at ≡ none
  pub started : (s : ℕ) → rule.starts_at ≡ some s → s ≤ now
  pub running : (e : ℕ) → rule.ends_at ≡ some e → now < e
  pub left : (l : ℕ) → rule.usage_limit ≡ some l → rule.used_count < l
  pub left_for_customer :
      (l n : ℕ) → rule.per_customer_limit ≡ some l → usage.customer_redemptions ≡ some n → n < l
  pub first_order :
      (n : ℕ) → rule.first_order_only ≡ true → usage.customer_prior_orders ≡ some n → n ≡ 0

IsRedeemable-of_ok :
    (rule : CouponRule) (usage : CouponUsage) (now : ℕ)
    → is_ok (coupon_availability rule usage now) ≡ true
    → IsRedeemable rule usage now
unfolding coupon_availability
IsRedeemable-of_ok rule usage now h = record {
  active = ground arith;
  not_deleted = ground arith;
  started = λ s e. ground arith;
  running = λ s e. ground arith;
  left = λ l e. ground arith;
  left_for_customer = λ l n e f. ground arith;
  first_order = λ n e f. ground arith;
}

after_or :
    (o : Option ℕ) (p : ℕ → Bool) → ((x : ℕ) → o ≡ some x → p x ≡ false) → some_and o p ≡ false
after_or none p h = refl
after_or (some x) p h = h x refl

after_both :
    (o q : Option ℕ) (p : ℕ → ℕ → Bool)
    → ((x y : ℕ) → o ≡ some x → q ≡ some y → p x y ≡ false)
    → some_and o (λ x. some_and q (λ y. p x y)) ≡ false
after_both none q p h = refl
after_both (some x) none p h = refl
after_both (some x) (some y) p h = h x y refl refl

ok_of_IsRedeemable :
    (rule : CouponRule) (usage : CouponUsage) (now : ℕ)
    → IsRedeemable rule usage now
    → is_ok (coupon_availability rule usage now) ≡ true
unfolding coupon_availability
ok_of_IsRedeemable rule usage now r =
    let started = after_or rule.starts_at (λ s. ltb now s) (λ s e. ground (arith, r.started s e)) in
    let running = after_or rule.ends_at (λ s. leb s now) (λ s e. ground (arith, r.running s e)) in
    let left =
      after_or rule.usage_limit (λ l. leb l rule.used_count) (λ l e. ground (arith, r.left l e)) in
    let customer =
      after_both rule.per_customer_limit usage.customer_redemptions (λ l n. leb l n)
        (λ l n e f. ground (arith, r.left_for_customer l n e f)) in
    let first : (rule.first_order_only && some_and usage.customer_prior_orders (λ n. ltb 0 n))
        ≡ false =
      first_none rule.first_order_only usage.customer_prior_orders r.first_order in
    rw (r.active, r.not_deleted, started, running, left, customer, first)
  where
    first_none :
        (b : Bool) (o : Option ℕ)
        → ((n : ℕ) → b ≡ true → o ≡ some n → n ≡ 0)
        → (b && some_and o (λ n. ltb 0 n)) ≡ false
    first_none false o h = refl
    first_none true o h = after_or o (λ n. ltb 0 n) (λ n e. ground (arith, h n refl e))

any_of_sum :
    (rule : CouponRule) (lines : List CouponLine)
    → 0 < sum_by (λ l. l.gross) (kept rule lines)
    → any (λ e. e) (map (line_eligible rule) lines) ≡ true
unfolding kept
any_of_sum rule [] h = absurd (omega arith)
any_of_sum rule (l ∷ ls) h = ground (arith, any_of_sum rule ls)

-- A coupon is accepted exactly when it is redeemable, the cart reaches its minimum, and the lines in
-- its scope are worth something.
pub evaluate_coupon_iff :
    ⦃dec : Decimal⦄ (rule : CouponRule) (lines : List CouponLine) (usage : CouponUsage) (now : ℕ)
    → (is_ok (evaluate_coupon rule lines usage now) ≡ true) ↔ (
        IsRedeemable rule usage now
        × (rule.min_subtotal ≤ sum_by (λ l. l.gross) lines)
        × (0 < sum_by (λ l. l.gross) (keep (line_eligible rule) lines)))
unfolding evaluate_coupon kept
evaluate_coupon_iff rule lines usage now = (
  λ h. (IsRedeemable-of_ok rule usage now (ground arith), ground arith, ground arith),
  λ (r, m, p). ground (arith, ok_of_IsRedeemable rule usage now r, any_of_sum rule lines p),
)
