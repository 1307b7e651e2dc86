-- ===== src/Orders/Coupon/Shape.antt =====
-- The admin-side check of a coupon in backend/src/modules/orders/promotions/domain/coupon-rules.ts.
-- `value` is in hundredths.
use brothers_book_house.Base.{
  All, Bool, List, Option, Option-cases, [], arith, every, false, if◌then◌else◌, inl, inr, is_empty,
  is_some, leb, ltb, none, not, refl, some, true, ℕ, ◌&&◌, ◌+◌, ◌<◌, ◌==◌, ◌∷◌, ◌≡◌, ◌≢◌,
}
use brothers_book_house.Orders.Coupon.{
  CouponScope, CouponTargetRule, CouponType, all_items, bundle, category, fixed, percent, product,
  section,
}
use brothers_book_house.Base.Outcome.{Outcome, fail, is_ok, ok}
use brothers_book_house.Money.{Money}

pub record CouponShape : Type 0 where
  pub type : CouponType
  pub value : ℕ
  pub max_discount : Option Money
  pub scope : CouponScope
  pub targets : List CouponTargetRule
  pub starts_at : Option ℕ
  pub ends_at : Option ℕ

abbrev is_percent : CouponType → Bool
is_percent percent = true
is_percent _ = false

abbrev is_fixed : CouponType → Bool
is_fixed fixed = true
is_fixed _ = false

-- How many fields of a target are set.
abbrev set_fields : CouponTargetRule → ℕ
set_fields t =
    (if is_some t.section_code then 1 else 0)
    + (if is_some t.category_id then 1 else 0)
    + (if is_some t.product_id then 1 else 0)
    + (if is_some t.bundle_id then 1 else 0)

-- the field SCOPE_FIELD[scope] of a target
abbrev pub scope_field : CouponScope → CouponTargetRule → Option ℕ
scope_field all_items t = none
scope_field section t = t.section_code
scope_field category t = t.category_id
scope_field product t = t.product_id
scope_field bundle t = t.bundle_id

target_fits : CouponScope → CouponTargetRule → Bool
target_fits s t = set_fields t == 1 && is_some (scope_field s t)

unfoldable pub validate_targets : CouponScope → List CouponTargetRule → Outcome (Unit {0})
unfolding target_fits
validate_targets all_items targets =
    if is_empty targets then ok tt else fail "coupon.targets_invalid"
validate_targets s targets =
    if is_empty targets
    then fail "coupon.targets_required"
    else if every (target_fits s) targets
    then ok tt
    else fail "coupon.targets_invalid"

window_empty : Option ℕ → Option ℕ → Bool
window_empty (some s) (some e) = leb e s
window_empty _ _ = false

-- `ok` stands for `null`, no objection.
unfoldable pub validate_coupon_shape : CouponShape → Outcome (Unit {0})
unfolding window_empty
validate_coupon_shape c =
    if is_percent c.type && not (ltb 0 c.value && ltb c.value 10_000)
    then fail "coupon.value_invalid"
    else if is_fixed c.type && not (ltb 0 c.value)
    then fail "coupon.value_invalid"
    else if not (is_percent c.type) && is_some c.max_discount
    then fail "coupon.max_discount_invalid"
    else if window_empty c.starts_at c.ends_at
    then fail "coupon.window_invalid"
    else validate_targets c.scope c.targets

-- A target with its scope's field and no other.
abbrev pub IsTarget : CouponScope → CouponTargetRule → Type 0
IsTarget s t = (i : ℕ) × (scope_field s t ≡ some i) × (set_fields t ≡ 1)

targets_fit :
    (s : CouponScope) (ts : List CouponTargetRule)
    → every (target_fits s) ts ≡ true
    → All (IsTarget s) ts
unfolding target_fits
targets_fit s [] h = tt
targets_fit s (t ∷ ts) h = elim (Option-cases (scope_field s t)) [
  | inl e ↦ absurd (ground arith)
  | inr (i, e) ↦ ((i, e, ground arith), targets_fit s ts (ground arith))
]

valid_targets :
    (s : CouponScope) (ts : List CouponTargetRule)
    → is_ok (validate_targets s ts) ≡ true
    → (s ≡ all_items → ts ≡ []) × (s ≢ all_items → (ts ≢ []) × All (IsTarget s) ts)
unfolding validate_targets
valid_targets all_items [] h = (λ e. refl, λ n. absurd (n refl))
valid_targets all_items (t ∷ ts) h = cc
valid_targets section ts h = (λ e. cc, λ n. (ground arith, targets_fit section ts (ground arith)))
valid_targets category ts h = (λ e. cc, λ n. (ground arith, targets_fit category ts (ground arith)))
valid_targets product ts h = (λ e. cc, λ n. (ground arith, targets_fit product ts (ground arith)))
valid_targets bundle ts h = (λ e. cc, λ n. (ground arith, targets_fit bundle ts (ground arith)))

-- What the check lets through: a percentage lies strictly between 0 and 100, a fixed value is
-- positive, only a percentage has a cap, the window is not empty, a coupon for all items has no
-- target, and any other has one at least, each with the field of its scope and no other field.
pub validate_coupon_shape_sound :
    (c : CouponShape)
    → is_ok (validate_coupon_shape c) ≡ true
    → (c.type ≡ percent → (0 < c.value) × (c.value < 10_000))
      × (c.type ≡ fixed → 0 < c.value)
      × (c.type ≢ percent → c.max_discount ≡ none)
      × ((s e : ℕ) → c.starts_at ≡ some s → c.ends_at ≡ some e → s < e)
      × (c.scope ≡ all_items → c.targets ≡ [])
      × (c.scope ≢ all_items → (c.targets ≢ []) × All (IsTarget c.scope) c.targets)
unfolding validate_coupon_shape
validate_coupon_shape_sound c h =
    let (none_for_all, some_else) = valid_targets c.scope c.targets (ground arith) in
    (
      λ e. ground arith,
      λ e. ground arith,
      λ n. ground arith,
      λ s e p q. ground arith,
      none_for_all,
      some_else,
    )
