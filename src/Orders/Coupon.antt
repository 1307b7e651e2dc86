-- ===== src/Orders/Coupon.antt =====
-- backend/src/modules/orders/promotions/domain/coupon-rules.ts: what a coupon takes off a cart.
-- Identifiers are only compared, so they are numbers; times are instants in milliseconds; `value` has
-- two places and is kept in hundredths (of a percent or of a taka). The normalised code and the texts
-- for the screen, which the result passes on, are left out.
pub mod Availability
pub mod Shape
pub mod Evaluate
use brothers_book_house.Base.{
  Bool, List, Option, any, false, if◌then◌else◌, is_some, keep, leb, ltb, map, none, not, some,
  some_and, sum_by, true, ℕ, ◌&&◌, ◌*◌, ◌==◌, ◌||◌,
}
use brothers_book_house.Base.Outcome.{Outcome, fail, ok, ◌>>◌}
use brothers_book_house.Money.Allocate.{allocate}
use brothers_book_house.Orders.Lines.{LineKind, is_bundle}
use brothers_book_house.Money.{Decimal, Money, min}

pub data CouponType : Type 0 where
  percent fixed free_shipping : CouponType

pub data CouponScope : Type 0 where
  all_items section category product bundle : CouponScope

pub record CouponTargetRule : Type 0 where
  pub section_code : Option ℕ
  pub category_id : Option ℕ
  pub product_id : Option ℕ
  pub bundle_id : Option ℕ

pub record CouponRule : Type 0 where
  pub type : CouponType
  pub value : ℕ
  pub max_discount : Option Money
  pub min_subtotal : Money
  pub scope : CouponScope
  pub targets : List CouponTargetRule
  pub usage_limit : Option ℕ
  pub per_customer_limit : Option ℕ
  pub used_count : ℕ
  pub first_order_only : Bool
  pub is_active : Bool
  pub starts_at : Option ℕ
  pub ends_at : Option ℕ
  pub deleted_at : Option ℕ

pub record CouponLine : Type 0 where
  pub kind : LineKind
  pub product_id : Option ℕ
  pub bundle_id : Option ℕ
  pub section_code : ℕ
  pub category_ids : List ℕ
  pub gross : Money

-- `none` is not known yet
pub record CouponUsage : Type 0 where
  pub customer_redemptions : Option ℕ
  pub customer_prior_orders : Option ℕ

pub record CouponApplied : Type 0 where
  pub type : CouponType
  pub discount : Money
  pub allocations : List Money
  pub eligible : List Bool
  pub eligible_subtotal : Money
  pub free_shipping : Bool

-- `a != null && a === b`
abbrev pub is_id : Option ℕ → ℕ → Bool
is_id a b = some_and a (λ x. x == b)

-- `a != null && a === b`, where `b` may be null
abbrev pub is_same_id : Option ℕ → Option ℕ → Bool
is_same_id a b = some_and a (λ x. some_and b (λ y. x == y))

in_scope : CouponScope → List CouponTargetRule → CouponLine → Bool
in_scope all_items t line = true
in_scope section t line = any (λ x. is_id x.section_code line.section_code) t
in_scope category t line =
    not (is_bundle line.kind)
    && any (λ x. some_and x.category_id (λ c. any (λ d. c == d) line.category_ids)) t
in_scope product t line =
    not (is_bundle line.kind) && any (λ x. is_same_id x.product_id line.product_id) t
in_scope bundle t line = is_bundle line.kind && any (λ x. is_same_id x.bundle_id line.bundle_id) t

unfoldable pub line_eligible : CouponRule → CouponLine → Bool
unfolding in_scope
line_eligible rule line = in_scope rule.scope rule.targets line

unfoldable pub coupon_availability : CouponRule → CouponUsage → ℕ → Outcome (Unit {0})
coupon_availability rule usage now =
    if not rule.is_active || is_some rule.deleted_at
    then fail "coupon.inactive"
    else if some_and rule.starts_at (λ s. ltb now s)
    then fail "coupon.not_started"
    else if some_and rule.ends_at (λ e. leb e now)
    then fail "coupon.expired"
    else if some_and rule.usage_limit (λ l. leb l rule.used_count)
    then fail "coupon.exhausted"
    else if some_and rule.per_customer_limit
        (λ l. some_and usage.customer_redemptions (λ n. leb l n))
    then fail "coupon.customer_limit"
    else if rule.first_order_only && some_and usage.customer_prior_orders (λ n. ltb 0 n)
    then fail "coupon.first_order_only"
    else ok tt

-- `lines.filter((_, i) => eligible[i])`
unfoldable pub kept : CouponRule → List CouponLine → List CouponLine
unfolding line_eligible
kept rule lines = keep (line_eligible rule) lines

abbrev pub capped : Money → Option Money → Money
capped d none = d
capped d (some m) = min d m

-- The gross of an eligible line, nothing for another.
unfoldable pub weight : CouponRule → CouponLine → Money
unfolding line_eligible
weight rule line = if line_eligible rule line then line.gross else 0

abbrev pub gives_shipping : CouponType → Bool
gives_shipping free_shipping = true
gives_shipping _ = false

module _ ⦃dec : Decimal⦄ where
  unfoldable pub discount_of : CouponType → CouponRule → Money → Money
  discount_of percent rule eligible_subtotal =
      let rounded = dec.half_up (eligible_subtotal * rule.value) 1_000_000 * 100 in
      min (capped rounded rule.max_discount) eligible_subtotal
  discount_of fixed rule eligible_subtotal = min rule.value eligible_subtotal
  discount_of free_shipping rule eligible_subtotal = 0

  unfoldable pub allocations_of : Money → List Money → List Money
  unfolding allocate
  allocations_of discount weights =
      if discount == 0 then map (λ _. 0) weights else allocate discount weights

  unfoldable pub evaluate_coupon :
      CouponRule → List CouponLine → CouponUsage → ℕ → Outcome CouponApplied
  evaluate_coupon rule lines usage now =
      let subtotal = sum_by (λ l. l.gross) lines in
      let eligible = map (line_eligible rule) lines in
      let eligible_subtotal = sum_by (λ l. l.gross) (kept rule lines) in
      let discount = discount_of rule.type rule eligible_subtotal in
      coupon_availability rule usage now
      >> (if ltb subtotal rule.min_subtotal
          then fail "coupon.min_subtotal"
          else if not (any (λ e. e) eligible) || eligible_subtotal == 0
          then fail "coupon.not_applicable"
          else ok (record {
            type = rule.type;
            discount = discount;
            allocations = allocations_of discount (map (weight rule) lines);
            eligible = eligible;
            eligible_subtotal = eligible_subtotal;
            free_shipping = gives_shipping rule.type;
          }))
