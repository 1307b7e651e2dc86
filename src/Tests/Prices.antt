-- ===== src/Tests/Prices.antt =====
-- A cart of a book and a bundle, with a coupon, at the half-up rounding of integers.
use brothers_book_house.Money.Rounding.{paisa_decimal}
use brothers_book_house.Base.{
  All, List, [], arith, false, get_or, if◌then◌else◌, keep, length, map, map_option, none, refl,
  some, sort_by, sum, sum_by, true, ℕ, ◌+◌, ◌<◌, ◌↔◌, ◌∷◌, ◌≡◌, ◌≢◌, ◌≤◌,
}
use brothers_book_house.Base.Int.{pos}
use brothers_book_house.Base.Outcome.{is_ok, ok}
use brothers_book_house.Money.Allocate.{allocate}
use brothers_book_house.Money.Allocate.Exact.{sum-allocate}
use brothers_book_house.Money.Allocate.Bounds.{Below, Below-allocate}
use brothers_book_house.Orders.Lines.{product_line}
use brothers_book_house.Orders.Coupon.{
  CouponApplied, CouponLine, CouponRule, CouponScope, CouponType, CouponUsage, allocations_of,
  coupon_availability, discount_of, evaluate_coupon, kept, line_eligible, weight,
}
use brothers_book_house.Orders.Coupon.Evaluate.{evaluate_coupon_exact}
use brothers_book_house.Orders.Coupon.Availability.{IsRedeemable, evaluate_coupon_iff}
use brothers_book_house.Orders.Coupon.Shape.{
  CouponShape, IsTarget, validate_coupon_shape, validate_coupon_shape_sound, validate_targets,
}
use brothers_book_house.Orders.Shipping.{
  FreeShippingRule, ShippingInput, ShippingRuleType, ZoneInfo, by_total, is_for_section, live_rules,
  lowest_from, resolve_shipping, rule_is_live,
}
use brothers_book_house.Orders.Shipping.Free.{
  amount_to_free_suffices, resolve_shipping_fee, wants_free,
}
use brothers_book_house.Orders.Quote.{
  PricedBundle, PricedProduct, QuoteInput, calculate_quote, coupon_effect, of_bundle, of_product,
  quoted_lines, to_coupon_line,
}
use brothers_book_house.Orders.Quote.Totals.{calculate_quote_totals}
use brothers_book_house.Orders.Quote.Units.{
  IsSplit, calculate_quote-IsSplit, calculate_quote_units, units_of,
}

abbrev pub plain_book : PricedProduct
plain_book = record {
  id = 1;
  section_id = 10;
  section_code = 10;
  category_id = 20;
  subcategory_id = none;
  unit_price = 33350;
  list_price = 40000;
  unit_cost = some 20000;
  tax_rate = 500;
  free_shipping = false;
}

abbrev tea : PricedProduct
tea = record plain_book {
  id = 2;
  unit_price = 9999;
  list_price = 12000;
  unit_cost = none;
  tax_rate = 0;
}

abbrev box : PricedBundle
box = record {
  id = 3;
  section_id = 10;
  section_code = 10;
  unit_price = 50000;
  compare_at = none;
  free_shipping = false;
  components =
      record { product = plain_book; quantity = 1 } ∷ record { product = tea; quantity = 2 } ∷ [];
}

abbrev rule : CouponRule
rule = record {
  type = CouponType.percent;
  value = 1000;
  max_discount = none;
  min_subtotal = 10000;
  scope = CouponScope.all_items;
  targets = [];
  usage_limit = some 5;
  per_customer_limit = some 1;
  used_count = 4;
  first_order_only = false;
  is_active = true;
  starts_at = some 1;
  ends_at = some 99;
  deleted_at = none;
}

abbrev usage : CouponUsage
usage = record { customer_redemptions = some 0; customer_prior_orders = none }

abbrev pub dhaka : ZoneInfo
dhaka = record { code = 1; fee = 6000; courier_cost = 5500 }

abbrev above_2000 : FreeShippingRule
above_2000 = record {
  id = 4;
  type = ShippingRuleType.min_subtotal;
  min_subtotal = some 200000;
  section_id = none;
  starts_at = none;
  ends_at = none;
  is_active = true;
  priority = pos 0;
}

abbrev cart : QuoteInput
cart = record {
  lines = of_product plain_book 2 ∷ of_bundle box 1 ∷ [];
  coupon = some (rule, usage);
  zone = some dhaka;
  shipping_rules = above_2000 ∷ [];
  now = 50;
}

abbrev coupon_lines : List CouponLine
coupon_lines =
    record {
      kind = product_line;
      product_id = some 1;
      bundle_id = none;
      section_code = 10;
      category_ids = 20 ∷ [];
      gross = 66700;
    }
    ∷ []

abbrev parcel : ShippingInput
parcel = record {
  zone = some dhaka;
  lines = record { kind = product_line; section_id = 10; free_shipping = false } ∷ [];
  net_subtotal = 150000;
  coupon_free_shipping = false;
  rules = above_2000 ∷ [];
  now = 50;
}

splits : allocate 1000 (333 ∷ 333 ∷ 333 ∷ []) ≡ 334 ∷ 333 ∷ 333 ∷ []
unfolding allocate
splits = refl

sum-allocate_example : sum (allocate 1000 (333 ∷ 333 ∷ 334 ∷ [])) ≡ 1000
sum-allocate_example = sum-allocate 1000 (333 ∷ 333 ∷ 334 ∷ []) (λ e. cc)

Below-allocate_example : Below (allocate 900 (333 ∷ 333 ∷ 334 ∷ [])) (333 ∷ 333 ∷ 334 ∷ [])
Below-allocate_example = Below-allocate 900 (333 ∷ 333 ∷ 334 ∷ []) (omega arith)

quote_runs :
    let q = calculate_quote cart in
    (q.items_subtotal ≡ 116700) × (q.discount_total ≡ 11700) × (q.grand_total ≡ 115407)
unfolding calculate_quote coupon_effect quoted_lines evaluate_coupon coupon_availability
    line_eligible kept weight discount_of allocations_of to_coupon_line live_rules sort_by
    is_for_section by_total lowest_from
quote_runs = (refl, refl, refl)

calculate_quote_totals_example :
    let q = calculate_quote cart in
    (q.discount_total ≡ get_or (map_option (λ c. c.discount) q.coupon) 0)
    × (q.discount_total ≤ q.items_subtotal)
    × (q.grand_total + q.discount_total ≡ q.items_subtotal + get_or q.shipping_fee 0 + q.tax_total)
    × (q.grand_total ≡ sum_by (λ l. l.line_total) q.lines + get_or q.shipping_fee 0)
    × (q.items_subtotal ≡ 116700)
calculate_quote_totals_example = calculate_quote_totals cart

calculate_quote_units_example : units_of 1 (calculate_quote cart).stock_units ≡ 3
calculate_quote_units_example = calculate_quote_units cart 1

calculate_quote-IsSplit_example : All IsSplit (calculate_quote cart).lines
calculate_quote-IsSplit_example = calculate_quote-IsSplit cart

abbrev taken : CouponApplied
taken = record {
  type = CouponType.percent;
  discount = 6700;
  allocations = 6700 ∷ [];
  eligible = true ∷ [];
  eligible_subtotal = 66700;
  free_shipping = false;
}

coupon_runs : evaluate_coupon rule coupon_lines usage 50 ≡ ok taken
unfolding evaluate_coupon coupon_availability line_eligible kept weight discount_of allocations_of
    allocate
coupon_runs = refl

evaluate_coupon_exact_example :
    (6700 + 0 ≡ 6700)
    × (6700 ≤ 66700)
    × (66700 ≡ sum_by (λ l. l.gross) (keep (line_eligible rule) coupon_lines))
    × Below (6700 ∷ []) (map (λ l. if line_eligible rule l then l.gross else 0) coupon_lines)
    × (length {A = ℕ} (6700 ∷ []) ≡ 1)
evaluate_coupon_exact_example = evaluate_coupon_exact rule coupon_lines usage 50 coupon_runs

evaluate_coupon_iff_example : (is_ok (evaluate_coupon rule coupon_lines usage 50) ≡ true) ↔ (
    IsRedeemable rule usage 50
    × (10000 ≤ sum_by (λ l. l.gross) coupon_lines)
    × (0 < sum_by (λ l. l.gross) (keep (line_eligible rule) coupon_lines)))
evaluate_coupon_iff_example = evaluate_coupon_iff rule coupon_lines usage 50

abbrev shape : CouponShape
shape = record {
  type = CouponType.percent;
  value = 1000;
  max_discount = some 5000;
  scope = CouponScope.section;
  targets =
      record { section_code = some 10; category_id = none; product_id = none; bundle_id = none }
      ∷ [];
  starts_at = some 1;
  ends_at = some 99;
}

shape_accepted : is_ok (validate_coupon_shape shape) ≡ true
unfolding validate_coupon_shape validate_targets
shape_accepted = refl

validate_coupon_shape_sound_example :
    (CouponType.percent ≡ CouponType.percent → (0 < 1000) × (1000 < 10_000))
    × (CouponType.percent ≡ CouponType.fixed → 0 < 1000)
    × (CouponType.percent ≢ CouponType.percent → shape.max_discount ≡ none)
    × ((s e : ℕ) → shape.starts_at ≡ some s → shape.ends_at ≡ some e → s < e)
    × (CouponScope.section ≡ CouponScope.all_items → shape.targets ≡ [])
    × (CouponScope.section ≢ CouponScope.all_items
        → (shape.targets ≢ []) × All (IsTarget CouponScope.section) shape.targets)
validate_coupon_shape_sound_example = validate_coupon_shape_sound shape shape_accepted

resolve_shipping_fee_example :
    (resolve_shipping parcel).fee ≡ (if wants_free parcel then some 0 else some 6000)
resolve_shipping_fee_example = resolve_shipping_fee parcel

amount_to_free_suffices_example :
    (0 < 50000) × ((resolve_shipping (record parcel { net_subtotal = 200000 })).fee ≡ some 0)
unfolding resolve_shipping live_rules lowest_from is_for_section rule_is_live sort_by by_total
amount_to_free_suffices_example = amount_to_free_suffices parcel 50000 (λ e. cc) refl
