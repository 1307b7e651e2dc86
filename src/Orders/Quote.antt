-- ===== src/Orders/Quote.antt =====
-- backend/src/modules/orders/pricing/domain/quote-calculator.ts: the price calculation of cart, quote
-- and checkout. Titles, SKUs and category names, which are passed on, are left out. A net amount is a
-- difference of numbers that stops at 0; Orders/Quote/Totals shows that it never does so.
pub mod Totals
pub mod Units
use brothers_book_house.Base.Int.{ltb_ℤ, pos, pos_part, ℤ}
use Prim.Native.String.{String}
use brothers_book_house.Base.{
  Bool, List, Option, [], false, get_or, if◌then◌else◌, is_empty, map, map_option, none, some,
  some_and, sum_by, ℕ, ◌*◌, ◌++◌, ◌+◌, ◌-◌, ◌==◌, ◌∷◌,
}
use brothers_book_house.Base.Outcome.{Outcome, fail, ok}
use brothers_book_house.Money.{Decimal, Money, percent_of}
use brothers_book_house.Money.Allocate.{allocate}
use brothers_book_house.Orders.Lines.{LineKind, bundle_line, product_line}
use brothers_book_house.Orders.Coupon.{
  CouponApplied, CouponLine, CouponRule, CouponType, CouponUsage, evaluate_coupon,
}
use brothers_book_house.Orders.Shipping.{
  FreeShippingRule, ShippingLine, ShippingOutcome, ZoneInfo, resolve_shipping,
}

pub record PricedProduct : Type 0 where
  pub id : ℕ
  pub section_id : ℕ
  pub section_code : ℕ
  pub category_id : ℕ
  pub subcategory_id : Option ℕ
  pub unit_price : Money
  pub list_price : Money
  pub unit_cost : Option Money
  pub tax_rate : ℕ
  pub free_shipping : Bool

pub record Component : Type 0 where
  pub product : PricedProduct
  pub quantity : ℕ

pub record PricedBundle : Type 0 where
  pub id : ℕ
  pub section_id : ℕ
  pub section_code : ℕ
  pub unit_price : Money
  pub compare_at : Option Money
  pub free_shipping : Bool
  pub components : List Component

pub data QuoteLineInput : Type 0 where
  of_product : PricedProduct → ℕ → QuoteLineInput
  of_bundle : PricedBundle → ℕ → QuoteLineInput

pub record QuoteInput : Type 0 where
  pub lines : List QuoteLineInput
  pub coupon : Option (CouponRule × CouponUsage)
  pub zone : Option ZoneInfo
  pub shipping_rules : List FreeShippingRule
  pub now : ℕ

pub record QuotedComponent : Type 0 where
  pub product_id : ℕ
  pub quantity : ℕ
  pub unit_cost : Option Money
  pub allocated_revenue : Money
  pub tax_amount : Money

pub record QuotedLine : Type 0 where
  pub kind : LineKind
  pub product_id : Option ℕ
  pub bundle_id : Option ℕ
  pub section_id : ℕ
  pub section_code : ℕ
  pub quantity : ℕ
  pub unit_price : Money
  pub list_price : Money
  pub unit_cost : Option Money
  pub gross : Money
  pub discount : Money
  pub tax_amount : Money
  pub line_total : Money
  pub free_shipping : Bool
  pub coupon_eligible : Bool
  pub components : List QuotedComponent

pub record QuoteCoupon : Type 0 where
  pub type : CouponType
  pub discount : Money
  pub free_shipping : Bool

pub record StockUnit : Type 0 where
  pub product_id : ℕ
  pub qty : ℕ

pub record Quote : Type 0 where
  pub lines : List QuotedLine
  pub items_subtotal : Money
  pub discount_total : Money
  pub net_subtotal : Money
  pub tax_total : Money
  pub shipping_fee : Option Money
  pub shipping : ShippingOutcome
  pub grand_total : Money
  pub items_cost : Option Money
  pub coupon : Option QuoteCoupon
  pub coupon_rejection : Option String
  pub stock_units : List StockUnit

pub bundle_list_price : PricedBundle → Money
bundle_list_price b =
    get_or b.compare_at (sum_by (λ c. c.product.list_price * c.quantity) b.components)

abbrev pub both : Option Money → Option Money → Option Money
both (some a) (some b) = some (a + b)
both _ _ = none

abbrev pub listed : Option ℕ → List ℕ
listed none = []
listed (some i) = i ∷ []

-- The costs of a list, if all are known.
abbrev pub all_known {ℓ} : {A : Type ℓ} → (A → Option Money) → List A → Option Money
all_known f [] = some 0
all_known f (x ∷ xs) = both (f x) (all_known f xs)

pub bundle_unit_cost : PricedBundle → Option Money
bundle_unit_cost b =
    if is_empty b.components
    then none
    else all_known (λ c. map_option (λ u. u * c.quantity) c.product.unit_cost) b.components

abbrev pub gross_of : QuoteLineInput → Money
gross_of (of_product p q) = p.unit_price * q
gross_of (of_bundle b q) = b.unit_price * q

unfoldable pub to_coupon_line : QuoteLineInput → CouponLine
to_coupon_line (of_product p q) = record {
  kind = product_line;
  product_id = some p.id;
  bundle_id = none;
  section_code = p.section_code;
  category_ids = p.category_id ∷ listed p.subcategory_id;
  gross = p.unit_price * q;
}
to_coupon_line (of_bundle b q) = record {
  kind = bundle_line;
  product_id = none;
  bundle_id = some b.id;
  section_code = b.section_code;
  category_ids = [];
  gross = b.unit_price * q;
}

-- What the coupon of the input does: the four variables that the first part of the function sets.
pub record CouponEffect : Type 0 where
  pub coupon : Option QuoteCoupon
  pub rejection : Option String
  pub allocations : List Money
  pub eligible : List Bool

pub no_effect : Option String → List QuoteLineInput → CouponEffect
no_effect rejection lines = record {
  coupon = none;
  rejection = rejection;
  allocations = map (λ _. 0) lines;
  eligible = map (λ _. false) lines;
}

pub effect_of : List QuoteLineInput → Outcome CouponApplied → CouponEffect
unfolding no_effect
effect_of lines (fail code) = no_effect (some code) lines
effect_of lines (ok res) = record {
  coupon =
      some (record { type = res.type; discount = res.discount; free_shipping = res.free_shipping });
  rejection = none;
  allocations = res.allocations;
  eligible = res.eligible;
}

module _ ⦃dec : Decimal⦄ where
  unfoldable pub coupon_effect : QuoteInput → Option (CouponRule × CouponUsage) → CouponEffect
  unfolding effect_of no_effect
  coupon_effect input none = no_effect none input.lines
  coupon_effect input (some (rule, usage)) =
      if is_empty input.lines
      then no_effect none input.lines
      else effect_of input.lines
          (evaluate_coupon rule (map to_coupon_line input.lines) usage input.now)

  -- The components of a bundle line of `q` bundles, with their shares.
  pub quoted_components : ℕ → List Component → List Money → List QuotedComponent
  unfolding percent_of
  quoted_components q (c ∷ cs) (s ∷ ss) =
      record {
        product_id = c.product.id;
        quantity = c.quantity * q;
        unit_cost = c.product.unit_cost;
        allocated_revenue = s;
        tax_amount = percent_of s c.product.tax_rate;
      }
      ∷ quoted_components q cs ss
  quoted_components q _ _ = []

  pub shares_of : Money → List Component → List Money
  unfolding allocate
  shares_of net cs = allocate net (map (λ c. c.product.list_price * c.quantity) cs)

  unfoldable pub quoted_line : QuoteLineInput → Money → Bool → QuotedLine
  unfolding percent_of quoted_components shares_of bundle_list_price bundle_unit_cost
  quoted_line (of_product p q) discount eligible =
      let gross = p.unit_price * q in
      let net = gross - discount in
      let tax = percent_of net p.tax_rate in
      record {
        kind = product_line;
        product_id = some p.id;
        bundle_id = none;
        section_id = p.section_id;
        section_code = p.section_code;
        quantity = q;
        unit_price = p.unit_price;
        list_price = p.list_price;
        unit_cost = p.unit_cost;
        gross = gross;
        discount = discount;
        tax_amount = tax;
        line_total = net + tax;
        free_shipping = p.free_shipping;
        coupon_eligible = eligible;
        components = [];
      }
  quoted_line (of_bundle b q) discount eligible =
      let gross = b.unit_price * q in
      let net = gross - discount in
      let components = quoted_components q b.components (shares_of net b.components) in
      let tax = sum_by (λ c. c.tax_amount) components in
      record {
        kind = bundle_line;
        product_id = none;
        bundle_id = some b.id;
        section_id = b.section_id;
        section_code = b.section_code;
        quantity = q;
        unit_price = b.unit_price;
        list_price = bundle_list_price b;
        unit_cost = bundle_unit_cost b;
        gross = gross;
        discount = discount;
        tax_amount = tax;
        line_total = net + tax;
        free_shipping = b.free_shipping;
        coupon_eligible = eligible;
        components = components;
      }

  unfoldable pub quoted_lines : List QuoteLineInput → List Money → List Bool → List QuotedLine
  unfolding quoted_line
  quoted_lines (l ∷ ls) (d ∷ ds) (e ∷ es) = quoted_line l d e ∷ quoted_lines ls ds es
  quoted_lines _ _ _ = []

abbrev quote_costs : List QuotedLine → Option Money
quote_costs lines =
    if is_empty lines
    then none
    else all_known (λ l. map_option (λ u. u * l.quantity) l.unit_cost) lines

-- `units.set(id, (units.get(id) ?? 0) + q)`, a map in the order of insertion
pub add_units : ℕ → ℕ → List StockUnit → List StockUnit
add_units id q [] = record { product_id = id; qty = q } ∷ []
add_units id q (u ∷ us) =
    let rest = add_units id q us in
    if u.product_id == id then record { product_id = id; qty = u.qty + q } ∷ us else u ∷ rest

pub add_components : List QuotedComponent → List StockUnit → List StockUnit
unfolding add_units
add_components [] units = units
add_components (c ∷ cs) units = add_components cs (add_units c.product_id c.quantity units)

-- a product line counts its own product
unfoldable pub add_own : LineKind → Option ℕ → ℕ → List StockUnit → List StockUnit
unfolding add_units
add_own product_line (some id) q units = add_units id q units
add_own _ _ q units = units

unfoldable pub stock_units_from : List QuotedLine → List StockUnit → List StockUnit
unfolding add_components add_own
stock_units_from [] units = units
stock_units_from (l ∷ ls) units =
    stock_units_from ls (add_components l.components (add_own l.kind l.product_id l.quantity units))

abbrev pub shipping_lines : List QuotedLine → List ShippingLine
shipping_lines =
    map (λ l. record { kind = l.kind; section_id = l.section_id; free_shipping = l.free_shipping })

module _ ⦃dec : Decimal⦄ where
  -- The totals, once the lines are quoted.
  pub quote_of : QuoteInput → CouponEffect → List QuotedLine → Quote
  unfolding resolve_shipping stock_units_from
  quote_of input effect lines =
      let items_subtotal = sum_by (λ l. l.gross) lines in
      let discount_total = sum_by (λ l. l.discount) lines in
      let tax_total = sum_by (λ l. l.tax_amount) lines in
      let net_subtotal = items_subtotal - discount_total in
      let shipping = resolve_shipping (record {
        zone = input.zone;
        lines = shipping_lines lines;
        net_subtotal = net_subtotal;
        coupon_free_shipping = some_and effect.coupon (λ c. c.free_shipping);
        rules = input.shipping_rules;
        now = input.now;
      }) in
      record {
        lines = lines;
        items_subtotal = items_subtotal;
        discount_total = discount_total;
        net_subtotal = net_subtotal;
        tax_total = tax_total;
        shipping_fee = shipping.fee;
        shipping = shipping;
        grand_total = net_subtotal + get_or shipping.fee 0 + tax_total;
        items_cost = quote_costs lines;
        coupon = effect.coupon;
        coupon_rejection = effect.rejection;
        stock_units = stock_units_from lines [];
      }

  unfoldable pub calculate_quote : QuoteInput → Quote
  unfolding quote_of
  calculate_quote input =
      let effect = coupon_effect input input.coupon in
      quote_of input effect (quoted_lines input.lines effect.allocations effect.eligible)

pub record Shortfall : Type 0 where
  pub product_id : ℕ
  pub requested : ℕ
  pub available : ℕ

-- `available` gives nothing for a product that is not limited; a stock below zero counts as none
abbrev pub shortfall : StockUnit → Option ℤ → List Shortfall
shortfall u none = []
shortfall u (some a) =
    if ltb_ℤ a (pos u.qty)
    then record { product_id = u.product_id; requested = u.qty; available = pos_part a } ∷ []
    else []

pub shortfalls_of : (ℕ → Option ℤ) → List StockUnit → List Shortfall
shortfalls_of available [] = []
shortfalls_of available (u ∷ us) =
    shortfall u (available u.product_id) ++ shortfalls_of available us

unfoldable pub stock_shortfalls : Quote → (ℕ → Option ℤ) → List Shortfall
unfolding shortfalls_of
stock_shortfalls quote available = shortfalls_of available quote.stock_units
