-- ===== src/Orders/Shipping.antt =====
-- backend/src/modules/orders/shipping/domain/shipping-fee.ts: the delivery fee. The reasons, texts for
-- the screen, are left out; the basis of the outcome stands for them.
pub mod Free
use brothers_book_house.Base.{
  Bool, List, Option, [], any, every, false, find, get_or, if◌then◌else◌, is_empty, is_some, keep,
  leb, ltb, map_option, none, not, some, some_and, sort_by, true, ℕ, ◌&&◌, ◌-◌, ◌==◌, ◌∷◌,
}
use brothers_book_house.Base.Int.{ltb_ℤ, ℤ}
use brothers_book_house.Money.{Money}
use brothers_book_house.Orders.Lines.{LineKind, is_bundle}

pub data ShippingRuleType : Type 0 where
  min_subtotal any_bundle section_only campaign_all : ShippingRuleType

pub record ZoneInfo : Type 0 where
  pub code : ℕ
  pub fee : Money
  pub courier_cost : Money

pub record FreeShippingRule : Type 0 where
  pub id : ℕ
  pub type : ShippingRuleType
  pub min_subtotal : Option Money
  pub section_id : Option ℕ
  pub starts_at : Option ℕ
  pub ends_at : Option ℕ
  pub is_active : Bool
  pub priority : ℤ

pub record ShippingLine : Type 0 where
  pub kind : LineKind
  pub section_id : ℕ
  pub free_shipping : Bool

pub record ShippingInput : Type 0 where
  pub zone : Option ZoneInfo
  pub lines : List ShippingLine
  pub net_subtotal : Money
  pub coupon_free_shipping : Bool
  pub rules : List FreeShippingRule
  pub now : ℕ

pub data ShippingBasis : Type 0 where
  item_flags bundle_rule section_rule coupon campaign threshold zone unknown_district :
      ShippingBasis

pub record ShippingOutcome : Type 0 where
  pub fee : Option Money
  pub free : Bool
  pub basis : ShippingBasis
  pub rule_id : Option ℕ
  pub zone_code : Option ℕ
  pub expected_courier_cost : Option Money
  pub free_above : Option Money
  pub amount_to_free : Option Money
  pub campaign : Bool

unfoldable pub rule_is_live : FreeShippingRule → ℕ → Bool
rule_is_live r now =
    r.is_active
    && not (some_and r.starts_at (λ s. ltb now s))
    && not (some_and r.ends_at (λ e. leb e now))

abbrev pub is_min : ShippingRuleType → Bool
is_min ShippingRuleType.min_subtotal = true
is_min _ = false

abbrev pub is_any_bundle : ShippingRuleType → Bool
is_any_bundle any_bundle = true
is_any_bundle _ = false

abbrev pub is_section : ShippingRuleType → Bool
is_section section_only = true
is_section _ = false

abbrev pub is_campaign : ShippingRuleType → Bool
is_campaign campaign_all = true
is_campaign _ = false

-- `sort((a, b) => b.priority - a.priority)`
abbrev pub lower_priority : FreeShippingRule → FreeShippingRule → Bool
lower_priority a b = ltb_ℤ a.priority b.priority

unfoldable pub live_rules : List FreeShippingRule → ℕ → List FreeShippingRule
unfolding rule_is_live
live_rules rules now = sort_by lower_priority (keep (λ r. rule_is_live r now) rules)

abbrev pub has_threshold : FreeShippingRule → Bool
has_threshold r = is_min r.type && some_and r.min_subtotal (λ m. ltb 0 m)

-- `D(r.minSubtotal)`
abbrev pub threshold_of : FreeShippingRule → Money
threshold_of r = get_or r.min_subtotal 0

abbrev lower : Option FreeShippingRule → FreeShippingRule → Option FreeShippingRule
lower none r = some r
lower (some m) r = if ltb (threshold_of r) (threshold_of m) then some r else some m

-- the `reduce` to the lowest threshold, with what was found so far
unfoldable pub lowest_from :
    Option FreeShippingRule → List FreeShippingRule → Option FreeShippingRule
lowest_from m [] = m
lowest_from m (r ∷ rs) = lowest_from (lower m r) rs

unfoldable pub is_for_section : List ShippingLine → FreeShippingRule → Bool
is_for_section lines r =
    is_section r.type && some_and r.section_id (λ s. every (λ l. l.section_id == s) lines)

pub below : Money → Option Money → Option Money
below net none = none
below net (some a) = if ltb net a then some (a - net) else none

-- the field `amountToFree`
pub to_free : ShippingBasis → Money → Option Money → Option Money
unfolding below
to_free zone net above = below net above
to_free _ net above = none

-- What the outcome has in common on every branch: `above` is the lowest live threshold.
pub outcome :
    ShippingInput → Option Money → Bool → ShippingBasis → Option ℕ → Option Money → ShippingOutcome
unfolding to_free
outcome input above campaign_live basis rule_id fee = record {
  fee = fee;
  free = some_and fee (λ f. f == 0);
  basis = basis;
  rule_id = rule_id;
  zone_code = map_option (λ z. z.code) input.zone;
  expected_courier_cost = map_option (λ z. z.courier_cost) input.zone;
  free_above = above;
  amount_to_free = to_free basis input.net_subtotal above;
  campaign = campaign_live;
}

-- The last two branches: the fee of the zone, or none yet.
pub by_zone : ShippingInput → Option Money → Bool → Option ZoneInfo → ShippingOutcome
unfolding outcome
by_zone input above live none = outcome input above live unknown_district none none
by_zone input above live (some z) = outcome input above live zone none (some z.fee)

-- Campaign, threshold, zone.
unfoldable pub by_total :
    ShippingInput → Option FreeShippingRule → Option FreeShippingRule → ShippingOutcome
unfolding outcome by_zone
by_total input (some c) lowest =
    outcome input (map_option threshold_of lowest) true campaign (some c.id) (some 0)
by_total input none none = by_zone input none false input.zone
by_total input none (some m) =
    if not (is_empty input.lines) && leb (threshold_of m) input.net_subtotal
    then outcome input (some (threshold_of m)) false threshold (some m.id) (some 0)
    else by_zone input (some (threshold_of m)) false input.zone

unfoldable pub resolve_shipping : ShippingInput → ShippingOutcome
unfolding outcome
resolve_shipping input =
    let live = live_rules input.rules input.now in
    let lowest = lowest_from none (keep has_threshold live) in
    let campaign_rule = find (λ r. is_campaign r.type) live in
    let above = map_option threshold_of lowest in
    let bundle = find (λ r. is_any_bundle r.type) live in
    let section = find (is_for_section input.lines) live in
    let free_by = λ (b : ShippingBasis) (id : Option ℕ).
      outcome input above (is_some campaign_rule) b id (some 0) in
    let filled = not (is_empty input.lines) in
    if filled && every (λ l. l.free_shipping) input.lines
    then free_by item_flags none
    else if filled && is_some bundle && any (λ l. is_bundle l.kind) input.lines
    then free_by bundle_rule (map_option (λ r. r.id) bundle)
    else if filled && is_some section
    then free_by section_rule (map_option (λ r. r.id) section)
    else if input.coupon_free_shipping
    then free_by coupon none
    else by_total input campaign_rule lowest
