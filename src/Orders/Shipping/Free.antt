-- ===== src/Orders/Shipping/Free.antt =====
-- When delivery is free in backend/src/modules/orders/shipping/domain/shipping-fee.ts, told without the
-- order in which the rules are tried.
use brothers_book_house.Base.{
  Bool, List, Option, [], any, any-keep, any-sort_by, arith, every, false, find, find-is_some,
  if◌then◌else◌, is_empty, is_some, keep, leb, map_option, none, not, refl, some, some_and, true,
  ◌&&◌, ◌+◌, ◌<◌, ◌||◌, ◌∙◌, ◌∷◌, ◌≡◌, ◌≢◌,
}
use brothers_book_house.Money.{Money}
use brothers_book_house.Orders.Lines.{is_bundle}
use brothers_book_house.Orders.Shipping.{
  FreeShippingRule, ShippingInput, ZoneInfo, below, by_total, by_zone, has_threshold, is_any_bundle,
  is_campaign, is_for_section, live_rules, lower_priority, lowest_from, outcome, resolve_shipping,
  rule_is_live, threshold_of, to_free,
}

module _ (input : ShippingInput) where
  -- Some rule that is live at the time satisfies `p`.
  abbrev pub some_live : (FreeShippingRule → Bool) → Bool
  some_live p = any (λ r. rule_is_live r input.now && p r) input.rules

  -- The reasons for which delivery is free.
  abbrev pub wants_free : Bool
  wants_free =
      let filled = not (is_empty input.lines) in
      filled && every (λ l. l.free_shipping) input.lines
      || filled && some_live (λ r. is_any_bundle r.type) && any (λ l. is_bundle l.kind) input.lines
      || filled && some_live (is_for_section input.lines)
      || input.coupon_free_shipping
      || some_live (λ r. is_campaign r.type)
      || filled && some_live (λ r. has_threshold r && leb (threshold_of r) input.net_subtotal)

  any-live_rules :
      (p : FreeShippingRule → Bool) → any p (live_rules input.rules input.now) ≡ some_live p
  unfolding live_rules
  any-live_rules p =
      any-sort_by lower_priority p (keep (λ r. rule_is_live r input.now) input.rules)
      ∙ any-keep p (λ r. rule_is_live r input.now) input.rules

abbrev reached : Option FreeShippingRule → Money → Bool
reached m n = some_and m (λ r. leb (threshold_of r) n)

reached-lowest_from :
    (m : Option FreeShippingRule) (rs : List FreeShippingRule) (n : Money)
    → reached (lowest_from m rs) n ≡ (reached m n || any (λ r. leb (threshold_of r) n) rs)
unfolding lowest_from
reached-lowest_from none [] n = refl
reached-lowest_from (some m) [] n = ground arith
reached-lowest_from none (r ∷ rs) n = ground (arith, reached-lowest_from (some r) rs n)
reached-lowest_from (some m) (r ∷ rs) n =
    ground (arith, reached-lowest_from (some r) rs n, reached-lowest_from (some m) rs n)

by_zone-fee :
    (input : ShippingInput) (above : Option Money) (live : Bool) (z : Option ZoneInfo)
    → (by_zone input above live z).fee ≡ map_option (λ z. z.fee) z
unfolding by_zone
by_zone-fee input above live none = refl
by_zone-fee input above live (some z) = refl

by_total-fee :
    (input : ShippingInput) (c m : Option FreeShippingRule)
    → (by_total input c m).fee ≡ (
        if is_some c || not (is_empty input.lines) && reached m input.net_subtotal
        then some 0
        else map_option (λ z. z.fee) input.zone)
unfolding by_total
by_total-fee input (some c) m = refl
by_total-fee input none none = ground (arith, by_zone-fee input none false input.zone)
by_total-fee input none (some m) =
    ground (arith, by_zone-fee input (some (threshold_of m)) false input.zone)

reached-live :
    (input : ShippingInput)
    → reached
        (lowest_from none (keep has_threshold (live_rules input.rules input.now)))
        input.net_subtotal
      ≡ some_live input (λ r. has_threshold r && leb (threshold_of r) input.net_subtotal)
reached-live input =
    let live = live_rules input.rules input.now in
    let p = λ (r : FreeShippingRule). leb (threshold_of r) input.net_subtotal in
    reached-lowest_from none (keep has_threshold live) input.net_subtotal
    ∙ any-keep p has_threshold live
    ∙ any-live_rules input (λ r. has_threshold r && p r)

-- The fee is nothing if there is a reason for it, and otherwise that of the zone, if it is known.
pub resolve_shipping_fee :
    (input : ShippingInput)
    → (resolve_shipping input).fee
      ≡ (if wants_free input then some 0 else map_option (λ z. z.fee) input.zone)
unfolding resolve_shipping outcome
resolve_shipping_fee input =
    let live = live_rules input.rules input.now in
    let lowest = lowest_from none (keep has_threshold live) in
    let campaign_rule = find (λ r. is_campaign r.type) live in
    let bundle : is_some (find (λ r. is_any_bundle r.type) live)
        ≡ some_live input (λ r. is_any_bundle r.type) =
      find-is_some (λ r. is_any_bundle r.type) live
      ∙ any-live_rules input (λ r. is_any_bundle r.type) in
    let section : is_some (find (is_for_section input.lines) live)
        ≡ some_live input (is_for_section input.lines) =
      find-is_some (is_for_section input.lines) live
      ∙ any-live_rules input (is_for_section input.lines) in
    let campaigns : is_some (find (λ r. is_campaign r.type) live)
        ≡ some_live input (λ r. is_campaign r.type) =
      find-is_some (λ r. is_campaign r.type) live
      ∙ any-live_rules input (λ r. is_campaign r.type) in
    let reach = reached-live input in ground (arith, by_total-fee input campaign_rule lowest)

by_total_hint :
    (input : ShippingInput) (c m : Option FreeShippingRule) {k : Money}
    → (by_total input c m).amount_to_free ≡ some k
    → (0 < k) × (reached m (input.net_subtotal + k) ≡ true)
unfolding by_total by_zone outcome to_free below
by_total_hint input (some c) m e = cc
by_total_hint input none none e = ground arith
by_total_hint input none (some m) e = ground arith

resolve_shipping_hint :
    (input : ShippingInput) {k : Money}
    → (resolve_shipping input).amount_to_free ≡ some k
    → let live = live_rules input.rules input.now in
      (by_total input
        (find (λ r. is_campaign r.type) live)
        (lowest_from none (keep has_threshold live))).amount_to_free
      ≡ some k
unfolding resolve_shipping outcome to_free
resolve_shipping_hint input e = ground arith

-- The hint "add k more": it is more than nothing, and a cart with some line whose net subtotal is
-- higher by k ships for nothing.
pub amount_to_free_suffices :
    (input : ShippingInput) (k : Money)
    → input.lines ≢ []
    → (resolve_shipping input).amount_to_free ≡ some k
    → (0 < k)
      × ((resolve_shipping (record input { net_subtotal = input.net_subtotal + k })).fee ≡ some 0)
amount_to_free_suffices input k filled e =
    let live = live_rules input.rules input.now in
    let (positive, reach) =
      by_total_hint input (find (λ r. is_campaign r.type) live)
        (lowest_from none (keep has_threshold live)) (resolve_shipping_hint input e) in
    let more : ShippingInput = record input { net_subtotal = input.net_subtotal + k } in
    let some_line : is_empty input.lines ≡ false = ground arith in
    let free : wants_free more ≡ true = ground (arith, reached-live more) in
    (positive, resolve_shipping_fee more ∙ rw free)
