-- ===== src/Catalog/Stock.antt =====
-- backend/src/modules/catalog/domain/stock.ts: the stock badge and the alerts. Counts are not negative,
-- as the database demands.
use brothers_book_house.Base.{
  Bool, Bool-cases, Option, arith, false, get_or, if◌then◌else◌, inl, inr, leb, ltb, not, true, ℕ,
  ◌&&◌, ◌-◌, ◌||◌, ◌↔◌, ◌≡◌, ◌≢◌,
}

pub data StockStatus : Type 0 where
  in_stock low out : StockStatus

pub record StockLike : Type 0 where
  pub track_inventory : Bool
  pub allow_backorder : Bool
  pub stock_on_hand : ℕ
  pub stock_reserved : ℕ
  pub low_stock_threshold : Option ℕ

pub record StockTransition : Type 0 where
  pub became_low : Bool
  pub restocked : Bool

-- `Math.max(0, onHand - reserved)`
abbrev pub available_units : StockLike → ℕ
available_units s =
    if ltb s.stock_on_hand s.stock_reserved then 0 else s.stock_on_hand - s.stock_reserved

abbrev pub threshold_of : StockLike → ℕ → ℕ
threshold_of s fallback = get_or s.low_stock_threshold fallback

unfoldable pub stock_status : StockLike → ℕ → StockStatus
stock_status s fallback =
    if not s.track_inventory || s.allow_backorder
    then in_stock
    else if leb (available_units s) 0
    then out
    else if leb (available_units s) (threshold_of s fallback)
    then low
    else in_stock

unfoldable pub stock_transition : ℕ → ℕ → ℕ → StockTransition
stock_transition before after threshold = record {
  became_low = ltb threshold before && leb after threshold;
  restocked = leb before 0 && ltb 0 after;
}

-- Let the stock of a product that is tracked, not sold on back order and not reserved change. The alert
-- of low stock goes off exactly when the badge leaves `in_stock`, and that of new stock exactly when it
-- leaves `out`.
stock_transition_lem :
    (s : StockLike) (after fallback : ℕ)
    → s.track_inventory ≡ true
    → s.allow_backorder ≡ false
    → s.stock_reserved ≡ 0
    → let moved = record s { stock_on_hand = after } in
      let t = stock_transition s.stock_on_hand after (threshold_of s fallback) in
      ((t.became_low ≡ true)
        ↔ ((stock_status s fallback ≡ in_stock) × (stock_status moved fallback ≢ in_stock)))
      × ((t.restocked ≡ true)
          ↔ ((stock_status s fallback ≡ out) × (stock_status moved fallback ≢ out)))
unfolding stock_status stock_transition
stock_transition_lem s after fallback t b r = (
  (
    λ h. (ground arith, λ e. ground arith),
    λ (p, q). elim (Bool-cases (leb after (threshold_of s fallback))) [
      | inl e ↦ ground arith
      | inr e ↦ absurd (q (ground arith))
    ],
  ),
  (
    λ h. (ground arith, λ e. ground arith),
    λ (p, q). elim (Bool-cases (ltb 0 after)) [
      | inl e ↦ ground arith
      | inr e ↦ absurd (q (ground arith))
    ],
  ),
)
