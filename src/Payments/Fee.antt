-- ===== src/Payments/Fee.antt =====
-- backend/src/modules/payments/sslcommerz/domain/validation.ts: computeGatewayFee.
use brothers_book_house.Base.{
  Option, arith, get_or, if◌then◌else◌, leb, ltb, none, some, ℕ, ◌*◌, ◌+◌, ◌-◌, ◌≡◌, ◌≤◌,
}
use brothers_book_house.Money.{Decimal, Money, percent_of}
use brothers_book_house.Payments.Validation.{SentAmount, below_zero, numeric, odd}

-- amount − store_amount, if it lies between zero and the amount
abbrev pub kept_by_gateway : Money → SentAmount → Option Money
kept_by_gateway amount (numeric s) = if leb s amount then some (amount - s) else none
kept_by_gateway amount (below_zero n) =
    if leb (amount + (n + 1)) amount then some (amount + (n + 1)) else none
kept_by_gateway amount odd = none

module _ ⦃dec : Decimal⦄ where
  abbrev pub fallback_fee : Money → ℕ → Money
  fallback_fee amount pct = if ltb 0 pct then percent_of amount pct else 0

  unfoldable pub compute_gateway_fee : Money → Option SentAmount → ℕ → Money
  compute_gateway_fee amount none pct = fallback_fee amount pct
  compute_gateway_fee amount (some s) pct =
      get_or (kept_by_gateway amount s) (fallback_fee amount pct)

  percent_of_le : (amount pct : ℕ) → pct ≤ 10_000 → percent_of amount pct ≤ amount
  unfolding percent_of
  percent_of_le amount pct h =
      grind (arith, (dec.half_up_nearest (amount * pct) 10_000 (omega arith)).0)

  -- With a fallback rate of at most 100 %, the fee never exceeds the amount; where the gateway says what
  -- it pays out and that is at most the amount, the fee and what is paid out make up the amount.
  pub compute_gateway_fee_lem :
      (amount : Money) (store : Option SentAmount) (pct : ℕ)
      → pct ≤ 10_000
      → (compute_gateway_fee amount store pct ≤ amount)
        × ((s : Money)
            → store ≡ some (numeric s)
            → s ≤ amount
            → compute_gateway_fee amount store pct + s ≡ amount)
  unfolding compute_gateway_fee
  compute_gateway_fee_lem amount none pct h =
      (ground (arith, percent_of_le amount pct h), λ s e l. ground arith)
  compute_gateway_fee_lem amount (some (numeric a)) pct h =
      (ground (arith, percent_of_le amount pct h), λ s e l. ground arith)
  compute_gateway_fee_lem amount (some (below_zero n)) pct h =
      (ground (arith, percent_of_le amount pct h), λ s e l. ground arith)
  compute_gateway_fee_lem amount (some odd) pct h =
      (ground (arith, percent_of_le amount pct h), λ s e l. ground arith)
