-- ===== src/Money.antt =====
-- backend/src/common/utils/money.ts. Amounts of taka have two places and are kept as a number of
-- paisa; a percentage has two places and is kept as a number of hundredths of a percent. On such
-- values `plus`, `minus`, `times` and the comparisons of Prisma.Decimal are those of the numbers, and
-- `round2` changes nothing. What is not exact, the rounding of a quotient, is the package's: it enters
-- as the interface `Decimal`.
pub mod Allocate
pub mod Rounding
use brothers_book_house.Base.{if◌then◌else◌, ltb, ℕ, ◌*◌, ◌+◌, ◌<◌, ◌≤◌}

-- `toDecimalPlaces` of the quotient of two numbers, in units of the last place kept.
pub record Decimal : Type 0 where
  -- ROUND_HALF_UP
  pub half_up : ℕ → ℕ → ℕ
  -- ROUND_DOWN
  pub down : ℕ → ℕ → ℕ
  -- the nearest number of units, and the higher one of two that are as near
  pub half_up_nearest :
      (n d : ℕ) → 0 < d → (2 * (d * half_up n d) ≤ 2 * n + d) × (2 * n < 2 * (d * half_up n d) + d)
  -- the units that are full
  pub down_floor : (n d : ℕ) → 0 < d → (d * down n d ≤ n) × (n < d * down n d + d)

abbrev pub Money : Type 0
Money = ℕ

-- `min(a, b)`
abbrev pub min : Money → Money → Money
min a b = if ltb a b then a else b

-- `max(a, b)`
abbrev pub max : Money → Money → Money
max a b = if ltb b a then a else b

module _ ⦃dec : Decimal⦄ where
  -- `percentOf(amount, pct)`, the percentage in hundredths
  unfoldable pub percent_of : Money → ℕ → Money
  percent_of amount pct = dec.half_up (amount * pct) 10_000

  -- `roundTo(v, step)`, the step in taka
  unfoldable pub round_to : Money → ℕ → Money
  round_to v step = dec.half_up v (step * 100) * (step * 100)
