-- ===== src/Money/Rounding.antt =====
-- The rounding that the interface `Decimal` asks for, as integer division: the interface can be met,
-- and tests can run.
use brothers_book_house.Base.{arith, ℕ, ◌*◌, ◌+◌, ◌/◌, ◌<◌, ◌≤◌}
use brothers_book_house.Money.{Decimal}

abbrev pub half_up : ℕ → ℕ → ℕ
half_up n d = (2 * n + d) / (2 * d)

abbrev pub down : ℕ → ℕ → ℕ
down n d = n / d

pub half_up_nearest :
    (n d : ℕ) → 0 < d → (2 * (d * half_up n d) ≤ 2 * n + d) × (2 * n < 2 * (d * half_up n d) + d)
half_up_nearest n d h = grind arith

pub down_floor : (n d : ℕ) → 0 < d → (d * down n d ≤ n) × (n < d * down n d + d)
down_floor n d h = grind arith

instance abbrev pub paisa_decimal : Decimal
paisa_decimal = record {
  half_up = half_up;
  down = down;
  half_up_nearest = half_up_nearest;
  down_floor = down_floor;
}
