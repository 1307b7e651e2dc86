-- ===== src/Money/Allocate.antt =====
-- `allocate` of backend/src/common/utils/money.ts: a total is split over weights, largest remainder
-- first. The remainders are compared by their exact numerators over the sum of the weights.
pub mod Order
pub mod Exact
pub mod Bounds
use brothers_book_house.Base.{
  List, [], false, if◌then◌else◌, ltb, map, suc, sum, true, zero, ℕ, ◌*◌, ◌+◌, ◌-◌, ◌==◌, ◌∷◌,
}
use brothers_book_house.Money.{Decimal, Money}

-- A place in the result and the fraction that was cut off there.
pub record Remainder : Type 0 where
  pub place : ℕ
  pub frac : ℕ

-- `arr[i] = arr[i].plus(0.01)`
pub add_at : ℕ → List Money → List Money
add_at i [] = []
add_at zero (x ∷ xs) = (x + 1) ∷ xs
add_at (suc i) (x ∷ xs) = x ∷ add_at i xs

-- the stable `sort((a, b) => b.frac - a.frac)`
pub insert_desc : Remainder → List Remainder → List Remainder
insert_desc r [] = r ∷ []
insert_desc r (q ∷ qs) = if ltb r.frac q.frac then q ∷ insert_desc r qs else r ∷ (q ∷ qs)

pub sort_desc : List Remainder → List Remainder
sort_desc [] = []
sort_desc (r ∷ rs) = insert_desc r (sort_desc rs)

-- the loop that hands out the paisa that are left
pub hand_out : List Remainder → ℕ → List Money → List Money
hand_out [] rest out = out
hand_out (r ∷ rs) rest out = elim (rest == 0) [
  | true ↦ out
  | false ↦ hand_out rs (rest - 1) (add_at r.place out)
]

-- `w.map((_, i) => (i === 0 ? t : ZERO))`
abbrev pub first_takes : Money → List Money → List Money
first_takes t [] = []
first_takes t (x ∷ xs) = t ∷ map (λ _. 0) xs

module _ ⦃dec : Decimal⦄ (t w_sum : ℕ) where
  -- `raw.map((x) => x.toDecimalPlaces(2, ROUND_DOWN))`
  pub floors : List Money → List Money
  floors [] = []
  floors (x ∷ xs) = dec.down (t * x) w_sum ∷ floors xs

  pub remainders : ℕ → List Money → List Remainder
  remainders i [] = []
  remainders i (x ∷ xs) =
      record { place = i; frac = t * x - dec.down (t * x) w_sum * w_sum } ∷ remainders (i + 1) xs

unfoldable pub allocate : ⦃dec : Decimal⦄ → Money → List Money → List Money
unfolding floors remainders sort_desc insert_desc hand_out add_at
allocate t w =
    let w_sum = sum w in
    let floored = floors t w_sum w in
    if w_sum == 0
    then first_takes t w
    else hand_out (sort_desc (remainders t w_sum 0 w)) (t - sum floored) floored
