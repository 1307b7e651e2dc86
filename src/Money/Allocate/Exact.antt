-- ===== src/Money/Allocate/Exact.antt =====
-- The parts of `allocate` add up to the total.
use brothers_book_house.Base.{
  All, Bool-cases, List, [], ap, arith, inl, inr, le_of_mul-le-mul_left, length, length-map, map,
  refl, suc, sum, sum_by, zero, ℕ, ◌*◌, ◌+◌, ◌-◌, ◌<◌, ◌==◌, ◌∙◌, ◌∷◌, ◌≡◌, ◌≢◌, ◌≤◌,
}
use brothers_book_house.Money.{Decimal, Money}
use brothers_book_house.Money.Allocate.{
  Remainder, add_at, allocate, first_takes, floors, hand_out, remainders, sort_desc,
}
use brothers_book_house.Money.Allocate.Order.{All-sort_desc, length-sort_desc, positives}

-- Handing out adds one paisa for each place, as long as there are some left.
length-add_at : (i : ℕ) (xs : List Money) → length (add_at i xs) ≡ length xs
unfolding add_at
length-add_at i [] = refl
length-add_at zero (x ∷ xs) = refl
length-add_at (suc i) (x ∷ xs) = omega (arith, length-add_at i xs)

sum-add_at : (i : ℕ) (xs : List Money) → i < length xs → sum (add_at i xs) ≡ sum xs + 1
unfolding add_at
sum-add_at i [] h = absurd (omega arith)
sum-add_at zero (x ∷ xs) h = omega arith
sum-add_at (suc i) (x ∷ xs) h = omega (arith, sum-add_at i xs)

sum-hand_out :
    (rs : List Remainder) (rest : ℕ) (out : List Money)
    → All (λ r. r.place < length out) rs
    → rest ≤ length rs
    → sum (hand_out rs rest out) ≡ sum out + rest
unfolding hand_out
sum-hand_out [] rest out p h = omega arith
sum-hand_out (r ∷ rs) rest out p h =
    let moved : All (λ q. q.place < length (add_at r.place out)) rs =
      rw (length-add_at r.place out) p.1 in
    ground
      (arith, sum-hand_out rs (rest - 1) (add_at r.place out) moved, sum-add_at r.place out p.0)

module _ ⦃dec : Decimal⦄ (t w_sum : ℕ) (positive : 0 < w_sum) where
  length-floors : (w : List Money) → length (floors t w_sum w) ≡ length w
  unfolding floors
  length-floors [] = refl
  length-floors (x ∷ xs) = omega (arith, length-floors xs)

  length-remainders : (i : ℕ) (w : List Money) → length (remainders t w_sum i w) ≡ length w
  unfolding remainders
  length-remainders i [] = refl
  length-remainders i (x ∷ xs) = omega (arith, length-remainders (i + 1) xs)

  places_below :
      (i n : ℕ) (w : List Money)
      → i + length w ≤ n
      → All (λ r. r.place < n) (remainders t w_sum i w)
  unfolding remainders
  places_below i n [] h = tt
  places_below i n (x ∷ xs) h = (omega arith, places_below (i + 1) n xs (omega arith))

  pub positives-remainders :
      (i : ℕ) (w : List Money)
      → sum_by (λ r. r.frac) (remainders t w_sum i w) ≤ w_sum * positives (remainders t w_sum i w)
  unfolding remainders
  positives-remainders i [] = omega arith
  positives-remainders i (x ∷ xs) =
      grind (arith, positives-remainders (i + 1) xs, dec.down_floor (t * x) w_sum positive)

  pub shares-eq-floors-add-cut :
      (i : ℕ) (w : List Money)
      → t * sum w ≡ w_sum * sum (floors t w_sum w) + sum_by (λ r. r.frac) (remainders t w_sum i w)
  unfolding remainders floors
  shares-eq-floors-add-cut i [] = omega arith
  shares-eq-floors-add-cut i (x ∷ xs) =
      grind (arith, shares-eq-floors-add-cut (i + 1) xs, dec.down_floor (t * x) w_sum positive)

  pub floors-le : (w : List Money) → sum w ≡ w_sum → sum (floors t w_sum w) ≤ t
  floors-le w e =
      le_of_mul-le-mul_left {k = w_sum}
        (omega (arith, shares-eq-floors-add-cut 0 w, ap (λ (s : ℕ). t * s) e)) positive

  -- Fewer paisa are left than places that lost a fraction, or none.
  pub rest-le-positives :
      (w : List Money)
      → sum w ≡ w_sum
      → t - sum (floors t w_sum w) ≤ positives (remainders t w_sum 0 w)
  rest-le-positives w e =
      let bound : w_sum * (t - sum (floors t w_sum w))
          ≤ w_sum * positives (remainders t w_sum 0 w) =
        grind (
          arith,
          shares-eq-floors-add-cut 0 w,
          ap (λ (s : ℕ). t * s) e,
          positives-remainders 0 w,
          floors-le w e,
        ) in
      le_of_mul-le-mul_left {k = w_sum} bound positive

positives-le-length : (rs : List Remainder) → positives rs ≤ length rs
positives-le-length [] = omega arith
positives-le-length (r ∷ rs) = ground (arith, positives-le-length rs)

pub sum-zeros : {A : Type 0} (xs : List A) → sum (map (λ _. 0) xs) ≡ 0
sum-zeros [] = refl
sum-zeros (x ∷ xs) = omega (arith, sum-zeros xs)

sum-first_takes : (t : Money) (w : List Money) → w ≢ [] → sum (first_takes t w) ≡ t
sum-first_takes t [] h = absurd (h refl)
sum-first_takes t (x ∷ xs) h = omega (arith, sum-zeros xs)

module _ ⦃dec : Decimal⦄ where
  -- The parts add up to the total, exactly, whenever there is a place to put it.
  pub sum-allocate : (t : Money) (w : List Money) → w ≢ [] → sum (allocate t w) ≡ t
  unfolding allocate
  sum-allocate t w h = elim (Bool-cases (sum w == 0)) [
    | inl e ↦ rw e (sum-first_takes t w h)
    | inr e ↦ rw e (handed (ground arith))
  ]
    where
      handed :
          0 < sum w
          → sum (
              hand_out
                (sort_desc (remainders t (sum w) 0 w))
                (t - sum (floors t (sum w) w))
                (floors t (sum w) w))
            ≡ t
      handed p =
          let places =
            All-sort_desc (λ r. r.place < length (floors t (sum w) w)) (remainders t (sum w) 0 w)
              (places_below t (sum w) p 0 (length (floors t (sum w) w)) w
                (omega (arith, length-floors t (sum w) p w))) in
          omega (
            arith,
            sum-hand_out (sort_desc (remainders t (sum w) 0 w)) (t - sum (floors t (sum w) w))
                (floors t (sum w) w) places
                (omega (
                  arith,
                  length-sort_desc (remainders t (sum w) 0 w),
                  rest-le-positives t (sum w) p w refl,
                  positives-le-length (remainders t (sum w) 0 w),
                )),
            floors-le t (sum w) p w refl,
          )

length-hand_out :
    (rs : List Remainder) (rest : ℕ) (out : List Money) → length (hand_out rs rest out) ≡ length out
unfolding hand_out
length-hand_out [] rest out = refl
length-hand_out (r ∷ rs) rest out =
    ground (arith, length-hand_out rs (rest - 1) (add_at r.place out), length-add_at r.place out)

length-first_takes : (t : Money) (w : List Money) → length (first_takes t w) ≡ length w
length-first_takes t [] = refl
length-first_takes t (x ∷ xs) = omega (arith, length-map {0, 0} {B = ℕ} (λ _. 0) xs)

module _ ⦃dec : Decimal⦄ where
  -- There is one part for each weight.
  pub length-allocate : (t : Money) (w : List Money) → length (allocate t w) ≡ length w
  unfolding allocate
  length-allocate t w = elim (Bool-cases (sum w == 0)) [
    | inl e ↦ rw e (length-first_takes t w)
    | inr e ↦ rw e (
        length-hand_out (sort_desc (remainders t (sum w) 0 w)) (t - sum (floors t (sum w) w))
          (floors t (sum w) w)
        ∙ length-floors t (sum w) (ground arith) w)
  ]
