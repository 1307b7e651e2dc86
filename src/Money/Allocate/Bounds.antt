-- ===== src/Money/Allocate/Bounds.antt =====
-- No part of `allocate` exceeds its weight, as long as the total does not exceed the weights.
use brothers_book_house.Base.{
  All, Bool-cases, List, [], add-zero, ap, arith, inl, inr, le_of_mul-le-mul_left,
  lt_of_mul-lt-mul_left, map, refl, suc, sum, zero, zero-add, ℕ, ℕ_discrete, ◌*◌, ◌+◌, ◌-◌, ◌<◌,
  ◌==◌, ◌∷◌, ◌≡◌, ◌≢◌, ◌≤◌,
}
use brothers_book_house.Money.{Decimal, Money}
use brothers_book_house.Money.Allocate.{
  Remainder, add_at, allocate, first_takes, floors, hand_out, remainders, sort_desc,
}
use brothers_book_house.Money.Allocate.Exact.{rest-le-positives}
use brothers_book_house.Money.Allocate.Order.{
  All-sort_desc, Distinct, IsDescending, positives, positives-sort_desc, sort_desc-Distinct,
  sort_desc-IsDescending,
}

-- What stands at a place, 0 outside.
abbrev pub nth : ℕ → List Money → Money
nth i [] = 0
nth zero (x ∷ xs) = x
nth (suc i) (x ∷ xs) = nth i xs

abbrev pub Below : List Money → List Money → Type 0
Below xs ys = (i : ℕ) → nth i xs ≤ nth i ys

nth-add_at_ne : (i j : ℕ) (xs : List Money) → i ≢ j → nth j (add_at i xs) ≡ nth j xs
unfolding add_at
nth-add_at_ne i j [] h = refl
nth-add_at_ne zero zero (x ∷ xs) h = absurd (h refl)
nth-add_at_ne zero (suc j) (x ∷ xs) h = refl
nth-add_at_ne (suc i) zero (x ∷ xs) h = refl
nth-add_at_ne (suc i) (suc j) (x ∷ xs) h = nth-add_at_ne i j xs (λ e. h (ap suc e))

nth-add_at-le : (i : ℕ) (xs : List Money) → nth i (add_at i xs) ≤ nth i xs + 1
unfolding add_at
nth-add_at-le i [] = omega arith
nth-add_at-le zero (x ∷ xs) = omega arith
nth-add_at-le (suc i) (x ∷ xs) = nth-add_at-le i xs

-- A place that lost a fraction has room for one more paisa.
abbrev HasRoom : List Money → List Money → Remainder → Type 0
HasRoom w out r = 0 < r.frac → nth r.place out + 1 ≤ nth r.place w

All-room :
    (w out : List Money) (i : ℕ) (rs : List Remainder)
    → All (λ q. i ≢ q.place) rs
    → All (HasRoom w out) rs
    → All (HasRoom w (add_at i out)) rs
All-room w out i [] f p = tt
All-room w out i (q ∷ qs) f p =
    (λ h. rw (nth-add_at_ne i q.place out f.0) (p.0 h), All-room w out i qs f.1 p.1)

positives_none :
    (r : Remainder) (rs : List Remainder)
    → All (λ q. q.frac ≤ r.frac) rs
    → r.frac ≡ 0
    → positives rs ≡ 0
positives_none r [] d e = refl
positives_none r (q ∷ qs) d e = ground (arith, positives_none r qs d.1 e)

Below-add_at :
    (w out : List Money) (i : ℕ) → Below out w → nth i out + 1 ≤ nth i w → Below (add_at i out) w
Below-add_at w out i b room j = elim (ℕ_discrete i j) [
  | yes e ↦ rw (← e) (omega (arith, nth-add_at-le i out))
  | no n ↦ rw (nth-add_at_ne i j out n) (b j)
]

hand_out-suc :
    (r : Remainder) (rs : List Remainder) (rest : ℕ) (out : List Money)
    → hand_out (r ∷ rs) (suc rest) out ≡ hand_out rs rest (add_at r.place out)
unfolding hand_out
hand_out-suc r rs rest out = let back : suc rest - 1 ≡ rest = omega arith in ground arith

Below-hand_out :
    (w : List Money) (rs : List Remainder) (rest : ℕ) (out : List Money)
    → IsDescending rs
    → Distinct rs
    → All (HasRoom w out) rs
    → rest ≤ positives rs
    → Below out w
    → Below (hand_out rs rest out) w
unfolding hand_out
Below-hand_out w [] rest out d n p h b = b
Below-hand_out w (r ∷ rs) zero out d n p h b = b
Below-hand_out w (r ∷ rs) (suc rest) out d n p h b =
    let lost : 0 < r.frac = ground (arith, positives_none r rs d.0) in
    rw (hand_out-suc r rs rest out) (
      Below-hand_out w rs rest (add_at r.place out) d.1 n.1 (All-room w out r.place rs n.0 p.1)
        (ground arith) (Below-add_at w out r.place b (p.0 lost)))

-- Remainders that carry the places from `i` on are distinct.
places_from :
    ⦃dec : Decimal⦄ (t w_sum i k : ℕ) (w : List Money)
    → i < k
    → All (λ q. i ≢ q.place) (remainders t w_sum k w)
unfolding remainders
places_from t w_sum i k [] h = tt
places_from t w_sum i k (x ∷ xs) h = (omega arith, places_from t w_sum i (k + 1) xs (omega arith))

remainders-Distinct :
    ⦃dec : Decimal⦄ (t w_sum i : ℕ) (w : List Money) → Distinct (remainders t w_sum i w)
unfolding remainders
remainders-Distinct t w_sum i [] = tt
remainders-Distinct t w_sum i (x ∷ xs) =
    (places_from t w_sum i (i + 1) xs (omega arith), remainders-Distinct t w_sum (i + 1) xs)

module _ ⦃dec : Decimal⦄ (t w_sum : ℕ) (positive : 0 < w_sum) (fits : t ≤ w_sum) where
  share_le : (x : ℕ) → t * x ≤ w_sum * x
  share_le x = grind arith

  down-le : (x : ℕ) → dec.down (t * x) w_sum ≤ x
  down-le x =
      le_of_mul-le-mul_left {k = w_sum}
        (omega (arith, share_le x, dec.down_floor (t * x) w_sum positive)) positive

  down_room : (x : ℕ) → 0 < t * x - dec.down (t * x) w_sum * w_sum → dec.down (t * x) w_sum + 1 ≤ x
  down_room x h =
      let below : w_sum * dec.down (t * x) w_sum < w_sum * x = omega (arith, share_le x) in
      omega (arith, lt_of_mul-lt-mul_left w_sum below)

  Below-floors : (w : List Money) → Below (floors t w_sum w) w
  unfolding floors
  Below-floors [] i = omega arith
  Below-floors (x ∷ xs) zero = down-le x
  Below-floors (x ∷ xs) (suc i) = Below-floors xs i

  rooms :
      (w out : List Money) (i : ℕ) (xs : List Money)
      → ((k : ℕ) → nth (i + k) out ≡ nth k (floors t w_sum xs))
      → ((k : ℕ) → nth (i + k) w ≡ nth k xs)
      → All (HasRoom w out) (remainders t w_sum i xs)
  unfolding remainders floors
  rooms w out i [] f g = tt
  rooms w out i (x ∷ xs) f g = (
    λ h. omega (arith, down_room x h, rw add-zero at (f 0), rw add-zero at (g 0)),
    rooms w out (i + 1) xs (λ k. rw (add-one_add k) (f (suc k)))
        (λ k. rw (add-one_add k) (g (suc k))),
  )
    where
      add-one_add : (k : ℕ) → i + 1 + k ≡ i + suc k
      add-one_add k = omega arith

sum_zero : (w : List Money) → sum w ≡ 0 → (i : ℕ) → nth i w ≡ 0
sum_zero [] e i = refl
sum_zero (x ∷ xs) e zero = omega arith
sum_zero (x ∷ xs) e (suc i) = sum_zero xs (omega arith) i

pub nth-zeros : {A : Type 0} (xs : List A) (i : ℕ) → nth i (map (λ _. 0) xs) ≡ 0
nth-zeros [] i = refl
nth-zeros (x ∷ xs) zero = refl
nth-zeros (x ∷ xs) (suc i) = nth-zeros xs i

Below-first_takes : (t : Money) (w : List Money) → t ≡ 0 → Below (first_takes t w) w
Below-first_takes t [] e i = omega arith
Below-first_takes t (x ∷ xs) e zero = omega arith
Below-first_takes t (x ∷ xs) e (suc i) = omega (arith, nth-zeros xs i)

module _ ⦃dec : Decimal⦄ where
  -- If the total is at most the sum of the weights, then at every place the part is at most the
  -- weight.
  pub Below-allocate : (t : Money) (w : List Money) → t ≤ sum w → Below (allocate t w) w
  unfolding allocate
  Below-allocate t w fits = elim (Bool-cases (sum w == 0)) [
    | inl e ↦ rw e (Below-first_takes t w (ground arith))
    | inr e ↦ rw e (handed (ground arith))
  ]
    where
      handed :
          0 < sum w
          → Below
              (hand_out
                (sort_desc (remainders t (sum w) 0 w))
                (t - sum (floors t (sum w) w))
                (floors t (sum w) w))
              w
      handed p =
          let rs = remainders t (sum w) 0 w in
          Below-hand_out w (sort_desc rs) (t - sum (floors t (sum w) w)) (floors t (sum w) w)
            (sort_desc-IsDescending rs) (sort_desc-Distinct rs (remainders-Distinct t (sum w) 0 w))
            (All-sort_desc (HasRoom w (floors t (sum w) w)) rs (
              rooms t (sum w) p fits w (floors t (sum w) w) 0 w (λ k. rw zero-add)
                (λ k. rw zero-add)))
            (rw (positives-sort_desc rs) (rest-le-positives t (sum w) p w refl))
            (Below-floors t (sum w) p fits w)
