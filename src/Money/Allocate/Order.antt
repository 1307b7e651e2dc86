-- ===== src/Money/Allocate/Order.antt =====
-- The order in which the paisa that are left are handed out: a stable descending sort of the places.
use brothers_book_house.Base.{
  All, Bool-cases, List, [], arith, if◌then◌else◌, inl, inr, length, ltb, refl, sym, ℕ, ◌+◌, ◌∷◌,
  ◌≡◌, ◌≢◌, ◌≤◌,
}
use brothers_book_house.Money.Allocate.{Remainder, insert_desc, sort_desc}

-- No place stands twice.
abbrev pub Distinct : List Remainder → Type 0
Distinct [] = Unit
Distinct (r ∷ rs) = All (λ q. r.place ≢ q.place) rs × Distinct rs

abbrev pub IsDescending : List Remainder → Type 0
IsDescending [] = Unit
IsDescending (r ∷ rs) = All (λ q. q.frac ≤ r.frac) rs × IsDescending rs

-- How many places lost a fraction.
abbrev pub positives : List Remainder → ℕ
positives [] = 0
positives (r ∷ rs) = (if ltb 0 r.frac then 1 else 0) + positives rs

module _ (P : Remainder → Type 0) where
  All-insert_desc :
      (r : Remainder) (rs : List Remainder) → P r → All P rs → All P (insert_desc r rs)
  unfolding insert_desc
  All-insert_desc r [] p ps = (p, tt)
  All-insert_desc r (q ∷ qs) p ps = elim (Bool-cases (ltb r.frac q.frac)) [
    | inl e ↦ rw e (ps.0, All-insert_desc r qs p ps.1)
    | inr e ↦ rw e (p, ps)
  ]

  pub All-sort_desc : (rs : List Remainder) → All P rs → All P (sort_desc rs)
  unfolding sort_desc
  All-sort_desc [] ps = tt
  All-sort_desc (r ∷ rs) ps = All-insert_desc r (sort_desc rs) ps.0 (All-sort_desc rs ps.1)

pub length-insert_desc :
    (r : Remainder) (rs : List Remainder) → length (insert_desc r rs) ≡ length rs + 1
unfolding insert_desc
length-insert_desc r [] = omega arith
length-insert_desc r (q ∷ qs) = ground (arith, length-insert_desc r qs)

pub length-sort_desc : (rs : List Remainder) → length (sort_desc rs) ≡ length rs
unfolding sort_desc
length-sort_desc [] = refl
length-sort_desc (r ∷ rs) = omega (arith, length-insert_desc r (sort_desc rs), length-sort_desc rs)

positives-insert_desc :
    (r : Remainder) (rs : List Remainder) → positives (insert_desc r rs) ≡ positives (r ∷ rs)
unfolding insert_desc
positives-insert_desc r [] = refl
positives-insert_desc r (q ∷ qs) = ground (arith, positives-insert_desc r qs)

pub positives-sort_desc : (rs : List Remainder) → positives (sort_desc rs) ≡ positives rs
unfolding sort_desc
positives-sort_desc [] = refl
positives-sort_desc (r ∷ rs) =
    omega (arith, positives-insert_desc r (sort_desc rs), positives-sort_desc rs)

All-le_trans :
    (a b : ℕ) (rs : List Remainder) → a ≤ b → All (λ q. q.frac ≤ a) rs → All (λ q. q.frac ≤ b) rs
All-le_trans a b [] h p = tt
All-le_trans a b (r ∷ rs) h p = (omega arith, All-le_trans a b rs h p.1)

insert_desc-IsDescending :
    (r : Remainder) (rs : List Remainder) → IsDescending rs → IsDescending (insert_desc r rs)
unfolding insert_desc
insert_desc-IsDescending r [] d = (tt, tt)
insert_desc-IsDescending r (q ∷ qs) d = elim (Bool-cases (ltb r.frac q.frac)) [
  | inl e ↦ rw e (
    All-insert_desc (λ s. s.frac ≤ q.frac) r qs (ground arith) d.0,
    insert_desc-IsDescending r qs d.1,
  )
  | inr e ↦ rw e ((ground arith, All-le_trans q.frac r.frac qs (ground arith) d.0), d)
]

pub sort_desc-IsDescending : (rs : List Remainder) → IsDescending (sort_desc rs)
unfolding sort_desc
sort_desc-IsDescending [] = tt
sort_desc-IsDescending (r ∷ rs) =
    insert_desc-IsDescending r (sort_desc rs) (sort_desc-IsDescending rs)

All-ne_sym : (r q : Remainder) → r.place ≢ q.place → q.place ≢ r.place
All-ne_sym r q h e = h (sym e)

insert_desc-Distinct :
    (r : Remainder) (rs : List Remainder)
    → All (λ q. r.place ≢ q.place) rs
    → Distinct rs
    → Distinct (insert_desc r rs)
unfolding insert_desc
insert_desc-Distinct r [] f d = (tt, tt)
insert_desc-Distinct r (q ∷ qs) f d = elim (Bool-cases (ltb r.frac q.frac)) [
  | inl e ↦ rw e (
    All-insert_desc (λ s. q.place ≢ s.place) r qs (All-ne_sym r q f.0) d.0,
    insert_desc-Distinct r qs f.1 d.1,
  )
  | inr e ↦ rw e (f, d)
]

pub sort_desc-Distinct : (rs : List Remainder) → Distinct rs → Distinct (sort_desc rs)
unfolding sort_desc
sort_desc-Distinct [] d = tt
sort_desc-Distinct (r ∷ rs) d =
    insert_desc-Distinct r (sort_desc rs) (All-sort_desc (λ q. r.place ≢ q.place) rs d.0)
      (sort_desc-Distinct rs d.1)
