-- ===== src/Base/Lists.antt =====
-- Lists over the native numbers: length, sums, tests on all items, predicates on all items.
use Prim.Native.Nat.{ℕ, suc, ◌+◌}
use mathlib.Core.Path.{◌≡◌, refl}
use mathlib.Core.Bool.{Bool, true, false, ◌&&◌, ◌||◌}
use mathlib.Core.Option.{Option, none, some}
use mathlib.Core.List.{List, Perm, [], ◌∷◌, ◌++◌, map}
use mathlib.Core.List.Perm
use native.Mathlib.Omega.{arith}
use brothers_book_house.Base.Tests.{if◌then◌else◌, is_some}

module _ {ℓ} {A : Type ℓ} where
  abbrev pub length : List A → ℕ
  length [] = 0
  length (x ∷ xs) = suc (length xs)

  -- `xs.every(p)`
  abbrev pub every : (A → Bool) → List A → Bool
  every p [] = true
  every p (x ∷ xs) = p x && every p xs

  -- `xs.some(p)`
  abbrev pub any : (A → Bool) → List A → Bool
  any p [] = false
  any p (x ∷ xs) = p x || any p xs

  -- `xs.filter(p)`
  abbrev pub keep : (A → Bool) → List A → List A
  keep p [] = []
  keep p (x ∷ xs) = let rest = keep p xs in if p x then x ∷ rest else rest

  -- `xs.find(p)`
  abbrev pub find : (A → Bool) → List A → Option A
  find p [] = none
  find p (x ∷ xs) = let rest = find p xs in if p x then some x else rest

  abbrev pub is_empty : List A → Bool
  is_empty [] = true
  is_empty (x ∷ xs) = false

  abbrev pub All {κ} : (A → Type κ) → List A → Type κ
  All P [] = Unit
  All P (x ∷ xs) = P x × All P xs

  -- The sum of a number of each item.
  abbrev pub sum_by : (A → ℕ) → List A → ℕ
  sum_by f [] = 0
  sum_by f (x ∷ xs) = f x + sum_by f xs

  pub sum_by-append : (f : A → ℕ) (xs ys : List A) → sum_by f (xs ++ ys) ≡ sum_by f xs + sum_by f ys
  sum_by-append f [] ys = omega arith
  sum_by-append f (x ∷ xs) ys = omega (arith, sum_by-append f xs ys)

abbrev pub sum : List ℕ → ℕ
sum [] = 0
sum (x ∷ xs) = x + sum xs

abbrev pub zip_with {ℓ κ μ} :
    {A : Type ℓ} {B : Type κ} {C : Type μ} → (A → B → C) → List A → List B → List C
zip_with f (x ∷ xs) (y ∷ ys) = f x y ∷ zip_with f xs ys
zip_with f _ _ = []

pub length-map {ℓ κ} :
    {A : Type ℓ} {B : Type κ} (f : A → B) (xs : List A) → length (map f xs) ≡ length xs
length-map f [] = refl
length-map f (x ∷ xs) = omega (arith, length-map f xs)

-- A stable sort: an item goes before the first one that it must precede or equals.
module _ {ℓ} {A : Type ℓ} (after : A → A → Bool) where
  -- `after a b`: `b` stands before `a`
  unfoldable pub insert_by : A → List A → List A
  insert_by a [] = a ∷ []
  insert_by a (b ∷ bs) = let rest = insert_by a bs in if after a b then b ∷ rest else a ∷ (b ∷ bs)

  unfoldable pub sort_by : List A → List A
  unfolding insert_by
  sort_by [] = []
  sort_by (a ∷ as_) = insert_by a (sort_by as_)

  any-insert_by : (p : A → Bool) (a : A) (xs : List A) → any p (insert_by a xs) ≡ (p a || any p xs)
  unfolding insert_by
  any-insert_by p a [] = refl
  any-insert_by p a (x ∷ xs) = ground (arith, any-insert_by p a xs)

  -- Sorting keeps what holds of some item.
  pub any-sort_by : (p : A → Bool) (xs : List A) → any p (sort_by xs) ≡ any p xs
  unfolding sort_by
  any-sort_by p [] = refl
  any-sort_by p (x ∷ xs) = ground (arith, any-insert_by p x (sort_by xs), any-sort_by p xs)

  sum_by-insert_by :
      (f : A → ℕ) (a : A) (xs : List A) → sum_by f (insert_by a xs) ≡ f a + sum_by f xs
  unfolding insert_by
  sum_by-insert_by f a [] = refl
  sum_by-insert_by f a (x ∷ xs) = ground (arith, sum_by-insert_by f a xs)

  -- Sorting keeps the sums.
  pub sum_by-sort_by : (f : A → ℕ) (xs : List A) → sum_by f (sort_by xs) ≡ sum_by f xs
  unfolding sort_by
  sum_by-sort_by f [] = refl
  sum_by-sort_by f (x ∷ xs) = omega (arith, sum_by-insert_by f x (sort_by xs), sum_by-sort_by f xs)

  Perm-insert_by : (a : A) (xs : List A) → Perm (insert_by a xs) (a ∷ xs)
  unfolding insert_by
  Perm-insert_by a [] = Perm.refl (a ∷ [])
  Perm-insert_by a (x ∷ xs) = perm_cases (Perm-insert_by a xs) (after a x)
    where
      perm_cases :
          Perm (insert_by a xs) (a ∷ xs)
          → (b : Bool) → Perm (if b then x ∷ insert_by a xs else a ∷ (x ∷ xs)) (a ∷ (x ∷ xs))
      perm_cases rest true = Perm.trans (Perm.cons x rest) (Perm.swap a x xs)
      perm_cases rest false = Perm.refl (a ∷ (x ∷ xs))

  -- Sorting only reorders.
  pub Perm-sort_by : (xs : List A) → Perm (sort_by xs) xs
  unfolding sort_by
  Perm-sort_by [] = Perm.refl []
  Perm-sort_by (x ∷ xs) = Perm.trans (Perm-insert_by x (sort_by xs)) (Perm.cons x (Perm-sort_by xs))

  pub All-insert_by {κ} :
      (P : A → Type κ) (a : A) (xs : List A) → P a → All P xs → All P (insert_by a xs)
  unfolding insert_by
  All-insert_by P a [] p ps = (p, tt)
  All-insert_by P a (x ∷ xs) p ps = all_cases (All-insert_by P a xs p ps.1) (after a x)
    where
      all_cases :
          All P (insert_by a xs)
          → (b : Bool) → All P (if b then x ∷ insert_by a xs else a ∷ (x ∷ xs))
      all_cases rest true = (ps.0, rest)
      all_cases rest false = (p, ps)

  -- Sorting keeps what holds of every item.
  pub All-sort_by {κ} : (P : A → Type κ) (xs : List A) → All P xs → All P (sort_by xs)
  unfolding sort_by
  All-sort_by P [] ps = tt
  All-sort_by P (x ∷ xs) ps = All-insert_by P x (sort_by xs) ps.0 (All-sort_by P xs ps.1)

pub find-is_some {ℓ} : {A : Type ℓ} (p : A → Bool) (xs : List A) → is_some (find p xs) ≡ any p xs
find-is_some p [] = refl
find-is_some p (x ∷ xs) = ground (arith, find-is_some p xs)

pub any-keep {ℓ} :
    {A : Type ℓ} (p q : A → Bool) (xs : List A) → any p (keep q xs) ≡ any (λ x. q x && p x) xs
any-keep p q [] = refl
any-keep p q (x ∷ xs) = ground (arith, any-keep p q xs)
