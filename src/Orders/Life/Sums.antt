-- ===== src/Orders/Life/Sums.antt =====
-- Sums over the numbers of the orders.
use brothers_book_house.Base.{
  Bool-cases, arith, false, inl, inr, refl, subst, suc, sym, zero, ℕ, ◌+◌, ◌<◌, ◌==◌, ◌≡◌, ◌≤◌,
}
use brothers_book_house.Orders.Life.{total}

total_same :
    (n k : ℕ) (f g : ℕ → ℕ) → n ≤ k → ((j : ℕ) → j == k ≡ false → g j ≡ f j) → total n g ≡ total n f
unfolding total
total_same zero k f g h same = refl
total_same (suc n) k f g h same =
    omega (arith, total_same n k f g (omega (arith, h)) same, same n (ground (arith, h)))

-- One term changes.
pub total_change :
    (n k : ℕ) (f g : ℕ → ℕ)
    → k < n
    → ((j : ℕ) → j == k ≡ false → g j ≡ f j)
    → total n g + f k ≡ total n f + g k
unfolding total
total_change zero k f g h same = absurd (omega (arith, h))
total_change (suc n) k f g h same = elim (Bool-cases (n == k)) [
  | inl t ↦
      let e : n ≡ k = ground arith in
      rw (sym e) (
        omega (
          arith,
          total_same n n f g (omega arith)
              (λ j other. same j (subst (λ (m : ℕ). j == m ≡ false) e other)),
        ))
  | inr t ↦ omega (arith, total_change n k f g (ground (arith, h, t)) same, same n t)
]

pub term-le-total : (n k : ℕ) (f : ℕ → ℕ) → k < n → f k ≤ total n f
unfolding total
term-le-total zero k f h = absurd (omega (arith, h))
term-le-total (suc n) k f h = elim (Bool-cases (n == k)) [
  | inl t ↦ let e : n ≡ k = ground arith in rw (sym e) (omega arith)
  | inr t ↦ omega (arith, term-le-total n k f (ground (arith, h, t)))
]
