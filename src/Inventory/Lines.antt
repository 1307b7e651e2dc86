-- ===== src/Inventory/Lines.antt =====
-- backend/src/modules/inventory/inventory.service.ts: the rows that a method runs over, and the rules
-- for the loop over them.
use brothers_book_house.Base.{
  Bool, Bool-cases, List, [], any, arith, if◌then◌else◌, inl, inr, insert_by, ltb, refl, sort_by,
  subst, sum_by, zero-add, ℕ, ◌+◌, ◌==◌, ◌∙◌, ◌∷◌, ◌≡◌,
}
use brothers_book_house.Base.Outcome.{>>=-eq-ok, Outcome, ok, ◌>>=◌}
use brothers_book_house.Inventory.{StockLine, add_line, add_lines, each_line, merge}

-- The units of a product that some rows ask for.
abbrev pub units_for : ℕ → StockLine → ℕ
units_for id l = if l.product_id == id then l.qty else 0

abbrev pub units_of : ℕ → List StockLine → ℕ
units_of id ls = sum_by (units_for id) ls

units_of-add_line :
    (id : ℕ) (l : StockLine) (ms : List StockLine)
    → units_of id (add_line l ms) ≡ units_of id ms + units_for id l
unfolding add_line
units_of-add_line id l [] = ground arith
units_of-add_line id l (m ∷ ms) = ground (arith, units_of-add_line id l ms)

units_of-add_lines :
    (id : ℕ) (ms ls : List StockLine)
    → units_of id (add_lines ms ls) ≡ units_of id ms + units_of id ls
unfolding add_lines
units_of-add_lines id ms [] = omega arith
units_of-add_lines id ms (l ∷ ls) =
    omega (arith, units_of-add_lines id (add_line l ms) ls, units_of-add_line id l ms)

-- Sorting keeps the sum of any number of the rows.
sum_by-insert_by :
    (after : StockLine → StockLine → Bool) (f : StockLine → ℕ) (a : StockLine) (xs : List StockLine)
    → sum_by f (insert_by after a xs) ≡ f a + sum_by f xs
unfolding insert_by
sum_by-insert_by after f a [] = refl
sum_by-insert_by after f a (x ∷ xs) = ground (arith, sum_by-insert_by after f a xs)

sum_by-sort_by :
    (after : StockLine → StockLine → Bool) (f : StockLine → ℕ) (xs : List StockLine)
    → sum_by f (sort_by after xs) ≡ sum_by f xs
unfolding sort_by
sum_by-sort_by after f [] = refl
sum_by-sort_by after f (x ∷ xs) =
    omega (arith, sum_by-insert_by after f x (sort_by after xs), sum_by-sort_by after f xs)

pub units_of-merge :
    (id : ℕ) (lines merged : List StockLine)
    → merge lines ≡ ok merged
    → units_of id merged ≡ units_of id lines
unfolding merge
units_of-merge id lines merged h = elim (Bool-cases (any (λ l. l.qty == 0) lines)) [
  | inl e ↦ ground arith
  | inr e ↦
      let after = λ (a b : StockLine). ltb b.product_id a.product_id in
      let same : merged ≡ sort_by after (add_lines [] lines) = ground arith in
      rw same (
        sum_by-sort_by after (units_for id) (add_lines [] lines)
        ∙ units_of-add_lines id [] lines
        ∙ zero-add _)
]

-- What each step keeps, the loop keeps.
pub each_line-keeps {ℓ κ} :
    {S : Type ℓ} (P : S → Type κ) (step : StockLine → S → Outcome S)
    → ((l : StockLine) (s s' : S) → P s → step l s ≡ ok s' → P s')
    → (ls : List StockLine) (s s' : S) → P s
    → each_line step ls s ≡ ok s'
    → P s'
unfolding each_line
each_line-keeps P step k [] s s' p h = subst P (ground arith) p
each_line-keeps P step k (l ∷ ls) s s' p h =
    let (t, e, rest) = >>=-eq-ok (step l s) (each_line step ls) s' h in
    each_line-keeps P step k ls t s' (k l s t p e) rest

-- What each step adds to a number, the loop adds for all rows.
pub each_line-adds {ℓ} :
    {S : Type ℓ} (f : S → ℕ) (g : StockLine → ℕ) (step : StockLine → S → Outcome S)
    → ((l : StockLine) (s s' : S) → step l s ≡ ok s' → f s' ≡ f s + g l)
    → (ls : List StockLine) (s s' : S) → each_line step ls s ≡ ok s'
    → f s' ≡ f s + sum_by g ls
unfolding each_line
each_line-adds f g step k [] s s' h = ground arith
each_line-adds f g step k (l ∷ ls) s s' h =
    let (t, e, rest) = >>=-eq-ok (step l s) (each_line step ls) s' h in
    omega (arith, k l s t e, each_line-adds f g step k ls t s' rest)

-- The same for a method: its rows are the merged lines.
pub lines-keeps {ℓ κ} :
    {S : Type ℓ} (P : S → Type κ) (step : StockLine → S → Outcome S) (lines : List StockLine)
    (s s' : S)
    → ((l : StockLine) (s s' : S) → P s → step l s ≡ ok s' → P s')
    → P s
    → (merge lines >>= λ merged. each_line step merged s) ≡ ok s'
    → P s'
lines-keeps P step lines s s' k p h =
    let (merged, m, run) = >>=-eq-ok (merge lines) (λ merged. each_line step merged s) s' h in
    each_line-keeps P step k merged s s' p run
