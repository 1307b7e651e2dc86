-- ===== src/Inventory/Cost.antt =====
-- backend/src/modules/inventory/inventory.service.ts, refreshCost: the cost price of a product is an
-- average of what its batches cost.
use brothers_book_house.Base.{
  All, Bool-cases, List, Option-cases, [], arith, false, get_or, if◌then◌else◌, inl, inr, is_some,
  keep, lt_of_mul-lt-mul_left, none, refl, some, sum_by, true, ℕ, ◌&&◌, ◌*◌, ◌+◌, ◌<◌, ◌==◌, ◌∷◌,
  ◌≡◌, ◌≤◌,
}
use brothers_book_house.Money.{Decimal, Money}
use brothers_book_house.Inventory.Lots.{average_cost, counted_lot, refresh_cost}
use brothers_book_house.Inventory.{Lot, Product, Stock}

-- The rounding of a quotient stays between whole numbers that bound it.
half_up_le : ⦃dec : Decimal⦄ (n d m : ℕ) → 0 < d → n ≤ m * d → dec.half_up n d ≤ m
half_up_le ⦃dec⦄ n d m h k =
    let near = (dec.half_up_nearest n d h).0 in
    let below : dec.half_up n d < m + 1 = lt_of_mul-lt-mul_left d (grind arith) in omega arith

le_half_up : ⦃dec : Decimal⦄ (n d m : ℕ) → 0 < d → m * d ≤ n → m ≤ dec.half_up n d
le_half_up ⦃dec⦄ n d m h k =
    let near = (dec.half_up_nearest n d h).1 in
    let below : m < dec.half_up n d + 1 = lt_of_mul-lt-mul_left d (grind arith) in omega arith

costs_step :
    (low high c q u k : ℕ)
    → low ≤ c
    → c ≤ high
    → low * u ≤ k
    → k ≤ high * u
    → (low * (q + u) ≤ c * q + k) × (c * q + k ≤ high * (q + u))
costs_step low high c q u k l h lk kh = (grind arith, grind arith)

-- What the known batches cost, between two bounds of what each costs.
costs_bounds :
    (id low high : ℕ) (lots : List Lot)
    → All
        (λ l.
          counted_lot id l ≡ true → (low ≤ get_or l.unit_cost 0) × (get_or l.unit_cost 0 ≤ high))
        lots
    → let known = keep (counted_lot id) lots in
      let units = sum_by (λ l. l.qty_left) known in
      let cost = sum_by (λ l. get_or l.unit_cost 0 * l.qty_left) known in
      (low * units ≤ cost) × (cost ≤ high * units)
costs_bounds id low high [] h = grind arith
costs_bounds id low high (l ∷ ls) h = elim (Bool-cases (counted_lot id l)) [
  | inl t ↦
      let rest = costs_bounds id low high ls h.1 in
      let (above, below) = h.0 t in
      rw t (costs_step low high (get_or l.unit_cost 0) l.qty_left _ _ above below rest.0 rest.1)
  | inr t ↦ rw t (costs_bounds id low high ls h.1)
]

-- The copies of a product on the shelf whose cost is known, and what they cost together.
abbrev pub units_known : ℕ → Lot → ℕ
units_known id l = if l.product_id == id && is_some l.unit_cost then l.qty_left else 0

abbrev pub cost_known : ℕ → Lot → ℕ
cost_known id l = if l.product_id == id then get_or l.unit_cost 0 * l.qty_left else 0

abbrev pub known_units : ℕ → List Lot → ℕ
known_units id lots = sum_by (units_known id) lots

abbrev pub known_cost : ℕ → List Lot → ℕ
known_cost id lots = sum_by (cost_known id) lots

units-uncounted : (id : ℕ) (l : Lot) → counted_lot id l ≡ false → units_known id l ≡ 0
units-uncounted id l e = ground arith

cost-uncounted : (id : ℕ) (l : Lot) → counted_lot id l ≡ false → cost_known id l ≡ 0
cost-uncounted id l e = elim (Option-cases l.unit_cost) [
  | inl c ↦ rw c (ground arith)
  | inr (c, o) ↦ elim (Bool-cases (l.product_id == id)) [
    | inl s ↦
        let gone : l.qty_left ≡ 0 = ground (arith, rw (o, s) at e) in rw s (rw gone (omega arith))
    | inr s ↦ rw s refl
  ]
]

keep_units :
    (id : ℕ) (lots : List Lot)
    → sum_by (λ l. l.qty_left) (keep (counted_lot id) lots) ≡ known_units id lots
keep_units id [] = refl
keep_units id (l ∷ ls) = elim (Bool-cases (counted_lot id l)) [
  | inl t ↦ rw t (ground (arith, keep_units id ls))
  | inr t ↦ rw t (rw (units-uncounted id l t) (omega (arith, keep_units id ls)))
]

keep_cost :
    (id : ℕ) (lots : List Lot)
    → sum_by (λ l. get_or l.unit_cost 0 * l.qty_left) (keep (counted_lot id) lots)
      ≡ known_cost id lots
keep_cost id [] = refl
keep_cost id (l ∷ ls) = elim (Bool-cases (counted_lot id l)) [
  | inl t ↦
      let own : l.product_id == id ≡ true = ground arith in
      rw t (rw own (omega (arith, keep_cost id ls)))
  | inr t ↦ rw t (rw (cost-uncounted id l t) (omega (arith, keep_cost id ls)))
]

-- The nearest amount to what one of `units` copies costs, the higher one of two that are as near.
abbrev pub IsAverage : ℕ → ℕ → Money → Type 0
IsAverage units cost a = (2 * (units * a) ≤ 2 * cost + units) × (2 * cost < 2 * (units * a) + units)

-- What a new cost price leaves of the stock, if there is one.
abbrev pub repriced : ℕ → Money → Product → Stock → Stock
repriced id a p s = record s {
  products = λ q. if q == id then some (record p { cost_price = some a }) else s.products q;
}

average_cost-none :
    ⦃dec : Decimal⦄ (id : ℕ) (lots : List Lot)
    → known_units id lots ≡ 0
    → average_cost id lots ≡ none
unfolding average_cost
average_cost-none id lots z = rw (keep_units id lots) (rw z refl)

average_cost-some :
    ⦃dec : Decimal⦄ (id : ℕ) (lots : List Lot)
    → 0 < known_units id lots
    → average_cost id lots ≡ some (dec.half_up (known_cost id lots) (known_units id lots))
unfolding average_cost
average_cost-some id lots h =
    let there : known_units id lots == 0 ≡ false = ground arith in
    rw (keep_units id lots) (rw (keep_cost id lots) (rw there refl))

-- Refreshing the cost price of a product changes nothing while none of its copies on the shelf has a known
-- cost. Otherwise the cost price becomes the average of what these copies cost, to the nearest paisa, and
-- lies between the costs of the cheapest and the dearest of their batches; nothing else changes.
pub refresh_cost_lem :
    ⦃dec : Decimal⦄ (id low high : ℕ) (p : Product) (s : Stock)
    → s.products id ≡ some p
    → All
        (λ l.
          counted_lot id l ≡ true → (low ≤ get_or l.unit_cost 0) × (get_or l.unit_cost 0 ≤ high))
        s.lots
    → (known_units id s.lots ≡ 0 → refresh_cost id s ≡ s)
      × (0 < known_units id s.lots
          → (a : Money) × (refresh_cost id s ≡ repriced id a p s)
            × IsAverage (known_units id s.lots) (known_cost id s.lots) a
            × (low ≤ a)
            × (a ≤ high))
unfolding refresh_cost
refresh_cost_lem ⦃dec⦄ id low high p s found h =
    let units = known_units id s.lots in
    let cost = known_cost id s.lots in
    let (above, below) =
      rw (keep_units id s.lots, keep_cost id s.lots) at (costs_bounds id low high s.lots h) in
    (
      λ z. rw (average_cost-none id s.lots z) refl,
      λ some_units. (
        dec.half_up cost units,
        rw (average_cost-some id s.lots some_units) (rw found refl),
        dec.half_up_nearest cost units some_units,
        le_half_up cost units low some_units above,
        half_up_le cost units high some_units below,
      ),
    )
