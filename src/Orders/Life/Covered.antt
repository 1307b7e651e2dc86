-- ===== src/Orders/Life/Covered.antt =====
-- backend/src/modules/orders/application: what is reserved is what the orders hold.
use brothers_book_house.Base.{
  Bool-cases, Option-cases, ap, arith, inl, inr, some, subst, sym, ℕ, ◌<◌, ◌==◌, ◌∙◌, ◌≡◌, ◌≤◌,
}
use brothers_book_house.Money.{Decimal}
use brothers_book_house.Orders.Transition.{Order, World, apply, reopen}
use brothers_book_house.Orders.Transition.Units.{IsConsistent}
use brothers_book_house.Orders.Life.{
  AllConsistent, Event, IsCovered, Life, and_then, at_start, held_units, order_moved, order_placed,
  order_revived, total,
}
use brothers_book_house.Orders.Life.Sums.{term-le-total, total_change}
use brothers_book_house.Orders.Life.Moved.{Change, apply-Change, reopen-Change, write_placed-Change}

module _ (n k : ℕ) (w w' : World) (c : Change k w w') (below : k < n) where
  Change-AllConsistent : AllConsistent n w → AllConsistent n w'
  Change-AllConsistent all j o found = elim (Bool-cases (j == k)) [
    | inl t ↦
        let e : j ≡ k = ground arith in
        let same : c.after ≡ o = ground (arith, sym c.found ∙ ap w'.orders (sym e) ∙ found) in
        (
          subst (λ (m : ℕ). m < n) (sym e) below,
          ap (λ (x : Order). x.id) (sym same) ∙ c.numbered ∙ sym e,
          subst IsConsistent same c.consistent,
        )
    | inr t ↦ all j o (sym (c.others j t) ∙ found)
  ]

  Change-IsCovered : IsCovered n w → IsCovered n w'
  Change-IsCovered covered id i' found =
      let (i, before, change) = c.units id i' found in
      let f : ℕ → ℕ = λ j. held_units id (w.orders j) in
      let g : ℕ → ℕ = λ j. held_units id (w'.orders j) in
      let all : i.reserved ≡ total n f = covered id i before in
      let own : f k ≤ total n f = term-le-total n k f below in
      let moved = change (omega (arith, all, own)) in
      let after : g k ≡ held_units id (some c.after) = ap (held_units id) c.found in
      omega (
        arith,
        all,
        moved,
        after,
        total_change n k f g below (λ j other. ap (held_units id) (c.others j other)),
      )

-- An event is the change of one order.
Event-Change :
    ⦃dec : Decimal⦄ (n : ℕ) (w w' : World)
    → AllConsistent n w
    → Event n w w'
    → (k : ℕ) × (k < n) × Change k w w'
unfolding apply reopen
Event-Change n w w' all (order_placed p number buyer method below fresh asked h) =
    (number, below, write_placed-Change p number buyer method w w' fresh asked h)
Event-Change n w w' all (order_moved ref cmd actor now r h e) = elim (Option-cases (w.orders ref)) [
  | inl none_there ↦ cc (rw none_there at h)
  | inr (o, found) ↦
      let (below, same, k) = all ref o found in
      (
        ref,
        below,
        subst (Change ref w) e (apply-Change ref o cmd actor now w r found same k (rw found at h)),
      )
]
Event-Change n w w' all (order_revived ref req version now h) = elim (Option-cases (w.orders ref)) [
  | inl none_there ↦ cc (rw (none_there, reopen) at h)
  | inr (o, found) ↦
      let (below, same, k) = all ref o found in
      (ref, below, reopen-Change ref o req version now w w' found same k (rw (found, reopen) at h))
]

-- Through any placements, transitions and reopenings of orders, one after the other: if every order
-- is consistent, and of each product on the shelf exactly the units that the orders hold are reserved, it is
-- so afterwards.
pub Life-IsCovered :
    ⦃dec : Decimal⦄ (n : ℕ) (w w' : World)
    → Life n w w'
    → AllConsistent n w
    → IsCovered n w
    → AllConsistent n w' × IsCovered n w'
Life-IsCovered n w w' at_start all covered = (all, covered)
Life-IsCovered n w w' (and_then {m} life event) all covered =
    let (all', covered') = Life-IsCovered n w m life all covered in
    let (k, below, c) = Event-Change n m w' all' event in
    (Change-AllConsistent n k m w' c below all', Change-IsCovered n k m w' c below covered')
