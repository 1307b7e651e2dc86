-- ===== src/Orders/Transition/Units.antt =====
-- backend/src/modules/orders/application/order-transition.service.ts: an order holds its units until they
-- leave, and they come back when it is voided.
use brothers_book_house.Inventory.Lines.{units_of}
use brothers_book_house.Inventory.Refines.{
  bring, fulfill_change, fulfill_enough, on_hand_of, release_change, restock_change, send, unhold,
}
use brothers_book_house.Inventory.Steps
use brothers_book_house.Inventory.Steps.{restock_lines}
use brothers_book_house.Base.{
  Bool, Bool-cases, List, Option, Option-cases, [], ap, arith, false, if◌then◌else◌, inl, inr,
  is_some, none, not, refl, some, some_and, subst, sym, true, ℕ, ◌&&◌, ◌+◌, ◌==◌, ◌∙◌, ◌∷◌, ◌≡◌,
  ◌≤◌,
}
use brothers_book_house.Base.Outcome.{>>=-eq-ok, ok, ok-inj}
use brothers_book_house.Orders.Status.{
  StockEffect, TransitionActor, TransitionPlan, fulfil, is_terminal, nothing, plan_transition,
}
use brothers_book_house.Orders.Transition.{
  Applied, Order, TransitionCommand, World, applied, apply_plan, apply_read, apply_stock, book,
  changed, context_of, on_lines, or_given, request_of, snapshot_of, stock_effect, stock_lines_of,
  write_order,
}
use brothers_book_house.Orders.Status.Effect.{KeepsUnits, ShipsUnits, VoidsUnits, plan_effect}
use brothers_book_house.Inventory.{LowStockHit, Stock, StockContext, StockLine}
use brothers_book_house.Inventory.Shelf.{Item, shelf}
use brothers_book_house.Money.{Decimal}
use brothers_book_house.Inventory.Undo.{some-inj}

-- The units of an order lie on the shelf, held, until it is shipped or closed; a shipped order that is
-- not closed has them away.
abbrev pub is_away : Order → Bool
is_away o = is_some o.shipped_at && not (is_terminal o.status)

abbrev pub IsConsistent : Order → Type 0
IsConsistent o = o.stock_reserved ≡ not (is_some o.shipped_at) && not (is_terminal o.status)

-- What a plan does to the units, read off the order before and after it.
abbrev pub FitsEffect : Bool → Bool → Bool → Bool → StockEffect → Type 0
FitsEffect held away held' away' nothing = (held' ≡ held) × (away' ≡ away)
FitsEffect held away held' away' fulfil =
    (held ≡ true) × (away ≡ false) × (held' ≡ false) × (away' ≡ true)
FitsEffect held away held' away' StockEffect.release =
    (held ≡ true) × (away ≡ false) × (held' ≡ false) × (away' ≡ false)
FitsEffect held away held' away' StockEffect.restock =
    (held ≡ false) × (away ≡ true) × (held' ≡ false) × (away' ≡ false)

or_given_some : (a b : Option ℕ) → is_some a ≡ true → is_some (or_given a b) ≡ true
or_given_some none b h = cc
or_given_some (some x) b h = refl

module _ (o : Order) (cmd : TransitionCommand) (plan : TransitionPlan) (now : ℕ)
    (t : is_terminal o.status ≡ false) (k : IsConsistent o) where
  kept :
      KeepsUnits plan
      → let o' = changed o cmd plan now o in
        IsConsistent o'
        × FitsEffect o.stock_reserved (is_away o) o'.stock_reserved (is_away o') plan.stock
  unfolding changed
  kept (to, stock, held, at) = rw stock (rw held (rw at (rw to (rw t at k, (refl, rw t refl)))))

  shipped :
      ShipsUnits (snapshot_of o) plan
      → let o' = changed o cmd plan now o in
        IsConsistent o'
        × FitsEffect o.stock_reserved (is_away o) o'.stock_reserved (is_away o') plan.stock
  unfolding changed
  shipped (to, stock, held, at, before) =
      let given = or_given_some plan.changes.shipped_at o.shipped_at at in
      let there : o.stock_reserved ≡ true = rw before at (rw t at k) in
      rw stock (rw held (rw to (rw given (refl, (there, rw before refl, refl, refl)))))

  voided :
      VoidsUnits (snapshot_of o) plan
      → let o' = changed o cmd plan now o in
        IsConsistent o'
        × FitsEffect o.stock_reserved (is_away o) o'.stock_reserved (is_away o') plan.stock
  unfolding changed
  voided (to, stock, held, at) =
      let stays : o.stock_reserved ≡ not (is_some o.shipped_at) && true = rw t at k in
      elim (Bool-cases (is_some o.shipped_at)) [
        | inl s ↦
            let not_held : o.stock_reserved ≡ false = rw s at stays in
            rw stock (rw held (rw at (rw to (rw s (refl, (not_held, rw t refl, refl, refl))))))
        | inr s ↦
            let is_held : o.stock_reserved ≡ true = rw s at stays in
            rw stock (rw held (rw at (rw to (rw s (rw is_held (refl, (refl, refl, refl, refl)))))))
      ]

plan_transition-FitsEffect :
    (o : Order) (cmd : TransitionCommand) (actor : TransitionActor) (now : ℕ)
    (plan : TransitionPlan)
    → IsConsistent o
    → plan_transition (snapshot_of o) (request_of cmd actor now) ≡ ok plan
    → let o' = changed o cmd plan now o in
      IsConsistent o'
      × FitsEffect o.stock_reserved (is_away o) o'.stock_reserved (is_away o') plan.stock
unfolding changed
plan_transition-FitsEffect o cmd actor now plan k h =
    let (t, e) = plan_effect (snapshot_of o) (request_of cmd actor now) plan h in
    elim e [
      | inl v ↦ voided o cmd plan now t k v
      | inr (inl v) ↦ shipped o cmd plan now t k v
      | inr (inr v) ↦ kept o cmd plan now t k v
    ]

-- Every write that moves an order or its units brings a new version: a row under the version that was
-- read has the same state and the same units as what was read. Its other columns may have changed.
abbrev pub IsSameRead : Order → Order → Type 0
IsSameRead o row =
    row.version ≡ o.version
    → (row.status ≡ o.status)
      × (row.stock_reserved ≡ o.stock_reserved)
      × (row.shipped_at ≡ o.shipped_at)

-- The same of the row that is stored.
row-FitsEffect :
    (o row : Order) (cmd : TransitionCommand) (actor : TransitionActor) (now : ℕ)
    (plan : TransitionPlan)
    → (row.status ≡ o.status)
      × (row.stock_reserved ≡ o.stock_reserved)
      × (row.shipped_at ≡ o.shipped_at)
    → IsConsistent row
    → plan_transition (snapshot_of o) (request_of cmd actor now) ≡ ok plan
    → let row' = changed o cmd plan now row in
      IsConsistent row'
      × FitsEffect row.stock_reserved (is_away row) row'.stock_reserved (is_away row') plan.stock
unfolding changed
row-FitsEffect o row cmd actor now plan (s, h, a) k p =
    let read : IsConsistent o = rw (sym s) (rw (sym h) (rw (sym a) k)) in
    rw s (rw h (rw a (plan_transition-FitsEffect o cmd actor now plan read p)))

-- The units of an order change places with what it says of them: those that it holds are among the
-- reserved ones, those that it has away are off the shelf.
abbrev pub Moves : Bool → Bool → Bool → Bool → ℕ → Item → Item → Type 0
Moves held away held' away' n i i' =
    (i'.reserved + (if held then n else 0) ≡ i.reserved + (if held' then n else 0))
    × (i'.on_hand + (if away' then n else 0) ≡ i.on_hand + (if away then n else 0))

-- A product of the shelf, before and after.
abbrev pub MovesOn : Bool → Bool → Bool → Bool → ℕ → ℕ → Stock → Stock → Type 0
MovesOn held away held' away' n id s s' =
    (i : Item)
    → shelf s id ≡ some i
    → (held ≡ true → n ≤ i.reserved)
    → (i' : Item) × (shelf s' id ≡ some i') × Moves held away held' away' n i i'

module _ ⦃dec : Decimal⦄ (held away held' away' : Bool) (lines : List StockLine)
    (ctx : StockContext) (s s' : Stock) (low : List LowStockHit) (id : ℕ) where
  stock_effect-MovesOn :
      (effect : StockEffect)
      → FitsEffect held away held' away' effect
      → stock_effect effect lines ctx s ≡ ok (s', low)
      → MovesOn held away held' away' (units_of id lines) id s s'
  unfolding stock_effect
  stock_effect-MovesOn nothing (h, a) e i found enough =
      let same : s ≡ s' = ap (λ (r : Stock × List LowStockHit). r.0) (ok-inj e) in
      (i, rw (sym same) found, rw h (rw a (refl, refl)))
  stock_effect-MovesOn fulfil (h, a, h', a') e i found enough =
      let there : units_of id lines ≤ on_hand_of (some i) =
        rw found at (fulfill_enough lines ctx s s' low id e) in
      (
        send (units_of id lines) i,
        fulfill_change lines ctx s s' low id e ∙ rw found refl,
        rw h (rw a (rw h' (rw a' (omega (arith, enough h), omega arith)))),
      )
  stock_effect-MovesOn StockEffect.release (h, a, h', a') e i found enough =
      let (t, r, f) = >>=-eq-ok (Steps.release lines ctx s) (λ t. ok (t, [])) (s', low) e in
      let same : t ≡ s' = ap (λ (r : Stock × List LowStockHit). r.0) (ok-inj f) in
      (
        unhold (units_of id lines) i,
        release_change lines ctx s s' id (rw same at r) ∙ rw found refl,
        rw h (rw a (rw h' (rw a' (omega (arith, enough h), refl)))),
      )
  stock_effect-MovesOn StockEffect.restock (h, a, h', a') e i found enough =
      let (t, r, f) = >>=-eq-ok (restock_lines lines ctx s) (λ t. ok (t, [])) (s', low) e in
      let same : t ≡ s' = ap (λ (r : Stock × List LowStockHit). r.0) (ok-inj f) in
      (
        bring (units_of id lines) i,
        restock_change lines ctx s s' id (rw same at r) ∙ rw found refl,
        rw h (rw a (rw h' (rw a' (refl, omega arith)))),
      )

pub write_order_lem :
    (version ref : ℕ) (update : Order → Order) (w w' : World)
    → write_order version ref update w ≡ ok w'
    → (row : Order) × (w.orders ref ≡ some row)
      × (row.version ≡ version)
      × (w'.orders ref ≡ some (update row))
      × (w'.stock ≡ w.stock)
unfolding write_order
write_order_lem version ref update w w' h = elim (Option-cases (w.orders ref)) [
  | inl e ↦ cc (rw e at h)
  | inr (row, e) ↦ elim (Bool-cases (row.version == version)) [
    | inl t ↦
        let self : ref == ref ≡ true = ground arith in
        rw (sym (ok-inj (rw (e, t) at h))) (row, e, ground (arith, t), rw self refl, refl)
    | inr t ↦ cc (rw (e, t) at h)
  ]
]

module _ ⦃dec : Decimal⦄ where
  on_lines-MovesOn :
      (held away held' away' : Bool) (lines : List StockLine) (ctx : StockContext) (s s' : Stock)
      (low : List LowStockHit) (id : ℕ) (effect : StockEffect)
      → FitsEffect held away held' away' effect
      → on_lines effect lines ctx s ≡ ok (s', low)
      → MovesOn held away held' away' (units_of id lines) id s s'
  unfolding on_lines
  on_lines-MovesOn held away held' away' [] ctx s s' low id effect fits e i found enough =
      let same : s ≡ s' = ap (λ (r : Stock × List LowStockHit). r.0) (ok-inj e) in
      (i, rw (sym same) found, ground arith)
  on_lines-MovesOn held away held' away' (l ∷ ls) ctx s s' low id effect fits e i found enough =
      stock_effect-MovesOn held away held' away' (l ∷ ls) ctx s s' low id effect fits e i found
        enough

  -- What an order that was read as `o` and stored as `row` leaves when it is written.
  abbrev pub IsCarried : Order → Order → TransitionCommand → ℕ → World → Applied → Type 0
  IsCarried o row cmd now w r =
      let row' = changed o cmd r.plan now row in
      (r.world.orders o.id ≡ some row')
      × IsConsistent row'
      × ((id : ℕ)
          → MovesOn row.stock_reserved (is_away row) row'.stock_reserved (is_away row')
              (units_of id (stock_lines_of o.items)) id w.stock r.world.stock)

  carry_plan :
      (o row : Order) (cmd : TransitionCommand) (actor : TransitionActor) (now : ℕ) (w : World)
      (plan : TransitionPlan) (stock : Stock) (low : List LowStockHit)
      → let row' = changed o cmd plan now row in
        IsConsistent row'
        → FitsEffect row.stock_reserved (is_away row) row'.stock_reserved (is_away row') plan.stock
        → w.orders o.id ≡ some row'
        → on_lines plan.stock (stock_lines_of o.items) (context_of o) w.stock ≡ ok (stock, low)
        → IsCarried o row cmd now w (applied o plan actor now w (stock, low))
  unfolding changed applied book
  carry_plan o row cmd actor now w plan stock low k fits there m =
      let row' = changed o cmd plan now row in
      (
        there,
        k,
        λ id.
            on_lines-MovesOn row.stock_reserved (is_away row) row'.stock_reserved (is_away row')
              (stock_lines_of o.items) (context_of o) w.stock stock low id plan.stock fits m,
      )

  apply_plan-IsCarried :
      (o row : Order) (cmd : TransitionCommand) (actor : TransitionActor) (now : ℕ) (w : World)
      (plan : TransitionPlan) (r : Applied)
      → w.orders o.id ≡ some row
      → IsSameRead o row
      → IsConsistent row
      → plan_transition (snapshot_of o) (request_of cmd actor now) ≡ ok plan
      → apply_plan o cmd actor now w plan ≡ ok r
      → IsCarried o row cmd now w r
  unfolding apply_plan apply_stock
  apply_plan-IsCarried o row cmd actor now w plan r stored read k p e =
      let row' = changed o cmd plan now row in
      let (w', written, f) =
        >>=-eq-ok (write_order o.version o.id (changed o cmd plan now) w)
          (λ w'. apply_stock o plan actor now w') r e in
      let (cur, found, version, there, stock) =
        write_order_lem o.version o.id (changed o cmd plan now) w w' written in
      let same : cur ≡ row = some-inj (sym found ∙ stored) in
      let fits =
        row-FitsEffect o row cmd actor now plan
          (read (ap (λ (x : Order). x.version) (sym same) ∙ version)) k p in
      let ((s', low), m, e') =
        >>=-eq-ok (on_lines plan.stock (stock_lines_of o.items) (context_of o) w'.stock)
          (λ moved. ok (applied o plan actor now w' moved)) r f in
      let (a, b, c) =
        carry_plan o row cmd actor now w' plan s' low fits.0 fits.1
          (there ∙ ap (λ (x : Order). some (changed o cmd plan now x)) same) m in
      subst (λ (x : Applied). IsCarried o row cmd now w x) (ok-inj e')
        (
          a,
          b,
          λ id.
              subst
                (λ (s : Stock).
                  MovesOn row.stock_reserved (is_away row) row'.stock_reserved (is_away row')
                    (units_of id (stock_lines_of o.items)) id s s')
                stock (c id),
        )

  -- Let an order be read as `o`, and be `row` when it is written, in the same state and with the same units
  -- if it still has the version that was read. If `row` is consistent, and the move is committed, the row
  -- has the columns of the plan and keeps the others as stored, and is consistent: its units are
  -- held on the shelf until it is shipped or closed, and away once it is shipped and not closed. The units
  -- of each product change places with it: the reserved ones by what it held and holds, the stock on hand
  -- by what it had and has away.
  pub apply_read-IsCarried :
      (o row : Order) (cmd : TransitionCommand) (actor : TransitionActor) (now : ℕ) (w : World)
      (r : Applied)
      → w.orders o.id ≡ some row
      → IsSameRead o row
      → IsConsistent row
      → apply_read o cmd actor now w ≡ ok r
      → IsCarried o row cmd now w r
  unfolding apply_read
  apply_read-IsCarried o row cmd actor now w r stored read k h =
      elim (Bool-cases (some_and cmd.expected_version (λ v. not (v == o.version)))) [
        | inl t ↦ cc (rw t at h)
        | inr t ↦
            let (plan, p, e) =
              >>=-eq-ok (plan_transition (snapshot_of o) (request_of cmd actor now))
                (apply_plan o cmd actor now w) r (rw t at h) in
            apply_plan-IsCarried o row cmd actor now w plan r stored read k p e
      ]
