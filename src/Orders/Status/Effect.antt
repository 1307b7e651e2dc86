-- ===== src/Orders/Status/Effect.antt =====
-- What a plan of backend/src/modules/orders/domain/order-status.ts asks of the stock, and what it sets.
use brothers_book_house.Base.{
  Bool-cases, arith, false, if◌then◌else◌, inl, inr, is_some, none, not, refl, some, subst, true,
  ◌&&◌, ◌||◌, ◌≡◌, ◌⊎◌,
}
use brothers_book_house.Base.Int.{ltb_ℤ, pos}
use brothers_book_house.Base.Outcome.{ok}
use brothers_book_house.Orders.Status.{
  Mode, OrderSnapshot, OrderStatus, TransitionPlan, TransitionRequest, advance, base_plan, by_mode,
  cancelled, fulfil, is_shipped_stage, is_terminal, nothing, pending, plan_advance, plan_forward,
  plan_regress, plan_transition, plan_void, processing, rank, regress, regress_target, regresses_to,
  release, restock, returned, same_status,
}

-- The order is closed: its units come back from where they are.
abbrev pub VoidsUnits : OrderSnapshot → TransitionPlan → Type 0
VoidsUnits o p =
    (is_terminal p.to ≡ true)
    × (p.stock
        ≡ (if is_some o.shipped_at then restock else if o.stock_reserved then release else nothing))
    × (p.changes.stock_reserved ≡ some false)
    × (p.changes.shipped_at ≡ none)

-- The order stays open, and its units leave the shelf.
abbrev pub ShipsUnits : OrderSnapshot → TransitionPlan → Type 0
ShipsUnits o p =
    (is_terminal p.to ≡ false)
    × (p.stock ≡ fulfil)
    × (p.changes.stock_reserved ≡ some false)
    × (is_some p.changes.shipped_at ≡ true)
    × (o.shipped_at ≡ none)

-- The order stays open, and its units where they are.
abbrev pub KeepsUnits : TransitionPlan → Type 0
KeepsUnits p =
    (is_terminal p.to ≡ false)
    × (p.stock ≡ nothing)
    × (p.changes.stock_reserved ≡ none)
    × (p.changes.shipped_at ≡ none)

void_effect :
    (o : OrderSnapshot) (r : TransitionRequest) (p : TransitionPlan)
    → (same_status r.to cancelled || same_status r.to returned) ≡ true
    → plan_void o r ≡ ok p
    → VoidsUnits o p
unfolding plan_void is_terminal base_plan
void_effect o r p t h = (ground arith, ground arith, ground arith, ground arith)

not_terminal-rank : (s : OrderStatus) → ltb_ℤ (rank s) (pos 0) ≡ false → is_terminal s ≡ false
unfolding rank is_terminal
not_terminal-rank pending h = refl
not_terminal-rank cancelled h = cc
not_terminal-rank returned h = cc
not_terminal-rank _ h = refl

advance_effect :
    (o : OrderSnapshot) (r : TransitionRequest)
    → is_terminal r.to ≡ false
    → ShipsUnits o (plan_advance o r) ⊎ KeepsUnits (plan_advance o r)
unfolding plan_advance base_plan
advance_effect o r t = elim (Bool-cases (is_shipped_stage r.to && not (is_some o.shipped_at))) [
  | inl s ↦ inl (t, rw s refl, rw s refl, rw s refl, ground arith)
  | inr s ↦ inr (t, rw s refl, rw s refl, rw s refl)
]

forward_effect :
    (o : OrderSnapshot) (r : TransitionRequest) (p : TransitionPlan)
    → plan_forward o r ≡ ok p
    → ShipsUnits o p ⊎ KeepsUnits p
unfolding plan_forward
forward_effect o r p h =
    let same : plan_advance o r ≡ p = ground arith in
    let up : ltb_ℤ (rank r.to) (pos 0) ≡ false = ground arith in
    subst (λ (q : TransitionPlan). ShipsUnits o q ⊎ KeepsUnits q) same
      (advance_effect o r (not_terminal-rank r.to up))

not_terminal-target :
    (s t : OrderStatus) → regresses_to (regress_target s) t ≡ true → is_terminal t ≡ false
unfolding regress_target is_terminal
not_terminal-target processing t h = ground arith
not_terminal-target pending t h = cc
not_terminal-target _ t h = cc

regress_effect :
    (o : OrderSnapshot) (r : TransitionRequest) (p : TransitionPlan)
    → plan_regress o r ≡ ok p
    → KeepsUnits p
unfolding plan_regress base_plan
regress_effect o r p h =
    let target : regresses_to (regress_target o.status) r.to ≡ true = ground arith in
    let to : p.to ≡ r.to = ground arith in
    (rw to (not_terminal-target o.status r.to target), ground arith, ground arith, ground arith)

mode_effect :
    (o : OrderSnapshot) (r : TransitionRequest) (p : TransitionPlan) (m : Mode)
    → by_mode m (plan_regress o r) (
        if same_status r.to cancelled || same_status r.to returned
        then plan_void o r
        else plan_forward o r)
      ≡ ok p
    → VoidsUnits o p ⊎ (ShipsUnits o p ⊎ KeepsUnits p)
mode_effect o r p regress h = inr (inr (regress_effect o r p h))
mode_effect o r p advance h =
    elim (Bool-cases (same_status r.to cancelled || same_status r.to returned)) [
      | inl t ↦ inl (void_effect o r p t (rw t at h))
      | inr t ↦ inr (forward_effect o r p (rw t at h))
    ]

-- A plan is for an order that is not closed; it closes the order and brings its units back, or sends
-- them out, or leaves them.
pub plan_effect :
    (o : OrderSnapshot) (r : TransitionRequest) (p : TransitionPlan)
    → plan_transition o r ≡ ok p
    → (is_terminal o.status ≡ false) × (VoidsUnits o p ⊎ (ShipsUnits o p ⊎ KeepsUnits p))
unfolding plan_transition
plan_effect o r p h = elim (Bool-cases (is_terminal o.status)) [
  | inl t ↦ cc (rw t at h)
  | inr t ↦ (
    t,
    elim (Bool-cases (same_status o.status r.to)) [
      | inl s ↦ cc (rw s at (rw t at h))
      | inr s ↦ mode_effect o r p r.mode (rw s at (rw t at h))
    ],
  )
]
