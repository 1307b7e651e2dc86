-- ===== src/Orders/Status/Plan.antt =====
-- What `planTransition` of backend/src/modules/orders/domain/order-status.ts allows, held against the
-- diagram in that file's first comment.
use brothers_book_house.Base.{
  Bool-cases, arith, false, inl, inr, is_some, refl, true, ◌+◌, ◌<◌, ◌↔◌, ◌≡◌, ◌≢◌, ◌≤◌, ◌⊎◌,
}
use brothers_book_house.Base.Int.{ltb_ℤ, pos}
use brothers_book_house.Base.Outcome.{is_ok, is_ok-eq, ok}
use brothers_book_house.Orders.Status.{
  Mode, OrderSnapshot, OrderStatus, TransitionPlan, TransitionRequest, advance, cancelled,
  confirmed, credit_reason, customer, delivered, handed_to_courier, includes, is_open, is_terminal,
  ordinal, out_for_delivery, pending, plan_transition, processing, rank, regress, regress_target,
  regresses_to, returnable_from, returned, same_status, sslcommerz, staff, unpaid,
}

-- The arrows of the diagram.
pub data Next : OrderStatus → OrderStatus → Type 0 where
  confirm : Next pending confirmed
  pack : Next confirmed processing
  hand_over : Next processing handed_to_courier
  send_out : Next handed_to_courier out_for_delivery
  deliver : Next out_for_delivery delivered

-- Forward moves may skip steps.
pub data Ahead : OrderStatus → OrderStatus → Type 0 where
  one : {s t : OrderStatus} → Next s t → Ahead s t
  more : {s t u : OrderStatus} → Next s t → Ahead t u → Ahead s u

pub data Voids : OrderStatus → OrderStatus → Type 0 where
  cancel_pending : Voids pending cancelled
  cancel_confirmed : Voids confirmed cancelled
  cancel_processing : Voids processing cancelled
  cancel_handed : Voids handed_to_courier cancelled
  cancel_out : Voids out_for_delivery cancelled
  return_handed : Voids handed_to_courier returned
  return_out : Voids out_for_delivery returned
  return_delivered : Voids delivered returned

pub data Move : Mode → OrderStatus → OrderStatus → Type 0 where
  forward : {s t : OrderStatus} → Ahead s t → Move advance s t
  void : {s t : OrderStatus} → Voids s t → Move advance s t
  back : Move regress processing confirmed

ruleset arrows = (confirm, pack, hand_over, send_out, deliver, one, more)

ruleset voids = (
  cancel_pending, cancel_confirmed, cancel_processing, cancel_handed, cancel_out, return_handed,
  return_out, return_delivered,
)

-- The tables of the source, read as arrows.
Ahead-of_rank :
    (s t : OrderStatus)
    → same_status s t ≡ false
    → ltb_ℤ (rank t) (pos 0) ≡ false
    → ltb_ℤ (rank t) (rank s) ≡ false
    → is_terminal s ≡ false
    → Ahead s t
unfolding rank is_terminal
Ahead-of_rank pending pending d n h c = first_of (cc, search arrows depth 7)
Ahead-of_rank pending _ d n h c = first_of (cc, search arrows depth 7)
Ahead-of_rank confirmed pending d n h c = first_of (cc, search arrows depth 7)
Ahead-of_rank confirmed _ d n h c = first_of (cc, search arrows depth 7)
Ahead-of_rank processing pending d n h c = first_of (cc, search arrows depth 7)
Ahead-of_rank processing _ d n h c = first_of (cc, search arrows depth 7)
Ahead-of_rank handed_to_courier pending d n h c = first_of (cc, search arrows depth 7)
Ahead-of_rank handed_to_courier _ d n h c = first_of (cc, search arrows depth 7)
Ahead-of_rank out_for_delivery pending d n h c = first_of (cc, search arrows depth 7)
Ahead-of_rank out_for_delivery _ d n h c = first_of (cc, search arrows depth 7)
Ahead-of_rank delivered pending d n h c = first_of (cc, search arrows depth 7)
Ahead-of_rank delivered _ d n h c = first_of (cc, search arrows depth 7)
Ahead-of_rank cancelled pending d n h c = first_of (cc, search arrows depth 7)
Ahead-of_rank cancelled _ d n h c = first_of (cc, search arrows depth 7)
Ahead-of_rank returned pending d n h c = first_of (cc, search arrows depth 7)
Ahead-of_rank returned _ d n h c = first_of (cc, search arrows depth 7)

void_of_open : (s t : OrderStatus) → same_status t cancelled ≡ true → is_open s ≡ true → Voids s t
unfolding is_open
void_of_open pending pending h k = first_of (cc, search voids)
void_of_open pending _ h k = first_of (cc, search voids)
void_of_open confirmed pending h k = first_of (cc, search voids)
void_of_open confirmed _ h k = first_of (cc, search voids)
void_of_open processing pending h k = first_of (cc, search voids)
void_of_open processing _ h k = first_of (cc, search voids)
void_of_open handed_to_courier pending h k = first_of (cc, search voids)
void_of_open handed_to_courier _ h k = first_of (cc, search voids)
void_of_open out_for_delivery pending h k = first_of (cc, search voids)
void_of_open out_for_delivery _ h k = first_of (cc, search voids)
void_of_open delivered pending h k = first_of (cc, search voids)
void_of_open delivered _ h k = first_of (cc, search voids)
void_of_open cancelled pending h k = first_of (cc, search voids)
void_of_open cancelled _ h k = first_of (cc, search voids)
void_of_open returned pending h k = first_of (cc, search voids)
void_of_open returned _ h k = first_of (cc, search voids)

void_of_returnable :
    (s t : OrderStatus)
    → same_status t returned ≡ true
    → includes returnable_from s ≡ true
    → Voids s t
void_of_returnable pending pending h k = first_of (cc, search voids)
void_of_returnable pending _ h k = first_of (cc, search voids)
void_of_returnable confirmed pending h k = first_of (cc, search voids)
void_of_returnable confirmed _ h k = first_of (cc, search voids)
void_of_returnable processing pending h k = first_of (cc, search voids)
void_of_returnable processing _ h k = first_of (cc, search voids)
void_of_returnable handed_to_courier pending h k = first_of (cc, search voids)
void_of_returnable handed_to_courier _ h k = first_of (cc, search voids)
void_of_returnable out_for_delivery pending h k = first_of (cc, search voids)
void_of_returnable out_for_delivery _ h k = first_of (cc, search voids)
void_of_returnable delivered pending h k = first_of (cc, search voids)
void_of_returnable delivered _ h k = first_of (cc, search voids)
void_of_returnable cancelled pending h k = first_of (cc, search voids)
void_of_returnable cancelled _ h k = first_of (cc, search voids)
void_of_returnable returned pending h k = first_of (cc, search voids)
void_of_returnable returned _ h k = first_of (cc, search voids)

back_of_target : (s t : OrderStatus) → regresses_to (regress_target s) t ≡ true → Move regress s t
unfolding regress_target
back_of_target pending pending h = first_of (cc, search back)
back_of_target pending _ h = first_of (cc, search back)
back_of_target confirmed pending h = first_of (cc, search back)
back_of_target confirmed _ h = first_of (cc, search back)
back_of_target processing pending h = first_of (cc, search back)
back_of_target processing _ h = first_of (cc, search back)
back_of_target handed_to_courier pending h = first_of (cc, search back)
back_of_target handed_to_courier _ h = first_of (cc, search back)
back_of_target out_for_delivery pending h = first_of (cc, search back)
back_of_target out_for_delivery _ h = first_of (cc, search back)
back_of_target delivered pending h = first_of (cc, search back)
back_of_target delivered _ h = first_of (cc, search back)
back_of_target cancelled pending h = first_of (cc, search back)
back_of_target cancelled _ h = first_of (cc, search back)
back_of_target returned pending h = first_of (cc, search back)
back_of_target returned _ h = first_of (cc, search back)

-- An accepted request follows an arrow.
Move-of_ok :
    (o : OrderSnapshot) (r : TransitionRequest) {p : TransitionPlan}
    → plan_transition o r ≡ ok p
    → Move r.mode o.status r.to
unfolding plan_transition rank is_terminal is_open regress_target
Move-of_ok o r h = by r.mode refl
  where
    target : regresses_to (regress_target o.status) r.to ≡ true → Move regress o.status r.to
    target e = back_of_target o.status r.to e

    by : (m : Mode) → r.mode ≡ m → Move m o.status r.to
    by regress e = target (ground arith)
    by advance e = elim (Bool-cases (same_status r.to cancelled)) [
      | inl c ↦ void (void_of_open o.status r.to c (ground arith))
      | inr c ↦ elim (Bool-cases (same_status r.to returned)) [
        | inl d ↦ void (void_of_returnable o.status r.to d (ground arith))
        | inr d ↦ forward (
            Ahead-of_rank o.status r.to (ground arith) (ground arith) (ground arith) (ground arith))
      ]
    ]

-- What a request needs beside an arrow.
pub record IsPermitted (o : OrderSnapshot) (r : TransitionRequest) : Type 0 where
  pub back_by_staff : r.mode ≡ regress → r.actor ≡ staff
  pub customer_cancels_pending : r.actor ≡ customer → (o.status ≡ pending) × (r.to ≡ cancelled)
  pub reason_given :
      (r.to ≡ cancelled) ⊎ (r.to ≡ returned)
      → o.status ≢ pending
      → is_some (credit_reason r.credit) ≡ true
  pub paid_first :
      o.status ≡ pending
      → o.payment_method ≡ sslcommerz
      → o.payment_status ≡ unpaid
      → r.to ≡ cancelled

IsPermitted-of_ok :
    (o : OrderSnapshot) (r : TransitionRequest)
    → is_ok (plan_transition o r) ≡ true
    → IsPermitted o r
unfolding plan_transition rank is_terminal is_open regress_target
IsPermitted-of_ok o r h = record {
  back_by_staff = ground arith;
  customer_cancels_pending = ground arith;
  reason_given = ground arith;
  paid_first = ground arith;
}

Next-ordinal : {s t : OrderStatus} → Next s t → (ordinal t ≡ ordinal s + 1) × (ordinal t ≤ 5)
Next-ordinal confirm = omega arith
Next-ordinal pack = omega arith
Next-ordinal hand_over = omega arith
Next-ordinal send_out = omega arith
Next-ordinal deliver = omega arith

Ahead-ordinal : {s t : OrderStatus} → Ahead s t → (ordinal s < ordinal t) × (ordinal t ≤ 5)
Ahead-ordinal (one n) = omega (arith, Next-ordinal n)
Ahead-ordinal (more n a) = omega (arith, Next-ordinal n, Ahead-ordinal a)

rank_of_ordinal : (s : OrderStatus) → ordinal s ≤ 5 → rank s ≡ pos (ordinal s)
unfolding rank
rank_of_ordinal pending h = refl
rank_of_ordinal confirmed h = refl
rank_of_ordinal processing h = refl
rank_of_ordinal handed_to_courier h = refl
rank_of_ordinal out_for_delivery h = refl
rank_of_ordinal delivered h = refl
rank_of_ordinal cancelled h = absurd (omega arith)
rank_of_ordinal returned h = absurd (omega arith)

pending_of_ordinal : (s : OrderStatus) → same_status s pending ≡ true → s ≡ pending
pending_of_ordinal s h = ground arith

forward_accepted :
    (o : OrderSnapshot) (r : TransitionRequest)
    → ordinal o.status < ordinal r.to
    → ordinal r.to ≤ 5
    → r.mode ≡ advance
    → IsPermitted o r
    → is_ok (plan_transition o r) ≡ true
unfolding plan_transition is_terminal
forward_accepted o r lt le m p =
    ground (arith, rank_of_ordinal o.status, rank_of_ordinal r.to, pending_of_ordinal o.status)

void_accepted :
    {s t : OrderStatus} (o : OrderSnapshot) (r : TransitionRequest)
    → Voids s t
    → o.status ≡ s
    → r.to ≡ t
    → r.mode ≡ advance
    → IsPermitted o r
    → is_ok (plan_transition o r) ≡ true
unfolding plan_transition is_terminal is_open
void_accepted o r cancel_pending es et m p = ground arith
void_accepted o r cancel_confirmed es et m p = ground arith
void_accepted o r cancel_processing es et m p = ground arith
void_accepted o r cancel_handed es et m p = ground arith
void_accepted o r cancel_out es et m p = ground arith
void_accepted o r return_handed es et m p = ground arith
void_accepted o r return_out es et m p = ground arith
void_accepted o r return_delivered es et m p = ground arith

accepted_of_Move :
    {m : Mode} {s t : OrderStatus} (o : OrderSnapshot) (r : TransitionRequest)
    → Move m s t
    → r.mode ≡ m
    → o.status ≡ s
    → r.to ≡ t
    → IsPermitted o r
    → is_ok (plan_transition o r) ≡ true
unfolding plan_transition is_terminal regress_target
accepted_of_Move o r (forward a) em es et p =
    forward_accepted o r (rw (es, et) (Ahead-ordinal a).0) (rw et (Ahead-ordinal a).1) em p
accepted_of_Move o r (void v) em es et p = void_accepted o r v es et em p
accepted_of_Move o r back em es et p = ground arith

-- A request is accepted exactly when it follows an arrow of the diagram (forward moves may skip
-- steps, an open order may be cancelled, one that the courier has may be returned, and the one step
-- back is from processing), only staff step back, a customer only cancels a pending order, a live
-- order is cancelled or returned with a reason, and an unpaid online order is not confirmed.
pub plan_transition_iff :
    (o : OrderSnapshot) (r : TransitionRequest)
    → (is_ok (plan_transition o r) ≡ true) ↔ (Move r.mode o.status r.to × IsPermitted o r)
plan_transition_iff o r = (
  λ h. (accepted_move h, IsPermitted-of_ok o r h),
  λ p. accepted_of_Move o r p.0 refl refl refl p.1,
)
  where
    accepted_move : is_ok (plan_transition o r) ≡ true → Move r.mode o.status r.to
    accepted_move h = Move-of_ok o r (is_ok-eq (plan_transition o r) h).1
