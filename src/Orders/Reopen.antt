-- ===== src/Orders/Reopen.antt =====
-- backend/src/modules/orders/domain/order-status.ts, the last part: bringing a cancelled or returned
-- order back.
use brothers_book_house.Base.{
  Bool, Option, arith, false, get_or, if◌then◌else◌, length, ltb, none, not, some, subst, true,
  ◌&&◌, ◌↔◌, ◌≡◌, ◌≤◌,
}
use brothers_book_house.Base.Text.{Text, trim}
use brothers_book_house.Base.Outcome.{Outcome, fail, ok}
use brothers_book_house.Orders.Status.{
  OrderSnapshot, OrderStatus, TransitionActor, is_sslcommerz, is_staff, is_terminal, is_unpaid,
  pending, same_status,
}

pub data ReopenTarget : Type 0 where
  to_pending to_confirmed : ReopenTarget

pub record ReopenPlan : Type 0 where
  pub from : OrderStatus
  pub to : ReopenTarget

pub record ReopenRequest : Type 0 where
  pub to : Option ReopenTarget
  pub reason : Text
  pub actor : TransitionActor

abbrev pub wants_confirmed : ReopenTarget → Bool
wants_confirmed to_confirmed = true
wants_confirmed to_pending = false

abbrev pub was_live : Option OrderStatus → Bool
was_live none = false
was_live (some s) = not (same_status s pending)

unfoldable pub plan_reopen : OrderSnapshot → Option OrderStatus → ReopenRequest → Outcome ReopenPlan
plan_reopen order cancelled_from req =
    let awaiting = is_sslcommerz order.payment_method && is_unpaid order.payment_status in
    let default = if was_live cancelled_from && not awaiting then to_confirmed else to_pending in
    let wanted = get_or req.to default in
    if not (is_staff req.actor)
    then fail "order.reopen_forbidden"
    else if not (is_terminal order.status)
    then fail "order.reopen_not_closed"
    else if ltb (length (trim req.reason)) 3
    then fail "order.reopen_reason_required"
    else if wants_confirmed wanted && awaiting
    then fail "order.awaiting_payment"
    else ok (record { from = order.status; to = wanted })

plan_reopen-terminal :
    (order : OrderSnapshot) (cancelled_from : Option OrderStatus) (req : ReopenRequest)
    (p : ReopenPlan)
    → plan_reopen order cancelled_from req ≡ ok p
    → is_terminal order.status ≡ true
unfolding plan_reopen
plan_reopen-terminal order cancelled_from req p h = ground arith

-- A request that is accepted comes from the staff, for a closed order, with a reason. The order then
-- stands at the stage asked for; without a wish it is confirmed exactly if it had been live before and
-- its payment through the gateway is not still awaited. Confirmed it never is while that is awaited.
pub plan_reopen_lem :
    (order : OrderSnapshot) (cancelled_from : Option OrderStatus) (req : ReopenRequest)
    (p : ReopenPlan)
    → plan_reopen order cancelled_from req ≡ ok p
    → let awaiting = is_sslcommerz order.payment_method && is_unpaid order.payment_status in
      (is_staff req.actor ≡ true)
      × (is_terminal p.from ≡ true)
      × (p.from ≡ order.status)
      × (3 ≤ length (trim req.reason))
      × (awaiting ≡ true → p.to ≡ to_pending)
      × ((t : ReopenTarget) → req.to ≡ some t → p.to ≡ t)
      × (req.to ≡ none
          → awaiting ≡ false
          → (p.to ≡ to_confirmed) ↔ (was_live cancelled_from ≡ true))
unfolding plan_reopen
plan_reopen_lem order cancelled_from req p h =
    let from : p.from ≡ order.status = ground arith in
    (
      ground arith,
      subst (λ s. is_terminal s ≡ true) (ground arith)
          (plan_reopen-terminal order cancelled_from req p h),
      ground arith,
      ground arith,
      λ a. ground arith,
      λ t e. ground arith,
      λ e a. (λ q. ground arith, λ q. ground arith),
    )
