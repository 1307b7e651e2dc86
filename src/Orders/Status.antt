-- ===== src/Orders/Status.antt =====
-- backend/src/modules/orders/domain/order-status.ts: which moves of an order are legal, and what a
-- move has to do. `confirmedAt`, `shippedAt` and the other times are instants in milliseconds.
pub mod Plan
pub mod Effect
use brothers_book_house.Base.{
  Bool, List, Option, [], any, false, if◌then◌else◌, is_empty, is_some, length, ltb, none, not,
  some, suc, true, zero, ℕ, ◌&&◌, ◌+◌, ◌==◌, ◌||◌, ◌∷◌,
}
use brothers_book_house.Base.Int.{ltb_ℤ, negsuc, pos, ℤ}
use brothers_book_house.Base.Text.{Text, trim}
use brothers_book_house.Base.Outcome.{Outcome, fail, ok}

pub data OrderStatus : Type 0 where
  pending confirmed processing handed_to_courier out_for_delivery delivered cancelled returned :
      OrderStatus

pub data PaymentMethod : Type 0 where
  cod sslcommerz bkash nagad cash bank_transfer : PaymentMethod

pub data OrderPaymentStatus : Type 0 where
  unpaid paid partially_refunded refunded : OrderPaymentStatus

pub data TransitionActor : Type 0 where
  staff customer system webhook : TransitionActor

pub data Mode : Type 0 where
  advance regress : Mode

abbrev pub ordinal : OrderStatus → ℕ
ordinal pending = 0
ordinal confirmed = 1
ordinal processing = 2
ordinal handed_to_courier = 3
ordinal out_for_delivery = 4
ordinal delivered = 5
ordinal cancelled = 6
ordinal returned = 7

-- `===` on two statuses
abbrev pub same_status : OrderStatus → OrderStatus → Bool
same_status a b = ordinal a == ordinal b

-- `list.includes(s)`
abbrev pub includes : List OrderStatus → OrderStatus → Bool
includes xs s = any (same_status s) xs

abbrev pub order_flow : List OrderStatus
order_flow =
    pending ∷ confirmed ∷ processing ∷ handed_to_courier ∷ out_for_delivery ∷ delivered ∷ []

abbrev pub open_statuses : List OrderStatus
open_statuses = pending ∷ confirmed ∷ processing ∷ handed_to_courier ∷ out_for_delivery ∷ []

abbrev pub running_statuses : List OrderStatus
running_statuses = confirmed ∷ processing ∷ handed_to_courier ∷ out_for_delivery ∷ []

abbrev pub terminal_statuses : List OrderStatus
terminal_statuses = cancelled ∷ returned ∷ []

abbrev pub returnable_from : List OrderStatus
returnable_from = handed_to_courier ∷ out_for_delivery ∷ delivered ∷ []

-- `list.indexOf(s)`, counted from `i`
abbrev pub index_of_from : ℕ → List OrderStatus → OrderStatus → ℤ
index_of_from i [] s = negsuc 0
index_of_from i (x ∷ xs) s =
    let rest = index_of_from (i + 1) xs s in if same_status s x then pos i else rest

-- -1 for a status that is not on the way to delivery
unfoldable pub rank : OrderStatus → ℤ
rank s = index_of_from 0 order_flow s

unfoldable pub is_open : OrderStatus → Bool
is_open s = includes open_statuses s

unfoldable pub is_terminal : OrderStatus → Bool
is_terminal s = includes terminal_statuses s

unfoldable pub is_shipped_stage : OrderStatus → Bool
unfolding rank
is_shipped_stage s = not (ltb_ℤ (rank s) (rank handed_to_courier))

-- `list[i]`
abbrev pub at : List OrderStatus → ℕ → Option OrderStatus
at [] i = none
at (x ∷ xs) zero = some x
at (x ∷ xs) (suc i) = at xs i

step_after : ℤ → Option OrderStatus
step_after (pos r) = if ltb (r + 1) (length order_flow) then at order_flow (suc r) else none
step_after (negsuc _) = none

unfoldable pub next_status : OrderStatus → Option OrderStatus
unfolding rank step_after
next_status s = step_after (rank s)

-- the table REGRESS_TO
unfoldable pub regress_target : OrderStatus → Option OrderStatus
regress_target processing = some confirmed
regress_target _ = none

pub record OrderSnapshot : Type 0 where
  pub status : OrderStatus
  pub payment_method : PaymentMethod
  pub payment_status : OrderPaymentStatus
  pub stock_reserved : Bool
  pub confirmed_at : Option ℕ
  pub shipped_at : Option ℕ

pub record CreditInput : Type 0 where
  pub reason : Text
  pub courier_loss : Text

pub record TransitionRequest : Type 0 where
  pub to : OrderStatus
  pub mode : Mode
  pub actor : TransitionActor
  pub credit : Option CreditInput
  pub now : ℕ

pub data StockEffect : Type 0 where
  nothing fulfil release restock : StockEffect

-- The fields that the update of the order sets; `none` leaves a field alone.
pub record Changes : Type 0 where
  pub confirmed_at : Option ℕ
  pub shipped_at : Option ℕ
  pub delivered_at : Option ℕ
  pub cancelled_at : Option ℕ
  pub cancelled_from : Option OrderStatus
  pub stock_reserved : Option Bool

pub record TransitionPlan : Type 0 where
  pub from : OrderStatus
  pub to : OrderStatus
  pub stock : StockEffect
  pub changes : Changes
  pub mark_paid : Bool
  pub revoke_coupon : Bool
  pub closes : Bool
  pub voids : Bool
  pub credit : Option CreditInput

abbrev pub no_changes : Changes
no_changes = record {
  confirmed_at = none;
  shipped_at = none;
  delivered_at = none;
  cancelled_at = none;
  cancelled_from = none;
  stock_reserved = none;
}

pub base_plan : OrderStatus → OrderStatus → TransitionPlan
base_plan from to = record {
  from = from;
  to = to;
  stock = nothing;
  changes = no_changes;
  mark_paid = false;
  revoke_coupon = false;
  closes = false;
  voids = false;
  credit = none;
}

abbrev pub is_customer : TransitionActor → Bool
is_customer customer = true
is_customer _ = false

abbrev pub is_staff : TransitionActor → Bool
is_staff staff = true
is_staff _ = false

abbrev pub is_sslcommerz : PaymentMethod → Bool
is_sslcommerz sslcommerz = true
is_sslcommerz _ = false

abbrev pub is_unpaid : OrderPaymentStatus → Bool
is_unpaid unpaid = true
is_unpaid _ = false

-- `req.credit?.reason?.trim()`, where an empty text counts as none
unfoldable pub credit_reason : Option CreditInput → Option Text
credit_reason none = none
credit_reason (some c) = let r = trim c.reason in if is_empty r then none else some r

abbrev pub credit_of : Option Text → Option CreditInput → Option CreditInput
credit_of none c = none
credit_of (some r) none = some (record { reason = r; courier_loss = 48 ∷ [] })
credit_of (some r) (some c) = some (record { reason = r; courier_loss = c.courier_loss })

pub plan_void : OrderSnapshot → TransitionRequest → Outcome TransitionPlan
unfolding base_plan is_open
plan_void order req =
    let from = order.status in
    let live = not (same_status from pending) in
    let reason = credit_reason req.credit in
    if same_status req.to cancelled && not (is_open from)
    then fail "order.cancel_not_allowed"
    else if same_status req.to returned && not (includes returnable_from from)
    then fail "order.return_not_allowed"
    else if is_customer req.actor && not (same_status req.to cancelled && same_status from pending)
    then fail "order.customer_cancel_not_allowed"
    else if live && not (is_some reason)
    then fail "order.credit_required"
    else let plan = base_plan from req.to in
      ok (record plan {
        stock =
            if is_some order.shipped_at
            then restock
            else if order.stock_reserved
            then release
            else nothing;
        changes = record no_changes {
          cancelled_at = some req.now;
          cancelled_from = some from;
          stock_reserved = some false;
        };
        revoke_coupon = true;
        closes = is_open from;
        voids = true;
        credit = if live then credit_of reason req.credit else none;
      })

pub plan_advance : OrderSnapshot → TransitionRequest → TransitionPlan
unfolding base_plan rank is_shipped_stage
plan_advance order req =
    let plan = base_plan order.status req.to in
    let ships = is_shipped_stage req.to && not (is_some order.shipped_at) in
    let arrives = same_status req.to delivered in
    record plan {
      stock = if ships then fulfil else nothing;
      changes = record no_changes {
        confirmed_at =
            if not (ltb_ℤ (rank req.to) (rank confirmed)) && not (is_some order.confirmed_at)
            then some req.now
            else none;
        shipped_at = if ships then some req.now else none;
        stock_reserved = if ships then some false else none;
        delivered_at = if arrives then some req.now else none;
      };
      closes = arrives;
      mark_paid = arrives && is_unpaid order.payment_status;
    }

abbrev pub regresses_to : Option OrderStatus → OrderStatus → Bool
regresses_to none to = false
regresses_to (some s) to = same_status s to

pub plan_regress : OrderSnapshot → TransitionRequest → Outcome TransitionPlan
unfolding base_plan regress_target
plan_regress order req =
    if not (is_staff req.actor)
    then fail "order.regress_forbidden"
    else if not (regresses_to (regress_target order.status) req.to)
    then fail "order.regress_not_allowed"
    else ok (base_plan order.status req.to)

pub plan_forward : OrderSnapshot → TransitionRequest → Outcome TransitionPlan
unfolding plan_advance rank
plan_forward order req =
    let from = order.status in
    if ltb_ℤ (rank req.to) (pos 0)
    then fail "order.transition_invalid"
    else if ltb_ℤ (rank req.to) (rank from)
    then fail "order.transition_backwards"
    else if is_customer req.actor
    then fail "order.customer_forbidden"
    else if same_status from pending
        && is_sslcommerz order.payment_method
        && is_unpaid order.payment_status
    then fail "order.awaiting_payment"
    else ok (plan_advance order req)

abbrev pub by_mode : Mode → Outcome TransitionPlan → Outcome TransitionPlan → Outcome TransitionPlan
by_mode regress back on = back
by_mode advance back on = on

unfoldable pub plan_transition : OrderSnapshot → TransitionRequest → Outcome TransitionPlan
unfolding is_terminal plan_void plan_regress plan_forward
plan_transition order req =
    if is_terminal order.status
    then fail "order.closed"
    else if same_status order.status req.to
    then fail "order.status_unchanged"
    else by_mode req.mode (plan_regress order req) (
        if same_status req.to cancelled || same_status req.to returned
        then plan_void order req
        else plan_forward order req)
