-- ===== src/Tests/Moves.antt =====
-- An order that is confirmed, moved on and cancelled.
use brothers_book_house.Base.{[], false, length, none, refl, some, true, ◌↔◌, ◌∷◌, ◌≡◌, ◌≤◌}
use brothers_book_house.Orders.Reopen.{
  ReopenPlan, ReopenRequest, ReopenTarget, plan_reopen, plan_reopen_lem, was_live,
}
use brothers_book_house.Base.Text.{trim}
use brothers_book_house.Base.Outcome.{is_ok, ok}
use brothers_book_house.Orders.Status.{
  Mode, OrderPaymentStatus, OrderSnapshot, OrderStatus, PaymentMethod, TransitionActor,
  TransitionRequest, is_shipped_stage, is_terminal, plan_transition, rank,
}
use brothers_book_house.Orders.Status.Plan.{IsPermitted, Move, plan_transition_iff}

abbrev fresh : OrderSnapshot
fresh = record {
  status = OrderStatus.pending;
  payment_method = PaymentMethod.cod;
  payment_status = OrderPaymentStatus.unpaid;
  stock_reserved = true;
  confirmed_at = none;
  shipped_at = none;
}

abbrev to_courier : TransitionRequest
to_courier = record {
  to = OrderStatus.handed_to_courier;
  mode = Mode.advance;
  actor = TransitionActor.staff;
  credit = none;
  now = 7;
}

accepts_skip : is_ok (plan_transition fresh to_courier) ≡ true
unfolding plan_transition rank is_shipped_stage
accepts_skip = refl

plan_transition_iff_example : (is_ok (plan_transition fresh to_courier) ≡ true) ↔ (
    Move Mode.advance OrderStatus.pending OrderStatus.handed_to_courier
    × IsPermitted fresh to_courier)
plan_transition_iff_example = plan_transition_iff fresh to_courier

abbrev cancelled_order : OrderSnapshot
cancelled_order = record fresh { status = OrderStatus.cancelled }

abbrev wish_nothing : ReopenRequest
wish_nothing = record { to = none; reason = 70 ∷ 71 ∷ 72 ∷ []; actor = TransitionActor.staff }

abbrev back_as_confirmed : ReopenPlan
back_as_confirmed = record { from = OrderStatus.cancelled; to = ReopenTarget.to_confirmed }

reopened :
    plan_reopen cancelled_order (some OrderStatus.processing) wish_nothing ≡ ok back_as_confirmed
unfolding plan_reopen is_terminal trim
reopened = refl

plan_reopen_lem_example :
    (true ≡ true)
    × (is_terminal OrderStatus.cancelled ≡ true)
    × (OrderStatus.cancelled ≡ OrderStatus.cancelled)
    × (3 ≤ length (trim wish_nothing.reason))
    × (false ≡ true → ReopenTarget.to_confirmed ≡ ReopenTarget.to_pending)
    × ((t : ReopenTarget) → wish_nothing.to ≡ some t → ReopenTarget.to_confirmed ≡ t)
    × (wish_nothing.to ≡ none
        → false ≡ false
        → (ReopenTarget.to_confirmed ≡ ReopenTarget.to_confirmed)
          ↔ (was_live (some OrderStatus.processing) ≡ true))
plan_reopen_lem_example =
    plan_reopen_lem cancelled_order (some OrderStatus.processing) wish_nothing back_as_confirmed
      reopened
