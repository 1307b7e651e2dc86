-- ===== src/Payments/Refunding/Steps.antt =====
-- backend/src/modules/payments/refunds/application/refunds.service.ts: refunds that are created, sent and
-- looked up again, in any order.
use brothers_book_house.Base.{find, some, ◌≡◌}
use brothers_book_house.Base.Outcome.{Outcome, ok}
use brothers_book_house.Base.Text.{Text}
use brothers_book_house.Payments.Settlement.{Reply}
use brothers_book_house.Payments.Refunding.{
  Desk, GatewayAnswer, Refund, RefundInput, RefundStatus, create_in_tx, refresh, same_id, send,
}

-- One committed step on the refunds of an order: a refund is created under the order as it is, a refund
-- that is being processed is sent to the gateway, or it is looked up there again.
pub data RefundStep (d d' : Desk) : Type 0 where
  created :
      (input : RefundInput) (id : Text) → create_in_tx d.order input id d ≡ ok d' → RefundStep d d'
  sent :
      (id : Text) (r : Refund) (reply : Reply GatewayAnswer)
      → find (same_id id) d.refunds ≡ some r
      → r.status ≡ RefundStatus.processing
      → (send id reply d).0 ≡ d'
      → RefundStep d d'
  refreshed :
      (id : Text) (reply : Reply GatewayAnswer) → refresh id reply d ≡ ok d' → RefundStep d d'

pub data RefundSteps (d : Desk) : Desk → Type 0 where
  no_step : RefundSteps d d
  then_step : {m d' : Desk} → RefundSteps d m → RefundStep m d' → RefundSteps d d'
