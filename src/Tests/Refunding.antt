-- ===== src/Tests/Refunding.antt =====
-- Refunds through the gateway, and one under an order that was read too early.
use brothers_book_house.Base.{[], false, none, refl, some, true, ◌∷◌, ◌≡◌}
use brothers_book_house.Base.Outcome.{is_ok, ok}
use brothers_book_house.Orders.Status.{OrderPaymentStatus, PaymentMethod}
use brothers_book_house.Orders.Redemption.{update_first}
use brothers_book_house.Finance.Refunds.{check_refund, refundable}
use brothers_book_house.Payments.Settlement.{Reply, answered}
use brothers_book_house.Payments.Refunding.{
  Desk, GatewayAnswer, GatewayRefundStatus, PaidOrder, Refund, RefundInput, RefundStatus,
  apply_completed, create_in_tx, send, settle_gateway, write_refund,
}
use brothers_book_house.Payments.Refunding.Steps.{RefundSteps, created, no_step, sent, then_step}
use brothers_book_house.Tests.Desk.{new_ledger}
use brothers_book_house.Finance.Cash.Postings.{record_refund}

abbrev paid_online : PaidOrder
paid_online = record {
  id = 12;
  order_no = 1_012;
  payment_method = PaymentMethod.sslcommerz;
  payment_status = OrderPaymentStatus.paid;
  amount_paid = 10_000;
  amount_refunded = 0;
  payments =
      record { id = 5; method = PaymentMethod.sslcommerz; amount = 10_000; bank_tran_id = some 8 }
      ∷ [];
}

abbrev no_refunds : Desk
no_refunds = record { order = paid_online; refunds = []; ledger = new_ledger }

abbrev all_back : RefundInput
all_back = record { amount = 10_000; method = none; payment_id = none }

abbrev in_process : Refund
in_process = record {
  id = 65 ∷ [];
  payment_id = some 5;
  amount = 10_000;
  method = PaymentMethod.sslcommerz;
  status = RefundStatus.processing;
  provider_ref = none;
}

abbrev one_refund : Desk
one_refund = record no_refunds { refunds = in_process ∷ [] }

creates : create_in_tx paid_online all_back (65 ∷ []) no_refunds ≡ ok one_refund
unfolding create_in_tx check_refund refundable write_refund
creates = refl

abbrev done : Reply GatewayAnswer
done = answered (record { status = GatewayRefundStatus.says_done; refund_ref_id = some 3 })

abbrev two_steps : RefundSteps no_refunds (send (65 ∷ []) done one_refund).0
two_steps =
    then_step (then_step no_step (created all_back (65 ∷ []) creates))
      (sent (65 ∷ []) in_process done refl refl refl)

-- All the money is back, but the order was read before: a second refund of all of it is accepted.
accepts_after_early_read :
    is_ok (create_in_tx paid_online all_back (66 ∷ []) (send (65 ∷ []) done one_refund).0) ≡ true
unfolding create_in_tx check_refund refundable write_refund send settle_gateway apply_completed
    update_first record_refund
accepts_after_early_read = refl

refuses_after_late_read :
    let d = (send (65 ∷ []) done one_refund).0 in
    is_ok (create_in_tx d.order all_back (66 ∷ []) d) ≡ false
unfolding create_in_tx check_refund refundable write_refund send settle_gateway apply_completed
    update_first record_refund
refuses_after_late_read = refl
