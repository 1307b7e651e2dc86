-- ===== src/Payments/Settlement/Reconcile.antt =====
-- backend/src/modules/payments/sslcommerz/application/payment-settlement.service.ts: reconcile.
use brothers_book_house.Base.{Bool, Option, false, if◌then◌else◌, none, some, true, ℕ, ◌&&◌}
use brothers_book_house.Base.Outcome.{Outcome, ok}
use brothers_book_house.Money.{Decimal}
use brothers_book_house.Payments.Settlement.{
  Payment, PaymentStatus, Reply, Till, answered, confirm, fail_payment, is_pending, mark_pending,
  then_status, unavailable,
}
use brothers_book_house.Payments.Validation.{
  NotPaid, QueryOutcome, SslValidation, TranQuery, found_none, found_not_paid, found_paid,
  found_pending, interpret_transaction_query,
}

abbrev pub is_expiring : Option NotPaid → Bool
is_expiring (some NotPaid.expired) = true
is_expiring _ = false

abbrev pub fail_with : Payment → Option NotPaid → Till → Till
fail_with payment none w = w
fail_with payment (some s) w = (fail_payment payment s w).0

module _ ⦃dec : Decimal⦄ (fee_pct : ℕ) where
  unfoldable pub act_on_query :
      Payment
      → ℕ
      → (ℕ → Reply (Option SslValidation))
      → Option NotPaid
      → QueryOutcome
      → ℕ
      → Till
      → Outcome (Till × Option PaymentStatus)
  unfolding confirm fail_payment mark_pending
  act_on_query payment tran validate fallback (found_paid val) now w =
      confirm fee_pct tran (validate val) now w
  act_on_query payment tran validate fallback (found_not_paid s) now w =
      then_status payment.id (fail_payment payment s w).0
  act_on_query payment tran validate fallback found_none now w =
      then_status payment.id (fail_with payment fallback w)
  act_on_query payment tran validate fallback found_pending now w = then_status payment.id (
      if is_expiring fallback && is_pending payment.status
      then (fail_payment payment NotPaid.expired w).0
      else mark_pending payment.id w)

  abbrev pub reconcile_reply :
      Payment
      → ℕ
      → Reply (Option TranQuery)
      → (ℕ → Reply (Option SslValidation))
      → Option NotPaid
      → ℕ
      → Till
      → Outcome (Till × Option PaymentStatus)
  reconcile_reply payment tran unavailable validate fallback now w = ok (w, some payment.status)
  reconcile_reply payment tran (answered q) validate fallback now w =
      act_on_query payment tran validate fallback (interpret_transaction_query q tran) now w

  -- `fallback` is applied where the gateway knows of no attempt.
  unfoldable pub reconcile :
      Payment
      → Reply (Option TranQuery)
      → (ℕ → Reply (Option SslValidation))
      → Option NotPaid
      → ℕ
      → Till
      → Outcome (Till × Option PaymentStatus)
  unfolding act_on_query
  reconcile payment query validate fallback now w = elim payment.tran_id [
    | none ↦ ok (w, some payment.status)
    | some tran ↦ reconcile_reply payment tran query validate fallback now w
  ]
