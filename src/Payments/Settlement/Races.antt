-- ===== src/Payments/Settlement/Races.antt =====
-- backend/src/modules/payments/sslcommerz/application/payment-settlement.service.ts: calls of confirm,
-- reconcile and fail in any order, each with a payment that was read at any time before.
use brothers_book_house.Base.{
  Bool-cases, Option, Option-cases, ap, inl, inr, none, some, subst, ℕ, ◌&&◌, ◌≡◌,
}
use brothers_book_house.Base.Outcome.{ok, ok-inj}
use brothers_book_house.Money.{Decimal}
use brothers_book_house.Payments.Settlement.{
  Payment, PaymentStatus, Reply, Till, act_on, answered, confirm, confirm_found, confirm_read,
  confirm_reply, expected_of, fail_payment, find_by_tran, is_final_ok, is_pending, mark_pending,
  store_amount_of, then_status, unavailable,
}
use brothers_book_house.Payments.Settlement.Reconcile.{
  act_on_query, fail_with, is_expiring, reconcile, reconcile_reply,
}
use brothers_book_house.Payments.Settlement.Single.{
  IsSingle, fail_payment-IsSingle, mark_pending-IsSingle, settle-IsSingle,
}
use brothers_book_house.Payments.Validation.{
  NotPaid, QueryOutcome, SslValidation, TranQuery, ValidationDecision, evaluate_validation,
  found_none, found_not_paid, found_paid, found_pending, interpret_transaction_query,
}
use brothers_book_house.Payments.Fee.{compute_gateway_fee}

module _ ⦃dec : Decimal⦄ (fee_pct : ℕ) (id : ℕ) where
  then_status-IsSingle :
      (at : ℕ) (w w' : Till) (st : Option PaymentStatus)
      → then_status at w ≡ ok (w', st)
      → IsSingle id w
      → IsSingle id w'
  then_status-IsSingle at w w' st h k =
      subst (IsSingle id) (ap (λ (r : Till × Option PaymentStatus). r.0) (ok-inj h)) k

  act_on-IsSingle :
      (payment : Payment) (tran : ℕ) (v : Option SslValidation) (d : ValidationDecision) (now : ℕ)
      (w w' : Till) (st : Option PaymentStatus)
      → act_on fee_pct payment tran v d now w ≡ ok (w', st)
      → IsSingle id w
      → IsSingle id w'
  unfolding act_on
  act_on-IsSingle payment tran v ValidationDecision.foreign now w w' st h k =
      subst (IsSingle id) (ap (λ (r : Till × Option PaymentStatus). r.0) (ok-inj h)) k
  act_on-IsSingle payment tran v ValidationDecision.pending now w w' st h k =
      then_status-IsSingle payment.id (mark_pending payment.id w) w' st h
        (mark_pending-IsSingle id payment.id w k)
  act_on-IsSingle payment tran v ValidationDecision.mismatch now w w' st h k =
      then_status-IsSingle payment.id (fail_payment payment NotPaid.failed w).0 w' st h
        (fail_payment-IsSingle id payment NotPaid.failed w k)
  act_on-IsSingle payment tran v (ValidationDecision.not_paid s) now w w' st h k =
      then_status-IsSingle payment.id (fail_payment payment s w).0 w' st h
        (fail_payment-IsSingle id payment s w k)
  act_on-IsSingle payment tran v (ValidationDecision.success val bank) now w w' st h k =
      settle-IsSingle id payment tran val bank
        (compute_gateway_fee payment.amount (store_amount_of v) fee_pct) now w w' st h k

  confirm_reply-IsSingle :
      (payment : Payment) (tran : ℕ) (reply : Reply (Option SslValidation)) (now : ℕ) (w w' : Till)
      (st : Option PaymentStatus)
      → confirm_reply fee_pct payment tran reply now w ≡ ok (w', st)
      → IsSingle id w
      → IsSingle id w'
  unfolding confirm_reply
  confirm_reply-IsSingle payment tran unavailable now w w' st h k =
      then_status-IsSingle payment.id (mark_pending payment.id w) w' st h
        (mark_pending-IsSingle id payment.id w k)
  confirm_reply-IsSingle payment tran (answered v) now w w' st h k =
      act_on-IsSingle payment tran v (evaluate_validation (expected_of payment tran) v) now w w' st
        h k

  confirm_read-IsSingle :
      (payment : Payment) (tran : ℕ) (reply : Reply (Option SslValidation)) (now : ℕ) (w w' : Till)
      (st : Option PaymentStatus)
      → confirm_read fee_pct payment tran reply now w ≡ ok (w', st)
      → IsSingle id w
      → IsSingle id w'
  unfolding confirm_read
  confirm_read-IsSingle payment tran reply now w w' st h k =
      elim (Bool-cases (is_final_ok payment.status)) [
        | inl t ↦
            subst (IsSingle id) (ap (λ (r : Till × Option PaymentStatus). r.0) (ok-inj (rw t at h)))
              k
        | inr t ↦ confirm_reply-IsSingle payment tran reply now w w' st (rw t at h) k
      ]

  confirm_found-IsSingle :
      (found : Option Payment) (tran : ℕ) (reply : Reply (Option SslValidation)) (now : ℕ)
      (w w' : Till) (st : Option PaymentStatus)
      → confirm_found fee_pct found tran reply now w ≡ ok (w', st)
      → IsSingle id w
      → IsSingle id w'
  confirm_found-IsSingle none tran reply now w w' st h k =
      subst (IsSingle id) (ap (λ (r : Till × Option PaymentStatus). r.0) (ok-inj h)) k
  confirm_found-IsSingle (some p) tran reply now w w' st h k =
      confirm_read-IsSingle p tran reply now w w' st h k

  fail_with-IsSingle :
      (payment : Payment) (fallback : Option NotPaid) (w : Till)
      → IsSingle id w
      → IsSingle id (fail_with payment fallback w)
  fail_with-IsSingle payment none w k = k
  fail_with-IsSingle payment (some s) w k = fail_payment-IsSingle id payment s w k

  act_on_query-IsSingle :
      (payment : Payment) (tran : ℕ) (validate : ℕ → Reply (Option SslValidation))
      (fallback : Option NotPaid) (out : QueryOutcome) (now : ℕ) (w w' : Till)
      (st : Option PaymentStatus)
      → act_on_query fee_pct payment tran validate fallback out now w ≡ ok (w', st)
      → IsSingle id w
      → IsSingle id w'
  unfolding act_on_query confirm
  act_on_query-IsSingle payment tran validate fallback (found_paid val) now w w' st h k =
      confirm_found-IsSingle (find_by_tran tran w) tran (validate val) now w w' st h k
  act_on_query-IsSingle payment tran validate fallback (found_not_paid s) now w w' st h k =
      then_status-IsSingle payment.id (fail_payment payment s w).0 w' st h
        (fail_payment-IsSingle id payment s w k)
  act_on_query-IsSingle payment tran validate fallback found_none now w w' st h k =
      then_status-IsSingle payment.id (fail_with payment fallback w) w' st h
        (fail_with-IsSingle payment fallback w k)
  act_on_query-IsSingle payment tran validate fallback found_pending now w w' st h k =
      elim (Bool-cases (is_expiring fallback && is_pending payment.status)) [
        | inl t ↦
            then_status-IsSingle payment.id (fail_payment payment NotPaid.expired w).0 w' st
              (rw t at h) (fail_payment-IsSingle id payment NotPaid.expired w k)
        | inr t ↦
            then_status-IsSingle payment.id (mark_pending payment.id w) w' st (rw t at h)
              (mark_pending-IsSingle id payment.id w k)
      ]

  reconcile_reply-IsSingle :
      (payment : Payment) (tran : ℕ) (query : Reply (Option TranQuery))
      (validate : ℕ → Reply (Option SslValidation)) (fallback : Option NotPaid) (now : ℕ)
      (w w' : Till) (st : Option PaymentStatus)
      → reconcile_reply fee_pct payment tran query validate fallback now w ≡ ok (w', st)
      → IsSingle id w
      → IsSingle id w'
  reconcile_reply-IsSingle payment tran unavailable validate fallback now w w' st h k =
      subst (IsSingle id) (ap (λ (r : Till × Option PaymentStatus). r.0) (ok-inj h)) k
  reconcile_reply-IsSingle payment tran (answered q) validate fallback now w w' st h k =
      act_on_query-IsSingle payment tran validate fallback (interpret_transaction_query q tran) now
        w w' st h k

  reconcile-IsSingle :
      (payment : Payment) (query : Reply (Option TranQuery))
      (validate : ℕ → Reply (Option SslValidation)) (fallback : Option NotPaid) (now : ℕ)
      (w w' : Till) (st : Option PaymentStatus)
      → reconcile fee_pct payment query validate fallback now w ≡ ok (w', st)
      → IsSingle id w
      → IsSingle id w'
  unfolding reconcile
  reconcile-IsSingle payment query validate fallback now w w' st h k =
      elim (Option-cases payment.tran_id) [
        | inl e ↦
            subst (IsSingle id) (ap (λ (r : Till × Option PaymentStatus). r.0) (ok-inj (rw e at h)))
              k
        | inr (tran, e) ↦
            reconcile_reply-IsSingle payment tran query validate fallback now w w' st (rw e at h) k
      ]

-- One call that commits. The payment, the answers and the rate are whatever they are.
pub data Act ⦃dec : Decimal⦄ (w : Till) (w' : Till) : Type 0 where
  confirms :
      (fee_pct : ℕ) (payment : Payment) (tran : ℕ) (reply : Reply (Option SslValidation)) (now : ℕ)
      (st : Option PaymentStatus)
      → confirm_read fee_pct payment tran reply now w ≡ ok (w', st)
      → Act w w'
  reconciles :
      (fee_pct : ℕ) (payment : Payment) (query : Reply (Option TranQuery))
      (validate : ℕ → Reply (Option SslValidation)) (fallback : Option NotPaid) (now : ℕ)
      (st : Option PaymentStatus)
      → reconcile fee_pct payment query validate fallback now w ≡ ok (w', st)
      → Act w w'
  fails : (payment : Payment) (s : NotPaid) → (fail_payment payment s w).0 ≡ w' → Act w w'

pub data Acts ⦃dec : Decimal⦄ (w : Till) : Till → Type 0 where
  no_act : Acts w w
  then_act : {m w' : Till} → Acts w m → Act m w' → Acts w w'

Act-IsSingle : ⦃dec : Decimal⦄ (id : ℕ) (w w' : Till) → Act w w' → IsSingle id w → IsSingle id w'
Act-IsSingle id w w' (confirms pct payment tran reply now st h) k =
    confirm_read-IsSingle pct id payment tran reply now w w' st h k
Act-IsSingle id w w' (reconciles pct payment query validate fallback now st h) k =
    reconcile-IsSingle pct id payment query validate fallback now w w' st h k
Act-IsSingle id w w' (fails payment s h) k =
    subst (IsSingle id) h (fail_payment-IsSingle id payment s w k)

-- Whichever calls of confirm, reconcile and fail commit after one another, each with a payment read
-- at any time before and with any answers of the gateway: if the success of a payment was announced once
-- when it was settled and else not at all, this is so afterwards.
pub Acts-IsSingle :
    ⦃dec : Decimal⦄ (id : ℕ) (w w' : Till) → Acts w w' → IsSingle id w → IsSingle id w'
Acts-IsSingle id w w' no_act k = k
Acts-IsSingle id w w' (then_act {m} acts act) k =
    Act-IsSingle id m w' act (Acts-IsSingle id w m acts k)
