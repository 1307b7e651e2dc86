-- ===== src/Payments/Settlement.antt =====
-- backend/src/modules/payments/sslcommerz/application/payment-settlement.service.ts: how a payment
-- through the gateway changes its state. A payment is read first, the gateway is asked, and the change is
-- an UPDATE under a condition on the status as it is then. What the gateway answers is an argument. The
-- reason of a failure, the description of the card and the telemetry are left out.
pub mod Earned
pub mod Settles
pub mod Single
pub mod Races
pub mod Reconcile
use brothers_book_house.Base.{
  Bool, List, Option, false, if◌then◌else◌, map_option, none, not, some, some_and, true, ℕ, ◌==◌,
  ◌∷◌,
}
use brothers_book_house.Base.Outcome.{Outcome, ok, ◌>>=◌}
use brothers_book_house.Money.{Decimal, Money}
use brothers_book_house.Payments.Validation.{
  Expected, NotPaid, SentAmount, SslValidation, ValidationDecision, evaluate_validation, some_then,
}
use brothers_book_house.Payments.Fee.{compute_gateway_fee}
use brothers_book_house.Finance.Cash.{Ledger}
use brothers_book_house.Finance.Cash.Postings.{CaptureInput, record_gateway_capture}

pub data PaymentStatus : Type 0 where
  initiated pending success failed cancelled expired refunded : PaymentStatus

pub record Payment : Type 0 where
  pub id : ℕ
  pub order_id : ℕ
  pub order_no : ℕ
  pub tran_id : Option ℕ
  pub amount : Money
  pub currency : ℕ
  pub status : PaymentStatus
  pub val_id : Option ℕ
  pub bank_tran_id : Option ℕ
  pub fee : Money
  pub succeeded_at : Option ℕ

pub data PaymentEvent : Type 0 where
  payment_succeeded : (payment_id order_id : ℕ) (amount fee : Money) (tran_id : ℕ) → PaymentEvent
  payment_failed : (payment_id order_id : ℕ) (status : PaymentStatus) → PaymentEvent

-- The payments by their id, and the unique index on the transaction.
pub record Till : Type 0 where
  pub payments : ℕ → Option Payment
  pub id_of_tran : ℕ → Option ℕ
  pub ledger : Ledger
  pub events : List PaymentEvent

-- What a call of the gateway comes back with.
pub data Reply (A : Type 0) : Type 0 where
  unavailable : Reply A
  answered : A → Reply A

abbrev pub is_open : PaymentStatus → Bool
is_open initiated = true
is_open pending = true
is_open _ = false

abbrev pub is_final_ok : PaymentStatus → Bool
is_final_ok success = true
is_final_ok refunded = true
is_final_ok _ = false

abbrev pub is_initiated : PaymentStatus → Bool
is_initiated initiated = true
is_initiated _ = false

abbrev pub is_pending : PaymentStatus → Bool
is_pending pending = true
is_pending _ = false

-- `updateMany` of one payment under a condition on its status
abbrev pub meets : (PaymentStatus → Bool) → Option Payment → Bool
meets cond row = some_and row (λ p. cond p.status)

abbrev pub write_payment : ℕ → (Payment → Payment) → Till → Till
write_payment id f w = record w {
  payments = λ q. if q == id then map_option f (w.payments q) else w.payments q;
}

abbrev pub status_of : ℕ → Till → Option PaymentStatus
status_of id w = map_option (λ p. p.status) (w.payments id)

unfoldable pub mark_pending : ℕ → Till → Till
mark_pending id w =
    if meets is_initiated (w.payments id)
    then write_payment id (λ p. record p { status = pending }) w
    else w

abbrev pub status_of_failure : NotPaid → PaymentStatus
status_of_failure NotPaid.failed = failed
status_of_failure NotPaid.cancelled = cancelled
status_of_failure NotPaid.expired = expired

unfoldable pub fail_payment : Payment → NotPaid → Till → Till × Bool
fail_payment payment status w =
    if meets is_open (w.payments payment.id)
    then (let s = status_of_failure status in
        let w' : Till = write_payment payment.id (λ p. record p { status = s }) w in
        (record w' { events = payment_failed payment.id payment.order_id s ∷ w.events }, true))
    else (w, false)

abbrev pub capture_of : Payment → ℕ → Money → ℕ → CaptureInput
capture_of payment tran fee now = record {
  order_id = payment.order_id;
  order_no = payment.order_no;
  tran_id = tran;
  amount = payment.amount;
  fee = fee;
  at_time = some now;
}

abbrev pub paid_row : ℕ → Option ℕ → Money → ℕ → Payment → Payment
paid_row val bank fee now p = record p {
  status = success;
  val_id = some val;
  bank_tran_id = bank;
  fee = fee;
  succeeded_at = some now;
}

-- The committed state, and the status that is returned.
abbrev pub paid_till :
    Payment → ℕ → ℕ → Option ℕ → Money → ℕ → Till → Ledger → Outcome (Till × Option PaymentStatus)
paid_till payment tran val bank fee now w ledger =
    let w' : Till = write_payment payment.id (paid_row val bank fee now) w in
    ok (
      record w' {
        ledger = ledger;
        events = payment_succeeded payment.id payment.order_id payment.amount fee tran ∷ w.events;
      },
      some success,
    )

-- The transaction that makes a payment a success, unless it is one already.
unfoldable pub settle :
    Payment → ℕ → ℕ → Option ℕ → Money → ℕ → Till → Outcome (Till × Option PaymentStatus)
unfolding record_gateway_capture
settle payment tran val bank fee now w =
    if not (meets (λ s. not (is_final_ok s)) (w.payments payment.id))
    then ok (w, status_of payment.id w)
    else do
      ledger ← record_gateway_capture (capture_of payment tran fee now) w.ledger
      paid_till payment tran val bank fee now w ledger

abbrev pub then_status : ℕ → Till → Outcome (Till × Option PaymentStatus)
then_status id w = ok (w, status_of id w)

abbrev pub store_amount_of : Option SslValidation → Option SentAmount
store_amount_of v = some_then v (λ a. a.store_amount)

abbrev pub expected_of : Payment → ℕ → Expected
expected_of payment tran = record {
  tran_id = tran;
  amount = payment.amount;
  currency = payment.currency;
}

abbrev pub find_by_tran : ℕ → Till → Option Payment
find_by_tran tran w = some_then (w.id_of_tran tran) w.payments

module _ ⦃dec : Decimal⦄ (fee_pct : ℕ) where
  unfoldable pub act_on :
      Payment
      → ℕ
      → Option SslValidation
      → ValidationDecision
      → ℕ
      → Till
      → Outcome (Till × Option PaymentStatus)
  unfolding settle fail_payment mark_pending
  act_on payment tran v ValidationDecision.foreign now w = ok (w, some payment.status)
  act_on payment tran v ValidationDecision.pending now w =
      then_status payment.id (mark_pending payment.id w)
  act_on payment tran v ValidationDecision.mismatch now w =
      then_status payment.id (fail_payment payment NotPaid.failed w).0
  act_on payment tran v (ValidationDecision.not_paid s) now w =
      then_status payment.id (fail_payment payment s w).0
  act_on payment tran v (ValidationDecision.success val bank) now w =
      settle payment tran val bank (compute_gateway_fee payment.amount (store_amount_of v) fee_pct)
        now w

  unfoldable pub confirm_reply :
      Payment → ℕ → Reply (Option SslValidation) → ℕ → Till → Outcome (Till × Option PaymentStatus)
  unfolding act_on
  confirm_reply payment tran unavailable now w = then_status payment.id (mark_pending payment.id w)
  confirm_reply payment tran (answered v) now w =
      act_on payment tran v (evaluate_validation (expected_of payment tran) v) now w

  -- From the payment that was read, on the state as it is when the gateway has answered.
  unfoldable pub confirm_read :
      Payment → ℕ → Reply (Option SslValidation) → ℕ → Till → Outcome (Till × Option PaymentStatus)
  unfolding confirm_reply
  confirm_read payment tran reply now w =
      if is_final_ok payment.status
      then ok (w, some payment.status)
      else confirm_reply payment tran reply now w

  abbrev pub confirm_found :
      Option Payment
      → ℕ
      → Reply (Option SslValidation)
      → ℕ
      → Till
      → Outcome (Till × Option PaymentStatus)
  confirm_found none tran reply now w = ok (w, none)
  confirm_found (some p) tran reply now w = confirm_read p tran reply now w

  unfoldable pub confirm :
      ℕ → Reply (Option SslValidation) → ℕ → Till → Outcome (Till × Option PaymentStatus)
  unfolding confirm_read
  confirm tran reply now w = confirm_found (find_by_tran tran w) tran reply now w
