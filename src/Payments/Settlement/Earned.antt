-- ===== src/Payments/Settlement/Earned.antt =====
-- backend/src/modules/payments/sslcommerz/application/payment-settlement.service.ts: nothing is paid
-- without the gateway's word, and what is paid is in the ledger.
use brothers_book_house.Base.{
  Bool-cases, Option, ap, arith, false, inl, inr, none, not, refl, some, subst, sym, true, ℕ, ◌∙◌,
  ◌≡◌,
}
use brothers_book_house.Base.Outcome.{>>=-eq-ok, Outcome, ok, ok-inj}
use brothers_book_house.Money.{Decimal, Money}
use brothers_book_house.Payments.Settlement.{
  Payment, PaymentStatus, Reply, Till, act_on, answered, capture_of, confirm_read, confirm_reply,
  expected_of, fail_payment, is_final_ok, is_initiated, is_open, mark_pending, meets, paid_row,
  paid_till, settle, status_of, status_of_failure, store_amount_of, unavailable,
}
use brothers_book_house.Payments.Settlement.Single.{
  failure_not_final, initiated_open, is_settled, meets_imp, write_open, write_paid,
}
use brothers_book_house.Payments.Validation.{
  NotPaid, SslValidation, ValidationDecision, evaluate_validation,
}
use brothers_book_house.Finance.Cash.{Ledger}
use brothers_book_house.Finance.Cash.Postings.{
  CaptureInput, capture_filter, has, record_gateway_capture,
}
use brothers_book_house.Finance.Cash.Once.{IsReferential, first_capture}
use brothers_book_house.Payments.Fee.{compute_gateway_fee}
use brothers_book_house.Payments.Paid.{IsOurPayment, evaluate_validation_iff}

mark_pending-is_settled :
    (id at : ℕ) (w : Till) → is_settled id (mark_pending at w) ≡ is_settled id w
unfolding mark_pending
mark_pending-is_settled id at w = elim (Bool-cases (meets is_initiated (w.payments at))) [
  | inl t ↦
      let open_row = meets_imp is_initiated is_open (w.payments at) initiated_open t in
      rw t (rw (write_open id at PaymentStatus.pending w open_row refl) refl)
  | inr t ↦ rw t refl
]

fail_payment-is_settled :
    (id : ℕ) (payment : Payment) (s : NotPaid) (w : Till)
    → is_settled id (fail_payment payment s w).0 ≡ is_settled id w
unfolding fail_payment
fail_payment-is_settled id payment s w = elim (Bool-cases (meets is_open (w.payments payment.id))) [
  | inl t ↦
      rw t (rw (write_open id payment.id (status_of_failure s) w t (failure_not_final s)) refl)
  | inr t ↦ rw t refl
]

-- What is settled between two states is settled for a reason.
abbrev pub Earns : ℕ → Till → Till → Type 0 → Type 0
Earns id w w' reason = is_settled id w ≡ false → is_settled id w' ≡ true → reason

not_earned :
    (id : ℕ) (w m w' : Till) (st st' : Option PaymentStatus) (reason : Type 0)
    → is_settled id m ≡ is_settled id w
    → ◌≡◌ {A = Outcome (Till × Option PaymentStatus)} (ok (m, st)) (ok (w', st'))
    → Earns id w w' reason
not_earned id w m w' st st' reason same e before after =
    let there : m ≡ w' = ap (λ (r : Till × Option PaymentStatus). r.0) (ok-inj e) in
    let settled : is_settled id m ≡ true = subst (λ x. is_settled id x ≡ true) (sym there) after in
    cc

-- The ledger holds the capture of the payment under its transaction.
abbrev pub IsCaptured : Payment → ℕ → Ledger → Type 0
IsCaptured payment tran l = has (capture_filter (capture_of payment tran 0 0)) l ≡ true

record_gateway_capture-has :
    (p : CaptureInput) (l l' : Ledger)
    → IsReferential l
    → record_gateway_capture p l ≡ ok l'
    → has (capture_filter p) l' ≡ true
unfolding record_gateway_capture
record_gateway_capture-has p l l' k h = elim (Bool-cases (has (capture_filter p) l)) [
  | inl t ↦ ap (λ (x : Ledger). has (capture_filter p) x) (sym (ok-inj (rw t at h))) ∙ t
  | inr t ↦ (first_capture p l l' k (rw t at h)).1
]

settle_lem :
    (id : ℕ) (payment : Payment) (tran val : ℕ) (bank : Option ℕ) (fee : Money) (now : ℕ)
    (w w' : Till) (st : Option PaymentStatus)
    → IsReferential w.ledger
    → settle payment tran val bank fee now w ≡ ok (w', st)
    → Earns id w w' ((id ≡ payment.id) × IsCaptured payment tran w'.ledger)
unfolding settle
settle_lem id payment tran val bank fee now w w' st k h =
    elim (Bool-cases (not (meets (λ s. not (is_final_ok s)) (w.payments payment.id)))) [
      | inl t ↦ not_earned id w w w' (status_of payment.id w) st _ refl (rw t at h)
      | inr t ↦ λ before after.
          let (l, e, f) =
            >>=-eq-ok (record_gateway_capture (capture_of payment tran fee now) w.ledger)
              (paid_till payment tran val bank fee now w) (w', st) (rw t at h) in
          let same = ap (λ (r : Till × Option PaymentStatus). r.0) (ok-inj f) in
          let there : meets (λ s. not (is_final_ok s)) (w.payments payment.id) ≡ true =
            ground arith in
          let (fresh, settled) =
            write_paid id payment.id (paid_row val bank fee now) w there (λ p. refl) in
          let captured =
            record_gateway_capture-has (capture_of payment tran fee now) w.ledger l k e in
          let now_settled = subst (λ x. is_settled id x ≡ true) (sym same) after in
          (
            ground (arith, settled, now_settled, before),
            ap (λ (x : Till). has (capture_filter (capture_of payment tran 0 0)) x.ledger)
                  (sym same)
                ∙ captured,
          )
    ]

-- The gateway's own answer names our transaction, over our amount, as paid.
abbrev pub IsEarned : ℕ → Payment → ℕ → Reply (Option SslValidation) → Ledger → Type 0
IsEarned id payment tran reply l =
    (id ≡ payment.id)
    × ((v : SslValidation) × (reply ≡ answered (some v))
        × IsOurPayment (expected_of payment tran) v)
    × IsCaptured payment tran l

module _ ⦃dec : Decimal⦄ (fee_pct : ℕ) (id : ℕ) (payment : Payment) (tran : ℕ) where
  act_on_lem :
      (v : SslValidation) (d : ValidationDecision) (now : ℕ) (w w' : Till)
      (st : Option PaymentStatus)
      → IsReferential w.ledger
      → evaluate_validation (expected_of payment tran) (some v) ≡ d
      → act_on fee_pct payment tran (some v) d now w ≡ ok (w', st)
      → Earns id w w' (IsEarned id payment tran (answered (some v)) w'.ledger)
  unfolding act_on
  act_on_lem v ValidationDecision.foreign now w w' st k e h =
      not_earned id w w w' (some payment.status) st _ refl h
  act_on_lem v ValidationDecision.pending now w w' st k e h =
      let m = mark_pending payment.id w in
      not_earned id w m w' (status_of payment.id m) st _ (mark_pending-is_settled id payment.id w) h
  act_on_lem v ValidationDecision.mismatch now w w' st k e h =
      let m = (fail_payment payment NotPaid.failed w).0 in
      not_earned id w m w' (status_of payment.id m) st _
        (fail_payment-is_settled id payment NotPaid.failed w) h
  act_on_lem v (ValidationDecision.not_paid s) now w w' st k e h =
      let m = (fail_payment payment s w).0 in
      not_earned id w m w' (status_of payment.id m) st _ (fail_payment-is_settled id payment s w) h
  act_on_lem v (ValidationDecision.success val bank) now w w' st k e h = λ before after.
      let fee = compute_gateway_fee payment.amount (store_amount_of (some v)) fee_pct in
      let (same, captured) =
        (settle_lem id payment tran val bank fee now w w' st k h) before after in
      let ours = (evaluate_validation_iff (expected_of payment tran) v val bank).0 e in
      (same, (v, refl, ours.0), captured)

  confirm_reply_lem :
      (reply : Reply (Option SslValidation)) (now : ℕ) (w w' : Till) (st : Option PaymentStatus)
      → IsReferential w.ledger
      → confirm_reply fee_pct payment tran reply now w ≡ ok (w', st)
      → Earns id w w' (IsEarned id payment tran reply w'.ledger)
  unfolding confirm_reply act_on evaluate_validation
  confirm_reply_lem unavailable now w w' st k h =
      let m = mark_pending payment.id w in
      not_earned id w m w' (status_of payment.id m) st _ (mark_pending-is_settled id payment.id w) h
  confirm_reply_lem (answered none) now w w' st k h =
      let m = mark_pending payment.id w in
      not_earned id w m w' (status_of payment.id m) st _ (mark_pending-is_settled id payment.id w) h
  confirm_reply_lem (answered (some v)) now w w' st k h =
      act_on_lem v (evaluate_validation (expected_of payment tran) (some v)) now w w' st k refl h

  -- A payment that a confirmation settles is the one that was read; the gateway answered that our
  -- transaction is paid over our amount in our currency; and the ledger holds its capture.
  pub confirm_read-IsEarned :
      (reply : Reply (Option SslValidation)) (now : ℕ) (w w' : Till) (st : Option PaymentStatus)
      → IsReferential w.ledger
      → confirm_read fee_pct payment tran reply now w ≡ ok (w', st)
      → is_settled id w ≡ false
      → is_settled id w' ≡ true
      → IsEarned id payment tran reply w'.ledger
  unfolding confirm_read
  confirm_read-IsEarned reply now w w' st k h = elim (Bool-cases (is_final_ok payment.status)) [
    | inl t ↦ not_earned id w w w' (some payment.status) st _ refl (rw t at h)
    | inr t ↦ confirm_reply_lem reply now w w' st k (rw t at h)
  ]
