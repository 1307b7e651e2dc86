-- ===== src/Payments/Settlement/Single.antt =====
-- backend/src/modules/payments/sslcommerz/application/payment-settlement.service.ts: whichever calls race
-- each other, a payment succeeds once.
use brothers_book_house.Base.Outcome.{>>=-eq-ok, ok, ok-inj}
use brothers_book_house.Finance.Cash.Postings.{record_gateway_capture}
use brothers_book_house.Base.{
  Bool, Bool-cases, Option, Option-cases, ap, arith, false, if◌then◌else◌, inl, inr, none, not,
  refl, some, subst, sum_by, sym, true, ℕ, ◌==◌, ◌≡◌,
}
use brothers_book_house.Payments.Settlement.{
  Payment, PaymentEvent, PaymentStatus, Till, capture_of, fail_payment, is_final_ok, is_initiated,
  is_open, mark_pending, meets, paid_row, paid_till, payment_failed, payment_succeeded, settle,
  status_of_failure, write_payment,
}
use brothers_book_house.Payments.Validation.{NotPaid}
use brothers_book_house.Money.{Money}

abbrev pub is_success_of : ℕ → PaymentEvent → Bool
is_success_of id (payment_succeeded p o amount fee tran) = p == id
is_success_of id (payment_failed p o s) = false

-- How often it was announced that a payment succeeded.
abbrev pub successes : ℕ → Till → ℕ
successes id w = sum_by (λ e. if is_success_of id e then 1 else 0) w.events

abbrev pub is_settled : ℕ → Till → Bool
is_settled id w = meets is_final_ok (w.payments id)

-- Once if the payment is settled, else not at all.
abbrev pub IsSingle : ℕ → Till → Type 0
IsSingle id w = successes id w ≡ (if is_settled id w then 1 else 0)

-- A change of the payments that are open to a status that is not final settles none.
open_not_final : (s : PaymentStatus) → is_open s ≡ true → is_final_ok s ≡ false
open_not_final s h = ground arith

pub initiated_open : (s : PaymentStatus) → is_initiated s ≡ true → is_open s ≡ true
initiated_open s h = ground arith

pub failure_not_final : (s : NotPaid) → is_final_ok (status_of_failure s) ≡ false
failure_not_final s = ground arith

pub write_open :
    (id at : ℕ) (status : PaymentStatus) (w : Till)
    → meets is_open (w.payments at) ≡ true
    → is_final_ok status ≡ false
    → is_settled id (write_payment at (λ p. record p { status = status }) w) ≡ is_settled id w
write_open id at status w h final = elim (Bool-cases (id == at)) [
  | inl t ↦
      let same : id ≡ at = ground arith in
      elim (Option-cases (w.payments at)) [
        | inl e ↦ cc (rw e at h)
        | inr (p, e) ↦ rw t (rw same (rw e (rw final (sym (open_not_final p.status (rw e at h))))))
      ]
  | inr t ↦ rw t refl
]

pub meets_imp :
    (p q : PaymentStatus → Bool) (row : Option Payment)
    → ((s : PaymentStatus) → p s ≡ true → q s ≡ true)
    → meets p row ≡ true
    → meets q row ≡ true
meets_imp p q none k h = cc
meets_imp p q (some r) k h = k r.status h

pub mark_pending-IsSingle : (id at : ℕ) (w : Till) → IsSingle id w → IsSingle id (mark_pending at w)
unfolding mark_pending
mark_pending-IsSingle id at w k = elim (Bool-cases (meets is_initiated (w.payments at))) [
  | inl t ↦
      let open_row = meets_imp is_initiated is_open (w.payments at) initiated_open t in
      rw t (rw (write_open id at PaymentStatus.pending w open_row refl) k)
  | inr t ↦ rw t k
]

pub fail_payment-IsSingle :
    (id : ℕ) (payment : Payment) (s : NotPaid) (w : Till)
    → IsSingle id w
    → IsSingle id (fail_payment payment s w).0
unfolding fail_payment
fail_payment-IsSingle id payment s w k = elim (Bool-cases (meets is_open (w.payments payment.id))) [
  | inl t ↦ rw t (
      rw (write_open id payment.id (status_of_failure s) w t (failure_not_final s))
        (omega (arith, k)))
  | inr t ↦ rw t k
]

-- A payment that is not settled, and that is there, is settled by the write.
pub write_paid :
    (id at : ℕ) (f : Payment → Payment) (w : Till)
    → meets (λ s. not (is_final_ok s)) (w.payments at) ≡ true
    → ((p : Payment) → (f p).status ≡ PaymentStatus.success)
    → (is_settled at w ≡ false)
      × (is_settled id (write_payment at f w) ≡ (if at == id then true else is_settled id w))
write_paid id at f w h good = elim (Option-cases (w.payments at)) [
  | inl e ↦ cc (rw e at h)
  | inr (p, e) ↦ elim (Bool-cases (id == at)) [
    | inl t ↦
        let back : at == id ≡ true = ground arith in
        let same : id ≡ at = ground arith in
        rw e (ground (arith, rw e at h), rw t (rw back (rw same (rw e (rw (good p) refl)))))
    | inr t ↦
        let back : at == id ≡ false = ground arith in
        rw e (ground (arith, rw e at h), rw t (rw back refl))
  ]
]

pub settle-IsSingle :
    (id : ℕ) (payment : Payment) (tran val : ℕ) (bank : Option ℕ) (fee : Money) (now : ℕ)
    (w w' : Till) (st : Option PaymentStatus)
    → settle payment tran val bank fee now w ≡ ok (w', st)
    → IsSingle id w
    → IsSingle id w'
unfolding settle
settle-IsSingle id payment tran val bank fee now w w' st h k =
    elim (Bool-cases (not (meets (λ s. not (is_final_ok s)) (w.payments payment.id)))) [
      | inl t ↦
          let same : w ≡ w' = ap (λ (r : Till × Option PaymentStatus). r.0) (ok-inj (rw t at h)) in
          subst (IsSingle id) same k
      | inr t ↦
          let (l, e, f) =
            >>=-eq-ok (record_gateway_capture (capture_of payment tran fee now) w.ledger)
              (paid_till payment tran val bank fee now w) (w', st) (rw t at h) in
          let same = ap (λ (r : Till × Option PaymentStatus). r.0) (ok-inj f) in
          let there : meets (λ s. not (is_final_ok s)) (w.payments payment.id) ≡ true =
            ground arith in
          let (before, after) =
            write_paid id payment.id (paid_row val bank fee now) w there (λ p. refl) in
          subst (IsSingle id) same (rw after (ground (arith, k, before)))
    ]
