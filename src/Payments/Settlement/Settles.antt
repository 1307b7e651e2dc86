-- ===== src/Payments/Settlement/Settles.antt =====
-- backend/src/modules/payments/sslcommerz/application/payment-settlement.service.ts: a paid answer settles.
use brothers_book_house.Payments.Settlement.Single.{successes}
use brothers_book_house.Payments.Fee.{compute_gateway_fee}
use brothers_book_house.Payments.Paid.{IsOurPayment, evaluate_validation_iff}
use brothers_book_house.Base.{
  Bool, Bool-cases, Option, Option-cases, arith, false, find, inl, inr, leb, ltb, ltb→lt,
  map_option, none, refl, some, true, ℕ, ◌+◌, ◌<◌, ◌==◌, ◌∷◌, ◌≡◌,
}
use brothers_book_house.Base.Outcome.{Outcome, ok}
use brothers_book_house.Finance.Cash.{
  CashAccount, Ledger, PostEntry, SystemAccountCode, account, by_code, find_account, place_of, post,
  row_of, same_code, sslcommerz_account, system_code,
}
use brothers_book_house.Money.{Decimal}
use brothers_book_house.Finance.Cash.Postings.{
  CaptureInput, capture_entry, capture_filter, fee_entry, has, post_fee, record_gateway_capture,
}
use brothers_book_house.Payments.Settlement.{
  Payment, PaymentStatus, Till, act_on, answered, capture_of, confirm_read, confirm_reply,
  expected_of, is_final_ok, paid_row, payment_succeeded, settle, status_of, write_payment,
}
use brothers_book_house.Payments.Validation.{SslValidation}

abbrev pub is_open_account : Option CashAccount → Bool
is_open_account none = true
is_open_account (some a) = a.is_active

-- The account can be posted to, or is yet to be created.
abbrev pub is_ready : SystemAccountCode → Ledger → Bool
is_ready c l = is_open_account (find (λ a. same_code a.code (system_code c)) l.accounts)

abbrev pub with_row : PostEntry → ℕ → Ledger → Ledger
with_row e id l = record l {
  transactions = row_of e id l.next_id l.now ∷ l.transactions;
  next_id = l.next_id + 1;
}

abbrev pub with_account : SystemAccountCode → Ledger → Ledger
with_account c l = record l {
  accounts = record { id = l.next_id; code = system_code c; is_active = true } ∷ l.accounts;
  next_id = l.next_id + 1;
}

-- What is posted to an account that is ready is posted, and leaves it ready.
post_ready :
    (c : SystemAccountCode) (e : PostEntry) (l : Ledger)
    → e.account ≡ by_code (system_code c)
    → e.reverses_id ≡ none
    → 0 < e.amount
    → is_ready c l ≡ true
    → (l' : Ledger) × (post e l ≡ ok l') × (is_ready c l' ≡ true)
unfolding post account find_account
post_ready c e l ref own positive h =
    let amount : leb e.amount 0 ≡ false = ground (arith, positive) in
    let self : place_of c == place_of c ≡ true = ground arith in
    elim (Option-cases (find (λ a. same_code a.code (system_code c)) l.accounts)) [
      | inl none_yet ↦ (
        with_row e l.next_id (with_account c l),
        rw amount (rw ref (rw own (rw none_yet refl))),
        rw self refl,
      )
      | inr (a, found) ↦
          let active : a.is_active ≡ true = rw found at h in
          (with_row e a.id l, rw amount (rw ref (rw own (rw found (rw active refl)))), h)
    ]

abbrev pub CanPost : Outcome Ledger → Type 0
CanPost o = (l : Ledger) × (o ≡ ok l)

post_fee_ready :
    (p : CaptureInput) (l : Ledger) → is_ready sslcommerz_account l ≡ true → CanPost (post_fee p l)
unfolding post_fee
post_fee_ready p l h = elim (Bool-cases (ltb 0 p.fee)) [
  | inl t ↦
      let (l', e, k) =
        post_ready sslcommerz_account (fee_entry p) l refl refl (ltb→lt 0 p.fee t) h in
      (l', rw t e)
  | inr t ↦ (l, rw t refl)
]

record_gateway_capture_ready :
    (p : CaptureInput) (l : Ledger)
    → 0 < p.amount
    → is_ready sslcommerz_account l ≡ true
    → CanPost (record_gateway_capture p l)
unfolding record_gateway_capture
record_gateway_capture_ready p l positive h = elim (Bool-cases (has (capture_filter p) l)) [
  | inl t ↦ (l, rw t refl)
  | inr t ↦
      let (m, e, k) = post_ready sslcommerz_account (capture_entry p) l refl refl positive h in
      let (l', f) = post_fee_ready p m k in (l', rw t (rw e f))
]

module _ ⦃dec : Decimal⦄ (fee_pct : ℕ) (payment row : Payment) (tran : ℕ) (v : SslValidation)
    (val now : ℕ) (w : Till) where
  -- The gateway's answer that our transaction is paid, over our amount in our currency, with an
  -- identifier of the validation, settles a payment of a positive amount, if neither what was read of it
  -- nor its row is settled and the account of the gateway, where it exists, is not closed: the
  -- confirmation commits and returns SUCCESS, the row is a success with that identifier, and the success
  -- is announced.
  pub confirm_read_settles :
      IsOurPayment (expected_of payment tran) v
      → v.val_id ≡ some val
      → 0 < payment.amount
      → is_final_ok payment.status ≡ false
      → w.payments payment.id ≡ some row
      → is_final_ok row.status ≡ false
      → is_ready sslcommerz_account w.ledger ≡ true
      → (w' : Till) × (confirm_read fee_pct payment tran (answered (some v)) now w
          ≡ ok (w', some PaymentStatus.success))
        × (status_of payment.id w' ≡ some PaymentStatus.success)
        × (map_option (λ p. p.val_id) (w'.payments payment.id) ≡ some (some val))
        × (successes payment.id w' ≡ successes payment.id w + 1)
  unfolding confirm_read confirm_reply act_on settle
  confirm_read_settles ours named positive unread there unpaid ready =
      let accepted =
        (evaluate_validation_iff (expected_of payment tran) v val v.bank_tran_id).1
          (ours, named, refl) in
      let fee = compute_gateway_fee payment.amount v.store_amount fee_pct in
      let (l, e) =
        record_gateway_capture_ready (capture_of payment tran fee now) w.ledger positive ready in
      let self : payment.id == payment.id ≡ true = ground arith in
      let paid : Till = write_payment payment.id (paid_row val v.bank_tran_id fee now) w in
      (
        record paid {
          ledger = l;
          events = payment_succeeded payment.id payment.order_id payment.amount fee tran ∷ w.events;
        },
        rw unread (rw accepted (rw there (rw unpaid (rw e refl)))),
        rw self (rw there refl),
        rw self (rw there refl),
        rw self (omega arith),
      )
