-- ===== src/Payments/Refunding/Sound.antt =====
-- backend/src/modules/payments/refunds/application/refunds.service.ts: no more goes back than was paid.
use brothers_book_house.Base.{
  Bool, Bool-cases, List, Option, [], ap, arith, false, find, if◌then◌else◌, inl, inr, is_some, ltb,
  not, refl, some, sum_by, sym, true, ℕ, ◌&&◌, ◌+◌, ◌∙◌, ◌∷◌, ◌≡◌, ◌≤◌,
}
use brothers_book_house.Base.Outcome.{>>=-eq-ok, ok, ok-inj}
use brothers_book_house.Base.Text.{Text}
use brothers_book_house.Money.{Money}
use brothers_book_house.Orders.Status.{PaymentMethod}
use brothers_book_house.Orders.Redemption.{update_first}
use brothers_book_house.Finance.Refunds.{check_refund, check_refund_eq, check_refund_iff}
use brothers_book_house.Finance.Cash.Postings.{record_refund}
use brothers_book_house.Payments.Refunding.{
  Desk, Refund, RefundInput, RefundStatus, apply_completed, bank_of, booked, complete_if,
  create_in_tx, in_flight, is_completed, is_gateway, is_in_flight, limit_for, method_for, or_given,
  payment_for, posting_of, refund_row, same_id, set_status, settle_row, write_refund,
}

-- What the completed refunds gave back.
abbrev pub given_back : List Refund → Money
given_back rs = sum_by (λ r. if is_completed r.status then r.amount else 0) rs

-- What was refunded is what the completed refunds gave back, and with what is in flight it does not exceed
-- what was paid.
abbrev pub IsSound : Desk → Type 0
IsSound d =
    (d.order.amount_refunded ≡ given_back d.refunds)
    × (d.order.amount_refunded + in_flight d.refunds ≤ d.order.amount_paid)

sum_by-update_first {ℓ} :
    {A : Type ℓ} (w : A → ℕ) (p : A → Bool) (f : A → A) (r : A) (rs : List A)
    → find p rs ≡ some r
    → sum_by w (update_first p f rs) + w r ≡ sum_by w rs + w (f r)
unfolding update_first
sum_by-update_first w p f r [] h = cc
sum_by-update_first w p f r (x ∷ xs) h = elim (Bool-cases (p x)) [
  | inl t ↦ let same : x ≡ r = ground (arith, rw t at h) in rw t (rw same (omega arith))
  | inr t ↦ rw t (omega (arith, sum_by-update_first w p f r xs (rw t at h)))
]

pub find-same {ℓ} :
    {A : Type ℓ} (p : A → Bool) (r : A) (rs : List A) → find p rs ≡ some r → p r ≡ true
find-same p r [] h = cc
find-same p r (x ∷ xs) h = elim (Bool-cases (p x)) [
  | inl t ↦ let same : x ≡ r = ground (arith, rw t at h) in rw (sym same) t
  | inr t ↦ find-same p r xs (rw t at h)
]

-- The books of a desk, when a refund is completed.
apply_completed_lem :
    (id : Text) (method : PaymentMethod) (amount : Money) (d d' : Desk)
    → apply_completed id method amount d ≡ ok d'
    → (d'.order.amount_refunded ≡ d.order.amount_refunded + amount)
      × (d'.order.amount_paid ≡ d.order.amount_paid)
      × (d'.refunds ≡ d.refunds)
      × (d.order.amount_refunded + amount ≤ d.order.amount_paid)
unfolding apply_completed
apply_completed_lem id method amount d d' h =
    elim (Bool-cases (ltb d.order.amount_paid (d.order.amount_refunded + amount))) [
      | inl t ↦ cc (rw t at h)
      | inr t ↦
          let (l, e, f) =
            >>=-eq-ok (record_refund (posting_of d.order id method amount) d.ledger)
              (λ l. ok (booked amount d l)) d' (rw t at h) in
          rw (sym (ok-inj f)) (refl, refl, refl, ground arith)
    ]

complete_if_lem :
    (done : Bool) (id : Text) (method : PaymentMethod) (amount : Money) (d d' : Desk)
    → complete_if done id method amount d ≡ ok d'
    → (d'.order.amount_refunded ≡ d.order.amount_refunded + (if done then amount else 0))
      × (d'.order.amount_paid ≡ d.order.amount_paid)
      × (d'.refunds ≡ d.refunds)
complete_if_lem false id method amount d d' h = rw (sym (ok-inj h)) (omega arith, refl, refl)
complete_if_lem true id method amount d d' h =
    let (a, b, c, e) = apply_completed_lem id method amount d d' h in (a, b, c)

-- The books with one refund more.
created_books :
    (gateway : Bool) (d d' : Desk) (row : Refund)
    → row.status ≡ (if gateway then RefundStatus.processing else RefundStatus.completed)
    → d.order.amount_refunded ≡ given_back d.refunds
    → d'.order.amount_refunded ≡ d.order.amount_refunded + (if not gateway then row.amount else 0)
    → d'.order.amount_paid ≡ d.order.amount_paid
    → d'.refunds ≡ row ∷ d.refunds
    → d.order.amount_refunded + in_flight d.refunds + row.amount ≤ d.order.amount_paid
    → IsSound d'
created_books true d d' row status same a b rows fits =
    rw rows (rw status (omega (arith, same, a), omega (arith, a, b, fits)))
created_books false d d' row status same a b rows fits =
    rw rows (rw status (omega (arith, same, a), omega (arith, a, b, fits)))

-- A refund that is created under the order as it is.
pub create_in_tx-IsSound :
    (input : RefundInput) (id : Text) (d d' : Desk)
    → create_in_tx d.order input id d ≡ ok d'
    → IsSound d
    → IsSound d'
unfolding create_in_tx write_refund check_refund
create_in_tx-IsSound input id d d' h (same, within) =
    let payment = payment_for input.payment_id d.order.payments in
    let method = method_for input.method payment d.order.payment_method in
    let (amount, c, w) =
      >>=-eq-ok
        (check_refund input.amount d.order.amount_paid d.order.amount_refunded (in_flight d.refunds)
          (limit_for method payment))
        (write_refund id payment method d) d' h in
    let exact : amount ≡ input.amount =
      check_refund_eq input.amount d.order.amount_paid d.order.amount_refunded (in_flight d.refunds)
        (limit_for method payment) amount c in
    let fits =
      (check_refund_iff input.amount d.order.amount_paid d.order.amount_refunded
          (in_flight d.refunds) (limit_for method payment)).0
        (c ∙ ap (λ (a : ℕ). ok a) exact) in
    elim (Bool-cases (is_gateway method && not (is_some (bank_of payment)))) [
      | inl t ↦ cc (rw t at w)
      | inr t ↦
          let row = refund_row id payment method amount in
          let (a, b, r) =
            complete_if_lem (not (is_gateway method)) id method amount
              (record d { refunds = row ∷ d.refunds }) d' (rw t at w) in
          created_books (is_gateway method) d d' row refl same a b r (omega (arith, fits.1, exact))
    ]

-- The sums after the status of a refund changed.
set_status_sums :
    (r : Refund) (status : RefundStatus) (ref : Option ℕ) (d : Desk)
    → find (same_id r.id) d.refunds ≡ some r
    → (given_back (set_status r.id status ref d).refunds
          + (if is_completed r.status then r.amount else 0)
        ≡ given_back d.refunds + (if is_completed status then r.amount else 0))
      × (in_flight (set_status r.id status ref d).refunds
            + (if is_in_flight r.status then r.amount else 0)
          ≡ in_flight d.refunds + (if is_in_flight status then r.amount else 0))
set_status_sums r status ref d h =
    let change =
      λ (x : Refund). record x { status = status; provider_ref = or_given ref x.provider_ref } in
    (
      sum_by-update_first (λ (x : Refund). if is_completed x.status then x.amount else 0)
          (same_id r.id) change r d.refunds h,
      sum_by-update_first (λ (x : Refund). if is_in_flight x.status then x.amount else 0)
          (same_id r.id) change r d.refunds h,
    )

books_after :
    (d d' : Desk) (amount : Money) (status : RefundStatus)
    → d.order.amount_refunded ≡ given_back d.refunds
    → d.order.amount_refunded + in_flight d.refunds ≤ d.order.amount_paid
    → d'.order.amount_refunded
      ≡ d.order.amount_refunded + (if is_completed status then amount else 0)
    → d'.order.amount_paid ≡ d.order.amount_paid
    → given_back d'.refunds ≡ given_back d.refunds + (if is_completed status then amount else 0)
    → in_flight d'.refunds + amount
      ≡ in_flight d.refunds + (if is_in_flight status then amount else 0)
    → IsSound d'
books_after d d' amount RefundStatus.requested same within a b given aloft =
    (omega arith, omega arith)
books_after d d' amount RefundStatus.processing same within a b given aloft =
    (omega arith, omega arith)
books_after d d' amount RefundStatus.completed same within a b given aloft =
    (omega arith, omega arith)
books_after d d' amount RefundStatus.failed same within a b given aloft = (omega arith, omega arith)

-- A refund that is in flight can fail, stay in flight, or be completed.
pub settle_row-IsSound :
    (r : Refund) (status : RefundStatus) (ref : Option ℕ) (d d' : Desk)
    → find (same_id r.id) d.refunds ≡ some r
    → r.status ≡ RefundStatus.processing
    → settle_row status ref d (some r) ≡ ok d'
    → IsSound d
    → IsSound d'
settle_row-IsSound r status ref d d' there flying h (same, within) =
    let (a, b, c) =
      complete_if_lem (is_completed status) r.id r.method r.amount (set_status r.id status ref d) d'
        (rw flying at h) in
    let (given, aloft) = set_status_sums r status ref d there in
    let given' : given_back d'.refunds
        ≡ given_back d.refunds + (if is_completed status then r.amount else 0) =
      rw c (omega (arith, rw flying at given)) in
    let aloft' : in_flight d'.refunds + r.amount
        ≡ in_flight d.refunds + (if is_in_flight status then r.amount else 0) =
      rw c (rw flying at aloft) in
    books_after d d' r.amount status same within a b given' aloft'
