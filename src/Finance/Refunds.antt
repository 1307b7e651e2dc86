-- ===== src/Finance/Refunds.antt =====
-- backend/src/modules/payments/refunds/domain/refund-math.ts: how much can still be given back.
use brothers_book_house.Base.{
  Option, arith, if◌then◌else◌, leb, ltb, none, refl, some, some_and, ◌+◌, ◌-◌, ◌<◌, ◌==◌, ◌↔◌, ◌≡◌,
  ◌≤◌,
}
use brothers_book_house.Base.Outcome.{Outcome, fail, ok}
use brothers_book_house.Money.{Money}
use brothers_book_house.Orders.Status.{
  OrderPaymentStatus, paid, partially_refunded, refunded, unpaid,
}

-- `paid - refunded - in flight`, nothing if that is negative
unfoldable pub refundable : Money → Money → Money → Money
refundable amount_paid amount_refunded in_flight =
    if ltb amount_paid (amount_refunded + in_flight)
    then 0
    else amount_paid - (amount_refunded + in_flight)

unfoldable pub check_refund : Money → Money → Money → Money → Option Money → Outcome Money
unfolding refundable
check_refund amount amount_paid amount_refunded in_flight payment_limit =
    let left = refundable amount_paid amount_refunded in_flight in
    if leb amount 0
    then fail "refund.amount_invalid"
    else if leb amount_paid 0
    then fail "refund.nothing_paid"
    else if left == 0
    then fail "refund.fully_refunded"
    else if ltb left amount
    then fail "refund.exceeds_paid"
    else if some_and payment_limit (λ l. ltb l amount)
    then fail "refund.exceeds_payment"
    else ok amount

unfoldable pub payment_status_after_refund : Money → Money → OrderPaymentStatus
payment_status_after_refund amount_paid amount_refunded =
    if leb amount_paid 0
    then unpaid
    else if leb amount_refunded 0
    then paid
    else if leb amount_paid amount_refunded
    then refunded
    else partially_refunded

pub check_refund_eq :
    (amount amount_paid amount_refunded in_flight : Money) (limit : Option Money) (accepted : Money)
    → check_refund amount amount_paid amount_refunded in_flight limit ≡ ok accepted
    → accepted ≡ amount
unfolding check_refund
check_refund_eq amount amount_paid amount_refunded in_flight limit accepted h = ground arith

-- A refund is accepted exactly when it is positive, what was refunded, what is in flight and the refund
-- together do not exceed what was paid, and the payment covers it; it is accepted as it was asked for.
pub check_refund_iff :
    (amount amount_paid amount_refunded in_flight : Money) (limit : Option Money)
    → (check_refund amount amount_paid amount_refunded in_flight limit ≡ ok amount) ↔ (
        (0 < amount)
        × (amount_refunded + in_flight + amount ≤ amount_paid)
        × ((l : Money) → limit ≡ some l → amount ≤ l))
unfolding check_refund
check_refund_iff amount amount_paid amount_refunded in_flight none =
    (λ h. (ground arith, ground arith, λ l e. cc), λ (p, q, r). ground arith)
check_refund_iff amount amount_paid amount_refunded in_flight (some l) =
    (λ h. (ground arith, ground arith, λ k e. ground arith), λ (p, q, r). ground (arith, r l refl))

-- Once a refund that was accepted with nothing in flight is booked, the order counts as refunded
-- exactly when all the money is back, and as refunded in part otherwise.
payment_status_after_refund_lem :
    (amount amount_paid amount_refunded : Money)
    → check_refund amount amount_paid amount_refunded 0 none ≡ ok amount
    → let after = payment_status_after_refund amount_paid (amount_refunded + amount) in
      ((after ≡ refunded) ↔ (amount_refunded + amount ≡ amount_paid))
      × ((after ≡ partially_refunded) ↔ (amount_refunded + amount < amount_paid))
unfolding check_refund payment_status_after_refund
payment_status_after_refund_lem amount amount_paid amount_refunded h =
    ((λ e. ground arith, λ e. ground arith), (λ e. ground arith, λ e. ground arith))
