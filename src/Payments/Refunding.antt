-- ===== src/Payments/Refunding.antt =====
-- backend/src/modules/payments/refunds/application/refunds.service.ts: money back to the customer, for one
-- order. The order is read before the transaction of a refund; what the gateway answers is an argument.
-- The reason of a refund, the actor and the audit entry are left out.
pub mod Sound
pub mod Steps
use Prim.Native.String.{String}
use brothers_book_house.Base.{
  Bool, List, Option, false, find, get_or, if◌then◌else◌, is_some, ltb, map_option, none, not, some,
  sum_by, true, ℕ, ◌&&◌, ◌+◌, ◌==◌, ◌||◌, ◌∷◌,
}
use brothers_book_house.Base.Outcome.{Outcome, fail, ok, ◌>>=◌}
use brothers_book_house.Base.Text.{Text}
use brothers_book_house.Money.{Money}
use brothers_book_house.Orders.Status.{OrderPaymentStatus, PaymentMethod, cash, cod, sslcommerz}
use brothers_book_house.Orders.Redemption.{update_first}
use brothers_book_house.Finance.Refunds.{check_refund, payment_status_after_refund}
use brothers_book_house.Finance.Cash.{Ledger}
use brothers_book_house.Finance.Cash.Postings.{RefundPosting, record_refund, same_text}
use brothers_book_house.Payments.Settlement.{Reply, answered, unavailable}

pub data RefundStatus : Type 0 where
  requested processing completed failed : RefundStatus

pub record Refund : Type 0 where
  pub id : Text
  pub payment_id : Option ℕ
  pub amount : Money
  pub method : PaymentMethod
  pub status : RefundStatus
  pub provider_ref : Option ℕ

-- A successful payment of the order.
pub record SuccessfulPayment : Type 0 where
  pub id : ℕ
  pub method : PaymentMethod
  pub amount : Money
  pub bank_tran_id : Option ℕ

pub record PaidOrder : Type 0 where
  pub id : ℕ
  pub order_no : ℕ
  pub payment_method : PaymentMethod
  pub payment_status : OrderPaymentStatus
  pub amount_paid : Money
  pub amount_refunded : Money
  pub payments : List SuccessfulPayment

pub record Desk : Type 0 where
  pub order : PaidOrder
  pub refunds : List Refund
  pub ledger : Ledger

pub record RefundInput : Type 0 where
  pub amount : Money
  pub method : Option PaymentMethod
  pub payment_id : Option ℕ

abbrev pub is_in_flight : RefundStatus → Bool
is_in_flight requested = true
is_in_flight processing = true
is_in_flight _ = false

abbrev pub is_completed : RefundStatus → Bool
is_completed completed = true
is_completed _ = false

abbrev pub is_processing : RefundStatus → Bool
is_processing processing = true
is_processing _ = false

abbrev pub is_gateway : PaymentMethod → Bool
is_gateway sslcommerz = true
is_gateway _ = false

abbrev pub in_flight : List Refund → Money
in_flight rs = sum_by (λ r. if is_in_flight r.status then r.amount else 0) rs

abbrev pub payment_for : Option ℕ → List SuccessfulPayment → Option SuccessfulPayment
payment_for none ps = find (λ p. is_gateway p.method) ps
payment_for (some id) ps = find (λ p. p.id == id) ps

-- `order.paymentMethod === 'COD' ? 'CASH' : order.paymentMethod`
abbrev pub cash_for_cod : PaymentMethod → PaymentMethod
cash_for_cod cod = cash
cash_for_cod m = m

abbrev pub method_for :
    Option PaymentMethod → Option SuccessfulPayment → PaymentMethod → PaymentMethod
method_for (some m) payment ordered = m
method_for none (some p) ordered = sslcommerz
method_for none none ordered = cash_for_cod ordered

abbrev pub limit_for : PaymentMethod → Option SuccessfulPayment → Option Money
limit_for method payment =
    if is_gateway method then some (get_or (map_option (λ p. p.amount) payment) 0) else none

abbrev pub bank_of : Option SuccessfulPayment → Option ℕ
bank_of none = none
bank_of (some p) = p.bank_tran_id

abbrev pub posting_of : PaidOrder → Text → PaymentMethod → Money → RefundPosting
posting_of o id method amount = record {
  order_id = o.id;
  order_no = o.order_no;
  refund_id = id;
  method = method;
  amount = amount;
  at_time = none;
}

-- the order and the ledger, once a refund is completed
abbrev pub booked : Money → Desk → Ledger → Desk
booked amount d ledger = record d {
  order = record d.order {
    amount_refunded = d.order.amount_refunded + amount;
    payment_status =
        payment_status_after_refund d.order.amount_paid (d.order.amount_refunded + amount);
  };
  ledger = ledger;
}

-- The CHECK orders_refund_lte_paid stops an update beyond what was paid.
unfoldable pub apply_completed : Text → PaymentMethod → Money → Desk → Outcome Desk
unfolding record_refund
apply_completed id method amount d =
    if ltb d.order.amount_paid (d.order.amount_refunded + amount)
    then fail "orders_refund_lte_paid"
    else do
      ledger ← record_refund (posting_of d.order id method amount) d.ledger
      ok (booked amount d ledger)

abbrev pub complete_if : Bool → Text → PaymentMethod → Money → Desk → Outcome Desk
complete_if false id method amount d = ok d
complete_if true id method amount d = apply_completed id method amount d

abbrev pub refund_row : Text → Option SuccessfulPayment → PaymentMethod → Money → Refund
refund_row id payment method amount = record {
  id = id;
  payment_id = map_option (λ p. p.id) payment;
  amount = amount;
  method = method;
  status = if is_gateway method then processing else completed;
  provider_ref = none;
}

unfoldable pub write_refund :
    Text → Option SuccessfulPayment → PaymentMethod → Desk → Money → Outcome Desk
unfolding apply_completed
write_refund id payment method d amount =
    if is_gateway method && not (is_some (bank_of payment))
    then fail "refund.no_gateway_payment"
    else complete_if (not (is_gateway method)) id method amount
        (record d { refunds = refund_row id payment method amount ∷ d.refunds })

-- The transaction of a refund, under an order that was read before it.
unfoldable pub create_in_tx : PaidOrder → RefundInput → Text → Desk → Outcome Desk
unfolding write_refund check_refund
create_in_tx read input id d =
    let payment = payment_for input.payment_id read.payments in
    let method = method_for input.method payment read.payment_method in
    check_refund input.amount read.amount_paid read.amount_refunded (in_flight d.refunds)
      (limit_for method payment)
    >>= write_refund id payment method d

pub data GatewayRefundStatus : Type 0 where
  says_success says_refunded says_done says_processing says_initiated says_pending says_other :
      GatewayRefundStatus

abbrev pub map_gateway_refund_status : GatewayRefundStatus → RefundStatus
map_gateway_refund_status says_success = completed
map_gateway_refund_status says_refunded = completed
map_gateway_refund_status says_done = completed
map_gateway_refund_status says_processing = processing
map_gateway_refund_status says_initiated = processing
map_gateway_refund_status says_pending = processing
map_gateway_refund_status says_other = failed

abbrev pub same_id : Text → Refund → Bool
same_id id r = same_text r.id id

abbrev pub or_given {ℓ} : {A : Type ℓ} → Option A → Option A → Option A
or_given none b = b
or_given (some a) b = some a

abbrev pub set_status : Text → RefundStatus → Option ℕ → Desk → Desk
set_status id status ref d = record d {
  refunds =
      update_first (same_id id)
        (λ r. record r { status = status; provider_ref = or_given ref r.provider_ref }) d.refunds;
}

abbrev pub settle_row : RefundStatus → Option ℕ → Desk → Option Refund → Outcome Desk
settle_row status ref d none = fail "not_found"
settle_row status ref d (some r) =
    if is_completed r.status
    then ok d
    else complete_if (is_completed status) r.id r.method r.amount (set_status r.id status ref d)

unfoldable pub settle_gateway : Text → RefundStatus → Option ℕ → Desk → Outcome Desk
unfolding apply_completed update_first
settle_gateway id status ref d = settle_row status ref d (find (same_id id) d.refunds)

pub record GatewayAnswer : Type 0 where
  pub status : GatewayRefundStatus
  pub refund_ref_id : Option ℕ

-- what an error in the `try` leaves, and the error that is thrown
abbrev pub or_failed : Text → Desk → Outcome Desk → Desk × Option String
or_failed id d (ok d') = (d', none)
or_failed id d (fail e) = (set_status id failed none d, some "refund.gateway_failed")

abbrev pub settle_answer : Text → Reply GatewayAnswer → Desk → Outcome Desk
settle_answer id unavailable d = fail "unavailable"
settle_answer id (answered a) d =
    settle_gateway id (map_gateway_refund_status a.status) a.refund_ref_id d

-- The call of the gateway after the transaction, and what becomes of it.
unfoldable pub send : Text → Reply GatewayAnswer → Desk → Desk × Option String
unfolding settle_gateway
send id reply d = or_failed id d (settle_answer id reply d)

abbrev pub refresh_answer : Refund → Reply GatewayAnswer → Desk → Outcome Desk
refresh_answer r unavailable d = fail "unavailable"
refresh_answer r (answered a) d =
    settle_gateway r.id (map_gateway_refund_status a.status) r.provider_ref d

abbrev pub refresh_row : Reply GatewayAnswer → Desk → Option Refund → Outcome Desk
refresh_row reply d none = fail "not_found"
refresh_row reply d (some r) =
    if not (is_processing r.status) || not (is_some r.provider_ref)
    then ok d
    else refresh_answer r reply d

unfoldable pub refresh : Text → Reply GatewayAnswer → Desk → Outcome Desk
unfolding settle_gateway
refresh id reply d = refresh_row reply d (find (same_id id) d.refunds)
