-- ===== src/Tests/Desk.antt =====
-- A payment that the gateway confirms, and what the ledger holds of it.
use brothers_book_house.Payments.Settlement.Settles.{confirm_read_settles}
use brothers_book_house.Base.{
  List, Option, [], arith, if◌then◌else◌, map, map_option, none, refl, some, sum_by, true, ℕ, ◌+◌,
  ◌==◌, ◌∷◌, ◌≡◌,
}
use brothers_book_house.Base.Int.{pos, ◌+ℤ◌, ◌-ℤ◌}
use brothers_book_house.Base.Outcome.{ok}
use brothers_book_house.Money.Rounding.{paisa_decimal}
use brothers_book_house.Orders.Status.{PaymentMethod}
use brothers_book_house.Finance.Cash.{
  DayTotals, Ledger, account, cash_account, find_account, post, roll_days, row_of,
  sslcommerz_account, system_code, totals_of,
}
use brothers_book_house.Finance.Cash.Days.{IsChained, closing_of, roll_days_lem}
use brothers_book_house.Finance.Cash.Postings.{
  CaptureInput, RefundPosting, capture_entry, capture_filter, fee_entry, has, post_fee,
  record_gateway_capture, record_refund, refund_entry, refund_filter,
}
use brothers_book_house.Finance.Cash.Once.{
  IsReferential, came_in, record_gateway_capture_once, record_refund_once, went_out,
}
use brothers_book_house.Payments.Settlement.{
  Payment, PaymentStatus, Till, act_on, answered, confirm_read, confirm_reply, paid_row,
  payment_succeeded, settle, status_of,
}
use brothers_book_house.Payments.Settlement.Single.{IsSingle, successes}
use brothers_book_house.Payments.Settlement.Races.{Acts, Acts-IsSingle, confirms, no_act, then_act}
use brothers_book_house.Payments.Settlement.Earned.{IsEarned, confirm_read-IsEarned}
use brothers_book_house.Payments.Validation.{decide, evaluate_validation}
use brothers_book_house.Payments.Fee.{compute_gateway_fee}
use brothers_book_house.Tests.Gateway.{paid_answer}

abbrev two_days : ℕ → Option DayTotals
two_days d = if d == 1 then some (record { came_in = 500; went_out = 700 }) else none

roll_days_lem_example :
    let rows = roll_days (1 ∷ 2 ∷ []) (pos 100) two_days in
    (map (λ r. r.day) rows ≡ 1 ∷ 2 ∷ [])
    × IsChained (pos 100) rows
    × (closing_of (pos 100) rows
        ≡ pos 100
          +ℤ pos (sum_by (λ d. (totals_of two_days d).came_in) (1 ∷ 2 ∷ []))
          -ℤ pos (sum_by (λ d. (totals_of two_days d).went_out) (1 ∷ 2 ∷ [])))
roll_days_lem_example = roll_days_lem (1 ∷ 2 ∷ []) (pos 100) two_days

abbrev pub new_ledger : Ledger
new_ledger = record { accounts = []; transactions = []; next_id = 1; now = 9 }

abbrev capture : CaptureInput
capture = record {
  order_id = 12;
  order_no = 1_012;
  tran_id = 31;
  amount = 50_000;
  fee = 1_250;
  at_time = some 9;
}

abbrev captured : Ledger
captured = record {
  accounts = record { id = 1; code = system_code sslcommerz_account; is_active = true } ∷ [];
  transactions = row_of (fee_entry capture) 1 3 9 ∷ row_of (capture_entry capture) 1 2 9 ∷ [];
  next_id = 4;
  now = 9;
}

captures : record_gateway_capture capture new_ledger ≡ ok captured
unfolding record_gateway_capture post post_fee has account find_account
captures = refl

new_ledger-IsReferential : IsReferential new_ledger
new_ledger-IsReferential i h = refl

record_gateway_capture_once_example :
    IsReferential captured
    × (if has (capture_filter capture) new_ledger
        then captured ≡ new_ledger
        else (came_in captured ≡ 50_000 + came_in new_ledger)
          × (went_out captured ≡ 1_250 + went_out new_ledger))
    × ((amount fee : ℕ)
        → record_gateway_capture (record capture { amount = amount; fee = fee }) captured
          ≡ ok captured)
record_gateway_capture_once_example =
    record_gateway_capture_once capture new_ledger captured new_ledger-IsReferential captures

abbrev refund_of : List ℕ → RefundPosting
refund_of id = record {
  order_id = 12;
  order_no = 1_012;
  refund_id = id;
  method = PaymentMethod.cash;
  amount = 3_000;
  at_time = some 10;
}

abbrev first_id : List ℕ
first_id = 48 ∷ 49 ∷ 50 ∷ 51 ∷ 52 ∷ 53 ∷ 54 ∷ 55 ∷ 56 ∷ []

abbrev second_id : List ℕ
second_id = 48 ∷ 49 ∷ 50 ∷ 51 ∷ 52 ∷ 53 ∷ 54 ∷ 55 ∷ 57 ∷ []

abbrev refunded_once : Ledger
refunded_once = record {
  accounts = record { id = 1; code = system_code cash_account; is_active = true } ∷ [];
  transactions = row_of (refund_entry (refund_of first_id)) 1 2 9 ∷ [];
  next_id = 3;
  now = 9;
}

refunds : record_refund (refund_of first_id) new_ledger ≡ ok refunded_once
unfolding record_refund post has account find_account
refunds = refl

-- The second refund has another id with the same first eight characters.
record_refund_once_example :
    IsReferential refunded_once
    × (if has (refund_filter (refund_of first_id)) new_ledger
        then refunded_once ≡ new_ledger
        else (came_in refunded_once ≡ came_in new_ledger)
          × (went_out refunded_once ≡ 3_000 + went_out new_ledger))
    × (record_refund (refund_of second_id) refunded_once ≡ ok refunded_once)
record_refund_once_example =
    record_refund_once (refund_of first_id) (refund_of second_id) new_ledger refunded_once
      new_ledger-IsReferential refl refunds

abbrev attempt : Payment
attempt = record {
  id = 5;
  order_id = 12;
  order_no = 1_012;
  tran_id = some 31;
  amount = 50_000;
  currency = 1;
  status = PaymentStatus.pending;
  val_id = none;
  bank_tran_id = none;
  fee = 0;
  succeeded_at = none;
}

abbrev till : Till
till = record {
  payments = λ q. if q == 5 then some attempt else none;
  id_of_tran = λ t. if t == 31 then some 5 else none;
  ledger = new_ledger;
  events = [];
}

abbrev paid_till_of_31 : Till
paid_till_of_31 = record {
  payments = λ q.
      if q == 5
      then map_option (paid_row 77 (some 5) 1_250 9) (till.payments q)
      else till.payments q;
  id_of_tran = λ t. if t == 31 then some 5 else none;
  ledger = captured;
  events = payment_succeeded 5 12 50_000 1_250 31 ∷ [];
}

confirms_31 :
    confirm_read ⦃dec = paisa_decimal⦄ 200 attempt 31 (answered (some paid_answer)) 9 till
    ≡ ok (paid_till_of_31, some PaymentStatus.success)
unfolding confirm_read confirm_reply act_on evaluate_validation decide settle compute_gateway_fee
    record_gateway_capture post post_fee has account find_account
confirms_31 = refl

confirm_read-IsEarned_example : IsEarned 5 attempt 31 (answered (some paid_answer)) captured
confirm_read-IsEarned_example =
    confirm_read-IsEarned ⦃dec = paisa_decimal⦄ 200 5 attempt 31 (answered (some paid_answer)) 9
      till paid_till_of_31 (some PaymentStatus.success) new_ledger-IsReferential confirms_31 refl
      refl

abbrev one_act : Acts ⦃dec = paisa_decimal⦄ till paid_till_of_31
one_act = then_act no_act (
    confirms 200 attempt 31 (answered (some paid_answer)) 9 (some PaymentStatus.success)
      confirms_31)

Acts-IsSingle_example : IsSingle 5 paid_till_of_31
Acts-IsSingle_example = Acts-IsSingle ⦃dec = paisa_decimal⦄ 5 till paid_till_of_31 one_act refl

confirm_read_settles_example :
    (w' : Till) × (confirm_read ⦃dec = paisa_decimal⦄ 200 attempt 31
        (answered (some paid_answer))
        9
        till
      ≡ ok (w', some PaymentStatus.success))
    × (status_of 5 w' ≡ some PaymentStatus.success)
    × (map_option (λ p. p.val_id) (w'.payments 5) ≡ some (some 77))
    × (successes 5 w' ≡ successes 5 till + 1)
confirm_read_settles_example =
    confirm_read_settles ⦃dec = paisa_decimal⦄ 200 attempt attempt 31 paid_answer 77 9 till
      (refl, refl, refl, refl) refl (omega arith) refl refl refl refl
