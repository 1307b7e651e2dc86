-- ===== src/Tests/Gateway.antt =====
-- Answers of the payment gateway.
use brothers_book_house.Base.{
  [], any, arith, none, refl, some, true, ℕ, ◌&&◌, ◌+◌, ◌↔◌, ◌∷◌, ◌≡◌, ◌≤◌,
}
use brothers_book_house.Money.Rounding.{paisa_decimal}
use brothers_book_house.Payments.Validation.{
  Expected, GatewayStatus, QueryOutcome, SslValidation, TranQuery, ValidationDecision, decide,
  evaluate_validation, interpret, interpret_transaction_query, is_paid_answer, may_be_ours, numeric,
}
use brothers_book_house.Payments.Paid.{
  IsOurPayment, evaluate_validation_iff, interpret_transaction_query_lem, is_found_paid, is_paid_as,
}
use brothers_book_house.Payments.Fee.{compute_gateway_fee, compute_gateway_fee_lem}

abbrev our_payment : Expected
our_payment = record { tran_id = 31; amount = 50_000; currency = 1 }

abbrev pub paid_answer : SslValidation
paid_answer = record {
  status = GatewayStatus.says_valid;
  tran_id = some 31;
  val_id = some 77;
  amount = some (numeric 50_000);
  currency = some 1;
  currency_type = none;
  currency_amount = none;
  bank_tran_id = some 5;
  store_amount = some (numeric 48_750);
}

abbrev failed_answer : SslValidation
failed_answer = record paid_answer { status = GatewayStatus.says_failed; val_id = none }

abbrev attempts : TranQuery
attempts = record { connected = true; element = paid_answer ∷ failed_answer ∷ [] }

succeeds :
    evaluate_validation our_payment (some paid_answer) ≡ ValidationDecision.success 77 (some 5)
unfolding evaluate_validation decide
succeeds = refl

any_attempt_wins : interpret_transaction_query (some attempts) 31 ≡ QueryOutcome.found_paid 77
unfolding interpret_transaction_query interpret
any_attempt_wins = refl

evaluate_validation_iff_example :
    (evaluate_validation our_payment (some paid_answer) ≡ ValidationDecision.success 77 (some 5))
    ↔ (IsOurPayment our_payment paid_answer
        × (paid_answer.val_id ≡ some 77)
        × (paid_answer.bank_tran_id ≡ some 5))
evaluate_validation_iff_example = evaluate_validation_iff our_payment paid_answer 77 (some 5)

interpret_transaction_query_lem_example :
    (is_found_paid (interpret_transaction_query (some attempts) 31)
      ≡ any (λ e. may_be_ours 31 e && is_paid_answer e) attempts.element)
    × ((val : ℕ)
        → interpret_transaction_query (some attempts) 31 ≡ QueryOutcome.found_paid val
        → any (λ e. may_be_ours 31 e && is_paid_as val e) attempts.element ≡ true)
interpret_transaction_query_lem_example = interpret_transaction_query_lem attempts 31 refl

compute_gateway_fee_lem_example :
    (compute_gateway_fee ⦃dec = paisa_decimal⦄ 50_000 (some (numeric 48_750)) 200 ≤ 50_000)
    × ((s : ℕ)
        → some (numeric 48_750) ≡ some (numeric s)
        → s ≤ 50_000
        → compute_gateway_fee ⦃dec = paisa_decimal⦄ 50_000 (some (numeric 48_750)) 200 + s ≡ 50_000)
compute_gateway_fee_lem_example =
    compute_gateway_fee_lem ⦃dec = paisa_decimal⦄ 50_000 (some (numeric 48_750)) 200 (omega arith)
