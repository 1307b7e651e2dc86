-- ===== src/Payments/Validation.antt =====
-- backend/src/modules/payments/sslcommerz/domain/validation.ts: what an answer of the gateway says of a
-- payment. A status is named as it reads in upper case; an empty text counts as an absent one, as the
-- code treats it; the texts of a reason and the description of the card are left out.
use brothers_book_house.Base.{
  Bool, List, Option, [], any, false, find, if◌then◌else◌, is_some, keep, none, not, some, some_and,
  true, ℕ, ◌&&◌, ◌==◌, ◌||◌, ◌∷◌,
}
use brothers_book_house.Money.{Money}

pub data GatewayStatus : Type 0 where
  says_valid says_validated says_failed says_cancelled says_expired says_unattempted says_pending
        says_invalid_transaction says_other says_nothing :
      GatewayStatus

-- An amount as the gateway writes it: a number of paisa, `n + 1` paisa below zero, or no number.
pub data SentAmount : Type 0 where
  numeric : Money → SentAmount
  below_zero : ℕ → SentAmount
  odd : SentAmount

pub record SslValidation : Type 0 where
  pub status : GatewayStatus
  pub tran_id : Option ℕ
  pub val_id : Option ℕ
  pub amount : Option SentAmount
  pub currency : Option ℕ
  pub currency_type : Option ℕ
  pub currency_amount : Option SentAmount
  pub bank_tran_id : Option ℕ
  pub store_amount : Option SentAmount

pub record Expected : Type 0 where
  pub tran_id : ℕ
  pub amount : Money
  pub currency : ℕ

pub data NotPaid : Type 0 where
  failed cancelled expired : NotPaid

pub data ValidationDecision : Type 0 where
  success : ℕ → Option ℕ → ValidationDecision
  not_paid : NotPaid → ValidationDecision
  mismatch foreign pending : ValidationDecision

abbrev pub is_paid_status : GatewayStatus → Bool
is_paid_status says_valid = true
is_paid_status says_validated = true
is_paid_status _ = false

abbrev pub is_invalid_transaction : GatewayStatus → Bool
is_invalid_transaction says_invalid_transaction = true
is_invalid_transaction _ = false

abbrev pub is_pending_status : GatewayStatus → Bool
is_pending_status says_pending = true
is_pending_status _ = false

abbrev pub map_not_paid : GatewayStatus → Option NotPaid
map_not_paid says_failed = some failed
map_not_paid says_cancelled = some cancelled
map_not_paid says_expired = some expired
map_not_paid says_unattempted = some expired
map_not_paid _ = none

-- `a || b` and `a ?? b` on what may be absent
abbrev pub first_given {ℓ} : {A : Type ℓ} → Option A → Option A → Option A
first_given none b = b
first_given (some a) b = some a

abbrev pub same_amount : SentAmount → Money → Bool
same_amount (numeric a) m = a == m
same_amount _ m = false

abbrev pub decide_not_paid : Option NotPaid → ValidationDecision
decide_not_paid (some s) = not_paid s
decide_not_paid none = pending

abbrev pub decide_success : Option ℕ → Option ℕ → ValidationDecision
decide_success (some val) bank = success val bank
decide_success none bank = pending

unfoldable pub decide : Expected → SslValidation → ValidationDecision
decide expected v =
    if some_and v.tran_id (λ t. not (t == expected.tran_id))
    then foreign
    else if is_invalid_transaction v.status || not (is_some v.tran_id)
    then foreign
    else if not (is_paid_status v.status)
    then decide_not_paid (map_not_paid v.status)
    else if not (some_and (first_given v.currency_type v.currency) (λ c. c == expected.currency))
    then mismatch
    else if not
        (some_and (first_given v.currency_amount v.amount) (λ a. same_amount a expected.amount))
    then mismatch
    else decide_success v.val_id v.bank_tran_id

unfoldable pub evaluate_validation : Expected → Option SslValidation → ValidationDecision
unfolding decide
evaluate_validation expected none = pending
evaluate_validation expected (some v) = decide expected v

pub record TranQuery : Type 0 where
  -- `APIConnect` is absent or `DONE`
  pub connected : Bool
  pub element : List SslValidation

pub data QueryOutcome : Type 0 where
  found_paid : ℕ → QueryOutcome
  found_not_paid : NotPaid → QueryOutcome
  found_none found_pending : QueryOutcome

-- An answer that does not name another transaction.
abbrev pub may_be_ours : ℕ → SslValidation → Bool
may_be_ours tran_id e = not (some_and e.tran_id (λ t. not (t == tran_id)))

abbrev pub is_paid_answer : SslValidation → Bool
is_paid_answer e = is_paid_status e.status && is_some e.val_id

abbrev pub outcome_of_last : Option NotPaid → QueryOutcome
outcome_of_last (some s) = found_not_paid s
outcome_of_last none = found_pending

abbrev pub last_outcome : SslValidation → List SslValidation → QueryOutcome
last_outcome e [] = outcome_of_last (map_not_paid e.status)
last_outcome e (f ∷ fs) = last_outcome f fs

-- the attempts, after no paid one was found among them
abbrev pub unpaid_outcome : List SslValidation → QueryOutcome
unpaid_outcome [] = found_none
unpaid_outcome (e ∷ es) =
    if any (λ a. is_pending_status a.status) (e ∷ es) then found_pending else last_outcome e es

abbrev pub paid_or : Option ℕ → QueryOutcome → QueryOutcome
paid_or (some val) o = found_paid val
paid_or none o = o

abbrev pub some_then {ℓ κ} : {A : Type ℓ} {B : Type κ} → Option A → (A → Option B) → Option B
some_then none f = none
some_then (some a) f = f a

unfoldable pub interpret : List SslValidation → QueryOutcome
interpret els = paid_or (some_then (find is_paid_answer els) (λ e. e.val_id)) (unpaid_outcome els)

unfoldable pub interpret_transaction_query : Option TranQuery → ℕ → QueryOutcome
unfolding interpret
interpret_transaction_query none tran_id = found_pending
interpret_transaction_query (some q) tran_id =
    if not q.connected then found_pending else interpret (keep (may_be_ours tran_id) q.element)
