-- ===== src/Payments/Paid.antt =====
-- backend/src/modules/payments/sslcommerz/domain/validation.ts: when an answer counts as paid.
use brothers_book_house.Base.{
  Bool, Bool-cases, List, Option, [], any, any-keep, ap, arith, false, find, inl, inr, is_some,
  keep, none, not, refl, some, some_and, sym, true, ℕ, ◌&&◌, ◌==◌, ◌↔◌, ◌∙◌, ◌∷◌, ◌≡◌, ◌≢◌,
}
use brothers_book_house.Money.{Money}
use brothers_book_house.Payments.Validation.{
  Expected, GatewayStatus, NotPaid, QueryOutcome, SentAmount, SslValidation, TranQuery, below_zero,
  decide, decide_not_paid, decide_success, evaluate_validation, first_given, found_paid, interpret,
  interpret_transaction_query, is_invalid_transaction, is_paid_answer, is_paid_status,
  is_pending_status, last_outcome, map_not_paid, may_be_ours, numeric, odd, outcome_of_last,
  paid_or, same_amount, says_valid, says_validated, some_then, success, unpaid_outcome,
}

-- What a paid answer to our payment looks like.
abbrev pub IsOurPayment : Expected → SslValidation → Type 0
IsOurPayment e v =
    (v.tran_id ≡ some e.tran_id)
    × (is_paid_status v.status ≡ true)
    × (first_given v.currency_type v.currency ≡ some e.currency)
    × (first_given v.currency_amount v.amount ≡ some (numeric e.amount))

some_and-eq : (o : Option ℕ) (n : ℕ) → some_and o (λ c. c == n) ≡ true → o ≡ some n
some_and-eq none n h = ground arith
some_and-eq (some c) n h = ap some (ground arith)

some_and-same_amount :
    (o : Option SentAmount) (m : Money)
    → some_and o (λ a. same_amount a m) ≡ true
    → o ≡ some (numeric m)
some_and-same_amount none m h = ground arith
some_and-same_amount (some (numeric a)) m h = ap (λ x. some (numeric x)) (ground arith)
some_and-same_amount (some (below_zero n)) m h = ground arith
some_and-same_amount (some odd) m h = ground arith

valid-is_paid_status :
    (s : GatewayStatus) → is_paid_status s ≡ true → is_invalid_transaction s ≡ false
valid-is_paid_status says_valid h = refl
valid-is_paid_status says_validated h = refl
valid-is_paid_status _ h = ground arith

decide_not_paid_ne :
    (o : Option NotPaid) (val : ℕ) (bank : Option ℕ) → decide_not_paid o ≢ success val bank
decide_not_paid_ne none val bank h = ground arith
decide_not_paid_ne (some s) val bank h = ground arith

decide_success_eq :
    (o b : Option ℕ) (val : ℕ) (bank : Option ℕ)
    → decide_success o b ≡ success val bank
    → (o ≡ some val) × (b ≡ bank)
decide_success_eq none b val bank h = ground arith
decide_success_eq (some v) b val bank h = (ground arith, ground arith)

named_eq :
    (o : Option ℕ) (n : ℕ) → some_and o (λ t. not (t == n)) ≡ false → is_some o ≡ true → o ≡ some n
named_eq none n h s = ground arith
named_eq (some t) n h s = ap some (ground arith)

-- The tests that a success has passed.
decide-success :
    (e : Expected) (v : SslValidation) (val : ℕ) (bank : Option ℕ)
    → decide e v ≡ success val bank
    → (some_and v.tran_id (λ t. not (t == e.tran_id)) ≡ false)
      × (is_some v.tran_id ≡ true)
      × (is_paid_status v.status ≡ true)
      × (some_and (first_given v.currency_type v.currency) (λ c. c == e.currency) ≡ true)
      × (some_and (first_given v.currency_amount v.amount) (λ a. same_amount a e.amount) ≡ true)
      × (decide_success v.val_id v.bank_tran_id ≡ success val bank)
unfolding decide
decide-success e v val bank h =
    let no = decide_not_paid_ne (map_not_paid v.status) val bank in
    (ground arith, ground arith, ground arith, ground arith, ground arith, ground arith)

-- An answer counts as a success of a payment, with the identifier and the bank's number that it names,
-- exactly when it is a paid answer to our transaction over our amount in our currency.
pub evaluate_validation_iff :
    (e : Expected) (v : SslValidation) (val : ℕ) (bank : Option ℕ)
    → (evaluate_validation e (some v) ≡ success val bank)
      ↔ (IsOurPayment e v × (v.val_id ≡ some val) × (v.bank_tran_id ≡ bank))
unfolding evaluate_validation decide
evaluate_validation_iff e v val bank = (
  λ h.
      let (t, n, p, c, a, s) = decide-success e v val bank h in
      (
        (
          named_eq v.tran_id e.tran_id t n,
          p,
          some_and-eq (first_given v.currency_type v.currency) e.currency c,
          some_and-same_amount (first_given v.currency_amount v.amount) e.amount a,
        ),
        (decide_success_eq v.val_id v.bank_tran_id val bank s).0,
        (decide_success_eq v.val_id v.bank_tran_id val bank s).1,
      ),
  λ ((t, p, c, a), q, r).
      rw t (rw (valid-is_paid_status v.status p) (rw p (rw c (rw a (rw q (rw r (ground arith))))))),
)

abbrev pub is_found_paid : QueryOutcome → Bool
is_found_paid (found_paid val) = true
is_found_paid _ = false

-- A paid answer that names this validation.
abbrev pub is_paid_as : ℕ → SslValidation → Bool
is_paid_as val e = is_paid_status e.status && some_and e.val_id (λ x. x == val)

last_outcome_unpaid :
    (e : SslValidation) (es : List SslValidation) → is_found_paid (last_outcome e es) ≡ false
last_outcome_unpaid e [] = outcome_of_last_unpaid (map_not_paid e.status)
  where
    outcome_of_last_unpaid : (o : Option NotPaid) → is_found_paid (outcome_of_last o) ≡ false
    outcome_of_last_unpaid none = refl
    outcome_of_last_unpaid (some s) = refl
last_outcome_unpaid e (f ∷ fs) = last_outcome_unpaid f fs

unpaid_outcome_unpaid : (es : List SslValidation) → is_found_paid (unpaid_outcome es) ≡ false
unpaid_outcome_unpaid [] = refl
unpaid_outcome_unpaid (e ∷ es) =
    elim (Bool-cases (any (λ a. is_pending_status a.status) (e ∷ es))) [
      | inl t ↦ rw t refl
      | inr t ↦ rw t (last_outcome_unpaid e es)
    ]

val_id-found :
    (es : List SslValidation)
    → is_some (some_then (find is_paid_answer es) (λ e. e.val_id)) ≡ any is_paid_answer es
val_id-found [] = refl
val_id-found (e ∷ es) = elim (Bool-cases (is_paid_answer e)) [
  | inl t ↦ rw t (ground arith)
  | inr t ↦ rw t (val_id-found es)
]

found-is_paid_as :
    (es : List SslValidation) (val : ℕ)
    → some_then (find is_paid_answer es) (λ e. e.val_id) ≡ some val
    → any (is_paid_as val) es ≡ true
found-is_paid_as [] val h = ground arith
found-is_paid_as (e ∷ es) val h = elim (Bool-cases (is_paid_answer e)) [
  | inl t ↦ ground arith
  | inr t ↦ ground (arith, found-is_paid_as es val)
]

is_found_paid-paid_or :
    (o : Option ℕ) (r : QueryOutcome)
    → is_found_paid r ≡ false
    → is_found_paid (paid_or o r) ≡ is_some o
is_found_paid-paid_or none r h = h
is_found_paid-paid_or (some v) r h = refl

paid_or-found :
    (o : Option ℕ) (r : QueryOutcome) (val : ℕ)
    → is_found_paid r ≡ false
    → paid_or o r ≡ found_paid val
    → o ≡ some val
paid_or-found none r val h e = ground arith
paid_or-found (some v) r val h e = ground arith

-- The attempts that may be ours.
abbrev ours : TranQuery → ℕ → List SslValidation
ours q tran_id = keep (may_be_ours tran_id) q.element

connected_eq :
    (q : TranQuery) (tran_id : ℕ)
    → q.connected ≡ true
    → interpret_transaction_query (some q) tran_id ≡ interpret (ours q tran_id)
unfolding interpret_transaction_query
connected_eq q tran_id c = rw c refl

-- If the gateway answers, a transaction counts as paid exactly when some attempt that names no other
-- transaction is paid, wherever it stands among the attempts; and the validation that is then reported
-- is that of such an attempt.
pub interpret_transaction_query_lem :
    (q : TranQuery) (tran_id : ℕ)
    → q.connected ≡ true
    → (is_found_paid (interpret_transaction_query (some q) tran_id)
        ≡ any (λ e. may_be_ours tran_id e && is_paid_answer e) q.element)
      × ((val : ℕ)
          → interpret_transaction_query (some q) tran_id ≡ found_paid val
          → any (λ e. may_be_ours tran_id e && is_paid_as val e) q.element ≡ true)
unfolding interpret_transaction_query interpret
interpret_transaction_query_lem q tran_id c =
    let els = ours q tran_id in
    let rest = unpaid_outcome_unpaid els in
    let val_id = some_then (find is_paid_answer els) (λ e. e.val_id) in
    (
      rw c (
          is_found_paid-paid_or val_id (unpaid_outcome els) rest
          ∙ val_id-found els
          ∙ any-keep is_paid_answer (may_be_ours tran_id) q.element),
      λ val e.
          sym (any-keep (is_paid_as val) (may_be_ours tran_id) q.element)
          ∙ found-is_paid_as els val (
              paid_or-found val_id (unpaid_outcome els) val rest
                (sym (connected_eq q tran_id c) ∙ e)),
    )
