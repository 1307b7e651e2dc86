-- ===== src/Finance/Cash/Postings.antt =====
-- backend/src/modules/finance/cashbook/application/cash-ledger.service.ts: has, total and what the
-- payments and the refunds post.
use brothers_book_house.Base.{
  Bool, List, Option, [], any, false, if◌then◌else◌, is_some, ltb, none, not, some, some_and, suc,
  sum_by, true, zero, ℕ, ◌&&◌, ◌==◌, ◌∷◌,
}
use brothers_book_house.Base.Text.{Text}
use brothers_book_house.Base.Outcome.{Outcome, ok, ◌>>=◌}
use brothers_book_house.Money.{Money}
use brothers_book_house.Orders.Status.{PaymentMethod}
use brothers_book_house.Finance.Cash.{
  CashDirection, CashTransaction, CashTxnKind, Ledger, Memo, PostEntry, account_for_method, by_code,
  capture_memo, cod_memo, cod_remittance, courier_loss, courier_payment, expense, fee_memo,
  gateway_fee, gateway_settlement, manual, money_in, money_out, other_memo, owner_capital,
  owner_draw, post, purchase_payment, refund, refund_memo, sslcommerz_account, system_code,
  transfer,
}

abbrev pub same_direction : CashDirection → CashDirection → Bool
same_direction money_in money_in = true
same_direction money_out money_out = true
same_direction _ _ = false

abbrev pub kind_place : CashTxnKind → ℕ
kind_place gateway_settlement = 0
kind_place cod_remittance = 1
kind_place gateway_fee = 2
kind_place purchase_payment = 3
kind_place refund = 4
kind_place courier_payment = 5
kind_place courier_loss = 6
kind_place expense = 7
kind_place transfer = 8
kind_place owner_capital = 9
kind_place owner_draw = 10
kind_place manual = 11

abbrev pub same_text : Text → Text → Bool
same_text [] [] = true
same_text (a ∷ s) (b ∷ t) = a == b && same_text s t
same_text _ _ = false

abbrev pub same_memo : Memo → Memo → Bool
same_memo (capture_memo a b) (capture_memo c d) = a == c && b == d
same_memo (fee_memo a b) (fee_memo c d) = a == c && b == d
same_memo (refund_memo a s) (refund_memo b t) = a == b && same_text s t
same_memo (cod_memo a) (cod_memo b) = a == b
same_memo (other_memo s) (other_memo t) = same_text s t
same_memo _ _ = false

-- What is looked for; a field that is not given is not compared.
pub record CashFilter : Type 0 where
  pub order_id : Option ℕ
  pub purchase_id : Option ℕ
  pub kind : CashTxnKind
  pub direction : Option CashDirection
  pub memo : Option Memo

abbrev pub if_given {ℓ} : {A : Type ℓ} → Option A → (A → Bool) → Bool
if_given none p = true
if_given (some a) p = p a

abbrev pub matches : CashFilter → CashTransaction → Bool
matches w r =
    if_given w.order_id (λ o. some_and r.order_id (λ q. q == o))
    && if_given w.purchase_id (λ o. some_and r.purchase_id (λ q. q == o))
    && kind_place r.kind == kind_place w.kind
    && if_given w.direction (same_direction r.direction)
    && if_given w.memo (same_memo r.memo)

abbrev pub reverses : ℕ → CashTransaction → Bool
reverses id r = some_and r.reverses_id (λ i. i == id)

-- neither a reversal nor reversed
abbrev pub is_live_entry : List CashTransaction → CashTransaction → Bool
is_live_entry all r = not (is_some r.reverses_id) && not (any (reverses r.id) all)

unfoldable pub has : CashFilter → Ledger → Bool
has w l = any (λ r. matches w r && is_live_entry l.transactions r) l.transactions

unfoldable pub total : CashFilter → Ledger → Money
total w l =
    sum_by (λ r. if matches w r && is_live_entry l.transactions r then r.amount else 0)
      l.transactions

pub record CaptureInput : Type 0 where
  pub order_id : ℕ
  pub order_no : ℕ
  pub tran_id : ℕ
  pub amount : Money
  pub fee : Money
  pub at_time : Option ℕ

abbrev pub capture_filter : CaptureInput → CashFilter
capture_filter p = record {
  order_id = some p.order_id;
  purchase_id = none;
  kind = gateway_settlement;
  direction = some money_in;
  memo = some (capture_memo p.order_no p.tran_id);
}

abbrev pub capture_entry : CaptureInput → PostEntry
capture_entry p = record {
  account = by_code (system_code sslcommerz_account);
  direction = money_in;
  kind = gateway_settlement;
  amount = p.amount;
  memo = capture_memo p.order_no p.tran_id;
  order_id = some p.order_id;
  purchase_id = none;
  transfer_group_id = none;
  reverses_id = none;
  occurred_at = p.at_time;
}

abbrev pub fee_entry : CaptureInput → PostEntry
fee_entry p = record {
  account = by_code (system_code sslcommerz_account);
  direction = money_out;
  kind = gateway_fee;
  amount = p.fee;
  memo = fee_memo p.order_no p.tran_id;
  order_id = some p.order_id;
  purchase_id = none;
  transfer_group_id = none;
  reverses_id = none;
  occurred_at = p.at_time;
}

unfoldable pub post_fee : CaptureInput → Ledger → Outcome Ledger
unfolding post
post_fee p l = if ltb 0 p.fee then post (fee_entry p) l else ok l

unfoldable pub record_gateway_capture : CaptureInput → Ledger → Outcome Ledger
unfolding has post post_fee
record_gateway_capture p l =
    if has (capture_filter p) l then ok l else do l' ← post (capture_entry p) l; post_fee p l'

pub record RefundPosting : Type 0 where
  pub order_id : ℕ
  pub order_no : ℕ
  pub refund_id : Text
  pub method : PaymentMethod
  pub amount : Money
  pub at_time : Option ℕ

-- `slice(0, n)`
abbrev pub first_units : ℕ → Text → Text
first_units zero s = []
first_units (suc n) [] = []
first_units (suc n) (c ∷ s) = c ∷ first_units n s

abbrev pub refund_filter : RefundPosting → CashFilter
refund_filter p = record {
  order_id = some p.order_id;
  purchase_id = none;
  kind = refund;
  direction = none;
  memo = some (refund_memo p.order_no (first_units 8 p.refund_id));
}

abbrev pub refund_entry : RefundPosting → PostEntry
refund_entry p = record {
  account = by_code (system_code (account_for_method p.method));
  direction = money_out;
  kind = refund;
  amount = p.amount;
  memo = refund_memo p.order_no (first_units 8 p.refund_id);
  order_id = some p.order_id;
  purchase_id = none;
  transfer_group_id = none;
  reverses_id = none;
  occurred_at = p.at_time;
}

unfoldable pub record_refund : RefundPosting → Ledger → Outcome Ledger
unfolding has post
record_refund p l = if has (refund_filter p) l then ok l else post (refund_entry p) l
