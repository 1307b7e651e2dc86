-- ===== src/Finance/Cash.antt =====
-- backend/src/modules/finance/cashbook: the signs and days of domain/cash-math.ts and the ledger of
-- application/cash-ledger.service.ts, the only writer of the cash transactions. The texts of a memo are
-- told apart by what they are made of; the category of an expense and the actor are left out.

pub mod Once
pub mod Postings
pub mod Days
use brothers_book_house.Base.Int.{pos, ℤ, ◌+ℤ◌, ◌-ℤ◌}
use brothers_book_house.Base.Text.{Text}
use brothers_book_house.Base.Outcome.{Outcome, fail, ok, ◌>>=◌}
use brothers_book_house.Base.{
  Bool, List, Option, [], false, find, get_or, if◌then◌else◌, is_some, leb, none, not, some, true,
  ℕ, ◌&&◌, ◌+◌, ◌==◌, ◌∷◌,
}
use brothers_book_house.Money.{Money}
use brothers_book_house.Orders.Status.{PaymentMethod, bank_transfer, bkash, nagad, sslcommerz}

pub data CashDirection : Type 0 where
  money_in money_out : CashDirection

pub data CashTxnKind : Type 0 where
  gateway_settlement cod_remittance gateway_fee purchase_payment refund courier_payment courier_loss
        expense transfer owner_capital owner_draw manual :
      CashTxnKind

pub data SystemAccountCode : Type 0 where
  cash_account bkash_account nagad_account bank_account sslcommerz_account : SystemAccountCode

unfoldable pub signed : CashDirection → Money → ℤ
signed money_in amount = pos amount
signed money_out amount = pos 0 -ℤ pos amount

unfoldable pub opposite : CashDirection → CashDirection
opposite money_in = money_out
opposite money_out = money_in

pub record DayTotals : Type 0 where
  pub came_in : Money
  pub went_out : Money

pub record DayCloseRow : Type 0 where
  pub day : ℕ
  pub opening : ℤ
  pub came_in : Money
  pub went_out : Money
  pub closing : ℤ

abbrev pub totals_of : (ℕ → Option DayTotals) → ℕ → DayTotals
totals_of per_day day = get_or (per_day day) (record { came_in = 0; went_out = 0 })

unfoldable pub roll_days : List ℕ → ℤ → (ℕ → Option DayTotals) → List DayCloseRow
roll_days [] running per_day = []
roll_days (d ∷ ds) running per_day =
    let t : DayTotals = totals_of per_day d in
    let closing = running +ℤ pos t.came_in -ℤ pos t.went_out in
    record {
      day = d;
      opening = running;
      came_in = t.came_in;
      went_out = t.went_out;
      closing = closing;
    }
    ∷ roll_days ds closing per_day

abbrev pub account_for_method : PaymentMethod → SystemAccountCode
account_for_method sslcommerz = sslcommerz_account
account_for_method bkash = bkash_account
account_for_method nagad = nagad_account
account_for_method bank_transfer = bank_account
account_for_method _ = cash_account

unfoldable pub kind_allows_direction : CashTxnKind → CashDirection → Bool
kind_allows_direction expense money_out = true
kind_allows_direction expense money_in = false
kind_allows_direction owner_draw money_out = true
kind_allows_direction owner_draw money_in = false
kind_allows_direction courier_loss money_out = true
kind_allows_direction courier_loss money_in = false
kind_allows_direction owner_capital money_in = true
kind_allows_direction owner_capital money_out = false
kind_allows_direction _ _ = true

-- The code of an account: one of the five, or another text, told by a number.
pub data AccountCode : Type 0 where
  system_code : SystemAccountCode → AccountCode
  custom_code : ℕ → AccountCode

pub data AccountRef : Type 0 where
  by_id : ℕ → AccountRef
  by_code : AccountCode → AccountRef

pub record CashAccount : Type 0 where
  pub id : ℕ
  pub code : AccountCode
  pub is_active : Bool

-- `SSL ${orderNo} · ${tranId}`, the same with the word for a fee, the memo of a refund with the first
-- eight characters of its id, that of cash on delivery, and any other text.
pub data Memo : Type 0 where
  capture_memo fee_memo : ℕ → ℕ → Memo
  refund_memo : ℕ → Text → Memo
  cod_memo : ℕ → Memo
  other_memo : Text → Memo

pub record PostEntry : Type 0 where
  pub account : AccountRef
  pub direction : CashDirection
  pub kind : CashTxnKind
  pub amount : Money
  pub memo : Memo
  pub order_id : Option ℕ
  pub purchase_id : Option ℕ
  pub transfer_group_id : Option ℕ
  pub reverses_id : Option ℕ
  pub occurred_at : Option ℕ

pub record CashTransaction : Type 0 where
  pub id : ℕ
  pub account_id : ℕ
  pub direction : CashDirection
  pub kind : CashTxnKind
  pub amount : Money
  pub memo : Memo
  pub order_id : Option ℕ
  pub purchase_id : Option ℕ
  pub transfer_group_id : Option ℕ
  pub reverses_id : Option ℕ
  pub occurred_at : ℕ

pub record Ledger : Type 0 where
  pub accounts : List CashAccount
  pub transactions : List CashTransaction
  pub next_id : ℕ
  pub now : ℕ

abbrev pub place_of : SystemAccountCode → ℕ
place_of cash_account = 0
place_of bkash_account = 1
place_of nagad_account = 2
place_of bank_account = 3
place_of sslcommerz_account = 4

abbrev pub same_code : AccountCode → AccountCode → Bool
same_code (system_code a) (system_code b) = place_of a == place_of b
same_code (custom_code a) (custom_code b) = a == b
same_code _ _ = false

-- an account, if it may be posted to
abbrev pub open_account : Bool → Ledger × CashAccount → Outcome (Ledger × CashAccount)
open_account allow_inactive (l, a) =
    if not a.is_active && not allow_inactive then fail "cash.account_inactive" else ok (l, a)

abbrev pub found_account : Option CashAccount → Ledger → Outcome (Ledger × CashAccount)
found_account none l = fail "not_found"
found_account (some a) l = ok (l, a)

-- created on first use
abbrev pub upsert_account :
    Option CashAccount → SystemAccountCode → Ledger → Outcome (Ledger × CashAccount)
upsert_account (some a) code l = ok (l, a)
upsert_account none code l =
    let a : CashAccount = record { id = l.next_id; code = system_code code; is_active = true } in
    ok (record l { accounts = a ∷ l.accounts; next_id = l.next_id + 1 }, a)

unfoldable pub find_account : AccountRef → Ledger → Outcome (Ledger × CashAccount)
find_account (by_id i) l = found_account (find (λ a. a.id == i) l.accounts) l
find_account (by_code (system_code c)) l =
    upsert_account (find (λ a. same_code a.code (system_code c)) l.accounts) c l
find_account (by_code (custom_code n)) l =
    found_account (find (λ a. same_code a.code (custom_code n)) l.accounts) l

unfoldable pub account : AccountRef → Bool → Ledger → Outcome (Ledger × CashAccount)
unfolding find_account
account ref allow_inactive l = do found ← find_account ref l; open_account allow_inactive found

abbrev pub row_of : PostEntry → ℕ → ℕ → ℕ → CashTransaction
row_of e account_id id now = record {
  id = id;
  account_id = account_id;
  direction = e.direction;
  kind = e.kind;
  amount = e.amount;
  memo = e.memo;
  order_id = e.order_id;
  purchase_id = e.purchase_id;
  transfer_group_id = e.transfer_group_id;
  reverses_id = e.reverses_id;
  occurred_at = get_or e.occurred_at now;
}

abbrev pub write_row : PostEntry → Ledger × CashAccount → Outcome Ledger
write_row e (l, a) = ok (record l {
  transactions = row_of e a.id l.next_id l.now ∷ l.transactions;
  next_id = l.next_id + 1;
})

unfoldable pub post : PostEntry → Ledger → Outcome Ledger
unfolding account
post e l =
    if leb e.amount 0
    then fail "cash.amount_invalid"
    else do found ← account e.account (is_some e.reverses_id) l; write_row e found
