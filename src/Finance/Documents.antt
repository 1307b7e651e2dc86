-- ===== src/Finance/Documents.antt =====
-- backend/src/modules/finance/documents: which accounting papers an order needs
-- (domain/document-policy.ts), and the synchronisation that issues them
-- (application/document-issuer.service.ts, syncIn). Of a paper the model keeps its kind and the invoice
-- that it credits; what is printed on it is copied from the order and left out. The rows are kept
-- newest first, and a new row has an identifier that no row had before. The cash of a delivery is posted
-- to the ledger of Finance/Cash in the same transaction.
pub mod Rows
pub mod Booking
pub mod Plans
pub mod Sync
use brothers_book_house.Base.Outcome.{Outcome, ok, ◌>>=◌}
use brothers_book_house.Money.{Money}
use brothers_book_house.Finance.Cash.{
  Ledger, PostEntry, by_code, cash_account, cod_memo, cod_remittance, money_in, post, system_code,
}
use brothers_book_house.Finance.Cash.Postings.{CashFilter, has}
use brothers_book_house.Base.{
  Bool, List, Option, [], any, false, find, if◌then◌else◌, is_some, map_option, none, not, some,
  some_and, true, ℕ, ◌&&◌, ◌+◌, ◌==◌, ◌||◌, ◌∷◌,
}
use brothers_book_house.Orders.Status.{
  OrderStatus, PaymentMethod, bank_transfer, bkash, cancelled, cash, cod, confirmed, delivered,
  handed_to_courier, includes, nagad, out_for_delivery, processing, returned, same_status,
  sslcommerz,
}

pub record BooksState : Type 0 where
  pub method : PaymentMethod
  pub status : OrderStatus
  pub cancelled_from : Option OrderStatus
  pub paid : Bool
  pub live_invoice : Bool
  pub receipt : Bool
  pub cod_cash_booked : Bool

pub record BooksPlan : Type 0 where
  pub invoice : Bool
  pub receipt : Bool
  -- `reverseCourier`, if a credit note is due
  pub credit : Option Bool
  pub cod_cash_in : Bool

abbrev pub live_statuses : List OrderStatus
live_statuses = confirmed ∷ processing ∷ handed_to_courier ∷ out_for_delivery ∷ delivered ∷ []

abbrev pub dead_statuses : List OrderStatus
dead_statuses = cancelled ∷ returned ∷ []

abbrev pub shipped_statuses : List OrderStatus
shipped_statuses = handed_to_courier ∷ out_for_delivery ∷ delivered ∷ []

unfoldable pub is_live : OrderStatus → Bool
is_live s = includes live_statuses s

unfoldable pub is_prepaid : PaymentMethod → Bool
is_prepaid sslcommerz = true
is_prepaid bkash = true
is_prepaid nagad = true
is_prepaid bank_transfer = true
is_prepaid cod = false
is_prepaid cash = false

unfoldable pub reverse_courier : OrderStatus → Option OrderStatus → Bool
reverse_courier status none = not (same_status status returned)
reverse_courier status (some from) =
    not (same_status status returned) && not (includes shipped_statuses from)

-- `a ?? b`
abbrev pub or_else : Option OrderStatus → Option OrderStatus → Option OrderStatus
or_else none b = b
or_else (some a) b = some a

unfoldable pub plan_books : BooksState → Option OrderStatus → BooksPlan
unfolding is_live is_prepaid
plan_books s hint_from =
    let live = is_live s.status in
    let prepaid = is_prepaid s.method in
    let invoice = live && not s.live_invoice in
    let invoiced = s.live_invoice || invoice in
    let money_in = if prepaid then s.paid else s.paid || same_status s.status delivered in
    let receipt = live && invoiced && not s.receipt && money_in in
    record {
      invoice = invoice;
      receipt = receipt;
      credit =
          if includes dead_statuses s.status && s.live_invoice
          then some (reverse_courier s.status (or_else s.cancelled_from hint_from))
          else none;
      cod_cash_in = not prepaid && live && (receipt || s.receipt) && not s.cod_cash_booked;
    }

unfoldable pub is_empty_plan : BooksPlan → Bool
is_empty_plan p = not p.invoice && not p.receipt && not (is_some p.credit) && not p.cod_cash_in

pub data DocumentKind : Type 0 where
  invoice receipt credit_note : DocumentKind

pub record Paper : Type 0 where
  pub id : ℕ
  pub kind : DocumentKind
  pub credits_doc : Option ℕ

abbrev pub is_invoice : DocumentKind → Bool
is_invoice invoice = true
is_invoice _ = false

abbrev pub is_receipt : DocumentKind → Bool
is_receipt receipt = true
is_receipt _ = false

abbrev pub is_credit_note : DocumentKind → Bool
is_credit_note credit_note = true
is_credit_note _ = false

-- The books of one order: its papers, newest first, the next identifier, and the cashbook.
pub record Books : Type 0 where
  pub papers : List Paper
  pub next : ℕ
  pub ledger : Ledger

-- What `syncIn` reads of the order.
pub record OrderFacts : Type 0 where
  pub id : ℕ
  pub order_no : ℕ
  pub grand_total : Money
  pub method : PaymentMethod
  pub status : OrderStatus
  pub cancelled_from : Option OrderStatus
  pub paid : Bool

-- `credited.has(id)`
unfoldable pub is_credited : List Paper → ℕ → Bool
is_credited papers id =
    any (λ d. is_credit_note d.kind && some_and d.credits_doc (λ c. c == id)) papers

unfoldable pub is_live_invoice : List Paper → Paper → Bool
unfolding is_credited
is_live_invoice papers d = is_invoice d.kind && not (is_credited papers d.id)

-- the newest invoice that no credit note reverses
unfoldable pub live_invoice_of : List Paper → Option Paper
unfolding is_live_invoice
live_invoice_of papers = find (is_live_invoice papers) papers

unfoldable pub has_receipt : List Paper → Bool
has_receipt papers = any (λ d. is_receipt d.kind) papers

-- what is looked for before the cash of a delivery is booked, and what is booked
abbrev pub cod_filter : OrderFacts → CashFilter
cod_filter o = record {
  order_id = some o.id;
  purchase_id = none;
  kind = cod_remittance;
  direction = some money_in;
  memo = none;
}

abbrev pub cod_entry : OrderFacts → PostEntry
cod_entry o = record {
  account = by_code (system_code cash_account);
  direction = money_in;
  kind = cod_remittance;
  amount = o.grand_total;
  memo = cod_memo o.order_no;
  order_id = some o.id;
  purchase_id = none;
  transfer_group_id = none;
  reverses_id = none;
  occurred_at = none;
}

unfoldable pub state_of : OrderFacts → Books → BooksState
unfolding live_invoice_of has_receipt has
state_of o b = record {
  method = o.method;
  status = o.status;
  cancelled_from = o.cancelled_from;
  paid = o.paid;
  live_invoice = is_some (live_invoice_of b.papers);
  receipt = has_receipt b.papers;
  cod_cash_booked = has (cod_filter o) b.ledger;
}

-- `issue`: a new row
unfoldable pub issue : Bool → DocumentKind → Option ℕ → Books → Books
issue false kind credits b = b
issue true kind credits b = record b {
  papers = record { id = b.next; kind = kind; credits_doc = credits } ∷ b.papers;
  next = b.next + 1;
}

-- The rows that a plan adds, in the order of the code.
unfoldable pub issue_planned : BooksPlan → Option Paper → Books → Books
unfolding issue
issue_planned p live b =
    let b1 = issue p.invoice invoice none b in
    let b2 = issue p.receipt receipt none b1 in
    issue (is_some p.credit && is_some live) credit_note (map_option (λ d. d.id) live) b2

-- the posting of the cash, which may be refused
unfoldable pub book_cash : OrderFacts → Bool → Books → Outcome Books
unfolding post
book_cash o false b = ok b
book_cash o true b = do l ← post (cod_entry o) b.ledger; ok (record b { ledger = l })

unfoldable pub carry_out : OrderFacts → BooksPlan → Option Paper → Books → Outcome Books
unfolding issue_planned book_cash
carry_out o p live b = book_cash o p.cod_cash_in (issue_planned p live b)

-- One transaction: when the posting is refused, the rows are taken back.
unfoldable pub sync : OrderFacts → Option OrderStatus → Books → Outcome Books
unfolding state_of carry_out
sync o hint_from b =
    let plan = plan_books (state_of o b) hint_from in
    if is_empty_plan plan then ok b else carry_out o plan (live_invoice_of b.papers) b
