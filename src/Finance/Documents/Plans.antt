-- ===== src/Finance/Documents/Plans.antt =====
-- backend/src/modules/finance/documents/domain/document-policy.ts: what the policy plans.
use brothers_book_house.Base.{
  Bool-cases, Option, arith, false, if◌then◌else◌, inl, inr, is_some, ltb, not, refl, true, ℕ, ◌&&◌,
  ◌+◌, ◌||◌, ◌≡◌, ◌≤◌,
}
use brothers_book_house.Finance.Documents.{
  BooksPlan, BooksState, dead_statuses, is_empty_plan, is_live, plan_books,
}
use brothers_book_house.Orders.Status.{
  OrderStatus, confirmed, delivered, handed_to_courier, includes, out_for_delivery, processing,
}

pub not_live-dead : (s : OrderStatus) → includes dead_statuses s ≡ true → is_live s ≡ false
unfolding is_live
not_live-dead confirmed e = ground arith
not_live-dead processing e = ground arith
not_live-dead handed_to_courier e = ground arith
not_live-dead out_for_delivery e = ground arith
not_live-dead delivered e = ground arith
not_live-dead _ e = refl

-- A credit note is planned only for a live invoice, and then it is all that is planned.
pub plan_books-credit :
    (s : BooksState) (hint : Option OrderStatus)
    → is_some (plan_books s hint).credit ≡ true
    → ((plan_books s hint).invoice ≡ false)
      × ((plan_books s hint).receipt ≡ false)
      × (s.live_invoice ≡ true)
unfolding plan_books
plan_books-credit s hint e =
    let dead : includes dead_statuses s.status ≡ true = ground arith in
    rw (not_live-dead s.status dead) (refl, refl, ground arith)

-- The books that a plan leaves, as the policy sees them.
abbrev pub after_plan : BooksPlan → BooksState → BooksState
after_plan p s = record s {
  live_invoice = not (is_some p.credit) && (s.live_invoice || p.invoice);
  receipt = s.receipt || p.receipt;
  cod_cash_booked = s.cod_cash_booked || p.cod_cash_in;
}

-- The policy asks for nothing once its plan is carried out.
pub is_empty_plan-again :
    (s : BooksState) (hint : Option OrderStatus)
    → is_empty_plan (plan_books (after_plan (plan_books s hint) s) hint) ≡ true
unfolding plan_books is_empty_plan
is_empty_plan-again s hint = elim (Bool-cases (includes dead_statuses s.status)) [
  | inl d ↦ rw (not_live-dead s.status d) (ground arith)
  | inr d ↦ ground arith
]

-- What a plan leaves of the live invoices: one of a live order, none of a cancelled or returned one.
pub plan_books-count :
    (s : BooksState) (hint : Option OrderStatus) (n m : ℕ)
    → s.live_invoice ≡ ltb 0 n
    → n ≤ 1
    → (m ≡ (
        if is_some (plan_books s hint).credit
        then 0
        else if (plan_books s hint).invoice
        then n + 1
        else n))
    → (m ≤ 1) × (is_live s.status ≡ true → m ≡ 1) × (includes dead_statuses s.status ≡ true → m ≡ 0)
unfolding plan_books
plan_books-count s hint n m t one e = elim (Bool-cases (includes dead_statuses s.status)) [
  | inl d ↦
      let dead = not_live-dead s.status d in (ground arith, λ l. ground arith, λ _. ground arith)
  | inr d ↦ (ground arith, λ l. ground arith, λ f. ground arith)
]
