-- ===== src/Tests/Ledger.antt =====
-- The papers of an order, a bill of a supplier and a refund.
use brothers_book_house.Tests.Desk.{new_ledger}
use brothers_book_house.Finance.Documents.Booking.{is_cash_open}
use brothers_book_house.Finance.Cash.{account, find_account, post}
use brothers_book_house.Finance.Cash.Postings.{has}
use brothers_book_house.Finance.Cash.Once.{IsReferential}
use brothers_book_house.Base.{
  List, [], arith, false, ltb, none, not, refl, some, true, ℕ, ◌&&◌, ◌+◌, ◌<◌, ◌||◌, ◌↔◌, ◌∷◌, ◌≡◌,
  ◌≤◌,
}
use brothers_book_house.Base.Outcome.{Outcome, fail, is_ok, ok}
use brothers_book_house.Finance.Documents.{
  Books, DocumentKind, OrderFacts, book_cash, carry_out, dead_statuses, has_receipt, is_credited,
  is_empty_plan, is_live, is_live_invoice, is_prepaid, issue, issue_planned, live_invoice_of,
  plan_books, state_of, sync,
}
use brothers_book_house.Finance.Documents.Rows.{IsFresh, live_count}
use brothers_book_house.Finance.Documents.Sync.{sync_lem}
use brothers_book_house.Finance.Purchases.{
  PurchaseLineInput, SettlementStatus, check_payment, check_payment_iff, outstanding,
  settlement_status,
}
use brothers_book_house.Finance.Refunds.{check_refund, check_refund_iff}
use brothers_book_house.Orders.Status.{OrderStatus, PaymentMethod, includes}

abbrev delivered_order : OrderFacts
delivered_order = record {
  id = 12;
  order_no = 1_012;
  grand_total = 86_000;
  method = PaymentMethod.cod;
  status = OrderStatus.delivered;
  cancelled_from = none;
  paid = false;
}

abbrev cancelled_order : OrderFacts
cancelled_order = record {
  id = 12;
  order_no = 1_012;
  grand_total = 86_000;
  method = PaymentMethod.cod;
  status = OrderStatus.cancelled;
  cancelled_from = some OrderStatus.processing;
  paid = false;
}

abbrev one_invoice : Books
one_invoice = record {
  papers = record { id = 4; kind = DocumentKind.invoice; credits_doc = none } ∷ [];
  next = 5;
  ledger = new_ledger;
}

one_invoice-IsFresh : IsFresh one_invoice
one_invoice-IsFresh = ((omega arith, tt), (λ c e. ground arith, tt))

one_invoice-live : live_count one_invoice.papers ≤ 1
unfolding is_live_invoice is_credited
one_invoice-live = omega arith

-- The delivery adds the receipt and books the cash; the cancellation adds a credit note; the delivery of an
-- order that costs nothing is refused.
abbrev next_of : Outcome Books → ℕ
next_of (ok b) = b.next
next_of (fail code) = 0

sync_delivered : next_of (sync delivered_order none one_invoice) ≡ 6
unfolding sync plan_books is_live is_prepaid state_of live_invoice_of is_live_invoice is_credited
    has_receipt has carry_out issue_planned issue book_cash post account find_account is_empty_plan
sync_delivered = refl

sync_cancelled : next_of (sync cancelled_order none one_invoice) ≡ 6
unfolding sync plan_books is_live is_prepaid state_of live_invoice_of is_live_invoice is_credited
    has_receipt has carry_out issue_planned issue book_cash post account find_account is_empty_plan
sync_cancelled = refl

sync_free :
    sync (record delivered_order { grand_total = 0 }) none one_invoice ≡ fail "cash.amount_invalid"
unfolding sync plan_books is_live is_prepaid state_of live_invoice_of is_live_invoice is_credited
    has_receipt has carry_out issue_planned issue book_cash post account find_account is_empty_plan
sync_free = refl

ledger-IsReferential : IsReferential one_invoice.ledger
ledger-IsReferential i h = refl

sync_lem_example :
    (is_ok (sync delivered_order none one_invoice)
      ≡ not (plan_books (state_of delivered_order one_invoice) none).cod_cash_in
        || (ltb 0 86_000 && is_cash_open new_ledger))
    × ((after : Books)
        → sync delivered_order none one_invoice ≡ ok after
        → IsFresh after
          × (live_count after.papers ≤ 1)
          × IsReferential after.ledger
          × (is_live OrderStatus.delivered ≡ true → live_count after.papers ≡ 1)
          × (includes dead_statuses OrderStatus.delivered ≡ true → live_count after.papers ≡ 0)
          × (sync delivered_order none after ≡ ok after))
sync_lem_example =
    sync_lem delivered_order none one_invoice one_invoice-IsFresh one_invoice-live
      ledger-IsReferential

check_refund_iff_example :
    (check_refund 500 2000 1000 300 (some 800) ≡ ok 500)
    ↔ ((0 < 500) × (1000 + 300 + 500 ≤ 2000) × ((l : ℕ) → some 800 ≡ some l → 500 ≤ l))
check_refund_iff_example = check_refund_iff 500 2000 1000 300 (some 800)

check_payment_iff_example :
    ((is_ok (check_payment 900 400 500) ≡ true) ↔ ((0 < 500) × (400 + 500 ≤ 900)))
    × (is_ok (check_payment 900 400 500) ≡ true
        → (settlement_status 900 (400 + 500) ≡ SettlementStatus.paid)
          ↔ (outstanding 900 (400 + 500) ≡ 0))
    × (settlement_status 900 400 ≡ SettlementStatus.paid
        → is_ok (check_payment 900 400 500) ≡ false)
check_payment_iff_example = check_payment_iff 900 400 500

abbrev bill : List PurchaseLineInput
bill =
    record { product_id = 1; quantity = 2; unit_cost = 300 }
    ∷ record { product_id = 2; quantity = 1; unit_cost = 150 }
    ∷ record { product_id = 1; quantity = 4; unit_cost = 280 }
    ∷ []
