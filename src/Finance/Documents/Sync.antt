-- ===== src/Finance/Documents/Sync.antt =====
-- backend/src/modules/finance/documents/application/document-issuer.service.ts: the books that a
-- synchronisation leaves, and when it is refused.
use brothers_book_house.Finance.Documents.Plans.{
  after_plan, is_empty_plan-again, not_live-dead, plan_books-count, plan_books-credit,
}
use brothers_book_house.Finance.Documents.Booking.{
  IsBooked, book_cash-IsBooked, is_cash_open, is_ok-book_cash,
}
use brothers_book_house.Base.Outcome.{is_ok, ok, ok-inj}
use brothers_book_house.Finance.Cash.{Ledger}
use brothers_book_house.Finance.Cash.Once.{IsReferential}
use brothers_book_house.Base.{
  Bool-cases, Option, ap, arith, false, inl, inr, is_some, ltb, none, not, refl, some, subst, true,
  ◌&&◌, ◌||◌, ◌∙◌, ◌≡◌, ◌≤◌,
}
use brothers_book_house.Finance.Documents.{
  Books, BooksPlan, BooksState, OrderFacts, Paper, book_cash, carry_out, dead_statuses,
  is_empty_plan, is_live, is_live_invoice, issue_planned, live_invoice_of, plan_books, state_of,
  sync,
}
use brothers_book_house.Finance.Documents.Rows.{
  IsFresh, Written, is_some-find, issue_planned-credit, issue_planned-rows, live_count,
}
use brothers_book_house.Orders.Status.{OrderStatus, includes}

live_invoice-state_of :
    (o : OrderFacts) (b : Books) → (state_of o b).live_invoice ≡ ltb 0 (live_count b.papers)
unfolding state_of live_invoice_of
live_invoice-state_of o b = is_some-find (is_live_invoice b.papers) b.papers

issue_planned-credited :
    (s : BooksState) (hint : Option OrderStatus) (l : Option Paper) (b : Books)
    → is_some (plan_books s hint).credit ≡ true
    → IsFresh b
    → live_count b.papers ≤ 1
    → s.live_invoice ≡ is_some l
    → live_invoice_of b.papers ≡ l
    → Written (plan_books s hint) b (issue_planned (plan_books s hint) l b)
issue_planned-credited s hint none b c h one t e =
    let (_, _, live) = plan_books-credit s hint c in ground (arith, live, t)
issue_planned-credited s hint (some d) b c h one t e =
    let (i, r, _) = plan_books-credit s hint c in
    issue_planned-credit (plan_books s hint) d b c i r h one e

-- The rows of the policy's own plan, written.
issue_planned-plan :
    (o : OrderFacts) (hint : Option OrderStatus) (b : Books)
    → IsFresh b
    → live_count b.papers ≤ 1
    → let p = plan_books (state_of o b) hint in
      Written p b (issue_planned p (live_invoice_of b.papers) b)
unfolding state_of
issue_planned-plan o hint b h one =
    let s = state_of o b in
    let p = plan_books s hint in
    elim (Bool-cases (is_some p.credit)) [
      | inl c ↦ issue_planned-credited s hint (live_invoice_of b.papers) b c h one refl refl
      | inr c ↦ issue_planned-rows p (live_invoice_of b.papers) b c h
    ]

state_of-Written :
    (o : OrderFacts) (p : BooksPlan) (b mid after : Books)
    → Written p b mid
    → IsBooked o p.cod_cash_in mid after
    → state_of o after ≡ after_plan p (state_of o b)
unfolding state_of
state_of-Written o p b mid after (h, n, r, k) (papers, next, _, found) =
    let live : is_some (live_invoice_of mid.papers)
        ≡ (not (is_some p.credit) && (is_some (live_invoice_of b.papers) || p.invoice)) =
      rw (live_invoice-state_of o mid) (rw (live_invoice-state_of o b) (rw n (ground arith))) in
    rw papers (rw live (rw r (rw found (rw k refl))))

sync-empty :
    (o : OrderFacts) (hint : Option OrderStatus) (b : Books)
    → is_empty_plan (plan_books (state_of o b) hint) ≡ true
    → sync o hint b ≡ ok b
unfolding sync
sync-empty o hint b e = rw e refl

sync-full :
    (o : OrderFacts) (hint : Option OrderStatus) (b : Books)
    → is_empty_plan (plan_books (state_of o b) hint) ≡ false
    → sync o hint b ≡ carry_out o (plan_books (state_of o b) hint) (live_invoice_of b.papers) b
unfolding sync
sync-full o hint b e = rw e refl

-- The books that a synchronisation leaves, whichever way it goes.
abbrev Settled : OrderFacts → Option OrderStatus → Books → Type 0
Settled o hint after =
    IsFresh after
    × (live_count after.papers ≤ 1)
    × (is_live o.status ≡ true → live_count after.papers ≡ 1)
    × (includes dead_statuses o.status ≡ true → live_count after.papers ≡ 0)
    × IsReferential after.ledger
    × (is_empty_plan (plan_books (state_of o after) hint) ≡ true)

carry_out-Settled :
    (o : OrderFacts) (hint : Option OrderStatus) (b after : Books)
    → IsFresh b
    → live_count b.papers ≤ 1
    → IsReferential b.ledger
    → carry_out o (plan_books (state_of o b) hint) (live_invoice_of b.papers) b ≡ ok after
    → Settled o hint after
unfolding carry_out state_of
carry_out-Settled o hint b after h one k e =
    let s = state_of o b in
    let p = plan_books s hint in
    let mid = issue_planned p (live_invoice_of b.papers) b in
    let w = issue_planned-plan o hint b h one in
    let booked = book_cash-IsBooked o p.cod_cash_in mid after (rw w.3 k) e in
    let (papers, next, referential, _) = booked in
    let (m, live, dead) =
      plan_books-count s hint (live_count b.papers) (live_count after.papers)
        (live_invoice-state_of o b) one (ap live_count papers ∙ w.1) in
    (
      rw papers (rw next w.0),
      m,
      live,
      dead,
      referential,
      rw (state_of-Written o p b mid after w booked) (is_empty_plan-again s hint),
    )

unchanged-Settled :
    (o : OrderFacts) (hint : Option OrderStatus) (b : Books)
    → IsFresh b
    → live_count b.papers ≤ 1
    → IsReferential b.ledger
    → is_empty_plan (plan_books (state_of o b) hint) ≡ true
    → Settled o hint b
unfolding state_of plan_books is_empty_plan
unchanged-Settled o hint b h one k e = (
  h,
  one,
  λ l. ground (arith, live_invoice-state_of o b),
  λ d. ground (arith, live_invoice-state_of o b, not_live-dead o.status d),
  k,
  e,
)

sync-Settled :
    (o : OrderFacts) (hint : Option OrderStatus) (b after : Books)
    → IsFresh b
    → live_count b.papers ≤ 1
    → IsReferential b.ledger
    → sync o hint b ≡ ok after
    → Settled o hint after
sync-Settled o hint b after h one k e =
    elim (Bool-cases (is_empty_plan (plan_books (state_of o b) hint))) [
      | inl t ↦
          subst (Settled o hint) (ok-inj (rw (sync-empty o hint b t) at e))
            (unchanged-Settled o hint b h one k t)
      | inr t ↦ carry_out-Settled o hint b after h one k (rw (sync-full o hint b t) at e)
    ]

is_empty_plan_cash : (p : BooksPlan) → is_empty_plan p ≡ true → p.cod_cash_in ≡ false
unfolding is_empty_plan
is_empty_plan_cash p h = ground (arith, h)

is_ok-sync :
    (o : OrderFacts) (hint : Option OrderStatus) (b : Books)
    → IsFresh b
    → live_count b.papers ≤ 1
    → is_ok (sync o hint b)
      ≡ not (plan_books (state_of o b) hint).cod_cash_in
        || (ltb 0 o.grand_total && is_cash_open b.ledger)
unfolding carry_out
is_ok-sync o hint b h one =
    let p = plan_books (state_of o b) hint in
    elim (Bool-cases (is_empty_plan p)) [
      | inl t ↦ rw (sync-empty o hint b t) (rw (is_empty_plan_cash p t) refl)
      | inr t ↦
          let mid = issue_planned p (live_invoice_of b.papers) b in
          let same : mid.ledger ≡ b.ledger = (issue_planned-plan o hint b h one).3 in
          ap is_ok (sync-full o hint b t)
          ∙ subst
              (λ (l : Ledger).
                is_ok (book_cash o p.cod_cash_in mid)
                ≡ not p.cod_cash_in || (ltb 0 o.grand_total && is_cash_open l))
              same (is_ok-book_cash o p.cod_cash_in mid)
    ]

-- Let every row and every credited row be older than the next identifier, at most one invoice be live, and
-- the reversals in the cashbook name entries that were written. A synchronisation succeeds unless it is
-- to book the cash of a delivery and this is refused, the amount being zero or the account of cash closed.
-- When it succeeds, these conditions still hold; it leaves one live invoice if the order is live and none
-- if it is cancelled or returned; and synchronising again with the same order and hint changes nothing.
pub sync_lem :
    (o : OrderFacts) (hint : Option OrderStatus) (b : Books)
    → IsFresh b
    → live_count b.papers ≤ 1
    → IsReferential b.ledger
    → (is_ok (sync o hint b)
        ≡ not (plan_books (state_of o b) hint).cod_cash_in
          || (ltb 0 o.grand_total && is_cash_open b.ledger))
      × ((after : Books)
          → sync o hint b ≡ ok after
          → IsFresh after
            × (live_count after.papers ≤ 1)
            × IsReferential after.ledger
            × (is_live o.status ≡ true → live_count after.papers ≡ 1)
            × (includes dead_statuses o.status ≡ true → live_count after.papers ≡ 0)
            × (sync o hint after ≡ ok after))
sync_lem o hint b h one k = (
  is_ok-sync o hint b h one,
  λ after e.
      let (h', m, live, dead, k', again) = sync-Settled o hint b after h one k e in
      (h', m, k', live, dead, sync-empty o hint after again),
)
