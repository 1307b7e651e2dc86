-- ===== src/Finance/Documents/Booking.antt =====
-- backend/src/modules/finance/documents/application/document-issuer.service.ts: the cash of a delivery is
-- posted with the papers, or refused.
use brothers_book_house.Base.{
  Bool, Bool-cases, Option, Option-cases, arith, false, find, inl, inr, leb, ltb, none, not, refl,
  some, subst, true, ℕ, ◌&&◌, ◌||◌, ◌∙◌, ◌≡◌,
}
use brothers_book_house.Base.Outcome.{>>=-eq-ok, is_ok, is_ok_then, ok, ok-inj}
use brothers_book_house.Finance.Cash.{
  CashAccount, Ledger, account, cash_account, find_account, post, row_of, same_code, system_code,
}
use brothers_book_house.Finance.Cash.Postings.{has, matches}
use brothers_book_house.Finance.Cash.Once.{
  IsReferential, has_now, post-IsPosted, post-IsReferential,
}
use brothers_book_house.Finance.Documents.{Books, OrderFacts, book_cash, cod_entry, cod_filter}

-- What booking the cash leaves: the papers as they were, and the entry found if it was booked.
abbrev pub IsBooked : OrderFacts → Bool → Books → Books → Type 0
IsBooked o given b after =
    (after.papers ≡ b.papers)
    × (after.next ≡ b.next)
    × IsReferential after.ledger
    × (has (cod_filter o) after.ledger ≡ has (cod_filter o) b.ledger || given)

cod_matches :
    (o : OrderFacts) (i n now : ℕ) → matches (cod_filter o) (row_of (cod_entry o) i n now) ≡ true
cod_matches o i n now = ground arith

pub book_cash-IsBooked :
    (o : OrderFacts) (given : Bool) (b after : Books)
    → IsReferential b.ledger
    → book_cash o given b ≡ ok after
    → IsBooked o given b after
unfolding book_cash
book_cash-IsBooked o false b after k h =
    subst (IsBooked o false b) (ok-inj h) (refl, refl, k, ground arith)
book_cash-IsBooked o true b after k h =
    let (l, p, e) =
      >>=-eq-ok (post (cod_entry o) b.ledger) (λ l. ok (record b { ledger = l })) after h in
    let (_, posted) = post-IsPosted (cod_entry o) b.ledger l p in
    let there = has_now (cod_filter o) (cod_entry o) b.ledger l refl k posted (cod_matches o) in
    subst (IsBooked o true b) (ok-inj e) (
      refl,
      refl,
      post-IsReferential (cod_entry o) b.ledger l refl posted k,
      rw there (ground arith),
    )

-- The account of cash may be posted to: it is made on its first use, and else must not be closed.
abbrev pub is_usable : Option CashAccount → Bool
is_usable none = true
is_usable (some a) = a.is_active

abbrev pub is_cash_open : Ledger → Bool
is_cash_open l = is_usable (find (λ a. same_code a.code (system_code cash_account)) l.accounts)

is_ok-post :
    (o : OrderFacts) (l : Ledger)
    → is_ok (post (cod_entry o) l) ≡ ltb 0 o.grand_total && is_cash_open l
unfolding post account find_account
is_ok-post o l = elim (Bool-cases (leb o.grand_total 0)) [
  | inl t ↦ rw t (ground arith)
  | inr t ↦
      let positive : ltb 0 o.grand_total ≡ true = ground arith in
      elim (Option-cases (find (λ a. same_code a.code (system_code cash_account)) l.accounts)) [
        | inl e ↦ rw (t, positive, e) refl
        | inr (a, e) ↦ elim (Bool-cases a.is_active) [
          | inl s ↦ rw (t, positive, e, s) refl
          | inr s ↦ rw (t, positive, e, s) refl
        ]
      ]
]

pub is_ok-book_cash :
    (o : OrderFacts) (given : Bool) (b : Books)
    → is_ok (book_cash o given b) ≡ not given || (ltb 0 o.grand_total && is_cash_open b.ledger)
unfolding book_cash
is_ok-book_cash o false b = refl
is_ok-book_cash o true b =
    is_ok_then (post (cod_entry o) b.ledger) (λ l. record b { ledger = l }) ∙ is_ok-post o b.ledger
