-- ===== src/Finance/Cash/Once.antt =====
-- backend/src/modules/finance/cashbook/application/cash-ledger.service.ts: what is posted is posted once.
use brothers_book_house.Base.{
  Bool, Bool-cases, List, Option, Option-cases, [], any, ap, arith, false, find, if◌then◌else◌, inl,
  inr, is_some, leb, ltb, none, not, refl, subst, sum_by, sym, true, ℕ, ◌&&◌, ◌+◌, ◌<◌, ◌==◌, ◌||◌,
  ◌∙◌, ◌∷◌, ◌≡◌, ◌≤◌,
}
use brothers_book_house.Base.Outcome.{>>=-eq-ok, ok, ok-inj, ◌>>=◌}
use brothers_book_house.Base.Text.{Text}
use brothers_book_house.Money.{Money}
use brothers_book_house.Finance.Cash.{
  AccountRef, CashAccount, CashTransaction, Ledger, PostEntry, account, by_code, by_id, custom_code,
  find_account, money_in, money_out, open_account, post, row_of, same_code, system_code, write_row,
}
use brothers_book_house.Finance.Cash.Postings.{
  CaptureInput, CashFilter, RefundPosting, capture_entry, capture_filter, fee_entry, first_units,
  has, is_live_entry, matches, post_fee, record_gateway_capture, record_refund, refund_entry,
  refund_filter, reverses, same_direction, same_text,
}

-- A reversal names an entry that was written.
abbrev pub IsReferential : Ledger → Type 0
IsReferential l = (i : ℕ) → l.next_id ≤ i → any (reverses i) l.transactions ≡ false

abbrev pub came_in : Ledger → Money
came_in l = sum_by (λ r. if same_direction r.direction money_in then r.amount else 0) l.transactions

abbrev pub went_out : Ledger → Money
went_out l =
    sum_by (λ r. if same_direction r.direction money_out then r.amount else 0) l.transactions

-- One row more.
abbrev pub IsPosted : PostEntry → Ledger → Ledger → Type 0
IsPosted e l l' =
    (i : ℕ) × (n : ℕ) × (l.next_id ≤ n)
    × (l'.next_id ≡ n + 1)
    × (l'.transactions ≡ row_of e i n l.now ∷ l.transactions)

find_account_lem :
    (ref : AccountRef) (l : Ledger) (found : Ledger × CashAccount)
    → find_account ref l ≡ ok found
    → (found.0.transactions ≡ l.transactions)
      × (l.next_id ≤ found.0.next_id)
      × (found.0.now ≡ l.now)
unfolding find_account
find_account_lem (by_id i) l found h = elim (Option-cases (find (λ a. a.id == i) l.accounts)) [
  | inl e ↦ cc (rw e at h)
  | inr (a, e) ↦ let same = ok-inj (rw e at h) in rw (sym same) (refl, omega arith, refl)
]
find_account_lem (by_code (system_code c)) l found h =
    elim (Option-cases (find (λ a. same_code a.code (system_code c)) l.accounts)) [
      | inl e ↦ let same = ok-inj (rw e at h) in rw (sym same) (refl, omega arith, refl)
      | inr (a, e) ↦ let same = ok-inj (rw e at h) in rw (sym same) (refl, omega arith, refl)
    ]
find_account_lem (by_code (custom_code n)) l found h =
    elim (Option-cases (find (λ a. same_code a.code (custom_code n)) l.accounts)) [
      | inl e ↦ cc (rw e at h)
      | inr (a, e) ↦ let same = ok-inj (rw e at h) in rw (sym same) (refl, omega arith, refl)
    ]

open_account_lem :
    (allow : Bool) (found opened : Ledger × CashAccount)
    → open_account allow found ≡ ok opened
    → found ≡ opened
open_account_lem allow (l, a) opened h = elim (Bool-cases (not a.is_active && not allow)) [
  | inl t ↦ cc (rw t at h)
  | inr t ↦ ok-inj (rw t at h)
]

pub post-IsPosted :
    (e : PostEntry) (l l' : Ledger) → post e l ≡ ok l' → (0 < e.amount) × IsPosted e l l'
unfolding post account
post-IsPosted e l l' h = elim (Bool-cases (leb e.amount 0)) [
  | inl t ↦ cc (rw t at h)
  | inr t ↦
      let (opened, g, w) =
        >>=-eq-ok (account e.account (is_some e.reverses_id) l) (write_row e) l' (rw t at h) in
      let (found, f, o) =
        >>=-eq-ok (find_account e.account l) (open_account (is_some e.reverses_id)) opened g in
      let same = open_account_lem (is_some e.reverses_id) found opened o in
      let (rows, next, now) = find_account_lem e.account l found f in
      let written = ok-inj w in
      let posted : IsPosted e l l' = (
        opened.1.id,
        opened.0.next_id,
        rw (sym same) next,
        ap (λ (x : Ledger). x.next_id) (sym written),
        ap (λ (x : Ledger). x.transactions) (sym written) ∙ rw (sym same) (rw rows (rw now refl)),
      ) in
      (ground arith, posted)
]

pub post-IsReferential :
    (e : PostEntry) (l l' : Ledger)
    → e.reverses_id ≡ none
    → IsPosted e l l'
    → IsReferential l
    → IsReferential l'
post-IsReferential e l l' own (i, n, le, next, rows) k j late =
    rw rows (rw own (k j (omega (arith, le, next, late))))

or_true : (a b : Bool) → b ≡ true → a || b ≡ true
or_true a b h = ground (arith, h)

abbrev pub finds : CashFilter → List CashTransaction → Bool
finds w rows = any (λ r. matches w r && is_live_entry rows r) rows

finds_still :
    (w : CashFilter) (r : CashTransaction) (rows : List CashTransaction)
    → r.reverses_id ≡ none
    → finds w rows ≡ true
    → finds w (r ∷ rows) ≡ true
finds_still w r rows own h =
    subst (λ (o : Option ℕ). finds w (record r { reverses_id = o } ∷ rows) ≡ true) (sym own)
      (or_true (matches w (record r { reverses_id = none }) && not (any (reverses r.id) rows))
        (finds w rows) h)

-- What was there is found after an entry that reverses nothing; and the entry itself is.
has_still :
    (w : CashFilter) (e : PostEntry) (l l' : Ledger)
    → e.reverses_id ≡ none
    → IsPosted e l l'
    → has w l ≡ true
    → has w l' ≡ true
unfolding has
has_still w e l l' own (i, n, le, next, rows) h =
    rw rows (finds_still w (row_of e i n l.now) l.transactions own h)

pub has_now :
    (w : CashFilter) (e : PostEntry) (l l' : Ledger)
    → e.reverses_id ≡ none
    → IsReferential l
    → IsPosted e l l'
    → ((i n now : ℕ) → matches w (row_of e i n now) ≡ true)
    → has w l' ≡ true
unfolding has
has_now w e l l' own k (i, n, le, next, rows) m =
    rw rows (rw (m i n l.now) (rw own (rw (k n le) refl)))

-- What an entry adds to the money that came in and went out.
post_moves :
    (e : PostEntry) (l l' : Ledger)
    → IsPosted e l l'
    → (came_in l' ≡ (if same_direction e.direction money_in then e.amount else 0) + came_in l)
      × (went_out l' ≡ (if same_direction e.direction money_out then e.amount else 0) + went_out l)
post_moves e l l' (i, n, le, next, rows) = (rw rows refl, rw rows refl)

same_memo_refl : (a b : ℕ) → (a == a && b == b) ≡ true
same_memo_refl a b = ground arith

same_text_refl : (t : Text) → same_text t t ≡ true
same_text_refl [] = refl
same_text_refl (c ∷ t) = ground (arith, same_text_refl t)

capture_matches :
    (p : CaptureInput) (i n now : ℕ)
    → matches (capture_filter p) (row_of (capture_entry p) i n now) ≡ true
capture_matches p i n now = ground arith

refund_matches :
    (p : RefundPosting) (i n now : ℕ)
    → matches (refund_filter p) (row_of (refund_entry p) i n now) ≡ true
refund_matches p i n now = ground (arith, same_text_refl (first_units 8 p.refund_id))

post_fee_lem :
    (p : CaptureInput) (l l' : Ledger)
    → IsReferential l
    → has (capture_filter p) l ≡ true
    → post_fee p l ≡ ok l'
    → IsReferential l'
      × (has (capture_filter p) l' ≡ true)
      × (came_in l' ≡ came_in l)
      × (went_out l' ≡ p.fee + went_out l)
unfolding post_fee
post_fee_lem p l l' k found h = elim (Bool-cases (ltb 0 p.fee)) [
  | inl t ↦
      let (amount, posted) = post-IsPosted (fee_entry p) l l' (rw t at h) in
      let (a, b) = post_moves (fee_entry p) l l' posted in
      (
        post-IsReferential (fee_entry p) l l' refl posted k,
        has_still (capture_filter p) (fee_entry p) l l' refl posted found,
        omega (arith, a),
        b,
      )
  | inr t ↦
      let same = ok-inj (rw t at h) in
      let nothing : p.fee ≡ 0 = ground arith in
      rw (sym same) (k, found, refl, omega (arith, nothing))
]

pub first_capture :
    (p : CaptureInput) (l l' : Ledger)
    → IsReferential l
    → (post (capture_entry p) l >>= post_fee p) ≡ ok l'
    → IsReferential l'
      × (has (capture_filter p) l' ≡ true)
      × (came_in l' ≡ p.amount + came_in l)
      × (went_out l' ≡ p.fee + went_out l)
first_capture p l l' k h =
    let (m, first, second) = >>=-eq-ok (post (capture_entry p) l) (post_fee p) l' h in
    let (amount, posted) = post-IsPosted (capture_entry p) l m first in
    let (a, b) = post_moves (capture_entry p) l m posted in
    let (j, f, c, d) =
      post_fee_lem p m l' (post-IsReferential (capture_entry p) l m refl posted k)
        (has_now (capture_filter p) (capture_entry p) l m refl k posted (capture_matches p))
        second in
    (j, f, c ∙ a, omega (arith, d, b))

-- A payment that the gateway captured is in the ledger once: posting it leaves the ledger as it was if
-- it was there, and else brings its amount in and its fee out; it is found afterwards, and posting it
-- again, with whatever amount and fee, changes nothing. It is asked of the ledger that its reversals name
-- entries that were written, and this still holds afterwards.
pub record_gateway_capture_once :
    (p : CaptureInput) (l l' : Ledger)
    → IsReferential l
    → record_gateway_capture p l ≡ ok l'
    → IsReferential l'
      × (if has (capture_filter p) l
          then l' ≡ l
          else (came_in l' ≡ p.amount + came_in l) × (went_out l' ≡ p.fee + went_out l))
      × ((amount fee : Money)
          → record_gateway_capture (record p { amount = amount; fee = fee }) l' ≡ ok l')
unfolding record_gateway_capture
record_gateway_capture_once p l l' k h = elim (Bool-cases (has (capture_filter p) l)) [
  | inl t ↦ let same = ok-inj (rw t at h) in rw t (rw (sym same) (k, refl, λ amount fee. rw t refl))
  | inr t ↦
      let (j, f, a, b) = first_capture p l l' k (rw t at h) in
      rw t (j, (a, b), λ amount fee. rw f refl)
]

refund_again :
    (p : RefundPosting) (l : Ledger) → has (refund_filter p) l ≡ true → record_refund p l ≡ ok l
unfolding record_refund
refund_again p l h = rw h refl

-- A refund is posted as money out of an account, unless a live entry of a refund for the same order
-- carries the same first eight characters of an id: then the ledger stays as it was. Afterwards no refund
-- of that order whose id starts with the same eight characters is posted.
pub record_refund_once :
    (p q : RefundPosting) (l l' : Ledger)
    → IsReferential l
    → refund_filter q ≡ refund_filter p
    → record_refund p l ≡ ok l'
    → IsReferential l'
      × (if has (refund_filter p) l
          then l' ≡ l
          else (came_in l' ≡ came_in l) × (went_out l' ≡ p.amount + went_out l))
      × (record_refund q l' ≡ ok l')
unfolding record_refund
record_refund_once p q l l' k alike h =
    let again : has (refund_filter p) l' ≡ true → record_refund q l' ≡ ok l' =
      λ found. refund_again q l' (ap (λ (f : CashFilter). has f l') alike ∙ found) in
    elim (Bool-cases (has (refund_filter p) l)) [
      | inl t ↦
          let same = ok-inj (rw t at h) in
          rw t (
            subst IsReferential same k,
            sym same,
            again (ap (λ (x : Ledger). has (refund_filter p) x) (sym same) ∙ t),
          )
      | inr t ↦
          let (amount, posted) = post-IsPosted (refund_entry p) l l' (rw t at h) in
          let (a, b) = post_moves (refund_entry p) l l' posted in
          rw t (
            post-IsReferential (refund_entry p) l l' refl posted k,
            (omega (arith, a), b),
            again
                (has_now (refund_filter p) (refund_entry p) l l' refl k posted (refund_matches p)),
          )
    ]
