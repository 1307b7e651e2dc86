-- ===== src/Finance/Documents/Rows.antt =====
-- backend/src/modules/finance/documents: the rows that a synchronisation adds, and what each
-- does to the live invoices.
use brothers_book_house.Base.{
  All, Bool, Bool-cases, List, Option, [], arith, false, find, if◌then◌else◌, inl, inr, is_some,
  ltb, none, refl, some, some_and, subst, true, ℕ, ◌+◌, ◌<◌, ◌==◌, ◌||◌, ◌∙◌, ◌∷◌, ◌≡◌, ◌≤◌,
}
use brothers_book_house.Finance.Documents.{
  Books, BooksPlan, DocumentKind, Paper, credit_note, has_receipt, invoice, is_credit_note,
  is_credited, is_live_invoice, issue, issue_planned, live_invoice_of, receipt,
}

-- How many of the papers satisfy a test.
abbrev pub count : (Paper → Bool) → List Paper → ℕ
count f [] = 0
count f (d ∷ ds) = let n = count f ds in if f d then n + 1 else n

-- The invoices that no credit note reverses.
abbrev pub live_count : List Paper → ℕ
live_count papers = count (is_live_invoice papers) papers

-- Every row is older than the next identifier, and so is every row that a credit note names.
abbrev pub IsFresh : Books → Type 0
IsFresh b =
    All (λ d. d.id < b.next) b.papers
    × All (λ d. (c : ℕ) → d.credits_doc ≡ some c → c < b.next) b.papers

pub is_some-find : (f : Paper → Bool) (ds : List Paper) → is_some (find f ds) ≡ ltb 0 (count f ds)
is_some-find f [] = ground arith
is_some-find f (d ∷ ds) = elim (Bool-cases (f d)) [
  | inl e ↦ rw e (ground arith)
  | inr e ↦ rw e (is_some-find f ds)
]

some_and-older :
    (n : ℕ) (o : Option ℕ) → ((c : ℕ) → o ≡ some c → c < n) → some_and o (λ c. c == n) ≡ false
some_and-older n none h = refl
some_and-older n (some c) h = ground (arith, h c refl)

-- A row that is not born yet is credited by none.
is_credited-fresh :
    (n : ℕ) (ds : List Paper)
    → All (λ d. (c : ℕ) → d.credits_doc ≡ some c → c < n) ds
    → is_credited ds n ≡ false
unfolding is_credited
is_credited-fresh n [] h = refl
is_credited-fresh n (d ∷ ds) h =
    ground (arith, is_credited-fresh n ds h.1, some_and-older n d.credits_doc h.0)

is_live_invoice-credited :
    (c : Paper) (ds : List Paper) (d : Paper)
    → is_live_invoice (c ∷ ds) d ≡ true
    → is_live_invoice ds d ≡ true
unfolding is_live_invoice is_credited
is_live_invoice-credited c ds d h = ground arith

is_live_invoice_self :
    (c : Paper) (ds : List Paper) (d : Paper)
    → is_credit_note c.kind ≡ true
    → c.credits_doc ≡ some d.id
    → is_live_invoice (c ∷ ds) d ≡ false
unfolding is_live_invoice is_credited
is_live_invoice_self c ds d k e = rw k (rw e (ground arith))

-- One more paper leaves at most as many live invoices among the old ones.
count_mono :
    (f g : Paper → Bool) (ds : List Paper)
    → ((d : Paper) → f d ≡ true → g d ≡ true)
    → count f ds ≤ count g ds
count_mono f g [] h = omega arith
count_mono f g (d ∷ ds) h = ground (arith, count_mono f g ds h, h d)

count_drop :
    (f g : Paper → Bool) (ds : List Paper) (d : Paper)
    → ((e : Paper) → f e ≡ true → g e ≡ true)
    → find g ds ≡ some d
    → f d ≡ false
    → count f ds + 1 ≤ count g ds
count_drop f g [] d h e n = ground arith
count_drop f g (x ∷ ds) d h e n = elim (Bool-cases (g x)) [
  | inl t ↦ ground (arith, count_mono f g ds h)
  | inr t ↦ ground (arith, count_drop f g ds d h, h x)
]

All-weaken :
    (P Q : Paper → Type 0) (ds : List Paper) → ((d : Paper) → P d → Q d) → All P ds → All Q ds
All-weaken P Q [] f h = tt
All-weaken P Q (d ∷ ds) f h = (f d h.0, All-weaken P Q ds f h.1)

All-find :
    (P : Paper → Type 0) (f : Paper → Bool) (ds : List Paper) (d : Paper)
    → All P ds
    → find f ds ≡ some d
    → P d
All-find P f [] d h e = ground arith
All-find P f (x ∷ ds) d h e = elim (Bool-cases (f x)) [
  | inl t ↦ subst P (ground arith) h.0
  | inr t ↦ All-find P f ds d h.1 (ground arith)
]

find-holds : (f : Paper → Bool) (ds : List Paper) (d : Paper) → find f ds ≡ some d → f d ≡ true
find-holds f [] d e = ground arith
find-holds f (x ∷ ds) d e = elim (Bool-cases (f x)) [
  | inl t ↦ ground arith
  | inr t ↦ find-holds f ds d (ground arith)
]

-- A new row is older than the identifier after it.
issue-IsFresh :
    (k : DocumentKind) (o : Option ℕ) (b : Books)
    → ((c : ℕ) → o ≡ some c → c < b.next)
    → IsFresh b
    → IsFresh (issue true k o b)
unfolding issue
issue-IsFresh k o b ho h = (
  (omega arith, All-weaken _ _ b.papers (λ d l. omega arith) h.0),
  (λ c e. omega (arith, ho c e), All-weaken _ _ b.papers (λ d l c e. omega (arith, l c e)) h.1),
)

issue-invoice :
    (g : Bool) (b : Books)
    → IsFresh b
    → IsFresh (issue g invoice none b)
      × (live_count (issue g invoice none b).papers
          ≡ (if g then live_count b.papers + 1 else live_count b.papers))
      × (has_receipt (issue g invoice none b).papers ≡ has_receipt b.papers)
unfolding issue has_receipt is_live_invoice is_credited
issue-invoice false b h = (h, refl, refl)
issue-invoice true b h =
    let older = is_credited-fresh b.next b.papers h.1 in
    (issue-IsFresh invoice none b (λ c e. ground arith) h, rw older refl, refl)

issue-receipt :
    (g : Bool) (b : Books)
    → IsFresh b
    → IsFresh (issue g receipt none b)
      × (live_count (issue g receipt none b).papers ≡ live_count b.papers)
      × (has_receipt (issue g receipt none b).papers ≡ has_receipt b.papers || g)
unfolding issue has_receipt is_live_invoice is_credited
issue-receipt false b h = (h, refl, ground arith)
issue-receipt true b h = (issue-IsFresh receipt none b (λ c e. ground arith) h, refl, ground arith)

issue-credit_note :
    (b : Books) (d : Paper)
    → IsFresh b
    → live_count b.papers ≤ 1
    → live_invoice_of b.papers ≡ some d
    → (live_count (issue true credit_note (some d.id) b).papers ≡ 0)
      × (has_receipt (issue true credit_note (some d.id) b).papers ≡ has_receipt b.papers)
unfolding issue has_receipt live_invoice_of
issue-credit_note b d h one e =
    let ps = b.papers in
    let row : Paper = record { id = b.next; kind = credit_note; credits_doc = some d.id } in
    let less =
      count_drop (is_live_invoice (row ∷ ps)) (is_live_invoice ps) ps d
        (is_live_invoice-credited row ps) e (is_live_invoice_self row ps d refl refl) in
    (omega (arith, less), refl)

-- What the rows of a plan make of the books.
abbrev pub Written : BooksPlan → Books → Books → Type 0
Written p b after =
    IsFresh after
    × (live_count after.papers ≡ (
        if is_some p.credit
        then 0
        else if p.invoice
        then live_count b.papers + 1
        else live_count b.papers))
    × (has_receipt after.papers ≡ has_receipt b.papers || p.receipt)
    × (after.ledger ≡ b.ledger)

issue_ledger :
    (g : Bool) (k : DocumentKind) (o : Option ℕ) (b : Books) → (issue g k o b).ledger ≡ b.ledger
unfolding issue
issue_ledger false k o b = refl
issue_ledger true k o b = refl

issue_planned-none :
    (p : BooksPlan) (live : Option Paper) (b : Books)
    → is_some p.credit ≡ false
    → issue_planned p live b ≡ issue p.receipt receipt none (issue p.invoice invoice none b)
unfolding issue_planned issue
issue_planned-none p live b e = rw e refl

issue_planned-some :
    (p : BooksPlan) (d : Paper) (b : Books)
    → is_some p.credit ≡ true
    → p.invoice ≡ false
    → p.receipt ≡ false
    → issue_planned p (some d) b ≡ issue true credit_note (some d.id) b
unfolding issue_planned issue
issue_planned-some p d b c i r = rw c (rw i (rw r refl))

pub issue_planned-rows :
    (p : BooksPlan) (live : Option Paper) (b : Books)
    → is_some p.credit ≡ false
    → IsFresh b
    → Written p b (issue_planned p live b)
issue_planned-rows p live b e h =
    let (h1, n1, r1) = issue-invoice p.invoice b h in
    let (h2, n2, r2) = issue-receipt p.receipt (issue p.invoice invoice none b) h1 in
    rw (issue_planned-none p live b e) (
      h2,
      rw e (n2 ∙ n1),
      rw r2 (rw r1 refl),
      issue_ledger p.receipt receipt none (issue p.invoice invoice none b)
          ∙ issue_ledger p.invoice invoice none b,
    )

pub issue_planned-credit :
    (p : BooksPlan) (d : Paper) (b : Books)
    → is_some p.credit ≡ true
    → p.invoice ≡ false
    → p.receipt ≡ false
    → IsFresh b
    → live_count b.papers ≤ 1
    → live_invoice_of b.papers ≡ some d
    → Written p b (issue_planned p (some d) b)
unfolding live_invoice_of
issue_planned-credit p d b c i r h one e =
    let (n, t) = issue-credit_note b d h one e in
    let older = All-find (λ x. x.id < b.next) (is_live_invoice b.papers) b.papers d h.0 e in
    rw (issue_planned-some p d b c i r) (
      issue-IsFresh credit_note (some d.id) b (λ k q. ground (arith, older)) h,
      rw c n,
      rw t (rw r (ground arith)),
      issue_ledger true credit_note (some d.id) b,
    )
