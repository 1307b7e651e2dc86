-- ===== src/Finance/Profit/Cancels.antt =====
-- A credit note takes back what its invoice brought in: the net of a statement, paper by paper.
use brothers_book_house.Finance.Profit.Sums.{net_sum}
use brothers_book_house.Base.{
  Bool, Bool-cases, List, [], ap, false, if◌then◌else◌, inl, inr, refl, sum_by, true, ℕ, ◌++◌, ◌+◌,
  ◌∙◌, ◌∷◌, ◌≡◌,
}
use brothers_book_house.Base.Int.{int_laws, pos, pos_part, ℤ, ◌+ℤ◌, ◌-ℤ◌}
use brothers_book_house.Money.{Money}
use brothers_book_house.Finance.Documents.{DocumentKind, has_receipt, is_invoice}
use brothers_book_house.Finance.Profit.{
  Pnl, PnlDoc, add_doc, add_doc_as, add_money, add_paper, count_paper, credit_for, empty_pnl,
  gross_of, is_known, line_cogs, line_sales, net_of, or_zero, pnl_for, pnl_from, times_sign,
}

-- What a paper with a full snapshot of costs adds to the net.
abbrev pub known_net : Bool → PnlDoc → ℤ
known_net true d =
    pos (d.discount + sum_by line_cogs d.lines + d.gateway_fee)
    +ℤ (if d.reverse_courier then pos d.shipping_cost else pos 0)
    -ℤ pos (sum_by line_sales d.lines + d.shipping_fee + or_zero d.courier_loss)
known_net false d =
    pos (sum_by line_sales d.lines + d.shipping_fee)
    -ℤ pos (d.discount + sum_by line_cogs d.lines + d.shipping_cost + d.gateway_fee)

unfoldable pub paper_net : Bool → PnlDoc → ℤ
paper_net c d = if is_known d.lines then known_net c d else pos 0

abbrev pub net_as : DocumentKind → PnlDoc → ℤ
net_as DocumentKind.receipt d = pos 0
net_as DocumentKind.credit_note d = paper_net true d
net_as DocumentKind.invoice d = paper_net false d

abbrev pub doc_net : PnlDoc → ℤ
doc_net d = net_as d.kind d

note_adds :
    (d : PnlDoc) (out : Pnl)
    → net_of (add_money true d (count_paper true out)) ≡ net_of out +ℤ known_net true d
unfolding net_of gross_of add_money times_sign
note_adds d out = elim (Bool-cases d.reverse_courier) [
  | inl r ↦ rw r (grind int_laws)
  | inr r ↦ rw r (grind int_laws)
]

invoice_adds :
    (d : PnlDoc) (out : Pnl)
    → net_of (add_money false d (count_paper false out)) ≡ net_of out +ℤ known_net false d
unfolding net_of gross_of add_money times_sign
invoice_adds d out = grind int_laws

-- Only the figures matter for the net, not the counters.
net_of-skip :
    (n c s : ℕ) (out : Pnl)
    → net_of (record out { invoices = n; credits = c; skipped = s }) ≡ net_of out
unfolding net_of gross_of
net_of-skip n c s out = refl

net_of-add_paper :
    (c : Bool) (d : PnlDoc) (out : Pnl) → net_of (add_paper c d out) ≡ net_of out +ℤ paper_net c d
unfolding add_paper paper_net
net_of-add_paper true d out = elim (Bool-cases (is_known d.lines)) [
  | inl e ↦ rw e (note_adds d out)
  | inr e ↦ rw e (net_of-skip out.invoices (out.credits + 1) (out.skipped + 1) out ∙ grind int_laws)
]
net_of-add_paper false d out = elim (Bool-cases (is_known d.lines)) [
  | inl e ↦ rw e (invoice_adds d out)
  | inr e ↦ rw e (net_of-skip (out.invoices + 1) out.credits (out.skipped + 1) out ∙ grind int_laws)
]

net_of-add_doc_as :
    (k : DocumentKind) (d : PnlDoc) (out : Pnl)
    → net_of (add_doc_as k d out) ≡ net_of out +ℤ net_as k d
net_of-add_doc_as DocumentKind.receipt d out = grind int_laws
net_of-add_doc_as DocumentKind.credit_note d out = net_of-add_paper true d out
net_of-add_doc_as DocumentKind.invoice d out = net_of-add_paper false d out

net_of-pnl_from :
    (docs : List PnlDoc) (out : Pnl)
    → net_of (pnl_from out docs) ≡ net_of out +ℤ net_sum doc_net docs
unfolding pnl_from
net_of-pnl_from [] out = grind int_laws
net_of-pnl_from (d ∷ ds) out =
    grind (int_laws, net_of-pnl_from ds (add_doc d out), net_of-add_doc_as d.kind d out)

net_sum-append {ℓ} :
    {A : Type ℓ} (f : A → ℤ) (xs ys : List A) → net_sum f (xs ++ ys) ≡ net_sum f xs +ℤ net_sum f ys
net_sum-append f [] ys = grind int_laws
net_sum-append f (x ∷ xs) ys = grind (int_laws, net_sum-append f xs ys)

-- The net of a statement is what its papers add, so that periods add up.
net_of-pnl_for : (docs : List PnlDoc) → net_of (pnl_for docs) ≡ net_sum doc_net docs
unfolding pnl_for net_of gross_of
net_of-pnl_for docs = net_of-pnl_from docs empty_pnl ∙ grind int_laws

-- What an invoice leaves behind when it is credited.
unfoldable pub left_behind : Bool → Bool → ℤ → PnlDoc → Money
left_behind has_receipt reverse loss inv =
    (if has_receipt then 0 else inv.gateway_fee)
    + (if reverse then 0 else inv.shipping_cost)
    + pos_part loss

note_net :
    (has_receipt reverse : Bool) (loss : ℤ) (inv : PnlDoc)
    → doc_net (credit_for has_receipt reverse loss inv)
      ≡ paper_net true (credit_for has_receipt reverse loss inv)
unfolding credit_for
note_net has_receipt reverse loss inv = refl

credited_net :
    (has_receipt reverse : Bool) (loss : ℤ) (inv : PnlDoc)
    → is_known inv.lines ≡ true
    → paper_net false inv +ℤ paper_net true (credit_for has_receipt reverse loss inv)
      ≡ pos 0 -ℤ pos (left_behind has_receipt reverse loss inv)
unfolding paper_net credit_for left_behind
credited_net true true loss inv e = rw e (grind int_laws)
credited_net true false loss inv e = rw e (grind int_laws)
credited_net false true loss inv e = rw e (grind int_laws)
credited_net false false loss inv e = rw e (grind int_laws)

-- An invoice with a full snapshot of its costs and the credit note that is issued against it, wherever
-- they stand among the papers of the period, leave no profit: the net is that of the other papers,
-- less the gateway's fee when there was no receipt, the courier's charge when it is not taken back, and
-- the loss that was reported.
pub credit_for_cancels :
    (has_receipt reverse : Bool) (loss : ℤ) (inv : PnlDoc) (before between after : List PnlDoc)
    → inv.kind ≡ DocumentKind.invoice
    → is_known inv.lines ≡ true
    → net_of
        (pnl_for (before ++ (inv ∷ (between ++ (credit_for has_receipt reverse loss inv ∷ after)))))
      ≡ net_of (pnl_for (before ++ (between ++ after)))
        -ℤ pos (left_behind has_receipt reverse loss inv)
credit_for_cancels has_receipt reverse loss inv before between after k e =
    let note : PnlDoc = credit_for has_receipt reverse loss inv in
    let billed : doc_net inv ≡ paper_net false inv = ap (λ (x : DocumentKind). net_as x inv) k in
    grind (
      int_laws,
      net_of-pnl_for (before ++ (inv ∷ (between ++ (note ∷ after)))),
      net_of-pnl_for (before ++ (between ++ after)),
      net_sum-append doc_net before (inv ∷ (between ++ (note ∷ after))),
      net_sum-append doc_net between (note ∷ after),
      net_sum-append doc_net before (between ++ after),
      net_sum-append doc_net between after,
      is_invoice,
      note_net has_receipt reverse loss inv,
      credited_net has_receipt reverse loss inv e,
    )
