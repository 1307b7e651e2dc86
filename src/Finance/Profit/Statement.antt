-- ===== src/Finance/Profit/Statement.antt =====
-- The statement of profit and loss against the table of categories and the courier's account.
use brothers_book_house.Base.{Bool, List, [], ap, arith, false, refl, sym, true, ◌∙◌, ◌∷◌, ◌≡◌, ◌≤◌}
use brothers_book_house.Base.Int.{int_laws, pos, pos_part, ℤ, ◌+ℤ◌, ◌-ℤ◌}
use brothers_book_house.Money.{Decimal, Money}
use brothers_book_house.Finance.Documents.{DocumentKind}
use brothers_book_house.Finance.Profit.{
  Pnl, PnlDoc, accrue_as, accrued_from, add_doc, add_doc_as, add_money, add_paper, category_rows,
  courier_due, empty_pnl, pnl_for, pnl_from,
}
use brothers_book_house.Finance.Profit.Sums.{
  doc_sales, net_sum, sales_as, sales_of, sales_of-category_rows,
}

skipped-add_paper : (c : Bool) (d : PnlDoc) (out : Pnl) → out.skipped ≤ (add_paper c d out).skipped
unfolding add_paper add_money
skipped-add_paper true d out = ground arith
skipped-add_paper false d out = ground arith

skipped-add_doc_as :
    (k : DocumentKind) (d : PnlDoc) (out : Pnl) → out.skipped ≤ (add_doc_as k d out).skipped
skipped-add_doc_as DocumentKind.receipt d out = omega arith
skipped-add_doc_as DocumentKind.credit_note d out = skipped-add_paper true d out
skipped-add_doc_as DocumentKind.invoice d out = skipped-add_paper false d out

skipped-pnl_from : (docs : List PnlDoc) (out : Pnl) → out.skipped ≤ (pnl_from out docs).skipped
unfolding pnl_from
skipped-pnl_from [] out = omega arith
skipped-pnl_from (d ∷ ds) out =
    omega (arith, skipped-pnl_from ds (add_doc d out), skipped-add_doc_as d.kind d out)

-- A paper that is not skipped counts with its sales, and with what the courier takes for it.
counted_sales :
    (k : DocumentKind) (d : PnlDoc) (out : Pnl)
    → (add_doc_as k d out).skipped ≤ out.skipped
    → (add_doc_as k d out).sales ≡ out.sales +ℤ sales_as k d.lines
unfolding add_paper add_money
counted_sales DocumentKind.receipt d out h = grind int_laws
counted_sales DocumentKind.credit_note d out h = ground arith
counted_sales DocumentKind.invoice d out h = ground arith

counted_courier :
    (k : DocumentKind) (d : PnlDoc) (out : Pnl)
    → (add_doc_as k d out).skipped ≤ out.skipped
    → (add_doc_as k d out).courier ≡ accrue_as k d out.courier
unfolding add_paper add_money
counted_courier DocumentKind.receipt d out h = refl
counted_courier DocumentKind.credit_note d out h = ground arith
counted_courier DocumentKind.invoice d out h = ground arith

all_counted :
    (docs : List PnlDoc) (out : Pnl)
    → (pnl_from out docs).skipped ≤ out.skipped
    → ((pnl_from out docs).sales ≡ out.sales +ℤ net_sum doc_sales docs)
      × ((pnl_from out docs).courier ≡ accrued_from out.courier docs)
unfolding pnl_from accrued_from
all_counted [] out h = (grind int_laws, refl)
all_counted (d ∷ ds) out h =
    let next : Pnl = add_doc d out in
    let here : next.skipped ≤ out.skipped = omega (arith, skipped-pnl_from ds next, h) in
    let rest = all_counted ds next (omega (arith, skipped-add_doc_as d.kind d out, h)) in
    (
      grind (int_laws, rest.0, counted_sales d.kind d out here),
      rest.1 ∙ ap (λ (x : ℤ). accrued_from x ds) (counted_courier d.kind d out here),
    )

-- When no paper is skipped, the statement, the table and the courier's account agree: the rows of the
-- table sell what the statement sells, and what is due to the courier is what the statement charges
-- for deliveries, less what is paid, or nothing when that is negative.
pub statement_agrees :
    ⦃dec : Decimal⦄ (docs : List PnlDoc) (paid : Money)
    → (pnl_for docs).skipped ≡ 0
    → (sales_of (category_rows docs) ≡ (pnl_for docs).sales)
      × (courier_due docs paid ≡ pos_part ((pnl_for docs).courier -ℤ pos paid))
unfolding pnl_for courier_due
statement_agrees docs paid h =
    let sums = all_counted docs empty_pnl (omega (arith, h)) in
    (
      grind (int_laws, sums.0, sales_of-category_rows docs),
      ap (λ (x : ℤ). pos_part (x -ℤ pos paid)) (sym sums.1),
    )
