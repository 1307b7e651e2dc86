-- ===== src/Finance/Profit.antt =====
-- backend/src/modules/finance/reports/domain/pnl.ts: the statement of profit and loss, the table of
-- categories and what is owed to the courier, all computed from the accounting papers. Amounts are
-- in paisa and signed where a credit note subtracts. The view objects, which print the same figures,
-- are left out.
pub mod Sums
pub mod Statement
pub mod Cancels
use brothers_book_house.Base.{
  Bool, List, Option, [], every, false, if◌then◌else◌, is_empty, is_some, keep, map, none, not,
  some, sort_by, sum_by, true, ℕ, ◌&&◌, ◌*◌, ◌+◌, ◌||◌, ◌∷◌,
}
use brothers_book_house.Base.Int.{is_zero, ltb_ℤ, pos, pos_part, ℤ, ◌+ℤ◌, ◌-ℤ◌}
use brothers_book_house.Base.Text.{Text}
use brothers_book_house.Money.{Decimal, Money}
use brothers_book_house.Money.Allocate.{allocate}
use brothers_book_house.Orders.Lines.{LineKind, is_bundle}
use brothers_book_house.Finance.Documents.{DocumentKind, has_receipt}
use brothers_book_house.Finance.Cash.Postings.{same_text}

pub record DocComponent : Type 0 where
  pub category_name : Option Text
  pub qty : ℕ
  pub unit_cost : Option Money
  pub allocated_revenue : Money

pub record DocLine : Type 0 where
  pub kind : LineKind
  pub category_name : Option Text
  pub qty : ℕ
  pub unit_price : Money
  pub unit_cost : Option Money
  pub components : Option (List DocComponent)

pub record PnlDoc : Type 0 where
  pub kind : DocumentKind
  pub lines : List DocLine
  pub discount : Money
  pub shipping_fee : Money
  pub shipping_cost : Money
  pub gateway_fee : Money
  pub courier_loss : Option Money
  pub reverse_courier : Bool

pub record Pnl : Type 0 where
  pub sales : ℤ
  pub coupon : ℤ
  pub cogs : ℤ
  pub ship_in : ℤ
  pub courier : ℤ
  pub gateway_fee : ℤ
  pub courier_loss : Money
  pub invoices : ℕ
  pub credits : ℕ
  pub skipped : ℕ

abbrev pub empty_pnl : Pnl
empty_pnl = record {
  sales = pos 0;
  coupon = pos 0;
  cogs = pos 0;
  ship_in = pos 0;
  courier = pos 0;
  gateway_fee = pos 0;
  courier_loss = 0;
  invoices = 0;
  credits = 0;
  skipped = 0;
}

-- `D(v)` of a value that may be missing
abbrev pub or_zero : Option Money → Money
or_zero none = 0
or_zero (some m) = m

-- `x.times(sign)`, the sign that of a credit note or not
unfoldable pub times_sign : Bool → ℕ → ℤ
times_sign false n = pos n
times_sign true n = pos 0 -ℤ pos n

abbrev pub line_sales : DocLine → Money
line_sales l = l.unit_price * l.qty

abbrev pub line_cogs : DocLine → Money
line_cogs l = or_zero l.unit_cost * l.qty

-- `lineMoney(lines).known`
unfoldable pub is_known : List DocLine → Bool
is_known lines = not (is_empty lines) && every (λ l. is_some l.unit_cost) lines

unfoldable pub add_money : Bool → PnlDoc → Pnl → Pnl
add_money credit doc out = record out {
  sales = out.sales +ℤ times_sign credit (sum_by line_sales doc.lines);
  coupon = out.coupon +ℤ times_sign credit doc.discount;
  cogs = out.cogs +ℤ times_sign credit (sum_by line_cogs doc.lines);
  ship_in = out.ship_in +ℤ times_sign credit doc.shipping_fee;
  gateway_fee = out.gateway_fee +ℤ times_sign credit doc.gateway_fee;
  courier =
      if not credit
      then out.courier +ℤ pos doc.shipping_cost
      else if doc.reverse_courier
      then out.courier -ℤ pos doc.shipping_cost
      else out.courier;
  courier_loss = if credit then out.courier_loss + or_zero doc.courier_loss else out.courier_loss;
}

-- the counters of papers
abbrev pub count_paper : Bool → Pnl → Pnl
count_paper true out = record out { credits = out.credits + 1 }
count_paper false out = record out { invoices = out.invoices + 1 }

unfoldable pub add_paper : Bool → PnlDoc → Pnl → Pnl
unfolding is_known
add_paper credit doc out =
    let counted = count_paper credit out in
    if is_known doc.lines
    then add_money credit doc counted
    else record counted { skipped = counted.skipped + 1 }

abbrev pub add_doc_as : DocumentKind → PnlDoc → Pnl → Pnl
add_doc_as DocumentKind.receipt doc out = out
add_doc_as DocumentKind.credit_note doc out = add_paper true doc out
add_doc_as DocumentKind.invoice doc out = add_paper false doc out

-- the body of the loop over the papers
abbrev pub add_doc : PnlDoc → Pnl → Pnl
add_doc doc out = add_doc_as doc.kind doc out

-- the loop, from what is counted so far
unfoldable pub pnl_from : Pnl → List PnlDoc → Pnl
pnl_from out [] = out
pnl_from out (d ∷ ds) = pnl_from (add_doc d out) ds

unfoldable pub pnl_for : List PnlDoc → Pnl
pnl_for docs = pnl_from empty_pnl docs

unfoldable pub gross_of : Pnl → ℤ
gross_of p = p.sales -ℤ p.coupon -ℤ p.cogs

unfoldable pub net_of : Pnl → ℤ
net_of p = gross_of p +ℤ p.ship_in -ℤ p.courier -ℤ p.gateway_fee -ℤ pos p.courier_loss

pub record CatRow : Type 0 where
  pub category : Text
  pub qty : ℤ
  pub sales : ℤ
  pub cogs : ℤ

abbrev pub other : Text
other = 2437 ∷ 2472 ∷ 2509 ∷ 2479 ∷ 2494 ∷ 2472 ∷ 2509 ∷ 2479 ∷ []

abbrev pub pack : Text
pack = 2474 ∷ 2509 ∷ 2479 ∷ 2494 ∷ 2453 ∷ 2503 ∷ 2460 ∷ []

-- `name || OTHER`
abbrev pub name_or_other : Option Text → Text
name_or_other none = other
name_or_other (some name) = if is_empty name then other else name

-- `add`: the row of the category, at the end when it is new
unfoldable pub add_cat : Text → ℤ → ℤ → ℤ → List CatRow → List CatRow
add_cat cat qty sales cogs [] =
    record { category = cat; qty = qty; sales = sales; cogs = cogs } ∷ []
add_cat cat qty sales cogs (r ∷ rs) =
    let rest = add_cat cat qty sales cogs rs in
    if same_text r.category cat
    then record r { qty = r.qty +ℤ qty; sales = r.sales +ℤ sales; cogs = r.cogs +ℤ cogs } ∷ rs
    else r ∷ rest

-- `comps.forEach`; there is a part for each component
unfoldable pub add_parts : Bool → List DocComponent → List Money → List CatRow → List CatRow
add_parts credit (c ∷ cs) (part ∷ parts) rows = add_parts credit cs parts (
    add_cat (name_or_other c.category_name) (times_sign credit c.qty) (times_sign credit part)
      (times_sign credit (or_zero c.unit_cost * c.qty)) rows)
add_parts credit _ _ rows = rows

abbrev pub components_of : DocLine → List DocComponent
components_of l = elim l.components [ none ↦ [] | some cs ↦ cs ]

-- the row of a line that is not split
abbrev pub add_whole : Bool → Text → DocLine → List CatRow → List CatRow
add_whole credit cat l rows =
    add_cat cat (times_sign credit l.qty) (times_sign credit (line_sales l))
      (times_sign credit (line_cogs l)) rows

module _ ⦃dec : Decimal⦄ where
  abbrev pub add_bundle : Bool → DocLine → List DocComponent → List CatRow → List CatRow
  add_bundle credit l [] rows = add_whole credit pack l rows
  add_bundle credit l (c ∷ cs) rows =
      add_parts credit (c ∷ cs) (allocate (line_sales l) (map (λ k. k.allocated_revenue) (c ∷ cs)))
        rows

  -- the body of the loop over the lines
  unfoldable pub add_doc_line : Bool → DocLine → List CatRow → List CatRow
  add_doc_line credit l rows =
      if is_bundle l.kind
      then add_bundle credit l (components_of l) rows
      else add_whole credit (name_or_other l.category_name) l rows

  unfoldable pub add_doc_lines : Bool → List DocLine → List CatRow → List CatRow
  add_doc_lines credit [] rows = rows
  add_doc_lines credit (l ∷ ls) rows = add_doc_lines credit ls (add_doc_line credit l rows)

  abbrev pub add_doc_lines_as : DocumentKind → List DocLine → List CatRow → List CatRow
  add_doc_lines_as DocumentKind.receipt ls rows = rows
  add_doc_lines_as DocumentKind.credit_note ls rows = add_doc_lines true ls rows
  add_doc_lines_as DocumentKind.invoice ls rows = add_doc_lines false ls rows

  -- the body of the loop over the papers
  abbrev pub add_doc_rows : PnlDoc → List CatRow → List CatRow
  add_doc_rows d rows = add_doc_lines_as d.kind d.lines rows

  unfoldable pub rows_from : List CatRow → List PnlDoc → List CatRow
  rows_from rows [] = rows
  rows_from rows (d ∷ ds) = rows_from (add_doc_rows d rows) ds

  -- the rows that are shown, by their sales, the highest first
  unfoldable pub category_rows : List PnlDoc → List CatRow
  category_rows docs =
      sort_by (λ a b. ltb_ℤ a.sales b.sales)
        (keep (λ r. not (is_zero r.qty) || not (is_zero r.sales)) (rows_from [] docs))

abbrev pub accrue_as : DocumentKind → PnlDoc → ℤ → ℤ
accrue_as DocumentKind.receipt d accrued = accrued
accrue_as DocumentKind.invoice d accrued = accrued +ℤ pos d.shipping_cost
accrue_as DocumentKind.credit_note d accrued =
    if d.reverse_courier then accrued -ℤ pos d.shipping_cost else accrued

-- the body of the loop of courierDue
abbrev pub accrue : PnlDoc → ℤ → ℤ
accrue d accrued = accrue_as d.kind d accrued

-- the loop, from what is accrued so far
unfoldable pub accrued_from : ℤ → List PnlDoc → ℤ
accrued_from accrued [] = accrued
accrued_from accrued (d ∷ ds) = accrued_from (accrue d accrued) ds

-- `due.isNegative() ? ZERO : due`
unfoldable pub courier_due : List PnlDoc → Money → Money
courier_due docs paid = pos_part (accrued_from (pos 0) docs -ℤ pos paid)

-- the paper that syncIn issues against an invoice
unfoldable pub credit_for : Bool → Bool → ℤ → PnlDoc → PnlDoc
credit_for has_receipt reverse loss inv = record inv {
  kind = DocumentKind.credit_note;
  gateway_fee = if has_receipt then inv.gateway_fee else 0;
  courier_loss = some (pos_part loss);
  reverse_courier = reverse;
}
