-- ===== src/Tests/Papers.antt =====
-- A bundle that is sold with the receipt of another order, and its credit note.
use brothers_book_house.Money.Rounding.{paisa_decimal}
use brothers_book_house.Base.{
  List, [], false, insert_by, map, none, refl, some, sort_by, true, ◌∷◌, ◌≡◌,
}
use brothers_book_house.Base.Int.{pos, pos_part, ◌+ℤ◌, ◌-ℤ◌}
use brothers_book_house.Orders.Lines.{LineKind}
use brothers_book_house.Finance.Documents.{DocumentKind}
use brothers_book_house.Finance.Profit.{
  DocComponent, PnlDoc, accrued_from, add_cat, add_doc_line, add_doc_lines, add_money, add_paper,
  category_rows, courier_due, credit_for, is_known, net_of, pnl_for, pnl_from, rows_from,
  times_sign,
}
use brothers_book_house.Finance.Profit.Sums.{sales_of}
use brothers_book_house.Finance.Profit.Statement.{statement_agrees}
use brothers_book_house.Finance.Profit.Cancels.{credit_for_cancels, left_behind}

abbrev two_books : List DocComponent
two_books =
    record {
      category_name = some (65 ∷ []);
      qty = 2;
      unit_cost = some 3_000;
      allocated_revenue = 8_000;
    }
    ∷ record { category_name = none; qty = 2; unit_cost = some 1_000; allocated_revenue = 2_001 }
    ∷ []

abbrev bundle_paper : PnlDoc
bundle_paper = record {
  kind = DocumentKind.invoice;
  lines =
      record {
        kind = LineKind.bundle_line;
        category_name = none;
        qty = 2;
        unit_price = 5_000;
        unit_cost = some 4_000;
        components = some two_books;
      }
      ∷ [];
  discount = 500;
  shipping_fee = 6_000;
  shipping_cost = 7_000;
  gateway_fee = 200;
  courier_loss = none;
  reverse_courier = false;
}

abbrev single_paper : PnlDoc
single_paper = record bundle_paper {
  lines =
      record {
        kind = LineKind.product_line;
        category_name = some (65 ∷ []);
        qty = 3;
        unit_price = 20_000;
        unit_cost = some 12_000;
        components = none;
      }
      ∷ [];
}

abbrev receipt_paper : PnlDoc
receipt_paper = record bundle_paper { kind = DocumentKind.receipt }

abbrev papers : List PnlDoc
papers = bundle_paper ∷ receipt_paper ∷ single_paper ∷ []

none_skipped : (pnl_for papers).skipped ≡ 0
unfolding pnl_for pnl_from add_paper add_money is_known times_sign
none_skipped = refl

statement_agrees_example :
    (sales_of (category_rows papers) ≡ (pnl_for papers).sales)
    × (courier_due papers 5_000 ≡ pos_part ((pnl_for papers).courier -ℤ pos 5_000))
statement_agrees_example = statement_agrees papers 5_000 none_skipped

due_to_courier : courier_due papers 5_000 ≡ 9_000
unfolding courier_due accrued_from ◌-ℤ◌ ◌+ℤ◌
due_to_courier = refl

costs_known : is_known bundle_paper.lines ≡ true
unfolding is_known
costs_known = refl

credit_for_cancels_example :
    net_of (
      pnl_for (
        single_paper
        ∷ bundle_paper
        ∷ receipt_paper
        ∷ credit_for true false (pos 900) bundle_paper
        ∷ []))
    ≡ net_of (pnl_for (single_paper ∷ receipt_paper ∷ []))
      -ℤ pos (left_behind true false (pos 900) bundle_paper)
credit_for_cancels_example =
    credit_for_cancels true false (pos 900) bundle_paper (single_paper ∷ []) (receipt_paper ∷ []) []
      refl costs_known

-- The cost of the line is not known: the statement leaves the paper out, and the table shows it.
abbrev unknown_cost : PnlDoc
unknown_cost = record bundle_paper {
  lines =
      record {
        kind = LineKind.product_line;
        category_name = none;
        qty = 1;
        unit_price = 9_000;
        unit_cost = none;
        components = none;
      }
      ∷ [];
}

left_out_of_statement : (pnl_for (unknown_cost ∷ [])).sales ≡ pos 0
unfolding pnl_for pnl_from add_paper is_known
left_out_of_statement = refl

shown_in_table : map (λ r. r.sales) (category_rows (unknown_cost ∷ [])) ≡ pos 9_000 ∷ []
unfolding category_rows rows_from add_doc_lines add_doc_line add_cat times_sign sort_by insert_by
shown_in_table = refl
