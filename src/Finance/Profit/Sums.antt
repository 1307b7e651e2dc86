-- ===== src/Finance/Profit/Sums.antt =====
-- What the rows of the table of categories sell in all, while papers are added and when it is shown.
use brothers_book_house.Finance.Documents.{DocumentKind}
use brothers_book_house.Base.{
  Bool, Bool-cases, List, [], ap, arith, false, inl, inr, insert_by, keep, length, length-map, map,
  not, refl, sort_by, sum, sum_by, true, ℕ, ◌*◌, ◌+◌, ◌||◌, ◌∙◌, ◌∷◌, ◌≡◌,
}
use brothers_book_house.Base.Int.{int_laws, is_zero, ltb_ℤ, negsuc, pos, ℤ, ◌+ℤ◌}
use brothers_book_house.Base.Text.{Text}
use brothers_book_house.Finance.Profit.{
  CatRow, DocComponent, DocLine, PnlDoc, add_bundle, add_cat, add_doc_line, add_doc_lines,
  add_doc_lines_as, add_doc_rows, add_parts, category_rows, components_of, line_cogs, line_sales,
  name_or_other, or_zero, pack, rows_from, times_sign,
}
use brothers_book_house.Money.{Decimal, Money}
use brothers_book_house.Money.Allocate.{allocate}
use brothers_book_house.Orders.Lines.{is_bundle}
use brothers_book_house.Money.Allocate.Exact.{length-allocate, sum-allocate}

abbrev pub net_sum {ℓ} : {A : Type ℓ} → (A → ℤ) → List A → ℤ
net_sum f [] = pos 0
net_sum f (x ∷ xs) = f x +ℤ net_sum f xs

module _ {ℓ} {A : Type ℓ} (f : A → ℤ) where
  net_sum-insert_by :
      (after : A → A → Bool) (a : A) (xs : List A)
      → net_sum f (insert_by after a xs) ≡ f a +ℤ net_sum f xs
  unfolding insert_by
  net_sum-insert_by after a [] = refl
  net_sum-insert_by after a (x ∷ xs) = grind (int_laws, net_sum-insert_by after a xs)

  net_sum-sort_by :
      (after : A → A → Bool) (xs : List A) → net_sum f (sort_by after xs) ≡ net_sum f xs
  unfolding sort_by
  net_sum-sort_by after [] = refl
  net_sum-sort_by after (x ∷ xs) =
      net_sum-insert_by after x (sort_by after xs) ∙ ap (λ t. f x +ℤ t) (net_sum-sort_by after xs)

  net_sum-keep :
      (p : A → Bool)
      → ((x : A) → p x ≡ false → f x ≡ pos 0)
      → (xs : List A) → net_sum f (keep p xs) ≡ net_sum f xs
  net_sum-keep p zeros [] = refl
  net_sum-keep p zeros (x ∷ xs) = grind (int_laws, net_sum-keep p zeros xs, zeros x)

times_sign-add : (c : Bool) (a b : ℕ) → times_sign c (a + b) ≡ times_sign c a +ℤ times_sign c b
unfolding times_sign
times_sign-add false a b = grind int_laws
times_sign-add true a b = grind int_laws

times_sign-zero : (c : Bool) → times_sign c 0 ≡ pos 0
unfolding times_sign
times_sign-zero false = refl
times_sign-zero true = grind int_laws

abbrev pub sales_of : List CatRow → ℤ
sales_of rows = net_sum (λ r. r.sales) rows

sales_of-add_cat :
    (cat : Text) (qty sales cogs : ℤ) (rows : List CatRow)
    → sales_of (add_cat cat qty sales cogs rows) ≡ sales_of rows +ℤ sales
unfolding add_cat
sales_of-add_cat cat qty sales cogs [] = grind int_laws
sales_of-add_cat cat qty sales cogs (r ∷ rs) =
    grind (int_laws, sales_of-add_cat cat qty sales cogs rs)

sales_of-add_parts :
    (c : Bool) (cs : List DocComponent) (parts : List Money) (rows : List CatRow)
    → length parts ≡ length cs
    → sales_of (add_parts c cs parts rows) ≡ sales_of rows +ℤ times_sign c (sum parts)
unfolding add_parts
sales_of-add_parts c [] [] rows h = grind (int_laws, times_sign-zero c)
sales_of-add_parts c [] (p ∷ ps) rows h = absurd (omega (arith, h))
sales_of-add_parts c (k ∷ ks) [] rows h = absurd (omega (arith, h))
sales_of-add_parts c (k ∷ ks) (p ∷ ps) rows h =
    let cat = name_or_other k.category_name in
    let qty = times_sign c k.qty in
    let cogs = times_sign c (or_zero k.unit_cost * k.qty) in
    let first = add_cat cat qty (times_sign c p) cogs rows in
    grind (
      int_laws,
      sales_of-add_parts c ks ps first (omega (arith, h)),
      sales_of-add_cat cat qty (times_sign c p) cogs rows,
      times_sign-add c p (sum ps),
    )

-- What a paper sells; a credit note takes it back.
abbrev pub sales_as : DocumentKind → List DocLine → ℤ
sales_as DocumentKind.receipt ls = pos 0
sales_as DocumentKind.credit_note ls = times_sign true (sum_by line_sales ls)
sales_as DocumentKind.invoice ls = times_sign false (sum_by line_sales ls)

abbrev pub doc_sales : PnlDoc → ℤ
doc_sales d = sales_as d.kind d.lines

is_zero-eq : (x : ℤ) → is_zero x ≡ true → x ≡ pos 0
is_zero-eq (pos n) h = ground arith
is_zero-eq (negsuc n) h = cc

-- A row that is not shown sells nothing.
sells_nothing :
    (r : CatRow) → (not (is_zero r.qty) || not (is_zero r.sales)) ≡ false → r.sales ≡ pos 0
sells_nothing r h = is_zero-eq r.sales (ground (arith, h))

module _ ⦃dec : Decimal⦄ where
  sales_of-add_bundle :
      (c : Bool) (l : DocLine) (cs : List DocComponent) (rows : List CatRow)
      → sales_of (add_bundle c l cs rows) ≡ sales_of rows +ℤ times_sign c (line_sales l)
  sales_of-add_bundle c l [] rows =
      sales_of-add_cat pack (times_sign c l.qty) (times_sign c (line_sales l))
        (times_sign c (line_cogs l)) rows
  sales_of-add_bundle c l (k ∷ ks) rows =
      let w = map (λ x. x.allocated_revenue) (k ∷ ks) in
      rw
        (
          sales_of-add_parts c (k ∷ ks) (allocate (line_sales l) w) rows
              (length-allocate (line_sales l) w ∙ length-map (λ x. x.allocated_revenue) (k ∷ ks)),
          sum-allocate (line_sales l) w (λ e. cc),
        )
        refl

  sales_of-add_doc_line :
      (c : Bool) (l : DocLine) (rows : List CatRow)
      → sales_of (add_doc_line c l rows) ≡ sales_of rows +ℤ times_sign c (line_sales l)
  unfolding add_doc_line
  sales_of-add_doc_line c l rows = elim (Bool-cases (is_bundle l.kind)) [
    | inl e ↦ rw e (sales_of-add_bundle c l (components_of l) rows)
    | inr e ↦ rw e (
        sales_of-add_cat (name_or_other l.category_name) (times_sign c l.qty)
          (times_sign c (line_sales l)) (times_sign c (line_cogs l)) rows)
  ]

  sales_of-add_doc_lines :
      (c : Bool) (ls : List DocLine) (rows : List CatRow)
      → sales_of (add_doc_lines c ls rows) ≡ sales_of rows +ℤ times_sign c (sum_by line_sales ls)
  unfolding add_doc_lines
  sales_of-add_doc_lines c [] rows = grind (int_laws, times_sign-zero c)
  sales_of-add_doc_lines c (l ∷ ls) rows = grind (
    int_laws,
    sales_of-add_doc_lines c ls (add_doc_line c l rows),
    sales_of-add_doc_line c l rows,
    times_sign-add c (line_sales l) (sum_by line_sales ls),
  )

  sales_of-add_doc_lines_as :
      (k : DocumentKind) (ls : List DocLine) (rows : List CatRow)
      → sales_of (add_doc_lines_as k ls rows) ≡ sales_of rows +ℤ sales_as k ls
  sales_of-add_doc_lines_as DocumentKind.receipt ls rows = grind int_laws
  sales_of-add_doc_lines_as DocumentKind.credit_note ls rows = sales_of-add_doc_lines true ls rows
  sales_of-add_doc_lines_as DocumentKind.invoice ls rows = sales_of-add_doc_lines false ls rows

  sales_of-rows_from :
      (docs : List PnlDoc) (rows : List CatRow)
      → sales_of (rows_from rows docs) ≡ sales_of rows +ℤ net_sum doc_sales docs
  unfolding rows_from
  sales_of-rows_from [] rows = grind int_laws
  sales_of-rows_from (d ∷ ds) rows = grind (
    int_laws,
    sales_of-rows_from ds (add_doc_rows d rows),
    sales_of-add_doc_lines_as d.kind d.lines rows,
  )

  -- The rows that are shown sell what the papers sell.
  pub sales_of-category_rows :
      (docs : List PnlDoc) → sales_of (category_rows docs) ≡ net_sum doc_sales docs
  unfolding category_rows
  sales_of-category_rows docs =
      net_sum-sort_by (λ r. r.sales) (λ a b. ltb_ℤ a.sales b.sales)
        (keep (λ r. not (is_zero r.qty) || not (is_zero r.sales)) (rows_from [] docs))
      ∙ net_sum-keep (λ r. r.sales) (λ r. not (is_zero r.qty) || not (is_zero r.sales))
          (λ r e. sells_nothing r e) (rows_from [] docs)
      ∙ (rw (sales_of-rows_from docs []) (grind int_laws))
