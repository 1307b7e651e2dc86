-- ===== src/Inventory/Refines.antt =====
-- backend/src/modules/inventory/inventory.service.ts: the methods on many rows are one change to each
-- product of the shelf.
use brothers_book_house.Base.{
  ==_iff, Bool-cases, List, Option, [], ap, arith, false, inl, inr, map_option, none, refl, some,
  sym, true, ℕ, ◌+◌, ◌-◌, ◌==◌, ◌∙◌, ◌∷◌, ◌≡◌, ◌≤◌,
}
use brothers_book_house.Base.Int.{pos, ℤ}
use brothers_book_house.Base.Outcome.{>>=-eq-ok, Outcome, ok, ok-inj}
use brothers_book_house.Inventory.{
  LowStockHit, Product, Stock, StockContext, StockLine, each_line, merge,
}
use brothers_book_house.Inventory.Lines.{units_for, units_of, units_of-merge}
use brothers_book_house.Inventory.Shelf.{Item, Wrote, item_of, shelf}
use brothers_book_house.Inventory.Rows.{
  brought, fulfill_row-Writes, fulfill_row_ne, held, release_row-Writes, reserve_row-Writes,
  reserve_row_ne, restock_row-Writes, sent, unheld,
}
use brothers_book_house.Inventory.Steps.{
  fulfill, fulfill_row, minus, release, release_row, reserve, reserve_row, restock_lines,
  restock_row,
}
use brothers_book_house.Money.{Decimal}

-- The four changes, each by a number of units.
abbrev pub hold : ℕ → Item → Item
hold n i = record i { reserved = i.reserved + n }

abbrev pub unhold : ℕ → Item → Item
unhold n i = record i { reserved = i.reserved - n }

abbrev pub send : ℕ → Item → Item
send n i = record i { on_hand = i.on_hand - n; reserved = i.reserved - n }

abbrev pub bring : ℕ → Item → Item
bring n i = record i { on_hand = i.on_hand + n }

-- Changes by no units and by units one after the other.
pub record Adds (c : ℕ → Item → Item) : Type 0 where
  pub by_zero : (i : Item) → c 0 i ≡ i
  pub by_sum : (m n : ℕ) (i : Item) → c n (c m i) ≡ c (m + n) i

hold-Adds : Adds hold
hold-Adds = record { by_zero = λ i. ground arith; by_sum = λ m n i. ground arith }

unhold-Adds : Adds unhold
unhold-Adds = record { by_zero = λ i. ground arith; by_sum = λ m n i. ground arith }

send-Adds : Adds send
send-Adds = record { by_zero = λ i. ground arith; by_sum = λ m n i. ground arith }

bring-Adds : Adds bring
bring-Adds = record { by_zero = λ i. ground arith; by_sum = λ m n i. ground arith }

module _ (c : ℕ → Item → Item) (adds : Adds c) where
  change_none : (o : Option Item) → map_option (c 0) o ≡ o
  change_none none = refl
  change_none (some i) = ap some (adds.by_zero i)

  change_sum :
      (m n : ℕ) (o : Option Item) → map_option (c n) (map_option (c m) o) ≡ map_option (c (m + n)) o
  change_sum m n none = refl
  change_sum m n (some i) = ap some (adds.by_sum m n i)

  -- A row changes its product and no other.
  row_change :
      (s s' : Stock) (l : StockLine) (p p' : Product) (d : ℤ) (id : ℕ)
      → s.products l.product_id ≡ some p
      → item_of p' ≡ c l.qty (item_of p)
      → Wrote s l.product_id p' d s'
      → shelf s' id ≡ map_option (c (units_for id l)) (shelf s id)
  row_change s s' l p p' d id e i w = elim (Bool-cases (id == l.product_id)) [
    | inl t ↦
        let at : id ≡ l.product_id = (==_iff id l.product_id).0 t in
        let yes_ : l.product_id == id ≡ true = ground arith in
        rw (w.0 id) (rw t (rw yes_ (rw at (rw e (ap some i)))))
    | inr t ↦
        let no_ : l.product_id == id ≡ false = ground arith in
        rw (w.0 id) (rw t (rw no_ (sym (change_none (shelf s id)))))
  ]

  absent_change :
      (s : Stock) (l : StockLine) (id : ℕ)
      → s.products l.product_id ≡ none
      → shelf s id ≡ map_option (c (units_for id l)) (shelf s id)
  absent_change s l id e = elim (Bool-cases (l.product_id == id)) [
    | inl t ↦ rw t (rw (sym ((==_iff l.product_id id).0 t)) (rw e refl))
    | inr t ↦ rw t (sym (change_none (shelf s id)))
  ]

  rows_change {ℓ} :
      {S : Type ℓ} (view : S → Option Item) (step : StockLine → S → Outcome S) (id : ℕ)
      → ((l : StockLine) (s s' : S)
          → step l s ≡ ok s'
          → view s' ≡ map_option (c (units_for id l)) (view s))
      → (ls : List StockLine) (s s' : S) → each_line step ls s ≡ ok s'
      → view s' ≡ map_option (c (units_of id ls)) (view s)
  unfolding each_line
  rows_change view step id k [] s s' h =
      let same : s ≡ s' = ok-inj h in rw (sym same) (sym (change_none (view s)))
  rows_change view step id k (l ∷ ls) s s' h =
      let (t, e, rest) = >>=-eq-ok (step l s) (each_line step ls) s' h in
      rows_change view step id k ls t s' rest
      ∙ ap (map_option (c (units_of id ls))) (k l s t e)
      ∙ change_sum (units_for id l) (units_of id ls) (view s)

  -- The loop over the rows of some lines changes each product by all its units.
  lines_change {ℓ} :
      {S : Type ℓ} (view : S → Option Item) (step : StockLine → S → Outcome S) (id : ℕ)
      (lines merged : List StockLine) (s s' : S)
      → ((l : StockLine) (s s' : S)
          → step l s ≡ ok s'
          → view s' ≡ map_option (c (units_for id l)) (view s))
      → merge lines ≡ ok merged
      → each_line step merged s ≡ ok s'
      → view s' ≡ map_option (c (units_of id lines)) (view s)
  lines_change view step id lines merged s s' k m h =
      rw (sym (units_of-merge id lines merged m)) (rows_change view step id k merged s s' h)

reserve_row_change :
    (ctx : StockContext) (l : StockLine) (s s' : Stock) (o : Option Product) (id : ℕ)
    → s.products l.product_id ≡ o
    → reserve_row ctx l s o ≡ ok s'
    → shelf s' id ≡ map_option (hold (units_for id l)) (shelf s id)
reserve_row_change ctx l s s' none id e h = absurd (reserve_row_ne ctx l s s' h)
reserve_row_change ctx l s s' (some p) id e h =
    row_change hold hold-Adds s s' l p (held l p) (pos 0) id e refl
      (reserve_row-Writes ctx l s s' p h).1.1

pub reserve_change :
    (lines : List StockLine) (ctx : StockContext) (s s' : Stock) (id : ℕ)
    → reserve lines ctx s ≡ ok s'
    → shelf s' id ≡ map_option (hold (units_of id lines)) (shelf s id)
unfolding reserve
reserve_change lines ctx s s' id h =
    let step : StockLine → Stock → Outcome Stock =
      λ l s. reserve_row ctx l s (s.products l.product_id) in
    let (merged, m, run) = >>=-eq-ok (merge lines) (λ merged. each_line step merged s) s' h in
    lines_change hold hold-Adds (λ (t : Stock). shelf t id) step id lines merged s s'
      (λ l t t' e. reserve_row_change ctx l t t' (t.products l.product_id) id refl e) m run

release_row_change :
    (ctx : StockContext) (l : StockLine) (s s' : Stock) (o : Option Product) (id : ℕ)
    → s.products l.product_id ≡ o
    → release_row ctx l s o ≡ ok s'
    → shelf s' id ≡ map_option (unhold (units_for id l)) (shelf s id)
unfolding release_row
release_row_change ctx l s s' none id e h =
    rw (sym (ok-inj h)) (absent_change unhold unhold-Adds s l id e)
release_row_change ctx l s s' (some p) id e h =
    row_change unhold unhold-Adds s s' l p (unheld l p) (pos 0) id e refl
      (release_row-Writes ctx l s s' p h).1

pub release_change :
    (lines : List StockLine) (ctx : StockContext) (s s' : Stock) (id : ℕ)
    → release lines ctx s ≡ ok s'
    → shelf s' id ≡ map_option (unhold (units_of id lines)) (shelf s id)
unfolding release
release_change lines ctx s s' id h =
    let step : StockLine → Stock → Outcome Stock =
      λ l s. release_row ctx l s (s.products l.product_id) in
    let (merged, m, run) = >>=-eq-ok (merge lines) (λ merged. each_line step merged s) s' h in
    lines_change unhold unhold-Adds (λ (t : Stock). shelf t id) step id lines merged s s'
      (λ l t t' e. release_row_change ctx l t t' (t.products l.product_id) id refl e) m run

module _ ⦃dec : Decimal⦄ where
  restock_row_change :
      (ctx : StockContext) (l : StockLine) (s s' : Stock) (o : Option Product) (id : ℕ)
      → s.products l.product_id ≡ o
      → restock_row ctx l s o ≡ ok s'
      → shelf s' id ≡ map_option (bring (units_for id l)) (shelf s id)
  unfolding restock_row
  restock_row_change ctx l s s' none id e h =
      rw (sym (ok-inj h)) (absent_change bring bring-Adds s l id e)
  restock_row_change ctx l s s' (some p) id e h =
      row_change bring bring-Adds s s' l p (brought l p) (pos l.qty) id e refl
        (restock_row-Writes ctx l s s' p h).1

  pub restock_change :
      (lines : List StockLine) (ctx : StockContext) (s s' : Stock) (id : ℕ)
      → restock_lines lines ctx s ≡ ok s'
      → shelf s' id ≡ map_option (bring (units_of id lines)) (shelf s id)
  unfolding restock_lines
  restock_change lines ctx s s' id h =
      let step : StockLine → Stock → Outcome Stock =
        λ l s. restock_row ctx l s (s.products l.product_id) in
      let (merged, m, run) = >>=-eq-ok (merge lines) (λ merged. each_line step merged s) s' h in
      lines_change bring bring-Adds (λ (t : Stock). shelf t id) step id lines merged s s'
        (λ l t t' e. restock_row_change ctx l t t' (t.products l.product_id) id refl e) m run

  fulfill_row_change :
      (ctx : StockContext) (l : StockLine) (s s' : Stock × List LowStockHit) (o : Option Product)
      (id : ℕ)
      → s.0.products l.product_id ≡ o
      → fulfill_row ctx l s o ≡ ok s'
      → shelf s'.0 id ≡ map_option (send (units_for id l)) (shelf s.0 id)
  fulfill_row_change ctx l s s' none id e h = absurd (fulfill_row_ne ctx l s s' h)
  fulfill_row_change ctx l s s' (some p) id e h =
      row_change send send-Adds s.0 s'.0 l p (sent l p) (minus l.qty) id e refl
        (fulfill_row-Writes ctx l s.0 s'.0 s.1 s'.1 p h).1.1

  pub fulfill_change :
      (lines : List StockLine) (ctx : StockContext) (s s' : Stock) (low : List LowStockHit) (id : ℕ)
      → fulfill lines ctx s ≡ ok (s', low)
      → shelf s' id ≡ map_option (send (units_of id lines)) (shelf s id)
  unfolding fulfill
  fulfill_change lines ctx s s' low id h =
      let step : StockLine → Stock × List LowStockHit → Outcome (Stock × List LowStockHit) =
        λ l r. fulfill_row ctx l r (r.0.products l.product_id) in
      let start : Stock × List LowStockHit = (s, []) in
      let end : Stock × List LowStockHit = (s', low) in
      let (merged, m, run) =
        >>=-eq-ok (merge lines) (λ merged. each_line step merged start) end h in
      lines_change send send-Adds (λ (r : Stock × List LowStockHit). shelf r.0 id) step id lines
        merged start end
        (λ l t t' e. fulfill_row_change ctx l t t' (t.0.products l.product_id) id refl e) m run

-- Each of the four methods, where it succeeds, changes every product of the shelf by the units that the
-- lines ask of it, whatever lines, batches and costs there are: a reservation holds them, a release
-- gives them up, a fulfilment takes them off the shelf and the hold, and a restocking puts them back.
pub shelf-Refines :
    ⦃dec : Decimal⦄ (lines : List StockLine) (ctx : StockContext) (s s' : Stock)
    (low : List LowStockHit) (id : ℕ)
    → let n = units_of id lines in
      (reserve lines ctx s ≡ ok s' → shelf s' id ≡ map_option (hold n) (shelf s id))
      × (release lines ctx s ≡ ok s' → shelf s' id ≡ map_option (unhold n) (shelf s id))
      × (fulfill lines ctx s ≡ ok (s', low) → shelf s' id ≡ map_option (send n) (shelf s id))
      × (restock_lines lines ctx s ≡ ok s' → shelf s' id ≡ map_option (bring n) (shelf s id))
shelf-Refines lines ctx s s' low id = (
  λ h. reserve_change lines ctx s s' id h,
  λ h. release_change lines ctx s s' id h,
  λ h. fulfill_change lines ctx s s' low id h,
  λ h. restock_change lines ctx s s' id h,
)

abbrev pub on_hand_of : Option Item → ℕ
on_hand_of none = 0
on_hand_of (some i) = i.on_hand

module _ ⦃dec : Decimal⦄ where
  fulfill_row_enough :
      (ctx : StockContext) (l : StockLine) (r r' : Stock × List LowStockHit) (o : Option Product)
      (id : ℕ)
      → r.0.products l.product_id ≡ o
      → fulfill_row ctx l r o ≡ ok r'
      → on_hand_of (shelf r.0 id) ≡ on_hand_of (shelf r'.0 id) + units_for id l
  fulfill_row_enough ctx l r r' none id e h = absurd (fulfill_row_ne ctx l r r' h)
  fulfill_row_enough ctx l r r' (some p) id e h =
      let (enough, w) = fulfill_row-Writes ctx l r.0 r'.0 r.1 r'.1 p h in
      elim (Bool-cases (id == l.product_id)) [
        | inl t ↦
            let same : id ≡ l.product_id = (==_iff id l.product_id).0 t in
            let yes_ : l.product_id == id ≡ true = ground arith in
            let had : on_hand_of (shelf r.0 id) ≡ p.stock_on_hand = rw same (rw e refl) in
            rw (w.1.0 id) (rw t (rw yes_ (omega (arith, had))))
        | inr t ↦
            let no_ : l.product_id == id ≡ false = ground arith in
            rw (w.1.0 id) (rw t (rw no_ (omega arith)))
      ]

  fulfill_rows_enough :
      (ctx : StockContext) (ls : List StockLine) (r r' : Stock × List LowStockHit) (id : ℕ)
      → each_line (λ l r. fulfill_row ctx l r (r.0.products l.product_id)) ls r ≡ ok r'
      → on_hand_of (shelf r.0 id) ≡ on_hand_of (shelf r'.0 id) + units_of id ls
  unfolding each_line
  fulfill_rows_enough ctx [] r r' id h = rw (ok-inj h) (omega arith)
  fulfill_rows_enough ctx (l ∷ ls) r r' id h =
      let step : StockLine → Stock × List LowStockHit → Outcome (Stock × List LowStockHit) =
        λ l r. fulfill_row ctx l r (r.0.products l.product_id) in
      let (t, e, rest) = >>=-eq-ok (step l r) (each_line step ls) r' h in
      omega (
        arith,
        fulfill_row_enough ctx l r t (r.0.products l.product_id) id refl e,
        fulfill_rows_enough ctx ls t r' id rest,
      )

  -- What is sent out was on the shelf.
  pub fulfill_enough :
      (lines : List StockLine) (ctx : StockContext) (s s' : Stock) (low : List LowStockHit) (id : ℕ)
      → fulfill lines ctx s ≡ ok (s', low)
      → units_of id lines ≤ on_hand_of (shelf s id)
  unfolding fulfill
  fulfill_enough lines ctx s s' low id h =
      let step : StockLine → Stock × List LowStockHit → Outcome (Stock × List LowStockHit) =
        λ l r. fulfill_row ctx l r (r.0.products l.product_id) in
      let start : Stock × List LowStockHit = (s, []) in
      let end : Stock × List LowStockHit = (s', low) in
      let (merged, m, run) =
        >>=-eq-ok (merge lines) (λ merged. each_line step merged start) end h in
      omega
        (arith, fulfill_rows_enough ctx merged start end id run, units_of-merge id lines merged m)
