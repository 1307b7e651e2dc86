-- ===== src/Inventory/Undo.antt =====
-- backend/src/modules/inventory/inventory.service.ts: a reservation can be given back.
use brothers_book_house.Base.{
  Bool, Bool-cases, List, Option, [], ap, arith, inl, inr, leb, map_option, none, refl, some, subst,
  sym, true, ℕ, ◌==◌, ◌||◌, ◌∙◌, ◌∷◌, ◌≡◌,
}
use brothers_book_house.Base.Int.{pos, ℤ}
use brothers_book_house.Base.Outcome.{>>=-eq-ok, Outcome, ok}
use brothers_book_house.Inventory.{
  Product, Stock, StockContext, StockLine, each_line, log, merge, order_release, set_product,
}
use brothers_book_house.Inventory.Steps.{minus, release, release_row, reserve, reserve_row}
use brothers_book_house.Inventory.Shelf.{Item, item_of, shelf}
use brothers_book_house.Inventory.Rows.{
  Writes, held, release_row-Writes, release_row_absent, release_row_within, reserve_row-Writes,
  reserve_row_ne, unheld,
}
use brothers_book_house.Inventory.Refines.{hold, release_change, reserve_change, unhold}
use brothers_book_house.Inventory.Lines.{each_line-keeps, units_of}

abbrev pub item_within : Item → Bool
item_within i = i.backorder || leb i.reserved i.on_hand

-- All products meet the CHECK.
abbrev pub IsWithin : Stock → Type 0
IsWithin s = (id : ℕ) (i : Item) → shelf s id ≡ some i → item_within i ≡ true

pub some-inj {ℓ} : {A : Type ℓ} {a b : A} → some a ≡ some b → a ≡ b
some-inj h = cc

Wrote-IsWithin :
    (s s' : Stock) (at : ℕ) (p : Product) (d : ℤ) → Writes s at p d s' → IsWithin s → IsWithin s'
Wrote-IsWithin s s' at p d (checks, w) k id i e = elim (Bool-cases (id == at)) [
  | inl t ↦
      let same : item_of p ≡ i = some-inj (sym (w.0 id ∙ rw t refl) ∙ e) in
      subst (λ (j : Item). item_within j ≡ true) same checks
  | inr t ↦ k id i (sym (w.0 id ∙ rw t refl) ∙ e)
]

reserve_row-IsWithin :
    (ctx : StockContext) (l : StockLine) (s s' : Stock) (o : Option Product)
    → IsWithin s
    → reserve_row ctx l s o ≡ ok s'
    → IsWithin s'
reserve_row-IsWithin ctx l s s' none k h = absurd (reserve_row_ne ctx l s s' h)
reserve_row-IsWithin ctx l s s' (some p) k h =
    Wrote-IsWithin s s' l.product_id (held l p) (pos 0) (reserve_row-Writes ctx l s s' p h).1 k

release_row-total :
    (ctx : StockContext) (l : StockLine) (s : Stock) (o : Option Product)
    → s.products l.product_id ≡ o
    → IsWithin s
    → (s' : Stock) × (release_row ctx l s o ≡ ok s') × IsWithin s'
release_row-total ctx l s none e k = (s, release_row_absent ctx l s, k)
release_row-total ctx l s (some p) e k =
    let had = k l.product_id (item_of p) (rw e refl) in
    let s' =
      log (set_product s l.product_id (unheld l p)) l.product_id (unheld l p) order_release (pos 0)
        (minus l.qty) ctx none in
    let h : release_row ctx l s (some p) ≡ ok s' = release_row_within ctx l s p (ground arith) in
    (
      s',
      h,
      Wrote-IsWithin s s' l.product_id (unheld l p) (pos 0) (release_row-Writes ctx l s s' p h) k,
    )

release_rows-total :
    (ctx : StockContext) (ls : List StockLine) (s : Stock)
    → IsWithin s
    → (s' : Stock) × (each_line (λ l s. release_row ctx l s (s.products l.product_id)) ls s ≡ ok s')
unfolding each_line
release_rows-total ctx [] s k = (s, refl)
release_rows-total ctx (l ∷ ls) s k =
    let (t, e, kt) = release_row-total ctx l s (s.products l.product_id) refl k in
    let (u, f) = release_rows-total ctx ls t kt in (u, rw e f)

undone : (n : ℕ) (o : Option Item) → map_option (unhold n) (map_option (hold n) o) ≡ o
undone n none = refl
undone n (some i) = ap some (ground arith)

-- While all products meet the CHECK, a reservation that succeeded can be released, with any context:
-- the release succeeds, and every product of the shelf is as it was before the reservation.
pub release-reserve :
    (lines : List StockLine) (ctx later : StockContext) (s t : Stock)
    → IsWithin s
    → reserve lines ctx s ≡ ok t
    → (u : Stock) × (release lines later t ≡ ok u) × ((id : ℕ) → shelf u id ≡ shelf s id)
unfolding reserve release
release-reserve lines ctx later s t k h =
    let step : StockLine → Stock → Outcome Stock =
      λ l r. reserve_row ctx l r (r.products l.product_id) in
    let (merged, m, run) = >>=-eq-ok (merge lines) (λ merged. each_line step merged s) t h in
    let kt =
      each_line-keeps IsWithin step
        (λ l r r' kr e. reserve_row-IsWithin ctx l r r' (r.products l.product_id) kr e) merged s t k
        run in
    let (u, e) = release_rows-total later merged t kt in
    let done : release lines later t ≡ ok u = rw m e in
    (
      u,
      done,
      λ id.
          release_change lines later t u id done
          ∙ ap (map_option (unhold (units_of id lines))) (reserve_change lines ctx s t id h)
          ∙ undone (units_of id lines) (shelf s id),
    )
