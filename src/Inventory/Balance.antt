-- ===== src/Inventory/Balance.antt =====
-- backend/src/modules/inventory/inventory.service.ts: the append-only stock_movements account for the
-- stock on hand.
use brothers_book_house.Base.{
  ==_iff, Bool-cases, List, Option, [], arith, false, get_or, inl, inr, none, refl, some, subst,
  true, ℕ, ◌+◌, ◌==◌, ◌≡◌, ◌≢◌,
}
use brothers_book_house.Base.Int.{neg_part, negsuc, pos, pos_part, sub_ℕ, ℤ}
use brothers_book_house.Base.Outcome.{ok, ok-inj}
use brothers_book_house.Inventory.{
  LotSource, LowStockHit, Product, Stock, StockContext, StockLine, StockMovementType, adjustment,
}
use brothers_book_house.Inventory.Steps.{
  add_batch, add_batch_row, fulfill, fulfill_row, minus, release, release_row, reserve, reserve_row,
  restock_lines, restock_row, set_on_hand, set_on_hand_row,
}
use brothers_book_house.Inventory.Shelf.{Wrote, moved_in, moved_out, shelf}
use brothers_book_house.Inventory.Rows.{
  add_batch_row-Writes, add_batch_row_ne, brought, fulfill_row-Writes, fulfill_row_ne, held,
  release_row-Writes, release_row_absent, reserve_row-Writes, reserve_row_ne, restock_row-Writes,
  restock_row_absent, sent, set_on_hand_row-Writes, set_on_hand_row_ne, set_on_hand_row_same,
  unheld, with_batch,
}
use brothers_book_house.Money.{Decimal, Money}
use brothers_book_house.Inventory.Lines.{lines-keeps}
use brothers_book_house.Inventory.Refines.{on_hand_of}

-- What a product's movements brought in, less what they took out, is what it has on hand.
abbrev pub IsBalanced : ℕ → Stock → Type 0
IsBalanced id s = on_hand_of (shelf s id) + moved_out id s ≡ moved_in id s

Wrote-IsBalanced :
    (s s' : Stock) (at id : ℕ) (p p' : Product) (d : ℤ)
    → s.products at ≡ some p
    → p'.stock_on_hand + neg_part d ≡ p.stock_on_hand + pos_part d
    → Wrote s at p' d s'
    → IsBalanced id s
    → IsBalanced id s'
Wrote-IsBalanced s s' at id p p' d e n w b = elim (Bool-cases (id == at)) [
  | inl t ↦
      let same : id ≡ at = (==_iff id at).0 t in
      let yes_ : at == id ≡ true = ground arith in
      let had : on_hand_of (shelf s id) ≡ p.stock_on_hand = rw same (rw e refl) in
      rw (w.0 id) (rw (w.1 id) (rw (w.2 id) (rw t (rw yes_ (omega (arith, had))))))
  | inr t ↦
      let no_ : at == id ≡ false = ground arith in
      rw (w.0 id) (rw (w.1 id) (rw (w.2 id) (rw t (rw no_ (omega arith)))))
]

reserve_row-IsBalanced :
    (id : ℕ) (ctx : StockContext) (l : StockLine) (s s' : Stock) (o : Option Product)
    → s.products l.product_id ≡ o
    → IsBalanced id s
    → reserve_row ctx l s o ≡ ok s'
    → IsBalanced id s'
reserve_row-IsBalanced id ctx l s s' none e b h = absurd (reserve_row_ne ctx l s s' h)
reserve_row-IsBalanced id ctx l s s' (some p) e b h =
    Wrote-IsBalanced s s' l.product_id id p (held l p) (pos 0) e (omega arith)
      (reserve_row-Writes ctx l s s' p h).1.1 b

release_row-IsBalanced :
    (id : ℕ) (ctx : StockContext) (l : StockLine) (s s' : Stock) (o : Option Product)
    → s.products l.product_id ≡ o
    → IsBalanced id s
    → release_row ctx l s o ≡ ok s'
    → IsBalanced id s'
release_row-IsBalanced id ctx l s s' none e b h =
    subst (IsBalanced id) (ok-inj (rw release_row_absent at h)) b
release_row-IsBalanced id ctx l s s' (some p) e b h =
    Wrote-IsBalanced s s' l.product_id id p (unheld l p) (pos 0) e (omega arith)
      (release_row-Writes ctx l s s' p h).1 b

module _ ⦃dec : Decimal⦄ where
  restock_row-IsBalanced :
      (id : ℕ) (ctx : StockContext) (l : StockLine) (s s' : Stock) (o : Option Product)
      → s.products l.product_id ≡ o
      → IsBalanced id s
      → restock_row ctx l s o ≡ ok s'
      → IsBalanced id s'
  restock_row-IsBalanced id ctx l s s' none e b h =
      subst (IsBalanced id) (ok-inj (rw restock_row_absent at h)) b
  restock_row-IsBalanced id ctx l s s' (some p) e b h =
      Wrote-IsBalanced s s' l.product_id id p (brought l p) (pos l.qty) e (omega arith)
        (restock_row-Writes ctx l s s' p h).1 b

  fulfill_row-IsBalanced :
      (id : ℕ) (ctx : StockContext) (l : StockLine) (s s' : Stock × List LowStockHit)
      (o : Option Product)
      → s.0.products l.product_id ≡ o
      → IsBalanced id s.0
      → fulfill_row ctx l s o ≡ ok s'
      → IsBalanced id s'.0
  fulfill_row-IsBalanced id ctx l s s' none e b h = absurd (fulfill_row_ne ctx l s s' h)
  fulfill_row-IsBalanced id ctx l s s' (some p) e b h =
      let (enough, w) = fulfill_row-Writes ctx l s.0 s'.0 s.1 s'.1 p h in
      Wrote-IsBalanced s.0 s'.0 l.product_id id p (sent l p) (minus l.qty) e (ground arith) w.1 b

  add_batch_row-IsBalanced :
      (id at qty : ℕ) (cost sale : Option Money) (source : LotSource) (received : Option ℕ)
      (ctx : StockContext) (s s' : Stock) (o : Option Product)
      → s.products at ≡ o
      → IsBalanced id s
      → add_batch_row at qty cost sale source received ctx s o ≡ ok s'
      → IsBalanced id s'
  add_batch_row-IsBalanced id at qty cost sale source received ctx s s' none e b h =
      absurd (add_batch_row_ne at qty cost sale source received ctx s s' h)
  add_batch_row-IsBalanced id at qty cost sale source received ctx s s' (some p) e b h =
      Wrote-IsBalanced s s' at id p (with_batch qty p) (pos qty) e (omega arith)
        (add_batch_row-Writes at qty cost sale source received ctx s s' p h).1 b

  set_on_hand_row-IsBalanced :
      (id at on_hand : ℕ) (type : StockMovementType) (ctx : StockContext) (s s' : Stock)
      (o : Option Product)
      → s.products at ≡ o
      → IsBalanced id s
      → set_on_hand_row at on_hand type ctx s o ≡ ok s'
      → IsBalanced id s'
  set_on_hand_row-IsBalanced id at on_hand type ctx s s' none e b h =
      absurd (set_on_hand_row_ne at on_hand type ctx s s' h)
  set_on_hand_row-IsBalanced id at on_hand type ctx s s' (some p) e b h =
      elim (Bool-cases (on_hand == p.stock_on_hand)) [
        | inl t ↦ subst (IsBalanced id) (set_on_hand_row_same at on_hand type ctx s s' p t h) b
        | inr t ↦
            let ne : on_hand ≢ p.stock_on_hand = λ q. ground arith in
            Wrote-IsBalanced s s' at id p (record p { stock_on_hand = on_hand })
              (sub_ℕ on_hand p.stock_on_hand) e (ground arith)
              (set_on_hand_row-Writes at on_hand type ctx s s' p ne h).1.1 b
      ]

-- One call of a method that changes stock, where it succeeds.
pub data Call ⦃dec : Decimal⦄ (s t : Stock) : Type 0 where
  reserves : (lines : List StockLine) (ctx : StockContext) → reserve lines ctx s ≡ ok t → Call s t
  releases : (lines : List StockLine) (ctx : StockContext) → release lines ctx s ≡ ok t → Call s t
  fulfills :
      (lines : List StockLine) (ctx : StockContext) (low : List LowStockHit)
      → fulfill lines ctx s ≡ ok (t, low)
      → Call s t
  restocks :
      (lines : List StockLine) (ctx : StockContext) → restock_lines lines ctx s ≡ ok t → Call s t
  adds_batch :
      (id qty : ℕ) (cost sale : Option Money) (source : LotSource) (received : Option ℕ)
      (ctx : StockContext)
      → add_batch id qty cost sale source received ctx s ≡ ok t
      → Call s t
  counts :
      (id : ℕ) (count : ℤ) (type : Option StockMovementType) (ctx : StockContext)
      → set_on_hand id count type ctx s ≡ ok t
      → Call s t

-- Any calls, one after the other.
pub data Calls ⦃dec : Decimal⦄ (s : Stock) : Stock → Type 0 where
  none_yet : Calls s s
  then_one : {t u : Stock} → Calls s t → Call t u → Calls s u

module _ ⦃dec : Decimal⦄ where
  counts-IsBalanced :
      (id at : ℕ) (count : ℤ) (type : Option StockMovementType) (ctx : StockContext) (s t : Stock)
      → set_on_hand at count type ctx s ≡ ok t
      → IsBalanced id s
      → IsBalanced id t
  unfolding set_on_hand
  counts-IsBalanced id at (negsuc n) type ctx s t h b = cc
  counts-IsBalanced id at (pos n) type ctx s t h b =
      set_on_hand_row-IsBalanced id at n (get_or type adjustment) ctx s t (s.products at) refl b h

  adds-IsBalanced :
      (id at qty : ℕ) (cost sale : Option Money) (source : LotSource) (received : Option ℕ)
      (ctx : StockContext) (s t : Stock)
      → add_batch at qty cost sale source received ctx s ≡ ok t
      → IsBalanced id s
      → IsBalanced id t
  unfolding add_batch
  adds-IsBalanced id at qty cost sale source received ctx s t h b = elim (Bool-cases (qty == 0)) [
    | inl z ↦ cc (rw z at h)
    | inr z ↦
        add_batch_row-IsBalanced id at qty cost sale source received ctx s t (s.products at) refl b
          (rw z at h)
  ]

  Call-IsBalanced : (id : ℕ) (s t : Stock) → Call s t → IsBalanced id s → IsBalanced id t
  unfolding reserve release fulfill restock_lines
  Call-IsBalanced id s t (reserves lines ctx h) b =
      lines-keeps (IsBalanced id) (λ l r. reserve_row ctx l r (r.products l.product_id)) lines s t
        (λ l r r' k e. reserve_row-IsBalanced id ctx l r r' (r.products l.product_id) refl k e) b h
  Call-IsBalanced id s t (releases lines ctx h) b =
      lines-keeps (IsBalanced id) (λ l r. release_row ctx l r (r.products l.product_id)) lines s t
        (λ l r r' k e. release_row-IsBalanced id ctx l r r' (r.products l.product_id) refl k e) b h
  Call-IsBalanced id s t (fulfills lines ctx low h) b =
      lines-keeps (λ (r : Stock × List LowStockHit). IsBalanced id r.0)
        (λ l r. fulfill_row ctx l r (r.0.products l.product_id)) lines (s, []) (t, low)
        (λ l r r' k e. fulfill_row-IsBalanced id ctx l r r' (r.0.products l.product_id) refl k e) b
        h
  Call-IsBalanced id s t (restocks lines ctx h) b =
      lines-keeps (IsBalanced id) (λ l r. restock_row ctx l r (r.products l.product_id)) lines s t
        (λ l r r' k e. restock_row-IsBalanced id ctx l r r' (r.products l.product_id) refl k e) b h
  Call-IsBalanced id s t (adds_batch at qty cost sale source received ctx h) b =
      adds-IsBalanced id at qty cost sale source received ctx s t h b
  Call-IsBalanced id s t (counts at count type ctx h) b =
      counts-IsBalanced id at count type ctx s t h b

-- If the stock on hand of a product is what its movements brought in less what they took out, it is so
-- after any calls of the methods that change stock, in any order.
pub Calls-IsBalanced :
    ⦃dec : Decimal⦄ (id : ℕ) (s t : Stock) → Calls s t → IsBalanced id s → IsBalanced id t
Calls-IsBalanced id s t none_yet b = b
Calls-IsBalanced id s t (then_one {t = mid} calls call) b =
    Call-IsBalanced id mid t call (Calls-IsBalanced id s mid calls b)
