-- ===== src/Finance/Purchases.antt =====
-- backend/src/modules/finance/purchasing/domain/purchase-math.ts: bills of suppliers. Costs are in
-- paisa, so `round2` of a cost is the cost.
use brothers_book_house.Base.{
  All, Bool-cases, List, [], arith, false, if◌then◌else◌, inl, inr, leb, ltb, map, sum_by, true, ℕ,
  ◌*◌, ◌+◌, ◌-◌, ◌<◌, ◌==◌, ◌↔◌, ◌∷◌, ◌≡◌, ◌≢◌, ◌≤◌,
}
use brothers_book_house.Base.Outcome.{Outcome, fail, is_ok, ok}
use brothers_book_house.Money.{Money}

pub record PurchaseLineInput : Type 0 where
  pub product_id : ℕ
  pub quantity : ℕ
  pub unit_cost : Money

pub record PricedPurchaseLine : Type 0 where
  pub product_id : ℕ
  pub quantity : ℕ
  pub unit_cost : Money
  pub line_total : Money

pub record PurchaseTotals : Type 0 where
  pub lines : List PricedPurchaseLine
  pub subtotal : Money
  pub other_charges : Money
  pub total : Money

abbrev priced : PurchaseLineInput → PricedPurchaseLine
priced l = record {
  product_id = l.product_id;
  quantity = l.quantity;
  unit_cost = l.unit_cost;
  line_total = l.unit_cost * l.quantity;
}

unfoldable pub purchase_totals : List PurchaseLineInput → Money → PurchaseTotals
purchase_totals lines charges =
    let all_priced = map priced lines in
    let subtotal = sum_by (λ l. l.line_total) all_priced in
    record {
      lines = all_priced;
      subtotal = subtotal;
      other_charges = charges;
      total = subtotal + charges;
    }

-- `map.set(...)` for one line, in the order of insertion
pub merge_line : PurchaseLineInput → List PurchaseLineInput → List PurchaseLineInput
merge_line l [] = l ∷ []
merge_line l (m ∷ ms) =
    let rest = merge_line l ms in
    if m.product_id == l.product_id
    then record {
      product_id = l.product_id;
      quantity = m.quantity + l.quantity;
      unit_cost = l.unit_cost;
    }
      ∷ ms
    else m ∷ rest

pub merge_from : List PurchaseLineInput → List PurchaseLineInput → List PurchaseLineInput
unfolding merge_line
merge_from merged [] = merged
merge_from merged (l ∷ ls) = merge_from (merge_line l merged) ls

unfoldable pub merge_lines : List PurchaseLineInput → List PurchaseLineInput
unfolding merge_from
merge_lines lines = merge_from [] lines

pub data SettlementStatus : Type 0 where
  unpaid partial paid : SettlementStatus

unfoldable pub settlement_status : Money → Money → SettlementStatus
settlement_status total amount =
    if leb amount 0 then unpaid else if leb total amount then paid else partial

unfoldable pub outstanding : Money → Money → Money
outstanding total amount = if ltb total amount then 0 else total - amount

unfoldable pub check_payment : Money → Money → Money → Outcome (Unit {0})
unfolding outstanding
check_payment total amount_paid amount =
    let due = outstanding total amount_paid in
    if leb amount 0
    then fail "purchase.payment_invalid"
    else if due == 0
    then fail "purchase.already_paid"
    else if ltb due amount
    then fail "purchase.overpayment"
    else ok tt

-- A payment is accepted exactly when it is positive and does not exceed what is owed; the bill is then
-- paid up exactly when nothing is owed any more, and no further payment is accepted on such a bill.
pub check_payment_iff :
    (total amount_paid amount : Money)
    → ((is_ok (check_payment total amount_paid amount) ≡ true)
        ↔ ((0 < amount) × (amount_paid + amount ≤ total)))
      × (is_ok (check_payment total amount_paid amount) ≡ true
          → (settlement_status total (amount_paid + amount) ≡ paid)
            ↔ (outstanding total (amount_paid + amount) ≡ 0))
      × (settlement_status total amount_paid ≡ paid
          → is_ok (check_payment total amount_paid amount) ≡ false)
unfolding check_payment settlement_status
check_payment_iff total amount_paid amount = (
  (λ h. (ground arith, ground arith), λ (p, q). ground arith),
  λ h. (λ e. ground arith, λ e. ground arith),
  λ e. ground arith,
)

-- The quantity of a product on a bill.
abbrev pub quantity_of : ℕ → List PurchaseLineInput → ℕ
quantity_of p ls = sum_by (λ l. if l.product_id == p then l.quantity else 0) ls

abbrev pub IsMerged : List PurchaseLineInput → Type 0
IsMerged [] = Unit
IsMerged (l ∷ ls) = All (λ m. l.product_id ≢ m.product_id) ls × IsMerged ls

quantity_of-merge_line :
    (p : ℕ) (l : PurchaseLineInput) (ms : List PurchaseLineInput)
    → quantity_of p (merge_line l ms) ≡ quantity_of p ms + quantity_of p (l ∷ [])
unfolding merge_line
quantity_of-merge_line p l [] = ground arith
quantity_of-merge_line p l (m ∷ ms) = ground (arith, quantity_of-merge_line p l ms)

quantity_of-merge_from :
    (p : ℕ) (ms ls : List PurchaseLineInput)
    → quantity_of p (merge_from ms ls) ≡ quantity_of p ms + quantity_of p ls
unfolding merge_from
quantity_of-merge_from p ms [] = omega arith
quantity_of-merge_from p ms (l ∷ ls) =
    omega (arith, quantity_of-merge_from p (merge_line l ms) ls, quantity_of-merge_line p l ms)

All-merge_line :
    (p : ℕ) (l : PurchaseLineInput) (ms : List PurchaseLineInput)
    → p ≢ l.product_id
    → All (λ m. p ≢ m.product_id) ms
    → All (λ m. p ≢ m.product_id) (merge_line l ms)
unfolding merge_line
All-merge_line p l [] n a = (n, tt)
All-merge_line p l (m ∷ ms) n a = elim (Bool-cases (m.product_id == l.product_id)) [
  | inl e ↦ rw e (n, a.1)
  | inr e ↦ rw e (a.0, All-merge_line p l ms n a.1)
]

All-moved :
    (p q : ℕ) (ms : List PurchaseLineInput)
    → p ≡ q
    → All (λ m. p ≢ m.product_id) ms
    → All (λ m. q ≢ m.product_id) ms
All-moved p q ms e a = rw (← e) a

merge_line-IsMerged :
    (l : PurchaseLineInput) (ms : List PurchaseLineInput) → IsMerged ms → IsMerged (merge_line l ms)
unfolding merge_line
merge_line-IsMerged l [] h = (tt, tt)
merge_line-IsMerged l (m ∷ ms) h = elim (Bool-cases (m.product_id == l.product_id)) [
  | inl e ↦ rw e (All-moved m.product_id l.product_id ms (ground arith) h.0, h.1)
  | inr e ↦ rw e (All-merge_line m.product_id l ms (ground arith) h.0, merge_line-IsMerged l ms h.1)
]

merge_from-IsMerged : (ms ls : List PurchaseLineInput) → IsMerged ms → IsMerged (merge_from ms ls)
unfolding merge_from
merge_from-IsMerged ms [] h = h
merge_from-IsMerged ms (l ∷ ls) h =
    merge_from-IsMerged (merge_line l ms) ls (merge_line-IsMerged l ms h)

-- Merged lines name each product once, and hold of each product what the given lines hold.
merge_lines_lem :
    (ls : List PurchaseLineInput)
    → IsMerged (merge_lines ls) × ((p : ℕ) → quantity_of p (merge_lines ls) ≡ quantity_of p ls)
unfolding merge_lines
merge_lines_lem ls =
    (merge_from-IsMerged [] ls tt, λ p. omega (arith, quantity_of-merge_from p [] ls))
