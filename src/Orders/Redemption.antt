-- ===== src/Orders/Redemption.antt =====
-- backend/src/modules/orders/promotions/application/coupon-lookup.service.ts: what a coupon was used
-- for. The rows stand newest first; a row is found by its order, as the unique key of the table has it.
use brothers_book_house.Base.{
  Bool, Bool-cases, List, Option, [], any, arith, false, find, if◌then◌else◌, inl, inr, is_some,
  none, not, refl, some, sum_by, sym, true, ℕ, ◌&&◌, ◌+◌, ◌-◌, ◌==◌, ◌∷◌, ◌≡◌, ◌≤◌,
}
use brothers_book_house.Base.Outcome.{Outcome, fail, ok, ok-inj}
use brothers_book_house.Money.{Money}

pub record Redemption : Type 0 where
  pub coupon_id : ℕ
  pub order_id : ℕ
  pub customer_id : ℕ
  pub discount : Money
  pub revoked_at : Option ℕ

pub record Coupons : Type 0 where
  pub redemptions : List Redemption
  pub used_count : ℕ → ℕ

abbrev pub of_order : ℕ → Redemption → Bool
of_order order r = r.order_id == order

abbrev pub is_live_use : ℕ → Redemption → Bool
is_live_use coupon r = r.coupon_id == coupon && not (is_some r.revoked_at)

-- `update({ where: { id } })` of the row that was found
unfoldable pub update_first {ℓ} : {A : Type ℓ} → (A → Bool) → (A → A) → List A → List A
update_first p f [] = []
update_first p f (x ∷ xs) = let rest = update_first p f xs in if p x then f x ∷ xs else x ∷ rest

abbrev pub with_used : ℕ → (ℕ → ℕ) → (ℕ → ℕ) → ℕ → ℕ
with_used coupon f used c = if c == coupon then f (used c) else used c

-- A second row of an order breaks the unique key.
unfoldable pub redeem : Redemption → Coupons → Outcome Coupons
redeem r cs =
    if any (of_order r.order_id) cs.redemptions
    then fail "redemption_exists"
    else ok (record {
      redemptions = record r { revoked_at = none } ∷ cs.redemptions;
      used_count = with_used r.coupon_id (λ n. n + 1) cs.used_count;
    })

abbrev pub set_revoked : ℕ → Option ℕ → Redemption → (ℕ → ℕ) → Coupons → Coupons
set_revoked order at r f cs = record {
  redemptions = update_first (of_order order) (λ r. record r { revoked_at = at }) cs.redemptions;
  used_count = with_used r.coupon_id f cs.used_count;
}

unfoldable pub revoke_row : ℕ → ℕ → Option Redemption → Coupons → Coupons × Bool
unfolding update_first
revoke_row order now none cs = (cs, false)
revoke_row order now (some r) cs =
    if is_some r.revoked_at
    then (cs, false)
    else (set_revoked order (some now) r (λ n. n - 1) cs, true)

unfoldable pub revoke : ℕ → ℕ → Coupons → Coupons × Bool
unfolding revoke_row
revoke order now cs = revoke_row order now (find (of_order order) cs.redemptions) cs

unfoldable pub restore_row : ℕ → Option Redemption → Coupons → Coupons × Bool
unfolding update_first
restore_row order none cs = (cs, false)
restore_row order (some r) cs =
    if not (is_some r.revoked_at)
    then (cs, false)
    else (set_revoked order none r (λ n. n + 1) cs, true)

unfoldable pub restore : ℕ → Coupons → Coupons × Bool
unfolding restore_row
restore order cs = restore_row order (find (of_order order) cs.redemptions) cs

-- How often a coupon is used, by the rows.
abbrev pub live_uses : ℕ → List Redemption → ℕ
live_uses coupon rs = sum_by (λ r. if is_live_use coupon r then 1 else 0) rs

-- `used_count` is the number of the rows that are not revoked.
abbrev pub IsCounted : Coupons → Type 0
IsCounted cs = (coupon : ℕ) → cs.used_count coupon ≡ live_uses coupon cs.redemptions

-- The row of an order changes, and no other.
live_uses-update_first :
    (coupon order : ℕ) (at : Option ℕ) (r : Redemption) (rs : List Redemption)
    → find (of_order order) rs ≡ some r
    → live_uses coupon (update_first (of_order order) (λ x. record x { revoked_at = at }) rs)
        + (if is_live_use coupon r then 1 else 0)
      ≡ live_uses coupon rs + (if r.coupon_id == coupon && not (is_some at) then 1 else 0)
unfolding update_first
live_uses-update_first coupon order at r [] h = ground arith
live_uses-update_first coupon order at r (x ∷ xs) h = elim (Bool-cases (of_order order x)) [
  | inl t ↦ let same : x ≡ r = ground arith in rw t (rw same (ground arith))
  | inr t ↦ rw t (ground (arith, live_uses-update_first coupon order at r xs (rw t at h)))
]

found-le-live_uses :
    (coupon order : ℕ) (r : Redemption) (rs : List Redemption)
    → find (of_order order) rs ≡ some r
    → (if is_live_use coupon r then 1 else 0) ≤ live_uses coupon rs
found-le-live_uses coupon order r [] h = ground arith
found-le-live_uses coupon order r (x ∷ xs) h = elim (Bool-cases (of_order order x)) [
  | inl t ↦ let same : x ≡ r = ground arith in rw same (omega arith)
  | inr t ↦ ground (arith, found-le-live_uses coupon order r xs (rw t at h))
]

find-update_first :
    (order : ℕ) (at : Option ℕ) (r : Redemption) (rs : List Redemption)
    → find (of_order order) rs ≡ some r
    → find (of_order order) (update_first (of_order order) (λ x. record x { revoked_at = at }) rs)
      ≡ some (record r { revoked_at = at })
unfolding update_first
find-update_first order at r [] h = ground arith
find-update_first order at r (x ∷ xs) h = elim (Bool-cases (of_order order x)) [
  | inl t ↦ let same : x ≡ r = ground arith in rw t (rw t (rw same refl))
  | inr t ↦ rw t (rw t (find-update_first order at r xs (rw t at h)))
]

revoke_row-IsCounted :
    (order now : ℕ) (o : Option Redemption) (cs : Coupons)
    → find (of_order order) cs.redemptions ≡ o
    → IsCounted cs
    → IsCounted (revoke_row order now o cs).0
unfolding revoke_row
revoke_row-IsCounted order now none cs e k = k
revoke_row-IsCounted order now (some r) cs e k = elim (Bool-cases (is_some r.revoked_at)) [
  | inl t ↦ rw t k
  | inr t ↦ rw t λ coupon. ground (
    arith,
    k coupon,
    live_uses-update_first coupon order (some now) r cs.redemptions e,
    found-le-live_uses coupon order r cs.redemptions e,
  )
]

restore_row-IsCounted :
    (order : ℕ) (o : Option Redemption) (cs : Coupons)
    → find (of_order order) cs.redemptions ≡ o
    → IsCounted cs
    → IsCounted (restore_row order o cs).0
unfolding restore_row
restore_row-IsCounted order none cs e k = k
restore_row-IsCounted order (some r) cs e k = elim (Bool-cases (is_some r.revoked_at)) [
  | inl t ↦ rw t λ coupon.
      ground (arith, k coupon, live_uses-update_first coupon order none r cs.redemptions e)
  | inr t ↦ rw t k
]

revoke_row_again :
    (order now later : ℕ) (o : Option Redemption) (cs : Coupons)
    → find (of_order order) cs.redemptions ≡ o
    → let after = (revoke_row order now o cs).0 in revoke order later after ≡ (after, false)
unfolding revoke_row revoke
revoke_row_again order now later none cs e = rw e refl
revoke_row_again order now later (some r) cs e = elim (Bool-cases (is_some r.revoked_at)) [
  | inl t ↦ rw t (rw e (rw t refl))
  | inr t ↦ rw t (rw (find-update_first order (some now) r cs.redemptions e) refl)
]

restore_row_again :
    (order : ℕ) (o : Option Redemption) (cs : Coupons)
    → find (of_order order) cs.redemptions ≡ o
    → let after = (restore_row order o cs).0 in restore order after ≡ (after, false)
unfolding restore_row restore
restore_row_again order none cs e = rw e refl
restore_row_again order (some r) cs e = elim (Bool-cases (is_some r.revoked_at)) [
  | inl t ↦ rw t (rw (find-update_first order none r cs.redemptions e) refl)
  | inr t ↦ rw t (rw e (rw t refl))
]

redeem-IsCounted :
    (r : Redemption) (cs redeemed : Coupons)
    → redeem r cs ≡ ok redeemed
    → IsCounted cs
    → IsCounted redeemed
unfolding redeem
redeem-IsCounted r cs redeemed h k coupon =
    elim (Bool-cases (any (of_order r.order_id) cs.redemptions)) [
      | inl t ↦ cc (rw t at h)
      | inr t ↦ rw (sym (ok-inj (rw t at h))) (ground (arith, k coupon))
    ]

-- The count of a coupon's uses is the number of its rows that are not revoked, after a redemption, a
-- revocation and a restoring as before it; and both of the latter, done again, change nothing.
pub used_count-IsCounted :
    (r : Redemption) (order now later : ℕ) (cs redeemed : Coupons)
    → IsCounted cs
    → (redeem r cs ≡ ok redeemed → IsCounted redeemed)
      × IsCounted (revoke order now cs).0
      × IsCounted (restore order cs).0
      × (revoke order later (revoke order now cs).0 ≡ ((revoke order now cs).0, false))
      × (restore order (restore order cs).0 ≡ ((restore order cs).0, false))
unfolding revoke restore
used_count-IsCounted r order now later cs redeemed k =
    let row = find (of_order order) cs.redemptions in
    (
      λ h. redeem-IsCounted r cs redeemed h k,
      revoke_row-IsCounted order now row cs refl k,
      restore_row-IsCounted order row cs refl k,
      revoke_row_again order now later row cs refl,
      restore_row_again order row cs refl,
    )
