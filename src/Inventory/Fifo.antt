-- ===== src/Inventory/Fifo.antt =====
-- backend/src/modules/inventory/inventory.service.ts, consume: batches are used up oldest first.
use mathlib.Core.List.{Perm}
use brothers_book_house.Base.{
  All, All-insert_by, Bool-cases, List, Perm-sort_by, [], ap, arith, false, if◌then◌else◌, inl, inr,
  insert_by, map, refl, subst, sum_by, sum_by-sort_by, sym, true, zip_with, ℕ, ◌+◌, ◌-◌, ◌<◌, ◌==◌,
  ◌∙◌, ◌∷◌, ◌≡◌, ◌≢◌, ◌⊎◌,
}
use brothers_book_house.Inventory.{Lot}
use brothers_book_house.Inventory.Lots.{comes_later, is_open, oldest_first, take_lots, take_oldest}
use brothers_book_house.Money.{min}

-- The copies of a product that the batches know of.
abbrev pub left_of : ℕ → List Lot → ℕ
left_of id lots = sum_by (λ l. if l.product_id == id then l.qty_left else 0) lots

-- Once a batch of the product keeps a copy, no later batch was touched.
abbrev pub IsOldestFirst : ℕ → List Lot → List Lot → Type 0
IsOldestFirst id (l ∷ ls) (m ∷ ms) = (is_open id m ≡ true → ms ≡ ls) × IsOldestFirst id ls ms
IsOldestFirst id [] ms = Unit
IsOldestFirst id (l ∷ ls) [] = ⊥

-- What is taken of one batch.
abbrev taken_of : ℕ → ℕ → Lot → ℕ
taken_of id need l = if is_open id l then min need l.qty_left else 0

same_left : (l : Lot) (n : ℕ) → n ≡ l.qty_left → record l { qty_left = n } ≡ l
same_left l n e = rw e refl

take_lots-used :
    (id need : ℕ) (lots : List Lot)
    → let t = take_lots id need lots in sum_by (λ u. u.qty) t.used + t.need ≡ need
unfolding take_lots
take_lots-used id need [] = omega arith
take_lots-used id need (l ∷ ls) =
    ground (arith, take_lots-used id (need - (if is_open id l then min need l.qty_left else 0)) ls)

take_lots-left :
    (id need : ℕ) (lots : List Lot)
    → let t = take_lots id need lots in
      (left_of id t.lots + need ≡ left_of id lots + t.need) × (0 < t.need → left_of id t.lots ≡ 0)
unfolding take_lots
take_lots-left id need [] = ground arith
take_lots-left id need (l ∷ ls) =
    ground (arith, take_lots-left id (need - (if is_open id l then min need l.qty_left else 0)) ls)

take_lots-others :
    (id need : ℕ) (lots : List Lot) (q : ℕ)
    → q ≢ id
    → left_of q (take_lots id need lots).lots ≡ left_of q lots
unfolding take_lots
take_lots-others id need [] q n = refl
take_lots-others id need (l ∷ ls) q n =
    ground
      (arith, take_lots-others id (need - (if is_open id l then min need l.qty_left else 0)) ls q)

-- With nothing to take, nothing is touched.
take_lots_zero : (id : ℕ) (lots : List Lot) → (take_lots id 0 lots).lots ≡ lots
unfolding take_lots
take_lots_zero id [] = refl
take_lots_zero id (l ∷ ls) =
    let none_ : taken_of id 0 l ≡ 0 = ground arith in
    rw none_ (
      rw (take_lots_zero id ls)
        (ap (λ (m : Lot). m ∷ ls) (same_left l (l.qty_left - 0) (omega arith))))

take_lots-IsOldestFirst :
    (id need : ℕ) (lots : List Lot) → IsOldestFirst id lots (take_lots id need lots).lots
unfolding take_lots
take_lots-IsOldestFirst id need [] = tt
take_lots-IsOldestFirst id need (l ∷ ls) = (
  λ open_.
      let all_ : need - taken_of id need l ≡ 0 = ground arith in rw all_ (take_lots_zero id ls),
  take_lots-IsOldestFirst id (need - taken_of id need l) ls,
)

-- A batch was received before another, or at the same time and entered before it.
abbrev pub IsOlder : Lot → Lot → Type 0
IsOlder a b = (a.received_at < b.received_at) ⊎ ((a.received_at ≡ b.received_at) × (a.id < b.id))

IsOlder-comes_later : (a b : Lot) → IsOlder a b → comes_later b a ≡ true
IsOlder-comes_later a b (inl h) = ground (arith, h)
IsOlder-comes_later a b (inr h) = ground (arith, h)

comes_later_turned : (a b : Lot) → comes_later a b ≡ true → comes_later b a ≡ false
comes_later_turned a b h = ground (arith, h)

comes_later_trans :
    (a b c : Lot) → comes_later a b ≡ false → comes_later b c ≡ false → comes_later a c ≡ false
comes_later_trans a b c h g = ground (arith, h, g)

-- Each batch stands after none that follows.
abbrev IsSorted : List Lot → Type 0
IsSorted [] = Unit
IsSorted (l ∷ ls) = All (λ k. comes_later l k ≡ false) ls × IsSorted ls

All-follow :
    (a b : Lot) (ls : List Lot)
    → comes_later a b ≡ false
    → All (λ k. comes_later b k ≡ false) ls
    → All (λ k. comes_later a k ≡ false) ls
All-follow a b [] h ps = tt
All-follow a b (l ∷ ls) h ps = (comes_later_trans a b l h ps.0, All-follow a b ls h ps.1)

insert_by-IsSorted : (a : Lot) (ls : List Lot) → IsSorted ls → IsSorted (insert_by comes_later a ls)
unfolding insert_by
insert_by-IsSorted a [] k = (tt, tt)
insert_by-IsSorted a (l ∷ ls) k = elim (Bool-cases (comes_later a l)) [
  | inl t ↦ rw t (
    All-insert_by comes_later (λ x. comes_later l x ≡ false) a ls (comes_later_turned a l t) k.0,
    insert_by-IsSorted a ls k.1,
  )
  | inr t ↦ rw t ((t, All-follow a l ls t k.0), k)
]

oldest_first-IsSorted : (ls : List Lot) → IsSorted (oldest_first ls)
unfolding oldest_first
oldest_first-IsSorted [] = tt
oldest_first-IsSorted (l ∷ ls) = insert_by-IsSorted l (oldest_first ls) (oldest_first-IsSorted ls)

-- A batch before and after.
abbrev pub Batch : Type 0
Batch = Lot × Lot

-- As long as a batch of the product keeps a copy, none that it is older than is touched.
abbrev pub IsFifo : ℕ → List Batch → Type 0
IsFifo id bs = All (λ a. All (λ b. is_open id a.1 ≡ true → IsOlder a.0 b.0 → b.1 ≡ b.0) bs) bs

-- Only the copies that are left change.
abbrev pub IsSameBatch : Batch → Type 0
IsSameBatch b = b.1 ≡ record b.0 { qty_left = b.1.qty_left }

abbrev pairs : List Lot → List Lot → List Batch
pairs ls ms = zip_with (λ (l m : Lot). (l, m)) ls ms

All-both : (P Q : Batch → Type 0) (bs : List Batch) → All P bs → All Q bs → All (λ b. P b × Q b) bs
All-both P Q [] ps qs = tt
All-both P Q (b ∷ bs) ps qs = ((ps.0, qs.0), All-both P Q bs ps.1 qs.1)

later_untouched :
    (P : Type 0) (l : Lot) (ls ms : List Lot)
    → (P → ms ≡ ls)
    → All (λ b. P → IsOlder l b.0 → b.1 ≡ b.0) (pairs ls ms)
later_untouched P l [] ms h = tt
later_untouched P l (k ∷ ks) [] h = tt
later_untouched P l (k ∷ ks) (m ∷ ms) h =
    (λ p older. let same = h p in cc, later_untouched P l ks ms (λ p. let same = h p in cc))

rest_untouched :
    (id : ℕ) (l m : Lot) (ls ms : List Lot)
    → All (λ k. comes_later l k ≡ false) ls
    → All (λ a. is_open id a.1 ≡ true → IsOlder a.0 l → m ≡ l) (pairs ls ms)
rest_untouched id l m [] ms h = tt
rest_untouched id l m (k ∷ ks) [] h = tt
rest_untouched id l m (k ∷ ks) (n ∷ ns) h = (
  λ open_ older. absurd (ground (arith, IsOlder-comes_later k l older, h.0)),
  rest_untouched id l m ks ns h.1,
)

pairs-IsFifo :
    (id : ℕ) (ls ms : List Lot) → IsSorted ls → IsOldestFirst id ls ms → IsFifo id (pairs ls ms)
pairs-IsFifo id [] ms s k = tt
pairs-IsFifo id (l ∷ ls) [] s k = tt
pairs-IsFifo id (l ∷ ls) (m ∷ ms) s k =
    let own : is_open id m ≡ true → IsOlder l l → m ≡ l = λ open_ older.
      absurd (ground (arith, IsOlder-comes_later l l older, comes_later_turned l l)) in
    (
      (own, later_untouched (is_open id m ≡ true) l ls ms k.0),
      All-both (λ a. is_open id a.1 ≡ true → IsOlder a.0 l → m ≡ l)
          (λ a. All (λ b. is_open id a.1 ≡ true → IsOlder a.0 b.0 → b.1 ≡ b.0) (pairs ls ms))
          (pairs ls ms) (rest_untouched id l m ls ms s.0) (pairs-IsFifo id ls ms s.1 k.1),
    )

take_lots-pairs :
    (id need : ℕ) (ls : List Lot)
    → let ms = (take_lots id need ls).lots in
      (map (λ b. b.0) (pairs ls ms) ≡ ls)
      × (map (λ b. b.1) (pairs ls ms) ≡ ms)
      × All IsSameBatch (pairs ls ms)
unfolding take_lots
take_lots-pairs id need [] = (refl, refl, tt)
take_lots-pairs id need (l ∷ ls) =
    let (olds, news, same) = take_lots-pairs id (need - taken_of id need l) ls in
    (
      ap (λ (x : List Lot). l ∷ x) olds,
      ap (λ (x : List Lot). record l { qty_left = l.qty_left - taken_of id need l } ∷ x) news,
      (refl, same),
    )

left_of-oldest_first : (q : ℕ) (lots : List Lot) → left_of q (oldest_first lots) ≡ left_of q lots
unfolding oldest_first
left_of-oldest_first q lots =
    sum_by-sort_by comes_later (λ l. if l.product_id == q then l.qty_left else 0) lots

-- Taking some copies of a product from its batches: what was used and what could not be covered make up
-- what was asked for; the batches hold as many copies less as were used; only once they are empty is
-- something not covered; the batches of other products keep theirs. The batches after it are those before
-- it, up to their order, with other numbers of copies left; and as long as a batch of the product keeps a
-- copy, no batch is touched that was received later, or at the same time and entered later.
pub take_oldest_lem :
    (id need : ℕ) (lots : List Lot)
    → let t = take_oldest id need lots in
      (sum_by (λ u. u.qty) t.used + t.need ≡ need)
      × (left_of id t.lots + need ≡ left_of id lots + t.need)
      × (0 < t.need → left_of id t.lots ≡ 0)
      × ((q : ℕ) → q ≢ id → left_of q t.lots ≡ left_of q lots)
      × (bs : List Batch) × Perm (map (λ b. b.0) bs) lots
      × (map (λ b. b.1) bs ≡ t.lots)
      × All IsSameBatch bs
      × IsFifo id bs
unfolding take_oldest
take_oldest_lem id need lots =
    let ls = oldest_first lots in
    let ms = (take_lots id need ls).lots in
    let (olds, news, same) = take_lots-pairs id need ls in
    let (left, all_gone) = take_lots-left id need ls in
    (
      take_lots-used id need ls,
      rw (left_of-oldest_first id lots) at left,
      all_gone,
      λ q other. take_lots-others id need ls q other ∙ left_of-oldest_first q lots,
      pairs ls ms,
      subst (λ (x : List Lot). Perm x lots) (sym olds) (Perm-sort_by comes_later lots),
      news,
      same,
      pairs-IsFifo id ls ms (oldest_first-IsSorted lots) (take_lots-IsOldestFirst id need ls),
    )
