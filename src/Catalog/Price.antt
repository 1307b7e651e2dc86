-- ===== src/Catalog/Price.antt =====
-- backend/src/modules/catalog/domain/effective-price.ts: the price of a product with its deals.
use brothers_book_house.Base.{
  All, Bool, Bool-cases, List, Option, [], any, arith, false, if◌then◌else◌, inl, inr, is_some,
  keep, leb, ltb, none, not, refl, some, some_and, subst, sym, true, ℕ, ◌&&◌, ◌<◌, ◌==◌, ◌∷◌, ◌≡◌,
  ◌≤◌, ◌⊎◌,
}
use brothers_book_house.Money.{Money}

pub record DealLike : Type 0 where
  pub deal_price : Money
  pub starts_at : ℕ
  pub ends_at : ℕ
  pub cancelled_at : Option ℕ

pub record PricedLike : Type 0 where
  pub price : Money
  pub compare_at_price : Option Money

pub record EffectivePrice : Type 0 where
  pub price : Money
  pub compare_at : Option Money
  pub list_price : Money
  -- the end of the deal
  pub deal : Option ℕ

abbrev pub is_live_deal : PricedLike → ℕ → DealLike → Bool
is_live_deal p now d =
    not (is_some d.cancelled_at)
    && leb d.starts_at now
    && ltb now d.ends_at
    && ltb d.deal_price p.price

abbrev pub cheaper : DealLike → Option DealLike → Option DealLike
cheaper d none = some d
cheaper d (some e) = if ltb e.deal_price d.deal_price then some e else some d

-- the head of the list sorted by price: the first deal that none undercuts
unfoldable pub cheapest : List DealLike → Option DealLike
cheapest [] = none
cheapest (d ∷ ds) = cheaper d (cheapest ds)

unfoldable pub price_with : PricedLike → Option DealLike → EffectivePrice
price_with p (some d) = record {
  price = d.deal_price;
  compare_at = some p.price;
  list_price = p.price;
  deal = some d.ends_at;
}
price_with p none = record {
  price = p.price;
  compare_at =
      if some_and p.compare_at_price (λ c. ltb p.price c) then p.compare_at_price else none;
  list_price = p.price;
  deal = none;
}

unfoldable pub effective_price : PricedLike → List DealLike → ℕ → EffectivePrice
unfolding cheapest price_with
effective_price p deals now = price_with p (cheapest (keep (is_live_deal p now) deals))

-- That a deal is found which costs at most so much.
abbrev at_most : ℕ → Option DealLike → Bool
at_most n o = some_and o (λ c. leb c.deal_price n)

at_most-cheaper :
    (n : ℕ) (d : DealLike) (o : Option DealLike)
    → at_most n o ≡ true
    → at_most n (cheaper d o) ≡ true
at_most-cheaper n d none h = ground arith
at_most-cheaper n d (some e) h = elim (Bool-cases (ltb e.deal_price d.deal_price)) [
  | inl t ↦ rw t h
  | inr t ↦ rw t (ground arith)
]

at_most-cheaper_self :
    (d : DealLike) (o : Option DealLike) → at_most d.deal_price (cheaper d o) ≡ true
at_most-cheaper_self d none = ground arith
at_most-cheaper_self d (some e) = elim (Bool-cases (ltb e.deal_price d.deal_price)) [
  | inl t ↦ rw t (ground arith)
  | inr t ↦ rw t (ground arith)
]

is_some-cheaper : (d : DealLike) (o : Option DealLike) → is_some (cheaper d o) ≡ true
is_some-cheaper d none = refl
is_some-cheaper d (some e) = elim (Bool-cases (ltb e.deal_price d.deal_price)) [
  | inl t ↦ rw t refl
  | inr t ↦ rw t refl
]

some_and-cheaper :
    (f : DealLike → Bool) (d : DealLike) (o : Option DealLike)
    → f d ≡ true
    → (is_some o ≡ true → some_and o f ≡ true)
    → some_and (cheaper d o) f ≡ true
some_and-cheaper f d none h g = h
some_and-cheaper f d (some e) h g = elim (Bool-cases (ltb e.deal_price d.deal_price)) [
  | inl t ↦ rw t (g refl)
  | inr t ↦ rw t h
]

All-at_most :
    (d : DealLike) (o : Option DealLike) (f : DealLike → Bool) (ds : List DealLike)
    → All (λ e. f e ≡ true → at_most e.deal_price o ≡ true) ds
    → All (λ e. f e ≡ true → at_most e.deal_price (cheaper d o) ≡ true) ds
All-at_most d o f [] h = tt
All-at_most d o f (e ∷ es) h =
    (λ t. at_most-cheaper e.deal_price d o (h.0 t), All-at_most d o f es h.1)

cheapest-keep_yes :
    (f : DealLike → Bool) (d : DealLike) (ds : List DealLike)
    → f d ≡ true
    → cheapest (keep f (d ∷ ds)) ≡ cheaper d (cheapest (keep f ds))
unfolding cheapest
cheapest-keep_yes f d ds t = rw t refl

cheapest-keep_no :
    (f : DealLike → Bool) (d : DealLike) (ds : List DealLike)
    → f d ≡ false
    → cheapest (keep f (d ∷ ds)) ≡ cheapest (keep f ds)
cheapest-keep_no f d ds t = rw t refl

cheapest-at_most :
    (f : DealLike → Bool) (ds : List DealLike)
    → All (λ d. f d ≡ true → at_most d.deal_price (cheapest (keep f ds)) ≡ true) ds
cheapest-at_most f [] = tt
cheapest-at_most f (d ∷ ds) =
    let o = cheapest (keep f ds) in
    let motive : Option DealLike → Type 0 =
      λ o. All (λ e. f e ≡ true → at_most e.deal_price o ≡ true) (d ∷ ds) in
    elim (Bool-cases (f d)) [
      | inl t ↦
          subst motive (sym (cheapest-keep_yes f d ds t))
            (λ _. at_most-cheaper_self d o, All-at_most d o f ds (cheapest-at_most f ds))
      | inr t ↦
          subst motive (sym (cheapest-keep_no f d ds t)) (λ e. ground arith, cheapest-at_most f ds)
    ]

is_some-cheapest :
    (f : DealLike → Bool) (ds : List DealLike) → is_some (cheapest (keep f ds)) ≡ any f ds
unfolding cheapest
is_some-cheapest f [] = refl
is_some-cheapest f (d ∷ ds) = elim (Bool-cases (f d)) [
  | inl t ↦ rw t (is_some-cheaper d (cheapest (keep f ds)))
  | inr t ↦ rw t (is_some-cheapest f ds)
]

some_and-cheapest :
    (f : DealLike → Bool) (ds : List DealLike)
    → is_some (cheapest (keep f ds)) ≡ true
    → some_and (cheapest (keep f ds)) f ≡ true
some_and-cheapest f [] = λ h. ground (arith, is_some-cheapest f [])
some_and-cheapest f (d ∷ ds) =
    let motive : Option DealLike → Type 0 = λ o. is_some o ≡ true → some_and o f ≡ true in
    elim (Bool-cases (f d)) [
      | inl t ↦
          subst motive (sym (cheapest-keep_yes f d ds t))
            (λ _. some_and-cheaper f d (cheapest (keep f ds)) t (some_and-cheapest f ds))
      | inr t ↦ subst motive (sym (cheapest-keep_no f d ds t)) (some_and-cheapest f ds)
    ]

price_with_low :
    (p : PricedLike) (now : ℕ) (o : Option DealLike)
    → (is_some o ≡ true → some_and o (is_live_deal p now) ≡ true)
    → ((price_with p o).price ≤ p.price) × ((price_with p o).list_price ≡ p.price)
unfolding price_with
price_with_low p now none h = (omega arith, refl)
price_with_low p now (some d) h =
    let live : is_live_deal p now d ≡ true = h refl in (ground arith, refl)

price_with-at_most :
    (p : PricedLike) (o : Option DealLike) (n : ℕ) → at_most n o ≡ true → (price_with p o).price ≤ n
unfolding price_with
price_with-at_most p none n h = ground arith
price_with-at_most p (some d) n h = ground arith

All-price :
    (p : PricedLike) (o : Option DealLike) (f : DealLike → Bool) (ds : List DealLike)
    → All (λ e. f e ≡ true → at_most e.deal_price o ≡ true) ds
    → All (λ e. f e ≡ true → (price_with p o).price ≤ e.deal_price) ds
All-price p o f [] h = tt
All-price p o f (e ∷ es) h =
    (λ t. price_with-at_most p o e.deal_price (h.0 t), All-price p o f es h.1)

-- A live deal that the price and its end come from.
abbrev pub gives_price : PricedLike → ℕ → EffectivePrice → DealLike → Bool
gives_price p now r d =
    is_live_deal p now d && d.deal_price == r.price && some_and r.deal (λ e. e == d.ends_at)

cheaper-cases : (d : DealLike) (o : Option DealLike) → (cheaper d o ≡ some d) ⊎ (cheaper d o ≡ o)
cheaper-cases d none = inl refl
cheaper-cases d (some e) = elim (Bool-cases (ltb e.deal_price d.deal_price)) [
  | inl t ↦ inr (rw t refl)
  | inr t ↦ inl (rw t refl)
]

-- What is found is one of the deals.
any-cheapest :
    (f g : DealLike → Bool) (ds : List DealLike)
    → some_and (cheapest (keep f ds)) g ≡ true
    → any g ds ≡ true
unfolding cheapest
any-cheapest f g [] e = cc e
any-cheapest f g (d ∷ ds) e =
    let o = cheapest (keep f ds) in
    elim (Bool-cases (f d)) [
      | inl t ↦
          let chosen : some_and (cheaper d o) g ≡ true = rw t at e in
          elim (cheaper-cases d o) [
            | inl c ↦ let own : g d ≡ true = rw c at chosen in ground (arith, own)
            | inr c ↦ ground (arith, any-cheapest f g ds (rw c at chosen))
          ]
      | inr t ↦ ground (arith, any-cheapest f g ds (rw t at e))
    ]

-- What is shown with a live deal, and without one.
abbrev pub IsShown : PricedLike → ℕ → List DealLike → EffectivePrice → Type 0
IsShown p now deals r =
    if any (is_live_deal p now) deals
    then (any (gives_price p now r) deals ≡ true)
      × (r.price < p.price)
      × (some_and r.deal (λ e. ltb now e) ≡ true)
      × (r.compare_at ≡ some p.price)
    else (r.price ≡ p.price)
      × (r.deal ≡ none)
      × (r.compare_at
          ≡ (if some_and p.compare_at_price (λ c. ltb p.price c) then p.compare_at_price else none))

price_with-IsShown :
    (p : PricedLike) (now : ℕ) (deals : List DealLike) (o : Option DealLike)
    → is_some o ≡ any (is_live_deal p now) deals
    → ((g : DealLike → Bool) → some_and o g ≡ true → any g deals ≡ true)
    → (is_some o ≡ true → some_and o (is_live_deal p now) ≡ true)
    → IsShown p now deals (price_with p o)
unfolding price_with
price_with-IsShown p now deals none e found h = rw (sym e) (refl, refl, refl)
price_with-IsShown p now deals (some d) e found h =
    let live : is_live_deal p now d ≡ true = h refl in
    let r = price_with p (some d) in
    let gives : gives_price p now r d ≡ true = ground (arith, live) in
    rw (sym e) (found (gives_price p now r) gives, ground (arith, live), ground (arith, live), refl)

-- The price is the least of the regular price and the prices of the live deals: it is above none of
-- them, it is the price of a live deal, whose end is shown, if there is one, and else the regular one. With
-- a deal the regular price is struck through, the price is below it and the deal has not ended; without
-- one, the compare-at price is struck through if it is above the price, and nothing otherwise.
pub effective_price_lem :
    (p : PricedLike) (deals : List DealLike) (now : ℕ)
    → let r = effective_price p deals now in
      (r.price ≤ p.price)
      × All (λ d. is_live_deal p now d ≡ true → r.price ≤ d.deal_price) deals
      × IsShown p now deals r
      × (r.list_price ≡ p.price)
unfolding effective_price
effective_price_lem p deals now =
    let f = is_live_deal p now in
    let o = cheapest (keep f deals) in
    let (low, listed) = price_with_low p now o (some_and-cheapest f deals) in
    (
      low,
      All-price p o f deals (cheapest-at_most f deals),
      price_with-IsShown p now deals o (is_some-cheapest f deals) (λ g. any-cheapest f g deals)
          (some_and-cheapest f deals),
      listed,
    )
