-- ===== src/Tests/Shelf.antt =====
-- A product on offer, and its stock.
use brothers_book_house.Base.{All, List, [], false, none, refl, some, true, ℕ, ◌∷◌, ◌≡◌, ◌≤◌}
use brothers_book_house.Catalog.Price.{
  DealLike, IsShown, PricedLike, cheapest, effective_price, effective_price_lem, is_live_deal,
  price_with,
}
use brothers_book_house.Catalog.Stock.{StockLike}

abbrev book : PricedLike
book = record { price = 40_000; compare_at_price = some 45_000 }

abbrev deal_at : ℕ → ℕ → DealLike
deal_at price end = record { deal_price = price; starts_at = 5; ends_at = end; cancelled_at = none }

abbrev deals : List DealLike
deals = deal_at 35_000 90 ∷ deal_at 32_000 80 ∷ deal_at 20_000 7 ∷ []

cheapest_live : (effective_price book deals 10).price ≡ 32_000
unfolding effective_price cheapest price_with
cheapest_live = refl

effective_price_lem_example :
    let r = effective_price book deals 10 in
    (r.price ≤ 40_000)
    × All (λ d. is_live_deal book 10 d ≡ true → r.price ≤ d.deal_price) deals
    × IsShown book 10 deals r
    × (r.list_price ≡ 40_000)
effective_price_lem_example = effective_price_lem book deals 10

abbrev shelf : StockLike
shelf = record {
  track_inventory = true;
  allow_backorder = false;
  stock_on_hand = 9;
  stock_reserved = 0;
  low_stock_threshold = none;
}
