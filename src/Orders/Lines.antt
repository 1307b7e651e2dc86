-- ===== src/Orders/Lines.antt =====
-- What the lines of a cart and of an order are: a product or a bundle of products.
use brothers_book_house.Base.{Bool, false, true}

pub data LineKind : Type 0 where
  product_line bundle_line : LineKind

abbrev pub is_bundle : LineKind → Bool
is_bundle bundle_line = true
is_bundle product_line = false
