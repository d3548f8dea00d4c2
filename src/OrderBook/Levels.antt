-- ===== src/OrderBook/Levels.antt =====
-- The two sorted vectors of price levels of include/order_book.h: the searches `findBidLevel` and
-- `findAskLevel`, and `findOrCreateBidLevel` and `findOrCreateAskLevel`.
pub mod Search
pub mod Lookup
pub mod Split
pub mod Prices
use market_maker_ops.Prelude.{
  ℕ, Option, none, some, List, [], ◌∷◌, Bool, ltb, ◌==◌, if◌then◌else◌, length, nat_key,
}
use market_maker_ops.Order.{Side, buy, sell}
use market_maker_ops.PriceLevel.{PriceLevel, new_level, is_empty}

abbrev pub max_price_levels : ℕ
max_price_levels = 4096

abbrev pub opposite : Side → Side
opposite buy = sell
opposite sell = buy

-- The comparators of `findBidLevel` and `findAskLevel`: does the level stand before the price?
abbrev pub before : Side → ℕ → ℕ → Bool
before buy level price = ltb level price
before sell level price = ltb price level

-- An iterator into a side: `*it` heads the levels from it to the vector's end.
pub record Cursor : Type 0 where
  pub later : List PriceLevel
  pub earlier : List PriceLevel

unfoldable pub seek : Side → ℕ → List PriceLevel → List PriceLevel → Cursor
seek side price later [] = record { later = later; earlier = [] }
seek side price later (l ∷ ls) =
    if before side l.price price
    then record { later = later; earlier = l ∷ ls }
    else seek side price (l ∷ later) ls

-- `std::lower_bound` on the sorted side.
unfoldable pub lower_bound : Side → ℕ → List PriceLevel → Cursor
unfolding seek
lower_bound side price levels = seek side price [] levels

-- The side again, from the levels behind an iterator and those before it.
unfoldable pub rejoin : List PriceLevel → List PriceLevel → List PriceLevel
rejoin [] ls = ls
rejoin (l ∷ later) ls = rejoin later (l ∷ ls)

-- The level that `findOrCreateBidLevel` or `findOrCreateAskLevel` returns, with its place.
abbrev pub Found : Type 0
Found = PriceLevel × Cursor

insert_level : ℕ → ℕ → Cursor → Option Found
insert_level price count it =
    if ltb count max_price_levels then some (new_level price, it) else none

found_or : ℕ → ℕ → List PriceLevel → Cursor → Option Found
unfolding insert_level
found_or price count [] it = insert_level price count it
found_or price count (l ∷ later) it =
    if l.price == price
    then some (l, record { later = later; earlier = it.earlier })
    else insert_level price count it

unfoldable pub find_or_create : Side → ℕ → List PriceLevel → Option Found
unfolding lower_bound found_or
find_or_create side price levels =
    let it = lower_bound side price levels in found_or price (length levels) it.later it

-- `if (pl->head == nullptr) { --numLevels; --pl; }`
abbrev pub drop_empty : PriceLevel → List PriceLevel → List PriceLevel
drop_empty pl rest = if is_empty pl then rest else pl ∷ rest
