-- ===== src/Tests.antt =====
-- Runs of the model, and the theorems at concrete inputs. The runs here take an incoming order of
-- include/order_book.h through two price levels.
mod Levels
mod Pool
mod Codec
mod Exchange
mod Matching
mod Book
mod Trading
mod Options
mod Consistency
use market_maker_ops.Prelude.{ℕ, ◌≡◌, refl, Option, none, some, List, [], ◌∷◌, ◌>>=◌, map}
use market_maker_ops.Order.{buy, sell, Trade}
use market_maker_ops.PriceLevel.{PriceLevel, add_to_tail, remove}
use market_maker_ops.OrderPool.{OrderPool, construct, allocate, deallocate}
use market_maker_ops.OrderBook.{OrderBook, create, add_limit_order, cancel_order}
use market_maker_ops.OrderBook.Levels.{find_or_create, lower_bound, rejoin}

-- A buy order for 10 against three resting orders at two prices.
abbrev sweep : Option (List Trade × OrderBook)
unfolding create construct allocate deallocate add_to_tail remove add_limit_order find_or_create
    lower_bound rejoin
sweep = do
  b ← create 8
  (_, b) ← add_limit_order sell 100 5 1 7 b
  (_, b) ← add_limit_order sell 101 5 2 7 b
  (_, b) ← add_limit_order sell 100 3 3 8 b
  add_limit_order buy 101 10 4 9 b

abbrev traded : ℕ → ℕ → ℕ → Trade
traded resting price quantity = record {
  buy_order_id = 4;
  sell_order_id = resting;
  price = price;
  quantity = quantity;
}

-- The better price trades first, and at one price the earlier order.
sweep-trades :
    (sweep >>= λ (t, b). some t) ≡ some (traded 1 100 5 ∷ traded 3 100 3 ∷ traded 2 101 2 ∷ [])
unfolding create construct allocate deallocate add_to_tail remove add_limit_order find_or_create
    lower_bound rejoin
sweep-trades = refl

abbrev totals : List PriceLevel → List (ℕ × ℕ)
totals ls = map (λ (l : PriceLevel). (l.price, l.total_quantity)) ls

abbrev asks_left : Option (List Trade × OrderBook) → Option (List (ℕ × ℕ))
asks_left r = r >>= λ (t, b). some (totals b.asks)

abbrev after_cancel : Option (List Trade × OrderBook) → Option OrderBook
after_cancel r = r >>= λ (t, b). cancel_order 2 b

sweep-asks : asks_left sweep ≡ some ((101, 3) ∷ [])
unfolding create construct allocate deallocate add_to_tail remove add_limit_order find_or_create
    lower_bound rejoin
sweep-asks = refl

-- What is left of the last order can be cancelled, and then every slot is free again.
sweep-cancel : (after_cancel sweep >>= λ b. some b.pool.free_count) ≡ some 8
unfolding create construct allocate deallocate add_to_tail remove add_limit_order find_or_create
    lower_bound rejoin cancel_order
sweep-cancel = refl
