-- ===== src/Tests/Trading.antt =====
-- A book of include/order_book.h with three slots: a seller at 100 joins it, then a buyer at 99.
use market_maker_ops.Prelude.{◌<◌, ◌≡◌, refl, false, Option, none, some, List, [], arith}
use market_maker_ops.Order.{buy, sell, Trade, blank}
use market_maker_ops.PriceLevel.{PriceLevel, add_to_tail}
use market_maker_ops.OrderPool.{OrderPool, construct, allocate, deallocate}
use market_maker_ops.OrderBook.{OrderBook, create, add_limit_order}
use market_maker_ops.OrderBook.Levels.{find_or_create, lower_bound, rejoin}
use market_maker_ops.OrderBook.Runs.{Enters, adds, Reach, created, next, IsFair, Reach-IsFair}
use market_maker_ops.OrderBook.Promises.{Reach-uncrossed, Reach-adds}

abbrev no_pool : OrderPool
no_pool = record {
  capacity = 0;
  orders = λ _. blank;
  free_list = none;
  free_count = 0;
  is_allocated = λ _. false;
}

abbrev empty_book : OrderBook
unfolding create construct
empty_book = elim (create 3) [
  | none ↦ record { pool = no_pool; bids = []; asks = []; order_index = []; sequence = 0 }
  | some b ↦ b
]

abbrev made : Option (List Trade × OrderBook) → OrderBook
made none = empty_book
made (some (ts, b)) = b

abbrev sold : OrderBook
sold = made (add_limit_order sell 100 3 5 8 empty_book)

abbrev bought : OrderBook
bought = made (add_limit_order buy 99 4 9 7 sold)

empty_book-Reach : Reach 3 empty_book
unfolding create construct
empty_book-Reach = created empty_book (omega arith) refl

sold-Enters : Enters sell 3 5 empty_book
unfolding create construct
sold-Enters = record { fits = omega arith; fresh = refl; room = omega arith; unused = omega arith }

sold-Reach : Reach 3 sold
unfolding create construct allocate deallocate add_to_tail add_limit_order find_or_create
    lower_bound rejoin
sold-Reach = next empty_book-Reach (adds sell 100 3 5 8 [] sold sold-Enters refl)

bought-Enters : Enters buy 4 9 sold
unfolding create construct allocate deallocate add_to_tail add_limit_order find_or_create
    lower_bound rejoin
bought-Enters = record {
  fits = omega arith;
  fresh = refl;
  room = omega arith;
  unused = omega arith;
}

bought-Reach : Reach 3 bought
unfolding create construct allocate deallocate add_to_tail add_limit_order find_or_create
    lower_bound rejoin
bought-Reach = next sold-Reach (adds buy 99 4 9 7 [] bought bought-Enters refl)

Reach-IsFair_example : IsFair buy bought
Reach-IsFair_example = Reach-IsFair bought-Reach

abbrev top_bid : PriceLevel
top_bid = record { price = 99; total_quantity = 4; head = some 1; tail = some 1 }

abbrev top_ask : PriceLevel
top_ask = record { price = 100; total_quantity = 3; head = some 0; tail = some 0 }

Reach-uncrossed_example : top_bid.price < top_ask.price
unfolding create construct allocate deallocate add_to_tail add_limit_order find_or_create
    lower_bound rejoin
Reach-uncrossed_example = Reach-uncrossed 3 bought top_bid top_ask bought-Reach refl refl

Reach-adds_example :
    (ts : List Trade) × (b' : OrderBook) × (add_limit_order buy 99 4 9 7 sold ≡ some (ts, b'))
    × Reach 3 b'
Reach-adds_example = Reach-adds 3 buy 99 4 9 7 sold sold-Reach bought-Enters
