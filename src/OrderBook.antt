-- ===== src/OrderBook.antt =====
-- include/order_book.h of engine/order-matching-engine. Each side is a vector of price levels; it is
-- held as a list from the vector's back, so the best level stands first and the levels that a batch
-- `resize` cuts off are those in front. `matchBuy` and `matchSell` differ in a comparison and in the
-- order of a trade's two ids, and are one function of the incoming side. The trades are what the
-- callback is called with, in order. `none` is a failed assertion, a null dereference, or the end
-- of the fuel of the matching loop.
pub mod Levels
pub mod Match
pub mod Abstract
pub mod Index
pub mod WellFormed
pub mod Locate
pub mod Withdraw
pub mod Cancel
pub mod Cancelled
pub mod Accounts
pub mod Pending
pub mod Released
pub mod Gap
pub mod Queued
pub mod Rest
pub mod MatchAt
pub mod Views
pub mod Add
pub mod Added
pub mod Apart
pub mod Runs
pub mod Promises
use market_maker_ops.Prelude.{
  ℕ, zero, suc, ◌+◌, ◌%◌, min, Option, none, some, List, [], ◌∷◌, Bool, ltb, ◌==◌, if◌then◌else◌,
  ◌>>=◌, length, lookup, erase, try_emplace, nat_key,
}
use market_maker_ops.Order.{
  Side, buy, sell, Trade, Slot, Store, init, update, set_quantity, u64_mod,
}
use market_maker_ops.PriceLevel.{PriceLevel, new_level, is_empty, front, sub32, add_to_tail, remove}
use market_maker_ops.OrderPool.{OrderPool, construct, allocate, deallocate}
use market_maker_ops.OrderBook.Levels.{
  opposite, Cursor, lower_bound, rejoin, find_or_create, drop_empty,
}
use market_maker_ops.OrderBook.Match.{Matching, misses, with_orders, match_loop}

pub record OrderBook : Type 0 where
  pub pool : OrderPool
  pub bids : List PriceLevel
  pub asks : List PriceLevel
  pub order_index : List (ℕ × Slot)
  pub sequence : ℕ

-- The constructor, after the pool's.
unfoldable pub create : ℕ → Option OrderBook
create capacity = do
  pool ← construct capacity
  some (record { pool = pool; bids = []; asks = []; order_index = []; sequence = 0 })

abbrev pub back : List PriceLevel → Option PriceLevel
back [] = none
back (l ∷ ls) = some l

abbrev pub best_bid : OrderBook → Option PriceLevel
best_bid b = back b.bids

abbrev pub best_ask : OrderBook → Option PriceLevel
best_ask b = back b.asks

abbrev pub side_levels : Side → OrderBook → List PriceLevel
side_levels buy b = b.bids
side_levels sell b = b.asks

abbrev pub with_levels : Side → List PriceLevel → OrderBook → OrderBook
with_levels buy ls b = record b { bids = ls }
with_levels sell ls b = record b { asks = ls }

-- `matchBuy` and `matchSell`. Each round but the last fills at least one unit.
unfoldable pub match_side : Side → Slot → OrderBook → Option (List Trade × OrderBook)
unfolding match_loop
match_side side o b =
    let incoming = b.pool.orders o in
    do
      (ts, s) ← match_loop (suc incoming.quantity) side o incoming.price (record {
        pool = b.pool;
        levels = side_levels (opposite side) b;
        order_index = b.order_index;
      })
      some (
        ts,
        with_levels (opposite side) s.levels
            (record b { pool = s.pool; order_index = s.order_index }),
      )

pub match_at : Side → Slot → ℕ → Option PriceLevel → OrderBook → Option (List Trade × OrderBook)
unfolding match_side
match_at side o price none b = some ([], b)
match_at side o price (some best) b =
    if misses side price best.price then some ([], b) else match_side side o b

-- The incoming order joins its side, or goes back to the pool.
unfoldable pub rest_order : Side → ℕ → ℕ → Slot → OrderBook → Option OrderBook
rest_order side price id o b =
    if ltb 0 (b.pool.orders o).quantity
    then (do
      (pl, it) ← find_or_create side price (side_levels side b)
      (pl', m) ← add_to_tail o pl b.pool.orders
      some (
          with_levels side (rejoin it.later (pl' ∷ it.earlier)) (record b {
            pool = with_orders m b.pool;
            order_index = try_emplace id o b.order_index;
          })))
    else (do pool ← deallocate o b.pool; some (record b { pool = pool }))

unfoldable pub add_limit_order :
    Side → (price quantity id participant : ℕ) → OrderBook → Option (List Trade × OrderBook)
unfolding match_at rest_order
add_limit_order side price quantity id participant b = do
  (o, pool) ← allocate b.pool
  let order = init (pool.orders o) id price quantity b.sequence side participant
  (ts, b') ← match_at side o price (back (side_levels (opposite side) b)) (record b {
    pool = with_orders (update pool.orders o order) pool;
    sequence = (b.sequence + 1) % u64_mod;
  })
  b'' ← rest_order side price id o b'
  some (ts, b'')

-- `levelIt->remove(o)`, and the erasure of a level that is then empty.
remove_from :
    Slot → ℕ → List PriceLevel → List PriceLevel → Store → Option (List PriceLevel × Store)
remove_from o price [] earlier m = none
remove_from o price (l ∷ later) earlier m =
    if l.price == price
    then (let (l', m') = remove o l m in some (rejoin later (drop_empty l' earlier), m'))
    else none

cancel_slot : ℕ → Slot → OrderBook → Option OrderBook
unfolding remove_from
cancel_slot id o b =
    let order = b.pool.orders o in
    let it = lower_bound order.side order.price (side_levels order.side b) in
    if ltb 0 order.quantity
    then (do
      (levels, m) ← remove_from o order.price it.later it.earlier b.pool.orders
      pool ← deallocate o (with_orders m b.pool)
      some (
          with_levels order.side levels
            (record b { pool = pool; order_index = erase id b.order_index })))
    else none

unfoldable pub cancel_order : ℕ → OrderBook → Option OrderBook
unfolding cancel_slot
cancel_order id b = elim (lookup id b.order_index) [ none ↦ some b | some o ↦ cancel_slot id o b ]
