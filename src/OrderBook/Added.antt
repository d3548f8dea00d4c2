-- ===== src/OrderBook/Added.antt =====
-- `addLimitOrder` of include/order_book.h, as a whole.
use market_maker_ops.Prelude.{
  ℕ, ◌+◌, ◌<◌, ◌≡◌, refl, subst, ◌%◌, some, none, List, ◌∷◌, length, lookup, nat_key,
}
use market_maker_ops.Order.{Side, Trade, Slot, u32_mod, u64_mod, init, update}
use market_maker_ops.OrderPool.{OrderPool, allocate}
use market_maker_ops.OrderPool.Cycle.{allocate_lem}
use market_maker_ops.OrderBook.{OrderBook, side_levels, back, match_at, rest_order, add_limit_order}
use market_maker_ops.OrderBook.Levels.{max_price_levels, opposite}
use market_maker_ops.OrderBook.Match.{with_orders}
use market_maker_ops.OrderBook.Match.Spec.{cross, Queues, slots, resting}
use market_maker_ops.OrderBook.WellFormed.{IsBook}
use market_maker_ops.OrderBook.MatchAt.{match_at_lem}
use market_maker_ops.OrderBook.Rest.{rest_order_lem}
use market_maker_ops.OrderBook.Views.{begun-side_levels}
use market_maker_ops.OrderBook.Add.{
  n, begun, pending, between, between-IsPending, between_fresh, between_room, entered_lem, Added,
}

add_limit_order-run :
    (side : Side) (price quantity id who : ℕ) (b : OrderBook) (o : Slot) (r : OrderPool)
    (ts : List Trade) (b1 b2 : OrderBook)
    → allocate b.pool ≡ some (o, r)
    → match_at side o price (back (side_levels (opposite side) b)) (record b {
      pool =
          with_orders
            (update r.orders o (init (r.orders o) id price quantity b.sequence side who))
            r;
      sequence = (b.sequence + 1) % u64_mod;
    })
      ≡ some (ts, b1)
    → rest_order side price id o b1 ≡ some b2
    → add_limit_order side price quantity id who b ≡ some (ts, b2)
unfolding add_limit_order
add_limit_order-run side price quantity id who b o r ts b1 b2 e k l = rw (e, k, l) refl

-- `addLimitOrder` on a well-formed book with an unused slot, of a 32-bit quantity, under an id that is
-- not in the book and at a side with fewer than 4096 levels, succeeds; its trades and the resting
-- orders of both sides are those that `enter` gives on the two lists of resting orders, and the book
-- is well-formed again.
pub add_limit_order_lem :
    (side : Side) (price quantity id who : ℕ) (b : OrderBook) (own opp : Queues) (o : Slot)
    (free : List Slot)
    → IsBook side b own opp (o ∷ free)
    → quantity < u32_mod
    → lookup id b.order_index ≡ none
    → length (side_levels side b) < max_price_levels
    → (ts : List Trade) × (b' : OrderBook) × (own' : Queues) × (opp' : Queues) × (free' : List Slot)
      × (add_limit_order side price quantity id who b ≡ some (ts, b'))
      × Added side id who price quantity b own opp ts b' own' opp' free'
add_limit_order_lem side price quantity id who b own opp o free is fits fresh room =
    let (r, allocated, a) = allocate_lem b.pool o free is.pool in
    let m0 = n side b own opp o free is price quantity id who fits r a in
    let start = begun side b own opp o free is price quantity id who fits r a in
    let wait = pending side b own opp o free is price quantity id who fits r a in
    let (s, opp', free', e, ism, left, book, p) =
      match_at_lem side start own opp free o id who price wait in
    let mid = between side b own opp o free is price quantity id who fits r a s opp' free' ism p in
    let (b', own', free'', k, is', rested) =
      rest_order_lem side mid own opp' free' o id who price
        (between-IsPending side b own opp o free is price quantity id who fits r a s opp' free' ism
          p)
        (between_fresh side b own opp o free is price quantity id who fits r a s opp' free' ism p
          fresh)
        (between_room side b own opp o free is price quantity id who fits r a s opp' free' ism p
          room) in
    let c = cross side id who price (m0 o).quantity (resting m0 (slots opp)) in
    (
      c.trades,
      b',
      own',
      opp',
      free'',
      add_limit_order-run side price quantity id who b o r c.trades mid b' allocated
          (subst (λ ls. match_at side o price (back ls) start ≡ some (c.trades, mid))
            (begun-side_levels side b start.pool start.sequence) e)
          k,
      record {
        book = is';
        entered =
            entered_lem side b own opp o free is price quantity id who fits r a s opp' free' ism p
              left book b' own' rested;
      },
    )
