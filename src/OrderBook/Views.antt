-- ===== src/OrderBook/Views.antt =====
-- Books of include/order_book.h that differ in their pool, their sides or their index.
use market_maker_ops.Prelude.{ℕ, ◌≡◌, refl, List, nat_key}
use market_maker_ops.Order.{Side, buy, sell, Slot}
use market_maker_ops.OrderPool.{OrderPool}
use market_maker_ops.OrderBook.{OrderBook, side_levels}
use market_maker_ops.OrderBook.Levels.{opposite}
use market_maker_ops.OrderBook.Match.{Matching}
use market_maker_ops.OrderBook.Match.Spec.{Queues}
use market_maker_ops.OrderBook.Pending.{IsPending}
use market_maker_ops.OrderBook.MatchAt.{matched}

-- The parts of a book behind a write to one side.
pub begun-view :
    (side : Side) (b : OrderBook) (pool : OrderPool) (sequence : ℕ) (own opp : Queues)
    (free : List Slot) (o : Slot) (id who limit : ℕ)
    → IsPending side pool b.order_index
        (side_levels side b)
        (side_levels (opposite side) b)
        own
        opp
        free
        o
        id
        who
        limit
    → (let b' = record b { pool = pool; sequence = sequence } in
        IsPending side b'.pool b'.order_index
          (side_levels side b')
          (side_levels (opposite side) b')
          own
          opp
          free
          o
          id
          who
          limit)
begun-view buy b pool sequence own opp free o id who limit p = p
begun-view sell b pool sequence own opp free o id who limit p = p

pub matched-view :
    (side : Side) (b : OrderBook) (s : Matching) (own opp : Queues) (free : List Slot) (o : Slot)
    (id who limit : ℕ)
    → IsPending side s.pool s.order_index (side_levels side b) s.levels own opp free o id who limit
    → (let b' = matched side b s in
        IsPending side b'.pool b'.order_index
          (side_levels side b')
          (side_levels (opposite side) b')
          own
          opp
          free
          o
          id
          who
          limit)
matched-view buy b s own opp free o id who limit p = p
matched-view sell b s own opp free o id who limit p = p

pub matched-index :
    (side : Side) (b : OrderBook) (s : Matching) → (matched side b s).order_index ≡ s.order_index
matched-index buy b s = refl
matched-index sell b s = refl

pub matched-side_levels :
    (side : Side) (b : OrderBook) (s : Matching) (pool : OrderPool) (sequence : ℕ)
    → side_levels side (matched side (record b { pool = pool; sequence = sequence }) s)
      ≡ side_levels side b
matched-side_levels buy b s pool sequence = refl
matched-side_levels sell b s pool sequence = refl

pub begun-side_levels :
    (side : Side) (b : OrderBook) (pool : OrderPool) (sequence : ℕ)
    → side_levels (opposite side) (record b { pool = pool; sequence = sequence })
      ≡ side_levels (opposite side) b
begun-side_levels buy b pool sequence = refl
begun-side_levels sell b pool sequence = refl
