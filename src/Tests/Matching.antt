-- ===== src/Tests/Matching.antt =====
-- The matching loop of include/order_book.h at a side with one order.
use market_maker_ops.Prelude.{◌+◌, ◌≤◌, ◌≡◌, ◌⊎◌, refl, some, List, [], ◌∷◌, arith, ltb}
use market_maker_ops.Order.{buy, sell, Slot, Trade, Store, blank, update}
use market_maker_ops.PriceLevel.Queue.{total}
use market_maker_ops.OrderPool.{OrderPool}
use market_maker_ops.OrderPool.FreeList.{IsPool, count_flags}
use market_maker_ops.OrderBook.Match.{Matching, match_loop}
use market_maker_ops.OrderBook.Match.Spec.{cross, Queues, slots, resting}
use market_maker_ops.OrderBook.Match.Invariant.{IsMatching}
use market_maker_ops.OrderBook.Match.Outcome.{Crosses}
use market_maker_ops.OrderBook.Match.Loop.{match_loop_lem}
use market_maker_ops.OrderBook.Match.Conservation.{traded, supply, Accepted, match_loop-conserves}
use market_maker_ops.OrderBook.Match.Uncrossed.{Clear, match_loop-Clear}

-- A seller of 3 in slot 0, and a buyer of 4 in slot 1.
abbrev store : Store
store =
    update
      (update (λ _. blank) 0
        (record blank { order_id = 5; price = 100; quantity = 3; participant_id = 8; side = sell }))
      1 (record blank { order_id = 9; price = 101; quantity = 4; participant_id = 7 })

abbrev pool : OrderPool
pool = record {
  capacity = 3;
  orders = store;
  free_list = some 2;
  free_count = 1;
  is_allocated = λ a. ltb a 2;
}

pool-IsPool : IsPool pool (2 ∷ [])
unfolding count_flags
pool-IsPool = record {
  head = refl;
  chain = (refl, tt);
  distinct = (refl, tt);
  within = (omega arith, tt);
  count = refl;
  flags = λ a h. ground arith;
  conserved = refl;
}

abbrev state : Matching
state = record {
  pool = pool;
  levels = record { price = 100; total_quantity = 3; head = some 0; tail = some 0 } ∷ [];
  order_index = (5, 0) ∷ [];
}

abbrev queues : Queues
queues = (0, []) ∷ []

state-IsMatching : IsMatching 1 9 7 state queues (2 ∷ [])
unfolding total
state-IsMatching = record {
  ladder = (
    record {
      head = refl;
      tail = refl;
      links = (refl, refl, tt);
      distinct = (refl, tt);
      sum = refl;
    },
    (refl, omega arith, omega arith, tt),
    tt,
  );
  pool = pool-IsPool;
  distinct = (refl, tt);
  apart = λ a i. ground arith;
  within = (omega arith, tt);
  outside = refl;
  bound = omega arith;
  order_id = refl;
  participant_id = refl;
}

match_loop_lem_example :
    Crosses 1 9 7 state queues
      (2 ∷ [])
      (cross buy 9 7 101 4 (resting store (slots queues)))
      (match_loop 5 buy 1 101 state)
match_loop_lem_example =
    match_loop_lem 5 buy 1 9 7 101 state queues (2 ∷ []) state-IsMatching (omega arith)

match_loop-conserves_example :
    (ts : List Trade) × (s' : Matching) × (qs' : Queues) × (free' : List Slot) × (match_loop 5 buy 1
        101 state
      ≡ some (ts, s'))
    × IsMatching 1 9 7 s' qs' free'
    × (traded ts + supply (resting s'.pool.orders (slots qs')) ≡ 3)
    × (traded ts + (s'.pool.orders 1).quantity ≤ 4)
    × Accepted buy 101 ts
match_loop-conserves_example =
    match_loop-conserves 5 buy 1 9 7 101 state queues (2 ∷ []) state-IsMatching (omega arith)

match_loop-Clear_example :
    (ts : List Trade) × (s' : Matching) × (qs' : Queues) × (free' : List Slot) × (match_loop 5 buy 1
        101 state
      ≡ some (ts, s'))
    × IsMatching 1 9 7 s' qs' free'
    × (((s'.pool.orders 1).quantity ≡ 0) ⊎ Clear buy 101 (resting s'.pool.orders (slots qs')))
match_loop-Clear_example =
    match_loop-Clear 5 buy 1 9 7 101 state queues (2 ∷ []) state-IsMatching (omega arith)
