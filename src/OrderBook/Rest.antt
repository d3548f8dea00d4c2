-- ===== src/OrderBook/Rest.antt =====
-- The last part of `addLimitOrder` of include/order_book.h: the incoming order rests, or is released.
use market_maker_ops.Prelude.{
  ℕ, ◌<◌, ◌≡◌, refl, sym, subst, false, inl, inr, Bool-cases, if◌then◌else◌, some, none, List, [],
  ◌∷◌, arith, ltb, lt→ltb, ltb→lt, ◌==◌, ==_iff, length, lookup, try_emplace, nat_key,
}
use market_maker_ops.Order.{Side, Slot, Store}
use market_maker_ops.PriceLevel.{PriceLevel, add_to_tail}
use market_maker_ops.PriceLevel.AddToTail.{Appended, add_to_tail_lem}
use market_maker_ops.OrderPool.{OrderPool, deallocate}
use market_maker_ops.OrderBook.{OrderBook, side_levels, with_levels, rest_order}
use market_maker_ops.OrderBook.Levels.{max_price_levels, opposite, Cursor, find_or_create, rejoin}
use market_maker_ops.OrderBook.Levels.Split.{Finds, find_or_create_split, rejoin-append}
use market_maker_ops.OrderBook.Match.{with_orders}
use market_maker_ops.OrderBook.Match.Spec.{Queues, slots, resting}
use market_maker_ops.OrderBook.Abstract.{place}
use market_maker_ops.OrderBook.WellFormed.{
  IsState, IsBook, with_levels-IsBook, with_pool-IsBook, with_levels-pool,
}
use market_maker_ops.OrderBook.Pending.{IsPending}
use market_maker_ops.OrderBook.Released.{released}
use market_maker_ops.OrderBook.Gap.{Gap}
use market_maker_ops.OrderBook.Queued.{
  gap, here_out, queued, queued-IsState, resting-queued, resting-opp,
}

rest_order-zero :
    (side : Side) (price id : ℕ) (o : Slot) (b : OrderBook) (r : OrderPool)
    → (b.pool.orders o).quantity ≡ 0
    → deallocate o b.pool ≡ some r
    → rest_order side price id o b ≡ some (record b { pool = r })
unfolding rest_order
rest_order-zero side price id o b r z e =
    let shut : ltb 0 (b.pool.orders o).quantity ≡ false = ground (arith, z) in rw (shut, e) refl

rest_order-some :
    (side : Side) (price id : ℕ) (o : Slot) (b : OrderBook) (pl : PriceLevel) (it : Cursor)
    (pl' : PriceLevel) (n : Store)
    → 0 < (b.pool.orders o).quantity
    → find_or_create side price (side_levels side b) ≡ some (pl, it)
    → add_to_tail o pl b.pool.orders ≡ some (pl', n)
    → rest_order side price id o b
      ≡ some (
          with_levels side (rejoin it.later (pl' ∷ it.earlier)) (record b {
            pool = with_orders n b.pool;
            order_index = try_emplace id o b.order_index;
          }))
unfolding rest_order
rest_order-some side price id o b pl it pl' n pos e k = rw (lt→ltb 0 _ pos, e, k) refl

-- What the incoming order leaves of its own side.
abbrev pub Rested :
    Side → OrderBook → Queues → Queues → Slot → (id who limit : ℕ) → OrderBook → Queues → Type 0
Rested side b own opp o id who limit b' own' =
    (resting b'.pool.orders (slots own') ≡ (
      if (b.pool.orders o).quantity == 0
      then resting b.pool.orders (slots own)
      else place side
          (record {
            order_id = id;
            participant_id = who;
            price = limit;
            quantity = (b.pool.orders o).quantity;
          })
          (resting b.pool.orders (slots own))))
    × (resting b'.pool.orders (slots opp) ≡ resting b.pool.orders (slots opp))

module _ (side : Side) (b : OrderBook) (own opp : Queues) (free : List Slot) (o : Slot)
    (id who limit : ℕ)
    (is : IsPending side b.pool b.order_index
      (side_levels side b)
      (side_levels (opposite side) b)
      own
      opp
      free
      o
      id
      who
      limit)
    (fresh : lookup id b.order_index ≡ none)
    (room : length (side_levels side b) < max_price_levels) where
  rest_order_zero :
      (b.pool.orders o).quantity ≡ 0
      → (b' : OrderBook) × (rest_order side limit id o b ≡ some b')
        × IsBook side b' own opp (o ∷ free)
        × Rested side b own opp o id who limit b' own
  rest_order_zero z =
      let (r, e, state, same_own, same_opp) =
        released side b.pool b.order_index (side_levels side b) (side_levels (opposite side) b) own
          opp free o id who limit is in
      (
        record b { pool = r },
        rest_order-zero side limit id o b r z e,
        with_pool-IsBook side b r own opp (o ∷ free) state,
        (rw ((==_iff _ 0).1 z) same_own, same_opp),
      )

  abbrev levels : List PriceLevel
  levels = side_levels side b

  abbrev opp_levels : List PriceLevel
  opp_levels = side_levels (opposite side) b

  module _ (pos : 0 < (b.pool.orders o).quantity) (k : PriceLevel) (it : Cursor)
      (e : find_or_create side limit levels ≡ some (k, it))
      (f : Finds side limit levels k (rejoin it.later []) it.earlier) where
    abbrev there : Gap b.pool.orders k (rejoin it.later []) it.earlier own
    there =
        gap side b.pool b.order_index levels opp_levels own opp free o id who limit is pos fresh k
          (rejoin it.later []) it.earlier f

    module _ (r : PriceLevel × Store) (added : add_to_tail o k b.pool.orders ≡ some r)
        (a : Appended o there.here k b.pool.orders r) where
      abbrev joined : List PriceLevel
      joined = rejoin it.later (r.0 ∷ it.earlier)

      abbrev pool' : OrderPool
      pool' = with_orders r.1 b.pool

      abbrev index' : List (ℕ × Slot)
      index' = try_emplace id o b.order_index

      abbrev own' : Queues
      own' =
          queued side b.pool b.order_index levels opp_levels own opp free o id who limit is pos
            fresh k (rejoin it.later []) it.earlier f r a

      joined-IsBook :
          IsBook side
            (with_levels side joined (record b { pool = pool'; order_index = index' }))
            own'
            opp
            free
      joined-IsBook = with_levels-IsBook side joined b pool' index' own' opp free (
          subst (λ ls. IsState side pool' index' ls opp_levels own' opp free)
            (sym (rejoin-append it.later (r.0 ∷ it.earlier)))
            (queued-IsState side b.pool b.order_index levels opp_levels own opp free o id who limit
              is pos fresh k (rejoin it.later []) it.earlier f r a))

      joined-Rested :
          Rested side b own opp o id who limit
            (with_levels side joined (record b { pool = pool'; order_index = index' }))
            own'
      joined-Rested =
          let more : ((b.pool.orders o).quantity == 0) ≡ false = ground arith in
          subst
            (λ (p : OrderPool).
              (resting p.orders (slots own') ≡ (
                if (b.pool.orders o).quantity == 0
                then resting b.pool.orders (slots own)
                else place side
                    (record {
                      order_id = id;
                      participant_id = who;
                      price = limit;
                      quantity = (b.pool.orders o).quantity;
                    })
                    (resting b.pool.orders (slots own))))
              × (resting p.orders (slots opp) ≡ resting b.pool.orders (slots opp)))
            (sym (with_levels-pool side joined (record b { pool = pool'; order_index = index' })))
            (
              rw more (
                  resting-queued side b.pool b.order_index levels opp_levels own opp free o id who
                    limit is pos fresh k (rejoin it.later []) it.earlier f r a),
              resting-opp side b.pool b.order_index levels opp_levels own opp free o id who limit is
                  pos fresh k (rejoin it.later []) it.earlier f r a,
            )

      joined_lem :
          (b' : OrderBook) × (own' : Queues) × (rest_order side limit id o b ≡ some b')
          × IsBook side b' own' opp free
          × Rested side b own opp o id who limit b' own'
      joined_lem = (
        with_levels side joined (record b { pool = pool'; order_index = index' }),
        own',
        rest_order-some side limit id o b k it r.0 r.1 pos e added,
        joined-IsBook,
        joined-Rested,
      )

  rest_order_pos :
      0 < (b.pool.orders o).quantity
      → (b' : OrderBook) × (own' : Queues) × (rest_order side limit id o b ≡ some b')
        × IsBook side b' own' opp free
        × Rested side b own opp o id who limit b' own'
  rest_order_pos pos =
      let (k, it, e, f) = find_or_create_split side limit levels is.own_side.sorted room in
      let g = there pos k it e f in
      let (r, added, a) = add_to_tail_lem o k b.pool.orders g.here g.queue (
        here_out side b.pool b.order_index levels opp_levels own opp free o id who limit is pos
          fresh k (rejoin it.later []) it.earlier f) in
      joined_lem pos k it e f r added a

  -- The order rests behind the orders that it does not beat, unless nothing is left of it.
  pub rest_order_lem :
      (b' : OrderBook) × (own' : Queues) × (free' : List Slot) × (rest_order side limit id o b
        ≡ some b')
      × IsBook side b' own' opp free'
      × Rested side b own opp o id who limit b' own'
  rest_order_lem = elim (Bool-cases (ltb 0 (b.pool.orders o).quantity)) [
    | inl h ↦
        let (b', own', e, is', rested) = rest_order_pos (ltb→lt 0 _ h) in
        (b', own', free, e, is', rested)
    | inr h ↦
        let (b', e, is', rested) = rest_order_zero (ground arith) in
        (b', own, o ∷ free, e, is', rested)
  ]
