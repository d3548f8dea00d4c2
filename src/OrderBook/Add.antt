-- ===== src/OrderBook/Add.antt =====
-- `addLimitOrder` of include/order_book.h against `enter`.
use market_maker_ops.Prelude.{
  ℕ, ◌+◌, ◌<◌, ◌≡◌, sym, subst, ap, ◌∙◌, inl, inr, Bool-cases, ◌==◌, ==_iff, if◌then◌else◌, none,
  List, ◌∷◌, arith, length, lookup, nat_key, ◌%◌,
}
use market_maker_ops.Order.{Side, Trade, Order, Slot, Store, init, update, u32_mod, u64_mod}
use market_maker_ops.PriceLevel.Links.{
  ◌∉◌, Disjoint-sym, mem-append_left, mem-append_right, not_mem_cons, ne_of_mem,
}
use market_maker_ops.PriceLevel.Queue.{payload}
use market_maker_ops.OrderPool.{OrderPool}
use market_maker_ops.OrderPool.FreeList.{Within}
use market_maker_ops.OrderPool.Cycle.{Allocated}
use market_maker_ops.OrderBook.{OrderBook, side_levels}
use market_maker_ops.OrderBook.Levels.{max_price_levels, opposite}
use market_maker_ops.OrderBook.Match.{Matching, with_orders}
use market_maker_ops.OrderBook.Match.Spec.{Resting, Crossed, cross, Queues, slots, resting}
use market_maker_ops.OrderBook.Match.Ladder.{SameAt, resting-SameDataAt}
use market_maker_ops.OrderBook.Match.Retire.{IsPool-with_orders}
use market_maker_ops.OrderBook.Match.Invariant.{IsMatching}
use market_maker_ops.OrderBook.Match.Progress.{Progress}
use market_maker_ops.OrderBook.Abstract.{Entered, enter, place}
use market_maker_ops.OrderBook.Accounts.{Accounts}
use market_maker_ops.OrderBook.WellFormed.{live, IsBook, with_levels-pool}
use market_maker_ops.OrderBook.Pending.{
  IsPending, IsSide-SameAt, resting-own, matched-IsPending, still_fresh,
}
use market_maker_ops.OrderBook.MatchAt.{matched}
use market_maker_ops.OrderBook.Rest.{Rested}
use market_maker_ops.OrderBook.Views.{begun-view, matched-view, matched-index, matched-side_levels}

-- What an incoming order leaves.
pub record Added (side : Side) (id who price quantity : ℕ) (b : OrderBook) (own opp : Queues)
    (ts : List Trade) (b' : OrderBook) (own' opp' : Queues) (free' : List Slot) : Type 0 where
  pub book : IsBook side b' own' opp' free'
  pub entered :
      record {
        trades = ts;
        own = resting b'.pool.orders (slots own');
        opposite = resting b'.pool.orders (slots opp');
      }
      ≡ enter side id who price quantity
          (resting b.pool.orders (slots own))
          (resting b.pool.orders (slots opp))

module _ (side : Side) (b : OrderBook) (own opp : Queues) (o : Slot) (free : List Slot)
    (is : IsBook side b own opp (o ∷ free)) (price quantity id who : ℕ)
    (fits : quantity < u32_mod) where
  abbrev m : Store
  m = b.pool.orders

  o_out : o ∉ live own opp
  o_out = Disjoint-sym (live own opp) (o ∷ free) is.apart o (ground arith)

  module _ (r : OrderPool) (a : Allocated b.pool o free r) where
    abbrev pub n : Store
    n = update r.orders o (init (r.orders o) id price quantity b.sequence side who)

    abbrev pub begun : OrderBook
    begun = record b { pool = with_orders n r; sequence = (b.sequence + 1) % u64_mod }

    same_live : SameAt (live own opp) m n
    same_live p i =
        let ne = ne_of_mem o p (live own opp) o_out i in
        let before = a.outside p (ground (arith, ne)) in ground (arith, ne, before)

    pub begun_own : resting n (slots own) ≡ resting m (slots own)
    begun_own =
        resting-SameDataAt m n (slots own)
          (λ p i. ap payload (same_live p (mem-append_left p (slots own) (slots opp) i)))

    pub begun_opp : resting n (slots opp) ≡ resting m (slots opp)
    begun_opp =
        resting-SameDataAt m n (slots opp)
          (λ p i. ap payload (same_live p (mem-append_right p (slots own) (slots opp) i)))

    begun-Accounts : Accounts n r.capacity o (live own opp) free b.order_index
    begun-Accounts = record {
      distinct = (o_out, is.distinct);
      apart = λ p i. elim (Bool-cases (p == o)) [
        | inl e ↦ subst (λ q. q ∉ free) (sym ((==_iff p o).0 e)) is.pool.distinct.0
        | inr ne ↦ (not_mem_cons p o free (is.apart p (ground arith))).1
      ];
      within = (a.within, subst (λ k. Within k (live own opp)) (sym a.capacity) is.within);
      index = λ key p.
          let (found, finds) = is.index key p in
          (
            λ k. let (i, j) = found k in (i, ap (λ (x : Order). x.order_id) (same_live p i) ∙ j),
            λ (i, j). finds (i, sym (ap (λ (x : Order). x.order_id) (same_live p i)) ∙ j),
          );
      full = omega (arith, is.full, a.capacity);
    }

    pub begun-IsPending :
        IsPending side begun.pool begun.order_index
          (side_levels side b)
          (side_levels (opposite side) b)
          own
          opp
          free
          o
          id
          who
          price
    begun-IsPending = record {
      pool =
          IsPool-with_orders r n free
            (λ p i. let ne = ne_of_mem o p free is.pool.distinct.0 i in ground arith) a.rest;
      own_side =
          IsSide-SameAt m n side (side_levels side b) own
            (λ p i. same_live p (mem-append_left p (slots own) (slots opp) i)) is.own_side;
      opp_side =
          IsSide-SameAt m n (opposite side) (side_levels (opposite side) b) opp
            (λ p i. same_live p (mem-append_right p (slots own) (slots opp) i)) is.opp_side;
      accounts = begun-Accounts;
      order_id = ground arith;
      participant_id = ground arith;
      price = ground arith;
      on_side = ground arith;
      bound = ground arith;
    }

    pub pending :
        IsPending side begun.pool begun.order_index
          (side_levels side begun)
          (side_levels (opposite side) begun)
          own
          opp
          free
          o
          id
          who
          price
    pending =
        begun-view side b (with_orders n r) ((b.sequence + 1) % u64_mod) own opp free o id who price
          begun-IsPending

    module _ (s : Matching) (opp' : Queues) (free' : List Slot)
        (ism : IsMatching o id who s opp' free')
        (p : Progress o
          (record {
            pool = begun.pool;
            levels = side_levels (opposite side) begun;
            order_index = begun.order_index;
          })
          opp
          free
          s
          opp'
          free') where
      abbrev pub between : OrderBook
      between = matched side begun s

      pub between-IsPending :
          IsPending side between.pool between.order_index
            (side_levels side between)
            (side_levels (opposite side) between)
            own
            opp'
            free'
            o
            id
            who
            price
      between-IsPending = matched-view side begun s own opp' free' o id who price (
          matched-IsPending side begun.pool begun.order_index (side_levels side begun)
            (side_levels (opposite side) begun) own opp free o id who price pending s opp' free' ism
            p)

      pub between_fresh : lookup id b.order_index ≡ none → lookup id between.order_index ≡ none
      between_fresh fresh =
          ap (lookup id) (matched-index side begun s)
          ∙ still_fresh side begun.pool begun.order_index (side_levels side begun)
              (side_levels (opposite side) begun) own opp free o id who price pending s opp' free'
              ism p fresh

      pub between_own : resting s.pool.orders (slots own) ≡ resting m (slots own)
      between_own =
          resting-own side begun.pool begun.order_index (side_levels side begun)
            (side_levels (opposite side) begun) own opp free o id who price pending s opp' free' ism
            p
          ∙ begun_own

      pub between_room :
          length (side_levels side b) < max_price_levels
          → length (side_levels side between) < max_price_levels
      between_room room =
          subst (λ ls. length ls < max_price_levels)
            (sym (matched-side_levels side b s (with_orders n r) ((b.sequence + 1) % u64_mod))) room

      abbrev pub crossed : Crossed
      crossed = cross side id who price (n o).quantity (resting n (slots opp))

      abbrev expected : Crossed
      expected = cross side id who price quantity (resting m (slots opp))

      crossed_lem : crossed ≡ expected
      crossed_lem =
          let q : (n o).quantity ≡ quantity = ground arith in
          ap (λ x. cross side id who price x (resting n (slots opp))) q
          ∙ ap (cross side id who price quantity) begun_opp

      module _ (left : (s.pool.orders o).quantity ≡ crossed.left)
          (book : resting s.pool.orders (slots opp') ≡ crossed.book) (b' : OrderBook)
          (own' : Queues) (rested : Rested side between own opp' o id who price b' own') where
        abbrev after : List Trade → List Resting → List Resting → Entered
        after ts xs ys = record { trades = ts; own = xs; opposite = ys }

        abbrev own_after : ℕ → List Resting → List Resting
        own_after q rs =
            if q == 0
            then rs
            else place side
                (record { order_id = id; participant_id = who; price = price; quantity = q }) rs

        same_pool : between.pool ≡ s.pool
        same_pool =
            with_levels-pool (opposite side) s.levels
              (record begun { pool = s.pool; order_index = s.order_index })

        own_lem :
            resting b'.pool.orders (slots own') ≡ own_after crossed.left (resting m (slots own))
        own_lem =
            rested.0
            ∙ ap (λ (x : OrderPool). own_after (x.orders o).quantity (resting x.orders (slots own)))
                same_pool
            ∙ ap (λ q. own_after q (resting s.pool.orders (slots own))) left
            ∙ ap (own_after crossed.left) between_own

        opp_lem : resting b'.pool.orders (slots opp') ≡ crossed.book
        opp_lem = rested.1 ∙ ap (λ (x : OrderPool). resting x.orders (slots opp')) same_pool ∙ book

        pub entered_lem :
            after crossed.trades
              (resting b'.pool.orders (slots own'))
              (resting b'.pool.orders (slots opp'))
            ≡ enter side id who price quantity (resting m (slots own)) (resting m (slots opp))
        entered_lem =
            ap (λ xs. after crossed.trades xs (resting b'.pool.orders (slots opp'))) own_lem
            ∙ ap (after crossed.trades (own_after crossed.left (resting m (slots own)))) opp_lem
            ∙ ap (λ (c : Crossed). after c.trades (own_after c.left (resting m (slots own))) c.book)
                crossed_lem
