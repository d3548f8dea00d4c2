-- ===== src/OrderBook/MatchAt.antt =====
-- Whether and how `addLimitOrder` of include/order_book.h matches, against `cross`.
use market_maker_ops.Prelude.{
  ℕ, suc, ◌≡◌, refl, sym, subst, ap, ◌∙◌, if_cases, some, Option, List, [], ◌∷◌, ◌++◌, arith,
}
use market_maker_ops.Order.{Side, buy, sell, Trade, Slot}
use market_maker_ops.PriceLevel.{PriceLevel}
use market_maker_ops.OrderBook.{OrderBook, side_levels, with_levels, back, match_at, match_side}
use market_maker_ops.OrderBook.Levels.{opposite}
use market_maker_ops.OrderBook.Match.{Matching, misses, match_loop}
use market_maker_ops.OrderBook.Match.Spec.{Crossed, cross, Queues, slots, resting, resting_at}
use market_maker_ops.OrderBook.Match.Ladder.{Ladder}
use market_maker_ops.OrderBook.Match.Invariant.{IsMatching}
use market_maker_ops.OrderBook.Match.Progress.{Progress, Progress-refl}
use market_maker_ops.OrderBook.Match.Cross.{misses-refuses, cross-misses}
use market_maker_ops.OrderBook.Match.Loop.{match_loop_lem}
use market_maker_ops.OrderBook.Pending.{IsPending, pending-IsMatching}

-- The book behind a run of the loop.
abbrev pub matched : Side → OrderBook → Matching → OrderBook
matched side b s =
    with_levels (opposite side) s.levels (record b { pool = s.pool; order_index = s.order_index })

matched_same :
    (side : Side) (b : OrderBook)
    → matched side b (record {
      pool = b.pool;
      levels = side_levels (opposite side) b;
      order_index = b.order_index;
    })
      ≡ b
matched_same buy b = refl
matched_same sell b = refl

module _ (side : Side) (b : OrderBook) (own opp : Queues) (free : List Slot) (o : Slot)
    (id who limit : ℕ)
    (is : IsPending side b.pool b.order_index
      (side_levels side b)
      (side_levels (opposite side) b)
      own
      opp
      free
      o
      id
      who
      limit) where
  abbrev pub start : Matching
  start = record {
    pool = b.pool;
    levels = side_levels (opposite side) b;
    order_index = b.order_index;
  }

  abbrev crossed : Crossed
  crossed = cross side id who limit (b.pool.orders o).quantity (resting b.pool.orders (slots opp))

  abbrev pub Matches : Crossed → Option (List Trade × OrderBook) → Type 0
  Matches c x =
      (s : Matching) × (opp' : Queues) × (free' : List Slot) × (x
        ≡ some (c.trades, matched side b s))
      × IsMatching o id who s opp' free'
      × ((s.pool.orders o).quantity ≡ c.left)
      × (resting s.pool.orders (slots opp') ≡ c.book)
      × Progress o start opp free s opp' free'

  ready : IsMatching o id who start opp free
  ready =
      pending-IsMatching side b.pool b.order_index (side_levels side b)
        (side_levels (opposite side) b) own opp free o id who limit is

  -- The book stays as it is where `cross` does nothing.
  untouched :
      crossed ≡ record {
        trades = [];
        left = (b.pool.orders o).quantity;
        book = resting b.pool.orders (slots opp);
      }
      → Matches crossed (some ([], b))
  untouched e =
      subst (λ c. Matches c (some ([], b))) (sym e)
        (
          start,
          opp,
          free,
          ap (λ x. some ([], x)) (sym (matched_same side b)),
          ready,
          refl,
          refl,
          Progress-refl o start opp free,
        )

  match_side-run :
      (ts : List Trade) (s : Matching)
      → match_loop (suc (b.pool.orders o).quantity) side o (b.pool.orders o).price start
        ≡ some (ts, s)
      → match_side side o b ≡ some (ts, matched side b s)
  unfolding match_side
  match_side-run ts s e = rw e refl

  match_side_lem : Matches crossed (match_side side o b)
  match_side_lem =
      let (s, opp', free', e, ism, left, book, p) =
        match_loop_lem (suc (b.pool.orders o).quantity) side o id who limit start opp free ready
          (omega arith) in
      (
        s,
        opp',
        free',
        match_side-run crossed.trades s (
            subst
              (λ price.
                match_loop (suc (b.pool.orders o).quantity) side o price start
                ≡ some (crossed.trades, s))
              (sym is.price) e),
        ism,
        left,
        book,
        p,
      )

  -- The best level of the other side decides whether there is a match.
  at_best :
      (ls : List PriceLevel) (qs : Queues)
      → Ladder b.pool.orders ls qs
      → resting b.pool.orders (slots qs) ≡ resting b.pool.orders (slots opp)
      → Matches crossed (match_at side o limit (back ls) b)
  unfolding match_at
  at_best [] [] d e = untouched (
      subst
        (λ rs.
          cross side id who limit (b.pool.orders o).quantity rs
          ≡ record { trades = []; left = (b.pool.orders o).quantity; book = rs })
        e refl)
  at_best [] (q ∷ qs) d e = absurd d
  at_best (l ∷ ls) [] d e = absurd d
  at_best (l ∷ ls) ((r, ps) ∷ qs) d e =
      if_cases (Matches crossed) (misses side limit l.price)
        (λ h. untouched (
          subst
            (λ rs.
              cross side id who limit (b.pool.orders o).quantity rs
              ≡ record { trades = []; left = (b.pool.orders o).quantity; book = rs })
            e
            (cross-misses side id who limit (b.pool.orders o).quantity (resting_at b.pool.orders r)
              (resting b.pool.orders (ps ++ slots qs))
              (sym (misses-refuses side limit (b.pool.orders r).price)
                ∙ ap (misses side limit) d.1.0
                ∙ h))))
        (λ h. match_side_lem)

  pub match_at_lem :
      Matches crossed (match_at side o limit (back (side_levels (opposite side) b)) b)
  match_at_lem = at_best (side_levels (opposite side) b) opp is.opp_side.ladder refl
