-- ===== src/OrderBook/Match/Outcome.antt =====
-- How a round of the loop of `matchBuy` and `matchSell` of include/order_book.h can end.
use market_maker_ops.Prelude.{ℕ, ◌≡◌, refl, ap, Bool, true, false, some, List, [], ◌∷◌, arith, ◌==◌}
use market_maker_ops.Order.{Side, Trade, Slot, Store, set_quantity}
use market_maker_ops.PriceLevel.{PriceLevel}
use market_maker_ops.PriceLevel.Links.{ne_of_mem}
use market_maker_ops.PriceLevel.Queue.{payload}
use market_maker_ops.OrderBook.Match.{Matching, Matched, with_orders, fill, meet}
use market_maker_ops.OrderBook.Match.Spec.{Crossed, Queues, slots, resting}
use market_maker_ops.OrderBook.Match.Ladder.{SameAt, Ladder-SameAt, resting-SameDataAt}
use market_maker_ops.OrderBook.Match.Retire.{IsPool-with_orders}
use market_maker_ops.OrderBook.Match.Progress.{Progress, Progress-refl, stop-Progress}
use market_maker_ops.OrderBook.Match.Invariant.{IsMatching}

-- A run of the loop from a state that does what the specification says.
abbrev pub Crosses : Slot → ℕ → ℕ → Matching → Queues → List Slot → Crossed → Matched → Type 0
Crosses o id who s qs free c x =
    (s' : Matching) × (qs' : Queues) × (free' : List Slot) × (x ≡ some (c.trades, s'))
    × IsMatching o id who s' qs' free'
    × ((s'.pool.orders o).quantity ≡ c.left)
    × (resting s'.pool.orders (slots qs') ≡ c.book)
    × Progress o s qs free s' qs' free'

module _ (next : Matching → Matched) (side : Side) (o r : Slot) (pl : PriceLevel)
    (rest : List PriceLevel) (s : Matching) where
  abbrev pub same_participant : Bool
  same_participant = (s.pool.orders r).participant_id == (s.pool.orders o).participant_id

  pub meet_self :
      same_participant ≡ true
      → meet next side o pl rest (some r) s
        ≡ some ([], record s { pool = with_orders (set_quantity s.pool.orders o 0) s.pool })
  unfolding meet
  meet_self h = rw h refl

  pub meet-fill :
      (t : Trade) (ts : List Trade) (s' s'' : Matching)
      → same_participant ≡ false
      → fill side o r pl rest s ≡ some (t, s')
      → next s' ≡ some (ts, s'')
      → meet next side o pl rest (some r) s ≡ some (t ∷ ts, s'')
  unfolding meet
  meet-fill t ts s' s'' h e k = rw (h, e, k) refl

-- The loop stops with nothing done.
pub stays :
    (o : Slot) (id who : ℕ) (s : Matching) (qs : Queues) (free : List Slot)
    → IsMatching o id who s qs free
    → Crosses o id who s qs free
        (record {
          trades = [];
          left = (s.pool.orders o).quantity;
          book = resting s.pool.orders (slots qs);
        })
        (some ([], s))
stays o id who s qs free is = (s, qs, free, refl, is, refl, refl, Progress-refl o s qs free)

-- What is left of the incoming order is cancelled.
module _ (o : Slot) (id who : ℕ) (s : Matching) (qs : Queues) (free : List Slot)
    (is : IsMatching o id who s qs free) where
  abbrev stopped : Store
  stopped = set_quantity s.pool.orders o 0

  stopped-SameAt : SameAt (slots qs) s.pool.orders stopped
  stopped-SameAt a i = let ne = ne_of_mem o a (slots qs) is.outside i in ground arith

  stopped-IsMatching : IsMatching o id who (record s { pool = with_orders stopped s.pool }) qs free
  stopped-IsMatching = record {
    ladder = Ladder-SameAt s.pool.orders stopped s.levels qs stopped-SameAt is.ladder;
    pool = IsPool-with_orders s.pool stopped free (λ a i. ground arith) is.pool;
    distinct = is.distinct;
    apart = is.apart;
    within = is.within;
    outside = is.outside;
    bound = ground arith;
    order_id = ground (arith, is.order_id);
    participant_id = ground (arith, is.participant_id);
  }

  pub cancels :
      Crosses o id who s qs free
        (record { trades = []; left = 0; book = resting s.pool.orders (slots qs) })
        (some ([], record s { pool = with_orders stopped s.pool }))
  cancels = (
    record s { pool = with_orders stopped s.pool },
    qs,
    free,
    refl,
    stopped-IsMatching,
    ground arith,
    resting-SameDataAt s.pool.orders stopped (slots qs) (λ a i. ap payload (stopped-SameAt a i)),
    stop-Progress o 0 s qs free,
  )
