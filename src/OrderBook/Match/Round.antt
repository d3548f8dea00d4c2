-- ===== src/OrderBook/Match/Round.antt =====
-- A round of the loop of `matchBuy` and `matchSell` of include/order_book.h, against the side as one
-- list of resting orders.
use market_maker_ops.Prelude.{
  ℕ, ◌-◌, ◌<◌, ◌≤◌, ◌≡◌, refl, sym, subst, ap, ◌∙◌, false, some, List, [], ◌∷◌, ◌++◌, arith, ◌==◌,
  ==_comm, erase, nat_key, if_cases,
}
use market_maker_ops.Order.{Side, Order, Slot, Store}
use market_maker_ops.PriceLevel.{PriceLevel, sub32, is_empty}
use market_maker_ops.PriceLevel.Links.{
  ◌∉◌, Distinct, Disjoint, Disjoint-sym, ne_of_mem, Distinct-append, mem-append_left,
  mem-append_right, not_mem-append, not_mem_cons, cons_not_mem,
}
use market_maker_ops.PriceLevel.Queue.{payload}
use market_maker_ops.OrderPool.{OrderPool}
use market_maker_ops.OrderPool.FreeList.{Within}
use market_maker_ops.OrderBook.Levels.{drop_empty}
use market_maker_ops.OrderBook.Levels.Prices.{prices}
use market_maker_ops.OrderBook.Match.{Matching, with_orders, trade_of, retire, fill}
use market_maker_ops.OrderBook.Match.Spec.{Queues, slots, resting, resting_at, shrink}
use market_maker_ops.OrderBook.Match.Ladder.{
  Rests, Ladder, SameAt, SameDataAt, Rests-SameDataAt, resting-SameDataAt, Ladder-SameAt,
}
use market_maker_ops.OrderBook.Match.Fill.{
  after_fill, less, Filled, after_fill-Filled, Filled-SameAt, Filled-IsQueue,
}
use market_maker_ops.OrderBook.Match.Retire.{IsPool-with_orders, Retired, retire_lem, retire-kept}
use market_maker_ops.OrderBook.Match.Progress.{identity, Progress, Filled-SameIdentity}
use market_maker_ops.OrderBook.Match.Invariant.{IsMatching, pop, slots-pop, pop-Ladder, fill-retire}

-- The incoming order is smaller than the resting one, which stays.
abbrev pub shrunk : (o r : Slot) → PriceLevel → List PriceLevel → Matching → Matching
shrunk o r pl rest s =
    let q = (s.pool.orders o).quantity in
    record s {
      pool = with_orders (after_fill s.pool.orders o r q) s.pool;
      levels = (record pl { total_quantity = sub32 pl.total_quantity q }) ∷ rest;
    }

module _ (o : Slot) (id who : ℕ) (s : Matching) (r : Slot) (ps : List Slot) (qs : Queues)
    (free : List Slot) (pl : PriceLevel) (rest : List PriceLevel)
    (is : IsMatching o id who (record s { levels = pl ∷ rest }) ((r, ps) ∷ qs) free) where
  abbrev orders : Store
  orders = s.pool.orders

  abbrev others : List Slot
  others = ps ++ slots qs

  o_apart : ((o == r) ≡ false) × (o ∉ others)
  o_apart = not_mem_cons o r others is.outside

  behind : (q : ℕ) (n : Store) → Filled o r q orders n → SameAt others orders n
  behind q n f = Filled-SameAt orders n o r q others f o_apart.1 is.distinct.0

  in_level : (n : Store) → SameAt others orders n → SameDataAt ps orders n
  in_level n same a i = ap payload (same a (mem-append_left a ps (slots qs) i))

  in_rest : (n : Store) → SameAt others orders n → SameAt (slots qs) orders n
  in_rest n same a i = same a (mem-append_right a ps (slots qs) i)

  out_of_level : o ∉ r ∷ ps
  out_of_level = cons_not_mem o r ps o_apart.0 (not_mem-append o ps (slots qs) o_apart.1).0

  module _ (less_than : (orders o).quantity < (orders r).quantity) where
    abbrev after : Store
    after = after_fill orders o r (orders o).quantity

    shrunk-Filled : Filled o r (orders o).quantity orders after
    shrunk-Filled =
        after_fill-Filled orders o r (orders o).quantity o_apart.0 (omega arith) is.bound
          (omega arith) is.ladder.1.2

    shrunk_left : (after r).quantity ≡ (orders r).quantity - (orders o).quantity
    shrunk_left = ap (λ (x : Order). x.quantity) shrunk-Filled.resting

    pub shrunk-done : (after o).quantity ≡ 0
    shrunk-done = omega (arith, ap (λ (x : Order). x.quantity) shrunk-Filled.incoming)

    shrunk-Ladder : Ladder after (shrunk o r pl rest s).levels ((r, ps) ∷ qs)
    shrunk-Ladder =
        let same = behind (orders o).quantity after shrunk-Filled in
        (
          Filled-IsQueue orders after o r (orders o).quantity pl ps shrunk-Filled out_of_level
              (omega arith) is.bound is.ladder.0,
          (
            ap (λ (x : Order). x.price) shrunk-Filled.resting ∙ is.ladder.1.0,
            omega (arith, shrunk_left, less_than),
            omega (arith, shrunk_left, is.ladder.1.2),
            Rests-SameDataAt orders after pl.price ps (in_level after same) is.ladder.1.3,
          ),
          Ladder-SameAt orders after rest qs (in_rest after same) is.ladder.2,
        )

    pub shrunk-IsMatching : IsMatching o id who (shrunk o r pl rest s) ((r, ps) ∷ qs) free
    shrunk-IsMatching = record {
      ladder = shrunk-Ladder;
      pool = IsPool-with_orders s.pool after free (λ a i. (shrunk-Filled.links a).1) is.pool;
      distinct = is.distinct;
      apart = is.apart;
      within = is.within;
      outside = is.outside;
      bound = omega (arith, shrunk-done);
      order_id = ap (λ (x : Order). x.order_id) shrunk-Filled.incoming ∙ is.order_id;
      participant_id =
          ap (λ (x : Order). x.participant_id) shrunk-Filled.incoming ∙ is.participant_id;
    }

    pub shrunk-Progress :
        Progress o
          (record s { levels = pl ∷ rest })
          ((r, ps) ∷ qs)
          free
          (shrunk o r pl rest s)
          ((r, ps) ∷ qs)
          free
    shrunk-Progress = record {
      dead = [];
      gone = [];
      split = refl;
      freed = refl;
      index = refl;
      levels = refl;
      same = Filled-SameIdentity orders after o r (orders o).quantity shrunk-Filled;
      outside = λ a i.
          let (ne, out) = not_mem_cons a o (r ∷ others) i in
          shrunk-Filled.elsewhere a ne (not_mem_cons a r others out).0;
      capacity = refl;
    }

    pub resting-shrunk :
        resting after (r ∷ others)
        ≡ shrink (resting_at orders r) (orders o).quantity ∷ resting orders others
    resting-shrunk = rw (shrunk-Filled.resting) (
        ap (◌∷◌ (shrink (resting_at orders r) (orders o).quantity)) (
          resting-SameDataAt orders after others
            (λ a i. ap payload (behind (orders o).quantity after shrunk-Filled a i))))

    pub fill-shrunk :
        (side : Side)
        → fill side o r pl rest s
          ≡ some (
            trade_of side (orders o).order_id (orders r).order_id pl.price (orders o).quantity,
            shrunk o r pl rest s,
          )
    fill-shrunk side =
        fill-retire side o r pl rest s (shrunk o r pl rest s) (orders o).quantity (omega arith)
          shrunk-Filled
          (retire-kept r r _ rest _ (omega (arith, shrunk_left, less_than)) is.ladder.0.head)

  module _ (at_most : (orders r).quantity ≤ (orders o).quantity) where
    abbrev emptied : Store
    emptied = after_fill orders o r (orders r).quantity

    abbrev emptied_level : PriceLevel
    emptied_level = record pl { total_quantity = sub32 pl.total_quantity (orders r).quantity }

    abbrev emptied_state : Matching
    emptied_state = record s { pool = with_orders emptied s.pool }

    emptied-Filled : Filled o r (orders r).quantity orders emptied
    emptied-Filled =
        after_fill-Filled orders o r (orders r).quantity o_apart.0 at_most is.bound (omega arith)
          is.ladder.1.2

    r_free : r ∉ free
    r_free = is.apart r (ground arith)

    others_apart : Disjoint others free
    others_apart a i = is.apart a (ground arith)

    gone :
        (l : PriceLevel) × (p : OrderPool) × (retire r emptied_level rest emptied_state
          ≡ some (record {
            pool = p;
            levels = drop_empty l rest;
            order_index = erase (emptied r).order_id s.order_index;
          }))
        × Retired r ps free pl.price emptied_state.pool l p
    gone =
        retire_lem r ps free emptied_level rest emptied_state
          (Filled-IsQueue orders emptied o r (orders r).quantity pl ps emptied-Filled out_of_level
            (omega arith) is.ladder.1.2 is.ladder.0)
          (IsPool-with_orders s.pool emptied free (λ a i. (emptied-Filled.links a).1) is.pool)
          is.within.0 r_free (λ a i. others_apart a (mem-append_left a ps (slots qs) i))
          (omega (arith, ap (λ (x : Order). x.quantity) emptied-Filled.resting))

    module _ (l : PriceLevel) (p : OrderPool)
        (d : Retired r ps free pl.price emptied_state.pool l p) where
      abbrev popped : Matching
      popped = record {
        pool = p;
        levels = drop_empty l rest;
        order_index = erase (emptied r).order_id s.order_index;
      }

      popped-SameAt : SameAt (slots qs) orders p.orders
      popped-SameAt a i =
          d.outside a (
            Disjoint-sym (r ∷ ps) (slots qs) (Distinct-append (r ∷ ps) (slots qs) is.distinct).2 a
              i)
          ∙ in_rest emptied (behind (orders r).quantity emptied emptied-Filled) a i

      popped-SameDataAt : SameDataAt others orders p.orders
      popped-SameDataAt a i =
          d.same a ∙ ap payload (behind (orders r).quantity emptied emptied-Filled a i)

      popped_incoming : payload (p.orders o) ≡ payload (less (orders o) (orders r).quantity)
      popped_incoming = d.same o ∙ ap payload emptied-Filled.incoming

      pub popped_left : (p.orders o).quantity ≡ (orders o).quantity - (orders r).quantity
      popped_left = ap (λ (x : Order). x.quantity) popped_incoming

      popped-Ladder : Ladder p.orders popped.levels (pop ps qs)
      popped-Ladder =
          pop-Ladder p.orders l rest ps qs d.queue
            (subst (λ price. Rests p.orders price ps) (sym d.price)
              (Rests-SameDataAt orders p.orders pl.price ps
                (λ a i. popped-SameDataAt a (mem-append_left a ps (slots qs) i)) is.ladder.1.3))
            (Ladder-SameAt orders p.orders rest qs popped-SameAt is.ladder.2)

      others-Disjoint : Disjoint others (r ∷ free)
      others-Disjoint a i =
          cons_not_mem a r free (==_comm a r ∙ ne_of_mem r a others is.distinct.0 i)
            (others_apart a i)

      pub popped-IsMatching : IsMatching o id who popped (pop ps qs) (r ∷ free)
      popped-IsMatching = record {
        ladder = popped-Ladder;
        pool = d.pool;
        distinct = subst Distinct (sym (slots-pop ps qs)) is.distinct.1;
        apart = subst (λ a. Disjoint a (r ∷ free)) (sym (slots-pop ps qs)) others-Disjoint;
        within =
            subst (λ a. Within p.capacity a) (sym (slots-pop ps qs))
              (subst (λ n. Within n others) (sym d.capacity) is.within.1);
        outside = subst (λ a. o ∉ a) (sym (slots-pop ps qs)) o_apart.1;
        bound = omega (arith, popped_left, is.bound);
        order_id = ap (λ (x : Order). x.order_id) popped_incoming ∙ is.order_id;
        participant_id = ap (λ (x : Order). x.participant_id) popped_incoming ∙ is.participant_id;
      }

      pub resting-popped : resting p.orders (slots (pop ps qs)) ≡ resting orders others
      resting-popped =
          ap (resting p.orders) (slots-pop ps qs)
          ∙ resting-SameDataAt orders p.orders others popped-SameDataAt

      popped_gone : (gone : List ℕ) × (prices (pl ∷ rest) ≡ gone ++ prices popped.levels)
      popped_gone =
          if_cases (λ ls. (gone : List ℕ) × (prices (pl ∷ rest) ≡ gone ++ prices ls)) (is_empty l)
            (λ e. (pl.price ∷ [], refl)) (λ e. ([], ap (λ p. p ∷ prices rest) (sym d.price)))

      pub popped-Progress :
          Progress o
            (record s { levels = pl ∷ rest })
            ((r, ps) ∷ qs)
            free
            popped
            (pop ps qs)
            (r ∷ free)
      popped-Progress = record {
        dead = r ∷ [];
        gone = popped_gone.0;
        split = ap (◌∷◌ r) (sym (slots-pop ps qs));
        freed = refl;
        index = ap (λ (x : Order). erase x.order_id s.order_index) emptied-Filled.resting;
        levels = popped_gone.1;
        same = λ a.
            ap identity (d.same a)
            ∙ Filled-SameIdentity orders emptied o r (orders r).quantity emptied-Filled a;
        outside = λ a i.
            let (ne, out) = not_mem_cons a o (r ∷ others) i in
            let (ne', out') = not_mem_cons a r others out in
            d.outside a (cons_not_mem a r ps ne' (not_mem-append a ps (slots qs) out').0)
            ∙ emptied-Filled.elsewhere a ne ne';
        capacity = d.capacity;
      }

    -- The round takes the resting order off its level.
    pub fill-popped :
        (side : Side)
        → (s' : Matching) × (fill side o r pl rest s
            ≡ some (
              trade_of side (orders o).order_id (orders r).order_id pl.price (orders r).quantity,
              s',
            ))
          × IsMatching o id who s' (pop ps qs) (r ∷ free)
          × ((s'.pool.orders o).quantity ≡ (orders o).quantity - (orders r).quantity)
          × (resting s'.pool.orders (slots (pop ps qs)) ≡ resting orders others)
          × Progress o
              (record s { levels = pl ∷ rest })
              ((r, ps) ∷ qs)
              free
              s'
              (pop ps qs)
              (r ∷ free)
    fill-popped side =
        let (l, p, e, d) = gone in
        (
          popped l p d,
          fill-retire side o r pl rest s (popped l p d) (orders r).quantity (omega arith)
              emptied-Filled e,
          popped-IsMatching l p d,
          popped_left l p d,
          resting-popped l p d,
          popped-Progress l p d,
        )
