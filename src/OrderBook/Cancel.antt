-- ===== src/OrderBook/Cancel.antt =====
-- `cancelOrder` of include/order_book.h: the order leaves its level, the index and the pool.
use market_maker_ops.Prelude.{
  ◌+◌, ◌<◌, ◌≡◌, sym, subst, ap, ◌∙◌, some, List, [], ◌∷◌, ◌++◌, append_assoc, arith, ==_comm,
  if_cases, length, erase, nat_key,
}
use market_maker_ops.Order.{Side, Order, Slot, Store}
use market_maker_ops.PriceLevel.{PriceLevel, remove, is_empty}
use market_maker_ops.PriceLevel.Links.{
  has, ◌∈◌, ◌∉◌, Distinct, Disjoint, has-append, mem-append_left, mem-append_right, cons_not_mem,
  ne_of_mem, not_mem-append, Distinct-append, Disjoint-sym,
}
use market_maker_ops.PriceLevel.Middle.{
  mem-middle, has-middle, length-middle, Distinct-middle, Within-middle,
}
use market_maker_ops.OrderPool.{OrderPool, deallocate}
use market_maker_ops.OrderPool.FreeList.{Within}
use market_maker_ops.OrderBook.{OrderBook, side_levels}
use market_maker_ops.OrderBook.Levels.{opposite, rejoin, drop_empty}
use market_maker_ops.OrderBook.Levels.Search.{Sorted}
use market_maker_ops.OrderBook.Levels.Split.{rejoin-append}
use market_maker_ops.OrderBook.Match.{with_orders}
use market_maker_ops.OrderBook.Match.Spec.{Queues, slots}
use market_maker_ops.OrderBook.Match.Ladder.{SameAt, Rests, Rests-SameDataAt, Ladder, Ladder-SameAt}
use market_maker_ops.OrderBook.Match.Parts.{slots-append, append-Ladder}
use market_maker_ops.OrderBook.Match.Retire.{Retired, freed}
use market_maker_ops.OrderBook.Match.Invariant.{pop, slots-pop, pop-Ladder}
use market_maker_ops.OrderBook.Index.{OneMore, Indexed, Indexed-erase}
use market_maker_ops.OrderBook.WellFormed.{IsSide, live, IsState, IsBook, OnSide-mem}
use market_maker_ops.OrderBook.Locate.{Located, locate}
use market_maker_ops.OrderBook.Withdraw.{Rests-middle, Sorted-level, OnSide-all}

module _ (side : Side) (b : OrderBook) (own opp : Queues) (free : List Slot)
    (is : IsBook side b own opp free) (o : Slot) (in_own : o ∈ slots own) where
  abbrev pub m : Store
  m = b.pool.orders

  abbrev pub at : Located m side (side_levels side b) own o
  at = locate m side (side_levels side b) own o is.own_side in_own

  abbrev pub before_it : List Slot
  before_it = slots at.first ++ at.xs

  abbrev pub after_it : List Slot
  after_it = at.ys ++ slots at.last

  -- The live slots but this one.
  abbrev pub others : List Slot
  others = before_it ++ (after_it ++ slots opp)

  whole_lem : live own opp ≡ before_it ++ o ∷ (after_it ++ slots opp)
  whole_lem =
      ap (λ xs. xs ++ slots opp) at.place ∙ append_assoc before_it (o ∷ after_it) (slots opp)

  pub others_lem : Distinct others × (o ∉ others)
  others_lem =
      Distinct-middle o before_it (after_it ++ slots opp) (subst Distinct whole_lem is.distinct)

  pub one_more : OneMore o (live own opp) others
  one_more =
      (λ a. ap (has a) whole_lem ∙ has-middle a o before_it (after_it ++ slots opp), others_lem.1)

  o_live : o ∈ live own opp
  o_live = mem-append_left o (slots own) (slots opp) in_own

  pub still_live : (a : Slot) → a ∈ others → a ∈ live own opp
  still_live a i = ground (arith, one_more.0 a)

  in_level : (a : Slot) → a ∈ at.xs ++ at.ys → a ∈ others
  in_level a i = ground (
    arith,
    has-append a at.xs at.ys,
    has-append a before_it (after_it ++ slots opp),
    has-append a (slots at.first) at.xs,
    has-append a after_it (slots opp),
    has-append a at.ys (slots at.last),
  )

  in_bounds : (o < b.pool.capacity) × Within b.pool.capacity others
  in_bounds =
      Within-middle b.pool.capacity o before_it (after_it ++ slots opp)
        (subst (Within b.pool.capacity) whole_lem is.within)

  pub taken_out :
      (r : OrderPool) × (deallocate o (with_orders (remove o at.level m).1 b.pool) ≡ some r)
      × Retired o (at.xs ++ at.ys) free at.level.price b.pool (remove o at.level m).0 r
  taken_out =
      freed o at.xs at.ys free at.level b.pool at.queue is.pool in_bounds.0 (is.apart o o_live)
        (λ a i. is.apart a (still_live a (in_level a i)))

  left_lem : length (o ∷ free) + length others ≡ b.pool.capacity
  left_lem =
      omega (arith, is.full, ap length whole_lem, length-middle o before_it (after_it ++ slots opp))

  -- What is left, when the order is out of its level and its slot is free.
  module _ (r : OrderPool)
      (d : Retired o (at.xs ++ at.ys) free at.level.price b.pool (remove o at.level m).0 r) where
    abbrev pub n : Store
    n = r.orders

    abbrev pub level : PriceLevel
    level = (remove o at.level m).0

    abbrev pub queues : Queues
    queues = at.first ++ pop (at.xs ++ at.ys) at.last

    pub slots-queues : slots queues ≡ before_it ++ after_it
    slots-queues =
        slots-append at.first (pop (at.xs ++ at.ys) at.last)
        ∙ ap (◌++◌ (slots at.first)) (slots-pop (at.xs ++ at.ys) at.last)
        ∙ ap (◌++◌ (slots at.first)) (append_assoc at.xs at.ys (slots at.last))
        ∙ sym (append_assoc (slots at.first) at.xs after_it)

    live-queues : live queues opp ≡ others
    live-queues =
        ap (λ xs. xs ++ slots opp) slots-queues ∙ append_assoc before_it after_it (slots opp)

    -- Slots outside the level keep their orders.
    not_in_level : (a : Slot) → a ∈ others → a ∉ at.xs ++ at.ys → a ∉ o ∷ (at.xs ++ at.ys)
    not_in_level a i out =
        cons_not_mem a o (at.xs ++ at.ys) (==_comm a o ∙ ne_of_mem o a others others_lem.1 i) out

    abbrev in_queue : List Slot
    in_queue = at.xs ++ at.ys

    abbrev elsewhere : List Slot
    elsewhere = slots at.last ++ slots opp

    parts_lem : others ≡ slots at.first ++ (in_queue ++ elsewhere)
    parts_lem = simp append_assoc

    apart_lem : Disjoint (slots at.first) (in_queue ++ elsewhere) × Disjoint in_queue elsewhere
    apart_lem =
        let (d1, d2, d3) =
          Distinct-append (slots at.first) (in_queue ++ elsewhere)
            (subst Distinct parts_lem others_lem.0) in
        (d3, (Distinct-append in_queue elsewhere d2).2)

    in_others : (a : Slot) → a ∈ slots at.first ++ (in_queue ++ elsewhere) → a ∈ others
    in_others a i = subst (λ xs. a ∈ xs) (sym parts_lem) i

    same_first : SameAt (slots at.first) m n
    same_first a i = d.outside a (
        not_in_level a (in_others a (mem-append_left a (slots at.first) (in_queue ++ elsewhere) i))
          (not_mem-append a in_queue elsewhere (apart_lem.0 a i)).0)

    same_elsewhere : SameAt elsewhere m n
    same_elsewhere a i = d.outside a (
        not_in_level a
          (in_others a (
            mem-append_right a (slots at.first) (in_queue ++ elsewhere)
              (mem-append_right a in_queue elsewhere i)))
          (Disjoint-sym in_queue elsewhere apart_lem.1 a i))

    same_last : SameAt (slots at.last) m n
    same_last a i = same_elsewhere a (mem-append_left a (slots at.last) (slots opp) i)

    same_opp : SameAt (slots opp) m n
    same_opp a i = same_elsewhere a (mem-append_right a (slots at.last) (slots opp) i)

    rests_lem : Rests n level.price in_queue
    rests_lem =
        subst (λ p. Rests n p in_queue) (sym d.price)
          (Rests-SameDataAt m n at.level.price in_queue (λ a i. d.same a)
            (Rests-middle m at.level.price o at.xs at.ys at.rests))

    ladder_lem : Ladder n (rejoin at.later (drop_empty level at.behind)) queues
    ladder_lem =
        subst (λ ls. Ladder n ls queues) (sym (rejoin-append at.later (drop_empty level at.behind)))
          (append-Ladder n (rejoin at.later []) (drop_empty level at.behind) at.first
            (pop in_queue at.last)
            (Ladder-SameAt m n (rejoin at.later []) at.first same_first at.front_ladder)
            (pop-Ladder n level at.behind in_queue at.last d.queue rests_lem
              (Ladder-SameAt m n at.behind at.last same_last at.behind_ladder)))

    sorted_lem : Sorted side (rejoin at.later (drop_empty level at.behind))
    sorted_lem = subst (Sorted side) (sym (rejoin-append at.later (drop_empty level at.behind))) (
        if_cases (λ ls. Sorted side (rejoin at.later [] ++ ls)) (is_empty level)
          (λ e. at.around.cut)
          (λ e.
            Sorted-level side (rejoin at.later []) level at.level at.behind d.price
              (subst (Sorted side) at.whole is.own_side.sorted)))

    side_of : (s : Side) (a : Slot) → (m a).side ≡ s → (n a).side ≡ s
    side_of s a e = ap (λ (x : Order). x.side) (d.same a) ∙ e

    own_side_lem : IsSide n side (rejoin at.later (drop_empty level at.behind)) queues
    own_side_lem = record {
      ladder = ladder_lem;
      sorted = sorted_lem;
      on_side = OnSide-all n side (slots queues) λ a i. side_of side a (
          OnSide-mem m side a (slots own) is.own_side.on_side (
            subst (λ xs. a ∈ xs) (sym at.place)
              (mem-middle a o before_it after_it (subst (λ xs. a ∈ xs) slots-queues i))));
    }

    opp_side_lem : IsSide n (opposite side) (side_levels (opposite side) b) opp
    opp_side_lem = record {
      ladder = Ladder-SameAt m n (side_levels (opposite side) b) opp same_opp is.opp_side.ladder;
      sorted = is.opp_side.sorted;
      on_side = OnSide-all n (opposite side) (slots opp) λ a i.
          side_of (opposite side) a
            (OnSide-mem m (opposite side) a (slots opp) is.opp_side.on_side i);
    }

    pub state_lem :
        IsState side r
          (erase (m o).order_id b.order_index)
          (rejoin at.later (drop_empty level at.behind))
          (side_levels (opposite side) b)
          queues
          opp
          (o ∷ free)
    state_lem = record {
      pool = d.pool;
      own_side = own_side_lem;
      opp_side = opp_side_lem;
      distinct = subst Distinct (sym live-queues) others_lem.0;
      apart =
          subst (λ xs. Disjoint xs (o ∷ free)) (sym live-queues)
            λ a i.
              cons_not_mem a o free (==_comm a o ∙ ne_of_mem o a others others_lem.1 i)
                (is.apart a (still_live a i));
      within =
          subst (λ k. Within k (live queues opp)) (sym d.capacity)
            (subst (Within b.pool.capacity) (sym live-queues) in_bounds.1);
      index =
          subst (λ xs. Indexed n xs (erase (m o).order_id b.order_index)) (sym live-queues)
            (Indexed-erase m n o (live own opp) others b.order_index one_more
              (λ a i. ap (λ (x : Order). x.order_id) (d.same a)) is.index);
      full = ap (λ xs. length (o ∷ free) + length xs) live-queues ∙ left_lem ∙ sym d.capacity;
    }
