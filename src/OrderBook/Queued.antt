-- ===== src/OrderBook/Queued.antt =====
-- The end of `addLimitOrder` of include/order_book.h when something is left of the incoming order: it
-- joins the queue of its price.
use market_maker_ops.Prelude.{
  ℕ, ◌<◌, ◌≡◌, refl, sym, subst, ap, ◌∙◌, false, ◌||◌, inl, inr, none, List, [], ◌∷◌, ◌++◌,
  append_assoc, arith, ◌==◌, ==_iff, Bool-cases, length, lookup, try_emplace, nat_key,
}
use market_maker_ops.Order.{Side, Order, Slot, Store}
use market_maker_ops.PriceLevel.{PriceLevel}
use market_maker_ops.PriceLevel.Links.{
  has, ◌∈◌, ◌∉◌, Distinct, Disjoint, mem-append_left, mem-append_right, not_mem-append,
  not_mem_cons, cons_not_mem, Disjoint-sym,
}
use market_maker_ops.PriceLevel.Queue.{IsQueue}
use market_maker_ops.PriceLevel.Middle.{
  apart_middle, has-middle, length-middle, middle-Distinct, middle-Within,
}
use market_maker_ops.PriceLevel.AddToTail.{Appended}
use market_maker_ops.OrderPool.{OrderPool}
use market_maker_ops.OrderPool.FreeList.{Within}
use market_maker_ops.OrderBook.Levels.{opposite}
use market_maker_ops.OrderBook.Levels.Split.{Finds}
use market_maker_ops.OrderBook.Match.{with_orders}
use market_maker_ops.OrderBook.Match.Spec.{Resting, Queues, slots, resting, resting_at}
use market_maker_ops.OrderBook.Match.Ladder.{
  SameAt, Rests, Rests-SameDataAt, resting-SameDataAt, Ladder, Ladder-SameAt,
}
use market_maker_ops.OrderBook.Match.Parts.{slots-append, resting-append, append-Ladder}
use market_maker_ops.OrderBook.Match.Retire.{IsPool-with_orders}
use market_maker_ops.OrderBook.Match.Invariant.{pop, slots-pop}
use market_maker_ops.OrderBook.Abstract.{place}
use market_maker_ops.OrderBook.Index.{OneMore, Indexed, Indexed-try_emplace}
use market_maker_ops.OrderBook.WellFormed.{OnSide, live, IsState, OnSide-mem}
use market_maker_ops.OrderBook.Withdraw.{Sorted-level, OnSide-all}
use market_maker_ops.OrderBook.Pending.{IsPending, IsSide-SameAt}
use market_maker_ops.OrderBook.Gap.{Gap, Finds-Gap, Gap-place}

-- A level with an order at least.
full-Ladder :
    (m : Store) (l : PriceLevel) (ls : List PriceLevel) (ps : List Slot) (o : Slot) (qs : Queues)
    → IsQueue m l (ps ++ o ∷ [])
    → Rests m l.price (ps ++ o ∷ [])
    → Ladder m ls qs
    → Ladder m (l ∷ ls) (pop (ps ++ o ∷ []) qs)
full-Ladder m l ls [] o qs q r d = (q, r, d)
full-Ladder m l ls (p ∷ ps) o qs q r d = (q, r, d)

Rests-snoc :
    (m : Store) (price : ℕ) (ps : List Slot) (o : Slot)
    → Rests m price ps
    → Rests m price (o ∷ [])
    → Rests m price (ps ++ o ∷ [])
Rests-snoc m price [] o r s = s
Rests-snoc m price (p ∷ ps) o r s = (r.0, r.1, r.2, Rests-snoc m price ps o r.3 s)

module _ (side : Side) (of : OrderPool) (ids : List (ℕ × Slot))
    (levels opp_levels : List PriceLevel) (own opp : Queues) (free : List Slot) (o : Slot)
    (id who limit : ℕ) (is : IsPending side of ids levels opp_levels own opp free o id who limit)
    (pos : 0 < (of.orders o).quantity) (fresh : lookup id ids ≡ none) (k : PriceLevel)
    (front behind : List PriceLevel) (f : Finds side limit levels k front behind) where
  abbrev m : Store
  m = of.orders

  abbrev pub gap : Gap m k front behind own
  gap = Finds-Gap m side limit levels k front behind own f is.own_side.ladder

  abbrev ahead : List Slot
  ahead = slots gap.first ++ gap.here

  abbrev rest : List Slot
  rest = slots gap.last ++ slots opp

  live_lem : live own opp ≡ ahead ++ rest
  live_lem =
      ap (λ xs. xs ++ slots opp)
        (gap.place ∙ sym (append_assoc (slots gap.first) gap.here (slots gap.last)))
      ∙ append_assoc ahead (slots gap.last) (slots opp)

  parts_lem : live own opp ≡ slots gap.first ++ (gap.here ++ rest)
  parts_lem = live_lem ∙ append_assoc (slots gap.first) gap.here rest

  outside_lem : Disjoint (slots gap.first) (o ∷ gap.here) × Disjoint rest (o ∷ gap.here)
  outside_lem =
      let (out, d) = is.accounts.distinct in
      apart_middle o (slots gap.first) gap.here rest (subst Distinct parts_lem d)
        (subst (λ xs. o ∉ xs) parts_lem out)

  o_out : o ∉ ahead ++ rest
  o_out = subst (λ xs. o ∉ xs) live_lem is.accounts.distinct.0

  pub here_out : o ∉ gap.here
  here_out =
      (not_mem-append o gap.here rest
        (not_mem-append o (slots gap.first) (gap.here ++ rest)
          (subst (λ xs. o ∉ xs) parts_lem is.accounts.distinct.0)).1).0

  module _ (r : PriceLevel × Store) (a : Appended o gap.here k m r) where
    abbrev n : Store
    n = r.1

    abbrev pub queued : Queues
    queued = gap.first ++ pop (gap.here ++ o ∷ []) gap.last

    slots-queued : slots queued ≡ ahead ++ o ∷ slots gap.last
    slots-queued =
        slots-append gap.first (pop (gap.here ++ o ∷ []) gap.last)
        ∙ ap (◌++◌ (slots gap.first)) (slots-pop (gap.here ++ o ∷ []) gap.last)
        ∙ simp append_assoc

    live-queued : live queued opp ≡ ahead ++ o ∷ rest
    live-queued = ap (λ xs. xs ++ slots opp) slots-queued ∙ simp append_assoc

    same_first : SameAt (slots gap.first) m n
    same_first p i = a.outside p (outside_lem.0 p i)

    same_rest : SameAt rest m n
    same_rest p i = a.outside p (outside_lem.1 p i)

    rests_lem : Rests n r.0.price (gap.here ++ o ∷ [])
    rests_lem =
        subst (λ p. Rests n p (gap.here ++ o ∷ [])) (sym a.price)
          (Rests-SameDataAt m n k.price (gap.here ++ o ∷ []) (λ p i. a.same p)
            (Rests-snoc m k.price gap.here o gap.rests (is.price ∙ sym f.price, pos, is.bound, tt)))

    ladder_lem : Ladder n (front ++ r.0 ∷ behind) queued
    ladder_lem =
        append-Ladder n front (r.0 ∷ behind) gap.first (pop (gap.here ++ o ∷ []) gap.last)
          (Ladder-SameAt m n front gap.first same_first gap.front_ladder)
          (full-Ladder n r.0 behind gap.here o gap.last a.queue rests_lem (
            Ladder-SameAt m n behind gap.last
              (λ p i. same_rest p (mem-append_left p (slots gap.last) (slots opp) i))
              gap.behind_ladder))

    in_own : (p : Slot) → p ∈ slots queued → (p == o) ≡ false → p ∈ slots own
    in_own p i ne = ground (
      arith,
      ne,
      subst (λ xs. p ∈ xs) slots-queued i,
      has-middle p o ahead (slots gap.last),
      ap (has p) (gap.place ∙ sym (append_assoc (slots gap.first) gap.here (slots gap.last))),
    )

    on_side_lem : OnSide n side (slots queued)
    on_side_lem = OnSide-all n side (slots queued) λ p i.
        ap (λ (x : Order). x.side) (a.same p) ∙ (elim (Bool-cases (p == o)) [
          | inl e ↦ subst (λ x. (m x).side ≡ side) (sym ((==_iff p o).0 e)) is.on_side
          | inr ne ↦ OnSide-mem m side p (slots own) is.own_side.on_side (in_own p i ne)
        ])

    free_out : (p : Slot) → p ∈ free → p ∉ o ∷ gap.here
    free_out p i =
        let (ne, out) =
          not_mem_cons p o (live own opp)
            (Disjoint-sym (o ∷ live own opp) free is.accounts.apart p i) in
        cons_not_mem p o gap.here ne
          (not_mem-append p gap.here rest
            (not_mem-append p (slots gap.first) (gap.here ++ rest)
              (subst (λ xs. p ∉ xs) parts_lem out)).1).0

    one_more : OneMore o (live queued opp) (live own opp)
    one_more = (
      λ p.
          ap (has p) live-queued
          ∙ has-middle p o ahead rest
          ∙ ap (λ xs. (p == o) || has p xs) (sym live_lem),
      is.accounts.distinct.0,
    )

    id_lem : (n o).order_id ≡ id
    id_lem = ap (λ (x : Order). x.order_id) (a.same o) ∙ is.order_id

    pub queued-IsState :
        IsState side
          (with_orders n of)
          (try_emplace id o ids)
          (front ++ r.0 ∷ behind)
          opp_levels
          queued
          opp
          free
    queued-IsState = record {
      pool =
          IsPool-with_orders of n free
            (λ p i. ap (λ (x : Order). x.next) (a.outside p (free_out p i))) is.pool;
      own_side = record {
        ladder = ladder_lem;
        sorted = Sorted-level side front r.0 k behind a.price f.whole;
        on_side = on_side_lem;
      };
      opp_side =
          IsSide-SameAt m n (opposite side) opp_levels opp
            (λ p i. same_rest p (mem-append_right p (slots gap.last) (slots opp) i)) is.opp_side;
      distinct =
          subst Distinct (sym live-queued)
            (middle-Distinct o ahead rest (subst Distinct live_lem is.accounts.distinct.1) o_out);
      apart = λ p i. is.accounts.apart p (sym (one_more.0 p) ∙ i);
      within = subst (Within of.capacity) (sym live-queued) (
          middle-Within of.capacity o ahead rest is.accounts.within.0
            (subst (Within of.capacity) live_lem is.accounts.within.1));
      index =
          subst (λ key. Indexed n (live queued opp) (try_emplace key o ids)) id_lem
            (Indexed-try_emplace m n o (live queued opp) (live own opp) ids one_more
              (λ p i. ap (λ (x : Order). x.order_id) (a.same p)) is.accounts.index
              (ap (λ key. lookup key ids) id_lem ∙ fresh));
      full = omega (
        arith,
        is.accounts.full,
        ap length live-queued,
        ap length live_lem,
        length-middle o ahead rest,
      );
    }

    -- The order as it rests.
    abbrev pub entry : Resting
    entry = record { order_id = id; participant_id = who; price = limit; quantity = (m o).quantity }

    entry_lem : resting_at m o ≡ entry
    entry_lem = rw (is.order_id, is.participant_id, is.price) refl

    pub resting-queued : resting n (slots queued) ≡ place side entry (resting m (slots own))
    resting-queued =
        ap (resting n) slots-queued
        ∙ resting-SameDataAt m n (ahead ++ o ∷ slots gap.last) (λ p i. a.same p)
        ∙ resting-append m ahead (o ∷ slots gap.last)
        ∙ ap (λ e. resting m ahead ++ e ∷ resting m (slots gap.last)) entry_lem
        ∙ sym (Gap-place m side k front behind own entry gap f.price f.around.better f.around.worse)

    pub resting-opp : resting n (slots opp) ≡ resting m (slots opp)
    resting-opp = resting-SameDataAt m n (slots opp) (λ p i. a.same p)
