-- ===== src/OrderBook/Released.antt =====
-- The end of `addLimitOrder` of include/order_book.h when nothing is left of the incoming order: its
-- slot goes back to the pool.
use market_maker_ops.Prelude.{
  ℕ, ◌≡◌, refl, sym, subst, ap, ◌∙◌, some, List, [], ◌∷◌, arith, ==_comm,
}
use market_maker_ops.Order.{Side, Order, Slot}
use market_maker_ops.PriceLevel.{PriceLevel}
use market_maker_ops.PriceLevel.Links.{
  ◌∈◌, ◌∉◌, mem-append_left, mem-append_right, cons_not_mem, ne_of_mem,
}
use market_maker_ops.OrderPool.{OrderPool, deallocate}
use market_maker_ops.OrderPool.FreeList.{Within}
use market_maker_ops.OrderPool.Cycle.{Deallocated, deallocate_lem}
use market_maker_ops.OrderBook.Levels.{opposite}
use market_maker_ops.OrderBook.Match.Spec.{Queues, slots, resting}
use market_maker_ops.OrderBook.Match.Ladder.{SameAt, resting-SameDataAt}
use market_maker_ops.OrderBook.WellFormed.{live, IsState}
use market_maker_ops.OrderBook.Pending.{IsPending, IsSide-SameAt}

module _ (side : Side) (of : OrderPool) (ids : List (ℕ × Slot))
    (levels opp_levels : List PriceLevel) (own opp : Queues) (free : List Slot) (o : Slot)
    (id who limit : ℕ)
    (is : IsPending side of ids levels opp_levels own opp free o id who limit) where
  not_o : (a : Slot) → a ∈ live own opp → a ∉ o ∷ []
  not_o a i =
      cons_not_mem a o [] (==_comm a o ∙ ne_of_mem o a (live own opp) is.accounts.distinct.0 i) refl

  module _ (r : OrderPool) (d : Deallocated of o free r) where
    released_same : SameAt (live own opp) of.orders r.orders
    released_same a i = d.outside a (not_o a i)

    released-IsState : IsState side r ids levels opp_levels own opp (o ∷ free)
    released-IsState = record {
      pool = d.rest;
      own_side =
          IsSide-SameAt of.orders r.orders side levels own
            (λ a i. released_same a (mem-append_left a (slots own) (slots opp) i)) is.own_side;
      opp_side =
          IsSide-SameAt of.orders r.orders (opposite side) opp_levels opp
            (λ a i. released_same a (mem-append_right a (slots own) (slots opp) i)) is.opp_side;
      distinct = is.accounts.distinct.1;
      apart = λ a i.
          cons_not_mem a o free
            (==_comm a o ∙ ne_of_mem o a (live own opp) is.accounts.distinct.0 i)
            (is.accounts.apart a (ground (arith, i)));
      within = subst (λ n. Within n (live own opp)) (sym d.capacity) is.accounts.within.1;
      index = λ key p.
          let e = ap (λ (x : Order). x.order_id) (d.same p) in
          let (found, finds) = is.accounts.index key p in
          (λ k. let (i, j) = found k in (i, e ∙ j), λ (i, j). finds (i, sym e ∙ j));
      full = omega (arith, is.accounts.full, d.capacity);
    }

  -- The slot is unused again, and the orders of both sides stay as they are.
  pub released :
      (r : OrderPool) × (deallocate o of ≡ some r)
      × IsState side r ids levels opp_levels own opp (o ∷ free)
      × (resting r.orders (slots own) ≡ resting of.orders (slots own))
      × (resting r.orders (slots opp) ≡ resting of.orders (slots opp))
  released =
      let (r, e, d) =
        deallocate_lem of o free is.pool is.accounts.within.0
          (is.accounts.apart o (ground arith)) in
      (
        r,
        e,
        released-IsState r d,
        resting-SameDataAt of.orders r.orders (slots own) (λ a i. d.same a),
        resting-SameDataAt of.orders r.orders (slots opp) (λ a i. d.same a),
      )
