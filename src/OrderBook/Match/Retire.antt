-- ===== src/OrderBook/Match/Retire.antt =====
-- What the loop of `matchBuy` and `matchSell` of include/order_book.h does with a resting order that
-- is filled: it leaves its level, the pool and the index.
use market_maker_ops.Prelude.{
  ℕ, ◌<◌, ◌≡◌, refl, ap, ◌∙◌, some, List, [], ◌∷◌, ◌++◌, arith, ◌==◌, ==_comm, erase, nat_key,
  if_cases, if◌then◌else◌,
}
use market_maker_ops.Order.{Order, Slot, Store}
use market_maker_ops.PriceLevel.{PriceLevel, remove, is_null}
use market_maker_ops.PriceLevel.Links.{
  ◌∈◌, ◌∉◌, Disjoint, Disjoint-sym, ne_of_mem, cons_not_mem, not_mem_cons,
}
use market_maker_ops.PriceLevel.Queue.{IsQueue, SamePayload, SameOutside, SamePayload-trans}
use market_maker_ops.PriceLevel.Middle.{has-middle, Distinct-middle}
use market_maker_ops.PriceLevel.Remove.{Removed, remove_lem}
use market_maker_ops.OrderPool.{OrderPool, deallocate}
use market_maker_ops.OrderPool.FreeList.{IsPool, Chain-frame}
use market_maker_ops.OrderPool.Cycle.{deallocate_lem}
use market_maker_ops.OrderBook.Levels.{drop_empty}
use market_maker_ops.OrderBook.Match.{Matching, with_orders, retire}
use market_maker_ops.OrderBook.Match.Ladder.{IsQueue-SameAt}

-- A pool does not depend on the orders that are in use.
pub IsPool-with_orders :
    (pool : OrderPool) (n : Store) (free : List Slot)
    → ((a : Slot) → a ∈ free → (n a).next ≡ (pool.orders a).next)
    → IsPool pool free
    → IsPool (with_orders n pool) free
IsPool-with_orders pool n free same is = record {
  head = is.head;
  chain = Chain-frame pool.orders n free same is.chain;
  distinct = is.distinct;
  within = is.within;
  count = is.count;
  flags = is.flags;
  conserved = is.conserved;
}

-- What is left when the order in slot `p`, at the head of a queue, is gone.
pub record Retired (p : Slot) (ps free : List Slot) (at : ℕ) (old : OrderPool) (pl : PriceLevel)
    (r : OrderPool) : Type 0 where
  pub queue : IsQueue r.orders pl ps
  pub price : pl.price ≡ at
  pub pool : IsPool r (p ∷ free)
  pub capacity : r.capacity ≡ old.capacity
  pub same : SamePayload old.orders r.orders
  pub outside : SameOutside (p ∷ ps) old.orders r.orders

module _ (p : Slot) (xs ys free : List Slot) (pl : PriceLevel) (pool : OrderPool)
    (q : IsQueue pool.orders pl (xs ++ p ∷ ys)) (is : IsPool pool free) (lt : p < pool.capacity)
    (out : p ∉ free) (apart : Disjoint (xs ++ ys) free) where
  abbrev pub removed : PriceLevel × Store
  removed = remove p pl pool.orders

  removed_lem : Removed p xs ys pl pool.orders removed
  removed_lem = remove_lem p pl pool.orders xs ys q

  in_middle : (a : Slot) → a ∉ p ∷ (xs ++ ys) → a ∉ xs ++ p ∷ ys
  in_middle a i = has-middle a p xs ys ∙ i

  not_free : (a : Slot) → a ∈ free → a ∉ xs ++ p ∷ ys
  not_free a i = in_middle a (
      cons_not_mem a p (xs ++ ys) (==_comm a p ∙ ne_of_mem p a free out i)
        (Disjoint-sym (xs ++ ys) free apart a i))

  removed-IsPool : IsPool (with_orders removed.1 pool) free
  removed-IsPool =
      IsPool-with_orders pool removed.1 free
        (λ a i. ap (λ (o : Order). o.next) (removed_lem.outside a (not_free a i))) is

  pub freed :
      (r : OrderPool) × (deallocate p (with_orders removed.1 pool) ≡ some r)
      × Retired p (xs ++ ys) free pl.price pool removed.0 r
  freed =
      let (r, e, d) = deallocate_lem (with_orders removed.1 pool) p free removed-IsPool lt out in
      (
        r,
        e,
        record {
          queue =
              IsQueue-SameAt removed.1 r.orders removed.0 (xs ++ ys)
                (λ a i. d.outside a (
                  ground
                    (arith, ne_of_mem p a (xs ++ ys) (Distinct-middle p xs ys q.distinct).1 i)))
                removed_lem.queue;
          price = removed_lem.price;
          pool = d.rest;
          capacity = d.capacity;
          same = SamePayload-trans pool.orders removed.1 r.orders removed_lem.same d.same;
          outside = λ a i.
              d.outside a (cons_not_mem a p [] (not_mem_cons a p (xs ++ ys) i).0 refl)
              ∙ removed_lem.outside a (in_middle a i);
        },
      )

-- `retire` of an order with nothing left: it is taken out of the level, the pool and the index.
pub retire_lem :
    (p : Slot) (ps free : List Slot) (pl : PriceLevel) (rest : List PriceLevel) (s : Matching)
    → IsQueue s.pool.orders pl (p ∷ ps)
    → IsPool s.pool free
    → p < s.pool.capacity
    → p ∉ free
    → Disjoint ps free
    → (s.pool.orders p).quantity ≡ 0
    → (l : PriceLevel) × (r : OrderPool) × (retire p pl rest s
        ≡ some (record {
          pool = r;
          levels = drop_empty l rest;
          order_index = erase (s.pool.orders p).order_id s.order_index;
        }))
      × Retired p ps free pl.price s.pool l r
unfolding retire
retire_lem p ps free pl rest s q is lt out apart zero_left =
    let (r, e, d) = freed p [] ps free pl s.pool q is lt out apart in
    let (l, m) = remove p pl s.pool.orders in
    (
      l,
      r,
      rw (zero_left, e)
          (ap
            (λ (x : Order). some (record {
              pool = r;
              levels = drop_empty l rest;
              order_index = erase x.order_id s.order_index;
            }))
            ((removed_lem p [] ps free pl s.pool q is lt out apart).same p)),
      d,
    )

-- `retire` of an order with something left does nothing, at a level that is not empty.
pub retire-kept :
    (r p : Slot) (pl : PriceLevel) (rest : List PriceLevel) (s : Matching)
    → 0 < (s.pool.orders r).quantity
    → pl.head ≡ some p
    → retire r pl rest s ≡ some (record s { levels = pl ∷ rest })
unfolding retire
retire-kept r p pl rest s pos h =
    if_cases (λ x. x ≡ some (record s { levels = pl ∷ rest })) ((s.pool.orders r).quantity == 0)
      (λ e. ground arith)
      (λ e. ap (λ b. some (record s { levels = if b then rest else pl ∷ rest })) (ap is_null h))
