-- ===== src/OrderBook/Pending.antt =====
-- A book of include/order_book.h while `addLimitOrder` matches: the incoming order has a slot and
-- stands in no queue.
use market_maker_ops.Prelude.{
  ℕ, ◌<◌, ◌≡◌, sym, subst, ap, ◌∙◌, inl, inr, Option-cases, lookup, nat_key, none, List, [], ◌∷◌,
  ◌++◌, arith, ==_comm,
}
use market_maker_ops.Order.{Side, Order, Slot, Store, u32_mod}
use market_maker_ops.PriceLevel.{PriceLevel}
use market_maker_ops.PriceLevel.Links.{
  ◌∈◌, ◌∉◌, mem-append_left, mem-append_right, cons_not_mem, not_mem-append, ne_of_mem,
  Distinct-append,
}
use market_maker_ops.PriceLevel.Queue.{payload}
use market_maker_ops.OrderPool.{OrderPool}
use market_maker_ops.OrderPool.FreeList.{IsPool, Within}
use market_maker_ops.OrderBook.Levels.{opposite}
use market_maker_ops.OrderBook.Levels.Prices.{suffix-Sorted}
use market_maker_ops.OrderBook.Match.{Matching}
use market_maker_ops.OrderBook.Match.Spec.{Queues, slots, resting}
use market_maker_ops.OrderBook.Match.Ladder.{SameAt, Ladder-SameAt, resting-SameDataAt}
use market_maker_ops.OrderBook.Match.Invariant.{IsMatching}
use market_maker_ops.OrderBook.Match.Progress.{Progress, returned, erase_all}
use market_maker_ops.OrderBook.WellFormed.{in_one, IsSide, live, OnSide-mem}
use market_maker_ops.OrderBook.Withdraw.{OnSide-all}
use market_maker_ops.OrderBook.Accounts.{Accounts, release_all, Accounts-SameIdentity}

pub record IsPending (side : Side) (of : OrderPool) (ids : List (ℕ × Slot))
    (levels opp_levels : List PriceLevel) (own opp : Queues) (free : List Slot) (o : Slot)
    (id who limit : ℕ) : Type 0 where
  pub pool : IsPool of free
  pub own_side : IsSide of.orders side levels own
  pub opp_side : IsSide of.orders (opposite side) opp_levels opp
  pub accounts : Accounts of.orders of.capacity o (live own opp) free ids
  pub order_id : (of.orders o).order_id ≡ id
  pub participant_id : (of.orders o).participant_id ≡ who
  pub price : (of.orders o).price ≡ limit
  pub on_side : (of.orders o).side ≡ side
  pub bound : (of.orders o).quantity < u32_mod

Within-append_right : (n : ℕ) (xs ys : List Slot) → Within n (xs ++ ys) → Within n ys
Within-append_right n [] ys w = w
Within-append_right n (x ∷ xs) ys w = Within-append_right n xs ys w.1

-- A side whose slots are not touched.
pub IsSide-SameAt :
    (m n : Store) (side : Side) (levels : List PriceLevel) (qs : Queues)
    → SameAt (slots qs) m n
    → IsSide m side levels qs
    → IsSide n side levels qs
IsSide-SameAt m n side levels qs same is = record {
  ladder = Ladder-SameAt m n levels qs same is.ladder;
  sorted = is.sorted;
  on_side =
      OnSide-all n side (slots qs)
        λ a i. ap (λ (x : Order). x.side) (same a i) ∙ OnSide-mem m side a (slots qs) is.on_side i;
}

module _ (side : Side) (of : OrderPool) (ids : List (ℕ × Slot))
    (levels opp_levels : List PriceLevel) (own opp : Queues) (free : List Slot) (o : Slot)
    (id who limit : ℕ)
    (is : IsPending side of ids levels opp_levels own opp free o id who limit) where
  abbrev pub matching : Matching
  matching = record { pool = of; levels = opp_levels; order_index = ids }

  pub pending-IsMatching : IsMatching o id who matching opp free
  pending-IsMatching = record {
    ladder = is.opp_side.ladder;
    pool = is.pool;
    distinct = (Distinct-append (o ∷ slots own) (slots opp) is.accounts.distinct).1;
    apart = λ a i. is.accounts.apart a (mem-append_right a (o ∷ slots own) (slots opp) i);
    within = Within-append_right of.capacity (o ∷ slots own) (slots opp) is.accounts.within;
    outside = (not_mem-append o (slots own) (slots opp) is.accounts.distinct.0).1;
    bound = is.bound;
    order_id = is.order_id;
    participant_id = is.participant_id;
  }

  module _ (s : Matching) (opp' : Queues) (free' : List Slot)
      (ism : IsMatching o id who s opp' free') (p : Progress o matching opp free s opp' free') where
    abbrev m : Store
    m = of.orders

    abbrev n : Store
    n = s.pool.orders

    own_apart : (a : Slot) → a ∈ slots own → a ∉ o ∷ slots opp
    own_apart a i =
        let (out, d) = is.accounts.distinct in
        cons_not_mem a o (slots opp)
          (==_comm a o
            ∙ ne_of_mem o a (slots own) (not_mem-append o (slots own) (slots opp) out).0 i)
          ((Distinct-append (slots own) (slots opp) d).2 a i)

    same_own : SameAt (slots own) m n
    same_own a i = p.outside a (own_apart a i)

    pub resting-own : resting n (slots own) ≡ resting m (slots own)
    resting-own = resting-SameDataAt m n (slots own) (λ a i. ap payload (same_own a i))

    opp_mem : (a : Slot) → a ∈ slots opp' → a ∈ slots opp
    opp_mem a i = subst (λ xs. a ∈ xs) (sym p.split) (mem-append_right a p.dead (slots opp') i)

    opp_side_lem : IsSide n (opposite side) s.levels opp'
    opp_side_lem = record {
      ladder = ism.ladder;
      sorted = suffix-Sorted (opposite side) opp_levels s.levels p.gone p.levels is.opp_side.sorted;
      on_side = OnSide-all n (opposite side) (slots opp') λ a i.
          ap (λ (x : Order). x.side) (p.same a)
          ∙ OnSide-mem m (opposite side) a (slots opp) is.opp_side.on_side (opp_mem a i);
    }

    accounts_lem : Accounts n s.pool.capacity o (live own opp') free' s.order_index
    accounts_lem =
        let start =
          subst (λ xs. Accounts m of.capacity o (slots own ++ xs) free ids) p.split is.accounts in
        let moved =
          Accounts-SameIdentity m n of.capacity o (live own opp') (returned p.dead free)
            (erase_all m p.dead ids) p.same
            (release_all m of.capacity o (slots own) p.dead (slots opp') free ids start) in
        subst (λ k. Accounts n k o (live own opp') free' s.order_index) (sym p.capacity)
          (subst (λ f. Accounts n of.capacity o (live own opp') f s.order_index) (sym p.freed)
            (subst (λ i. Accounts n of.capacity o (live own opp') (returned p.dead free) i)
              (sym p.index) moved))

    pub matched-IsPending :
        IsPending side s.pool s.order_index levels s.levels own opp' free' o id who limit
    matched-IsPending = record {
      pool = ism.pool;
      own_side = IsSide-SameAt m n side levels own same_own is.own_side;
      opp_side = opp_side_lem;
      accounts = accounts_lem;
      order_id = ism.order_id;
      participant_id = ism.participant_id;
      price = ap (λ (x : Order). x.price) (p.same o) ∙ is.price;
      on_side = ap (λ (x : Order). x.side) (p.same o) ∙ is.on_side;
      bound = ism.bound;
    }

    -- An id that is not in the index is not in it afterwards.
    pub still_fresh : lookup id ids ≡ none → lookup id s.order_index ≡ none
    still_fresh fresh = elim (Option-cases (lookup id s.order_index)) [
      | inl e ↦ e
      | inr (p', e) ↦
          let (i, k) = (accounts_lem.index id p').0 e in
          let old : p' ∈ live own opp = elim (in_one p' (slots own) (slots opp') i) [
            | inl j ↦ mem-append_left p' (slots own) (slots opp) j
            | inr j ↦ mem-append_right p' (slots own) (slots opp) (opp_mem p' j)
          ] in
          let at =
            (is.accounts.index id p').1
              (old, sym (ap (λ (x : Order). x.order_id) (p.same p')) ∙ k) in
          ground (arith, sym fresh ∙ at)
    ]
