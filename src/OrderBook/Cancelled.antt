-- ===== src/OrderBook/Cancelled.antt =====
-- `cancelOrder` of include/order_book.h against `withdraw`.
use market_maker_ops.Prelude.{
  ℕ, ◌<◌, ◌≡◌, refl, sym, subst, ap, ◌∙◌, false, inl, inr, some, none, Option-cases, List, ◌∷◌,
  ◌++◌, arith, ◌==◌, ==_iff, ==_comm, append_assoc, Bool-cases, lookup, erase, nat_key, lt→ltb,
}
use market_maker_ops.Order.{Side, Slot}
use market_maker_ops.PriceLevel.{PriceLevel, remove}
use market_maker_ops.PriceLevel.Links.{◌∈◌, mem-append_left, mem-append_right, ne_of_mem}
use market_maker_ops.PriceLevel.Middle.{has-middle}
use market_maker_ops.OrderPool.{OrderPool, deallocate}
use market_maker_ops.OrderBook.{OrderBook, side_levels, with_levels, cancel_slot, cancel_order}
use market_maker_ops.OrderBook.Levels.{opposite, lower_bound, rejoin, drop_empty}
use market_maker_ops.OrderBook.Match.{with_orders}
use market_maker_ops.OrderBook.Match.Spec.{Queues, slots, resting}
use market_maker_ops.OrderBook.Match.Ladder.{resting-SameDataAt}
use market_maker_ops.OrderBook.Match.Retire.{Retired}
use market_maker_ops.OrderBook.Abstract.{withdraw}
use market_maker_ops.OrderBook.WellFormed.{
  live, IsState, IsBook, IsBook-flip, flip-IsBook, in_one, OnSide-mem, Rests-mem,
  with_levels-IsBook, with_levels-pool,
}
use market_maker_ops.OrderBook.Withdraw.{withdraw-none, withdraw-middle}
use market_maker_ops.OrderBook.Locate.{Located}
use market_maker_ops.OrderBook.Cancel.{
  at, before_it, after_it, others, others_lem, taken_out, still_live, queues, slots-queues,
  state_lem,
}

cancel_slot-some :
    (side : Side) (id : ℕ) (o : Slot) (b : OrderBook) (k : PriceLevel)
    (later behind : List PriceLevel) (r : OrderPool)
    → (b.pool.orders o).side ≡ side
    → 0 < (b.pool.orders o).quantity
    → lower_bound side (b.pool.orders o).price (side_levels side b)
      ≡ record { later = k ∷ later; earlier = behind }
    → k.price ≡ (b.pool.orders o).price
    → deallocate o (with_orders (remove o k b.pool.orders).1 b.pool) ≡ some r
    → cancel_slot id o b
      ≡ some (
          with_levels side
            (rejoin later (drop_empty (remove o k b.pool.orders).0 behind))
            (record b { pool = r; order_index = erase id b.order_index }))
unfolding cancel_slot
cancel_slot-some side id o b k later behind r on_side pos found price freed =
    rw (on_side, lt→ltb 0 _ pos, found) (rw ((==_iff k.price _).1 price, freed) refl)

-- What a cancel leaves.
pub record Withdrawn (side : Side) (id : ℕ) (b : OrderBook) (own opp : Queues) (b' : OrderBook)
    (own' opp' : Queues) (free' : List Slot) : Type 0 where
  pub book : IsBook side b' own' opp' free'
  pub own_orders :
      resting b'.pool.orders (slots own') ≡ withdraw id (resting b.pool.orders (slots own))
  pub opp_orders :
      resting b'.pool.orders (slots opp') ≡ withdraw id (resting b.pool.orders (slots opp))

module _ (side : Side) (id : ℕ) (b : OrderBook) (own opp : Queues) (free : List Slot)
    (is : IsBook side b own opp free) where
  -- An order is found under its id alone.
  other_id :
      (o a : Slot)
      → lookup id b.order_index ≡ some o
      → a ∈ live own opp
      → (a == o) ≡ false
      → ((b.pool.orders a).order_id == id) ≡ false
  other_id o a found i ne = elim (Bool-cases ((b.pool.orders a).order_id == id)) [
    | inr e ↦ e
    | inl e ↦
        let at_a = (is.index id a).1 (i, (==_iff _ id).0 e) in ground (arith, ne, sym at_a ∙ found)
  ]

  module _ (o : Slot) (found : lookup id b.order_index ≡ some o) (i : o ∈ slots own) where
    abbrev here : Located b.pool.orders side (side_levels side b) own o
    here = at side b own opp free is o i

    abbrev xs : List Slot
    xs = before_it side b own opp free is o i

    abbrev ys : List Slot
    ys = after_it side b own opp free is o i

    id_lem : (b.pool.orders o).order_id ≡ id
    id_lem = ((is.index id o).0 found).1

    pos_lem : 0 < (b.pool.orders o).quantity
    pos_lem =
        (Rests-mem b.pool.orders here.level.price o (here.xs ++ o ∷ here.ys) here.rests
          (ground (arith, has-middle o o here.xs here.ys))).1

    in_side : (a : Slot) → a ∈ xs ++ ys → a ∈ others side b own opp free is o i
    in_side a j =
        subst (λ zs. a ∈ zs) (append_assoc xs ys (slots opp))
          (mem-append_left a (xs ++ ys) (slots opp) j)

    in_opp : (a : Slot) → a ∈ slots opp → a ∈ others side b own opp free is o i
    in_opp a j =
        subst (λ zs. a ∈ zs) (append_assoc xs ys (slots opp))
          (mem-append_right a (xs ++ ys) (slots opp) j)

    id_of_other :
        (a : Slot)
        → a ∈ others side b own opp free is o i
        → ((b.pool.orders a).order_id == id) ≡ false
    id_of_other a j = other_id o a found (still_live side b own opp free is o i a j) (
        ==_comm a o
        ∙ ne_of_mem o a (others side b own opp free is o i)
            (others_lem side b own opp free is o i).1 j)

    module _ (r : OrderPool)
        (d : Retired o
          (here.xs ++ here.ys)
          free
          here.level.price
          b.pool
          (remove o here.level b.pool.orders).0
          r) where
      own_lem :
          resting r.orders (slots (queues side b own opp free is o i r d))
          ≡ withdraw id (resting b.pool.orders (slots own))
      own_lem =
          ap (resting r.orders) (slots-queues side b own opp free is o i r d)
          ∙ resting-SameDataAt b.pool.orders r.orders (xs ++ ys) (λ a j. d.same a)
          ∙ sym (
              withdraw-middle b.pool.orders id o xs ys ((==_iff _ id).1 id_lem)
                (λ a j. id_of_other a (in_side a j)))
          ∙ ap (λ zs. withdraw id (resting b.pool.orders zs)) (sym here.place)

      opp_lem : resting r.orders (slots opp) ≡ withdraw id (resting b.pool.orders (slots opp))
      opp_lem =
          resting-SameDataAt b.pool.orders r.orders (slots opp) (λ a j. d.same a)
          ∙ sym (withdraw-none b.pool.orders id (slots opp) (λ a j. id_of_other a (in_opp a j)))

      abbrev levels : List PriceLevel
      levels = rejoin here.later (drop_empty (remove o here.level b.pool.orders).0 here.behind)

      abbrev after : OrderBook
      after = with_levels side levels (record b { pool = r; order_index = erase id b.order_index })

      after-Withdrawn :
          Withdrawn side id b own opp after (queues side b own opp free is o i r d) opp (o ∷ free)
      after-Withdrawn =
          let same_pool =
            with_levels-pool side levels
              (record b { pool = r; order_index = erase id b.order_index }) in
          record {
            book =
                with_levels-IsBook side levels b r (erase id b.order_index)
                  (queues side b own opp free is o i r d) opp (o ∷ free)
                  (subst
                    (λ k.
                      IsState side r (erase k b.order_index) levels (side_levels (opposite side) b)
                        (queues side b own opp free is o i r d) opp (o ∷ free))
                    id_lem (state_lem side b own opp free is o i r d));
            own_orders =
                ap
                  (λ (p : OrderPool).
                    resting p.orders (slots (queues side b own opp free is o i r d)))
                  same_pool
                ∙ own_lem;
            opp_orders = ap (λ (p : OrderPool). resting p.orders (slots opp)) same_pool ∙ opp_lem;
          }

    cancel_own :
        (b' : OrderBook) × (own' : Queues) × (cancel_slot id o b ≡ some b')
        × Withdrawn side id b own opp b' own' opp (o ∷ free)
    cancel_own =
        let (r, e, d) = taken_out side b own opp free is o i in
        (
          after r d,
          queues side b own opp free is o i r d,
          cancel_slot-some side id o b here.level here.later here.behind r
              (OnSide-mem b.pool.orders side o (slots own) is.own_side.on_side i) pos_lem here.found
              here.price e,
          after-Withdrawn r d,
        )

pub no_id :
    (side : Side) (id : ℕ) (b : OrderBook) (own opp : Queues) (free : List Slot)
    → IsBook side b own opp free
    → lookup id b.order_index ≡ none
    → (a : Slot) → a ∈ live own opp
    → ((b.pool.orders a).order_id == id) ≡ false
no_id side id b own opp free is e a i = elim (Bool-cases ((b.pool.orders a).order_id == id)) [
  | inr ne ↦ ne
  | inl k ↦ ground (arith, sym e ∙ (is.index id a).1 (i, (==_iff _ id).0 k))
]

-- `cancelOrder` on a well-formed book succeeds: the order of the id, if there is one, leaves its side's
-- list of resting orders as `withdraw` has it, the other orders stay, and the book is well-formed
-- again.
pub cancel_order_lem :
    (side : Side) (id : ℕ) (b : OrderBook) (own opp : Queues) (free : List Slot)
    → IsBook side b own opp free
    → (b' : OrderBook) × (own' : Queues) × (opp' : Queues) × (free' : List Slot) × (cancel_order id
          b
        ≡ some b')
      × Withdrawn side id b own opp b' own' opp' free'
unfolding cancel_order
cancel_order_lem side id b own opp free is = elim (Option-cases (lookup id b.order_index)) [
  | inl e ↦
      let absent : (a : Slot) → a ∈ live own opp → ((b.pool.orders a).order_id == id) ≡ false =
        λ a i. no_id side id b own opp free is e a i in
      (
        b,
        own,
        opp,
        free,
        rw (e, cancel_order) refl,
        record {
          book = is;
          own_orders = sym (
              withdraw-none b.pool.orders id (slots own)
                (λ a i. absent a (mem-append_left a (slots own) (slots opp) i)));
          opp_orders = sym (
              withdraw-none b.pool.orders id (slots opp)
                (λ a i. absent a (mem-append_right a (slots own) (slots opp) i)));
        },
      )
  | inr (o, e) ↦ elim (in_one o (slots own) (slots opp) ((is.index id o).0 e).0) [
    | inl i ↦
        let (b', own', k, w) = cancel_own side id b own opp free is o e i in
        (b', own', opp, o ∷ free, rw (e, cancel_order) k, w)
    | inr i ↦
        let (b', opp', k, w) =
          cancel_own (opposite side) id b opp own free (IsBook-flip side b own opp free is) o e i in
        (
          b',
          own,
          opp',
          o ∷ free,
          rw (e, cancel_order) k,
          record {
            book = flip-IsBook side b' own opp' (o ∷ free) w.book;
            own_orders = w.opp_orders;
            opp_orders = w.own_orders;
          },
        )
  ]
]
