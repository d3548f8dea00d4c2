-- ===== src/OrderPool/Cycle.antt =====
-- `OrderPool::allocate` and `OrderPool::deallocate` of src/order_pool.cpp against the free list.
use market_maker_ops.Prelude.{
  ℕ, zero, suc, Option, ◌>>=◌, length, ◌+◌, ◌<◌, ◌≤◌, ◌-◌, ◌⊎◌, inl, inr, ◌≡◌, refl, ap, ◌∙◌, true,
  false, not, none, some, List, [], ◌∷◌, arith, lt→ltb,
}
use market_maker_ops.Order.{Slot, set_next, set_prev}
use market_maker_ops.PriceLevel.Links.{◌∈◌, ◌∉◌, ne_of_mem}
use market_maker_ops.OrderPool.{OrderPool, take_slot, allocate, deallocate, set_flag}
use market_maker_ops.OrderPool.FreeList.{
  Within-mem, IsPool, Chain-frame, count_flags-set, count_flags-clear,
}
use market_maker_ops.PriceLevel.Queue.{SamePayload, SameOutside}

-- What handing out a slot does.
pub record Allocated (pool : OrderPool) (o : Slot) (free : List Slot) (r : OrderPool) : Type 0 where
  pub rest : IsPool r free
  pub capacity : r.capacity ≡ pool.capacity
  pub in_use : r.is_allocated o ≡ true
  pub within : o < r.capacity
  pub no_next : (r.orders o).next ≡ none
  pub no_prev : (r.orders o).prev ≡ none
  pub outside : SameOutside (o ∷ []) pool.orders r.orders

abbrev taken : OrderPool → Slot → OrderPool
taken pool o = record pool {
  free_list = (pool.orders o).next;
  free_count = pool.free_count - 1;
  orders = set_prev (set_next pool.orders o none) o none;
  is_allocated = set_flag pool.is_allocated o true;
}

taken-IsPool :
    (pool : OrderPool) (o : Slot) (free : List Slot)
    → IsPool pool (o ∷ free)
    → IsPool (taken pool o) free
taken-IsPool pool o free is = record {
  head = is.chain.0;
  chain =
      Chain-frame pool.orders (taken pool o).orders free
        (λ a i. let ne = ne_of_mem o a free is.distinct.0 i in ground arith) is.chain.1;
  distinct = is.distinct.1;
  within = is.within.1;
  count = omega (arith, is.count);
  flags = λ a lt. ground (arith, is.flags a lt, is.distinct.0);
  conserved = ground (
    arith,
    is.conserved,
    is.count,
    count_flags-set pool.is_allocated o pool.capacity is.within.0,
    is.flags o is.within.0,
  );
}

take_slot-some :
    (pool : OrderPool) (o : Slot)
    → 0 < pool.free_count
    → o < pool.capacity
    → take_slot pool (some o) ≡ some (o, taken pool o)
unfolding take_slot
take_slot-some pool o pos lt = rw (lt→ltb 0 pool.free_count pos, lt→ltb o pool.capacity lt)

-- With a slot free, `allocate` hands out the head of the free list, its links cleared.
pub allocate_lem :
    (pool : OrderPool) (o : Slot) (free : List Slot)
    → IsPool pool (o ∷ free)
    → (r : OrderPool) × (allocate pool ≡ some (o, r)) × Allocated pool o free r
unfolding allocate
allocate_lem pool o free is = (
  taken pool o,
  ap (take_slot pool) is.head ∙ take_slot-some pool o (omega (arith, is.count)) is.within.0,
  record {
    rest = taken-IsPool pool o free is;
    capacity = refl;
    in_use = ground arith;
    within = is.within.0;
    no_next = ground arith;
    no_prev = ground arith;
    outside = λ a out. ground arith;
  },
)

-- With none free, `allocate` fails its assertion.
allocate-none : (pool : OrderPool) → IsPool pool [] → allocate pool ≡ none
unfolding allocate
allocate-none pool is = ground (arith, is.head)

-- So many calls of `allocate`, and the slots that they hand out.
abbrev pub hand_out : ℕ → OrderPool → Option (List Slot × OrderPool)
hand_out zero pool = some ([], pool)
hand_out (suc n) pool = do (o, r) ← allocate pool; (os, r') ← hand_out n r; some (o ∷ os, r')

-- On a well-formed pool, as many calls of allocate as there are free slots hand out exactly these, each
-- once and in the order of the free list; they leave a well-formed pool of the same capacity, and a
-- further call fails its assertion.
pub hand_out_lem :
    (pool : OrderPool) (free : List Slot)
    → IsPool pool free
    → (r : OrderPool) × (hand_out (length free) pool ≡ some (free, r))
      × IsPool r []
      × (r.capacity ≡ pool.capacity)
      × (allocate r ≡ none)
hand_out_lem pool [] is = (pool, refl, is, refl, allocate-none pool is)
hand_out_lem pool (o ∷ free) is =
    let (r, e, a) = allocate_lem pool o free is in
    let (r', k, is', c, empty) = hand_out_lem r free a.rest in
    (r', rw (e, k) refl, is', c ∙ a.capacity, empty)

-- What taking a slot back does.
pub record Deallocated (pool : OrderPool) (o : Slot) (free : List Slot) (r : OrderPool)
    : Type 0 where
  pub rest : IsPool r (o ∷ free)
  pub capacity : r.capacity ≡ pool.capacity
  pub same : SamePayload pool.orders r.orders
  pub outside : SameOutside (o ∷ []) pool.orders r.orders

abbrev returned : OrderPool → Slot → OrderPool
returned pool o = record pool {
  is_allocated = set_flag pool.is_allocated o false;
  orders = set_next pool.orders o pool.free_list;
  free_list = some o;
  free_count = pool.free_count + 1;
}

returned-IsPool :
    (pool : OrderPool) (o : Slot) (free : List Slot)
    → IsPool pool free
    → o < pool.capacity
    → o ∉ free
    → IsPool (returned pool o) (o ∷ free)
returned-IsPool pool o free is lt out = record {
  head = refl;
  chain = (
    ground (arith, is.head),
    Chain-frame pool.orders (returned pool o).orders free
        (λ a i. let ne = ne_of_mem o a free out i in ground arith) is.chain,
  );
  distinct = (out, is.distinct);
  within = (lt, is.within);
  count = omega (arith, is.count);
  flags = λ a lt'. ground (arith, is.flags a lt');
  conserved =
      ground (
        arith,
        is.conserved,
        count_flags-clear pool.is_allocated o pool.capacity lt,
        is.flags o lt,
      );
}

deallocate-some :
    (pool : OrderPool) (o : Slot)
    → pool.free_count < pool.capacity
    → o < pool.capacity
    → pool.is_allocated o ≡ true
    → deallocate o pool ≡ some (returned pool o)
unfolding deallocate
deallocate-some pool o room lt used =
    rw (lt→ltb pool.free_count pool.capacity room, lt→ltb o pool.capacity lt, used)

-- `deallocate` of a slot in use puts it at the head of the free list.
pub deallocate_lem :
    (pool : OrderPool) (o : Slot) (free : List Slot)
    → IsPool pool free
    → o < pool.capacity
    → o ∉ free
    → (r : OrderPool) × (deallocate o pool ≡ some r) × Deallocated pool o free r
deallocate_lem pool o free is lt out = (
  returned pool o,
  deallocate-some pool o
      (ground (
        arith,
        is.conserved,
        count_flags-clear pool.is_allocated o pool.capacity lt,
        is.flags o lt,
      ))
      lt (is.flags o lt ∙ ap not out),
  record {
    rest = returned-IsPool pool o free is lt out;
    capacity = refl;
    same = λ a. ground arith;
    outside = λ a i. ground arith;
  },
)

-- A slot that is not in use, or is none of the pool's, is refused.
pub deallocate-none :
    (pool : OrderPool) (o : Slot) (free : List Slot)
    → IsPool pool free
    → (o ∈ free) ⊎ (pool.capacity ≤ o)
    → deallocate o pool ≡ none
unfolding deallocate
deallocate-none pool o free is (inl i) =
    ground (arith, is.flags o (Within-mem pool.capacity o free is.within i))
deallocate-none pool o free is (inr h) = ground arith
