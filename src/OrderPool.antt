-- ===== src/OrderPool.antt =====
-- include/order_pool.h and src/order_pool.cpp of engine/order-matching-engine: a fixed array of
-- orders whose unused slots are chained through `next`. `none` is a failed assertion, or the
-- constructor's out-of-bounds write at capacity 0.
pub mod FreeList
pub mod Construct
pub mod Cycle
use market_maker_ops.Prelude.{
  ℕ, zero, suc, ◌+◌, ◌-◌, Option, none, some, Bool, true, false, ◌&&◌, ltb, ◌==◌, if◌then◌else◌,
}
use market_maker_ops.Order.{Slot, Ptr, Store, blank, set_next, set_prev}

pub record OrderPool : Type 0 where
  pub capacity : ℕ
  pub orders : Store
  pub free_list : Ptr
  pub free_count : ℕ
  pub is_allocated : Slot → Bool

abbrev pub set_flag : (Slot → Bool) → Slot → Bool → Slot → Bool
set_flag f p b q = if q == p then b else f q

-- `for (i = 0; i < capacity_ - 1; ++i) orders_[i].next = &orders_[i + 1];`: the rounds left, and i.
link_slots : ℕ → ℕ → Store → Store
link_slots zero i m = m
link_slots (suc k) i m = link_slots k (i + 1) (set_next m i (some (i + 1)))

unfoldable pub construct : ℕ → Option OrderPool
unfolding link_slots
construct zero = none
construct (suc k) = some (record {
  capacity = suc k;
  orders = set_next (link_slots k 0 (λ _. blank)) k none;
  free_list = some 0;
  free_count = suc k;
  is_allocated = λ _. false;
})

take_slot : OrderPool → Ptr → Option (Slot × OrderPool)
take_slot pool none = none
take_slot pool (some o) =
    if ltb 0 pool.free_count && ltb o pool.capacity
    then some (
      o,
      record pool {
        free_list = (pool.orders o).next;
        free_count = pool.free_count - 1;
        orders = set_prev (set_next pool.orders o none) o none;
        is_allocated = set_flag pool.is_allocated o true;
      },
    )
    else none

unfoldable pub allocate : OrderPool → Option (Slot × OrderPool)
unfolding take_slot
allocate pool = take_slot pool pool.free_list

unfoldable pub deallocate : Slot → OrderPool → Option OrderPool
deallocate o pool =
    if ltb pool.free_count pool.capacity && (ltb o pool.capacity && pool.is_allocated o)
    then some (record pool {
      is_allocated = set_flag pool.is_allocated o false;
      orders = set_next pool.orders o pool.free_list;
      free_list = some o;
      free_count = pool.free_count + 1;
    })
    else none
