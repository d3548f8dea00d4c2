-- ===== src/Tests/Pool.antt =====
-- The theorems on the pool, at a pool of two slots.
use market_maker_ops.Prelude.{◌≡◌, refl, none, some, true, false, [], ◌∷◌, arith, inl}
use market_maker_ops.Order.{blank}
use market_maker_ops.OrderPool.{OrderPool, construct, allocate, deallocate, set_flag}
use market_maker_ops.OrderPool.FreeList.{IsPool, count_flags}
use market_maker_ops.OrderPool.Construct.{slots_from, construct-IsPool}
use market_maker_ops.OrderPool.Cycle.{
  Allocated, allocate_lem, hand_out, hand_out_lem, Deallocated, deallocate_lem, deallocate-none,
}

-- Slot 0 is in use, slot 1 is free.
abbrev half_used : OrderPool
half_used = record {
  capacity = 2;
  orders = λ _. blank;
  free_list = some 1;
  free_count = 1;
  is_allocated = λ a. set_flag (λ _. false) 0 true a;
}

half_used-IsPool : IsPool half_used (1 ∷ [])
unfolding count_flags
half_used-IsPool = record {
  head = refl;
  chain = (refl, tt);
  distinct = (refl, tt);
  within = omega arith;
  count = refl;
  flags = λ a lt. ground arith;
  conserved = refl;
}

construct-IsPool_example :
    (pool : OrderPool) × (construct 3 ≡ some pool)
    × (pool.capacity ≡ 3)
    × IsPool pool (slots_from 0 3)
construct-IsPool_example = construct-IsPool 3 (omega arith)

allocate_lem_example :
    (r : OrderPool) × (allocate half_used ≡ some (1, r)) × Allocated half_used 1 [] r
allocate_lem_example = allocate_lem half_used 1 [] half_used-IsPool

hand_out_lem_example :
    (r : OrderPool) × (hand_out 1 half_used ≡ some (1 ∷ [], r))
    × IsPool r []
    × (r.capacity ≡ 2)
    × (allocate r ≡ none)
hand_out_lem_example = hand_out_lem half_used (1 ∷ []) half_used-IsPool

deallocate_lem_example :
    (r : OrderPool) × (deallocate 0 half_used ≡ some r) × Deallocated half_used 0 (1 ∷ []) r
deallocate_lem_example = deallocate_lem half_used 0 (1 ∷ []) half_used-IsPool (omega arith) refl

deallocate-none_example : deallocate 1 half_used ≡ none
deallocate-none_example = deallocate-none half_used 1 (1 ∷ []) half_used-IsPool (inl refl)
