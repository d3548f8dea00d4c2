-- ===== src/OrderPool/Construct.antt =====
-- The constructor of src/order_pool.cpp.
use market_maker_ops.Prelude.{
  ℕ, zero, suc, ◌+◌, ◌<◌, ◌≡◌, refl, ap, sym, ◌∙◌, not, false, none, some, List, [], ◌∷◌, arith,
  length,
}
use market_maker_ops.Order.{blank, Slot, Store, set_next}
use market_maker_ops.PriceLevel.Links.{◌∈◌, ◌∉◌, Distinct}
use market_maker_ops.OrderPool.{OrderPool, construct, link_slots}
use market_maker_ops.OrderPool.FreeList.{Chain, Within, count_flags-none, IsPool}

-- `n` slots from `i` on.
unfoldable pub slots_from : ℕ → ℕ → List Slot
slots_from i zero = []
slots_from i (suc n) = i ∷ slots_from (i + 1) n

link_slots-below : (k i : ℕ) (m : Store) (a : Slot) → a < i → link_slots k i m a ≡ m a
unfolding link_slots
link_slots-below zero i m a h = refl
link_slots-below (suc k) i m a h =
    link_slots-below k (i + 1) (set_next m i (some (i + 1))) a (omega arith) ∙ ground arith

link_slots-Chain :
    (k i : ℕ) (m : Store) (last : Slot)
    → last ≡ i + k
    → Chain (set_next (link_slots k i m) last none) (slots_from i (suc k))
unfolding link_slots slots_from
link_slots-Chain zero i m last e = (ground arith, tt)
link_slots-Chain (suc k) i m last e =
    let n : Store = set_next m i (some (i + 1)) in
    (
      ground (arith, link_slots-below k (i + 1) n i),
      link_slots-Chain k (i + 1) n last (omega arith),
    )

slots_from-above : (i n a : ℕ) → a < i → a ∉ slots_from i n
unfolding slots_from
slots_from-above i zero a h = refl
slots_from-above i (suc n) a h = ground (arith, slots_from-above (i + 1) n a)

slots_from-mem : (i n a : ℕ) → i < a + 1 → a < i + n → a ∈ slots_from i n
unfolding slots_from
slots_from-mem i zero a h k = absurd (omega arith)
slots_from-mem i (suc n) a h k = ground (arith, slots_from-mem (i + 1) n a)

slots_from-Distinct : (i n : ℕ) → Distinct (slots_from i n)
unfolding slots_from
slots_from-Distinct i zero = tt
slots_from-Distinct i (suc n) =
    (slots_from-above (i + 1) n i (omega arith), slots_from-Distinct (i + 1) n)

slots_from-Within : (i n top : ℕ) → i + n < top + 1 → Within top (slots_from i n)
unfolding slots_from
slots_from-Within i zero top h = tt
slots_from-Within i (suc n) top h = (omega arith, slots_from-Within (i + 1) n top (omega arith))

pub length-slots_from : (i n : ℕ) → length (slots_from i n) ≡ n
unfolding slots_from
length-slots_from i zero = refl
length-slots_from i (suc n) = ap suc (length-slots_from (i + 1) n)

-- A pool of one slot or more starts with all of them free, to be handed out from slot 0 up.
pub construct-IsPool :
    (n : ℕ)
    → 0 < n
    → (pool : OrderPool) × (construct n ≡ some pool)
      × (pool.capacity ≡ n)
      × IsPool pool (slots_from 0 n)
unfolding construct slots_from
construct-IsPool zero h = absurd (omega arith)
construct-IsPool (suc k) h = (
  record {
    capacity = suc k;
    orders = set_next (link_slots k 0 (λ _. blank)) k none;
    free_list = some 0;
    free_count = suc k;
    is_allocated = λ _. false;
  },
  refl,
  refl,
  record {
    head = refl;
    chain = link_slots-Chain k 0 (λ _. blank) k (omega arith);
    distinct = slots_from-Distinct 0 (suc k);
    within = slots_from-Within 0 (suc k) (suc k) (omega arith);
    count = sym (length-slots_from 0 (suc k));
    flags = λ a lt. sym (ap not (slots_from-mem 0 (suc k) a (omega arith) (omega arith)));
    conserved = omega (arith, count_flags-none (suc k));
  },
)
