-- ===== src/OrderPool/FreeList.antt =====
-- What the pool of src/order_pool.cpp stands for: the unused slots, in the order in which they are
-- handed out.
use market_maker_ops.Prelude.{
  ℕ, zero, suc, ◌+◌, ◌<◌, ◌≤◌, ◌≡◌, refl, Bool, true, false, not, none, List, [], ◌∷◌, arith,
  if◌then◌else◌, length,
}
use market_maker_ops.Order.{Slot, Store}
use market_maker_ops.PriceLevel.Links.{has, ◌∈◌, Distinct, first_or}
use market_maker_ops.OrderPool.{OrderPool, set_flag}

-- The slots are linked through `next` alone.
abbrev pub Chain : Store → List Slot → Type 0
Chain m [] = Unit {0}
Chain m (p ∷ ps) = ((m p).next ≡ first_or none ps) × Chain m ps

abbrev pub Within : ℕ → List Slot → Type 0
Within n [] = Unit {0}
Within n (p ∷ ps) = (p < n) × Within n ps

-- How many of the slots below `n` are flagged.
unfoldable pub count_flags : (Slot → Bool) → ℕ → ℕ
count_flags f zero = 0
count_flags f (suc n) = (if f n then 1 else 0) + count_flags f n

-- The slots that are in use.
abbrev pub allocated : OrderPool → ℕ
allocated pool = count_flags pool.is_allocated pool.capacity

-- The free list runs through the slots `free`, each once, and exactly these are not in use.
pub record IsPool (pool : OrderPool) (free : List Slot) : Type 0 where
  pub head : pool.free_list ≡ first_or none free
  pub chain : Chain pool.orders free
  pub distinct : Distinct free
  pub within : Within pool.capacity free
  pub count : pool.free_count ≡ length free
  pub flags : (a : Slot) → a < pool.capacity → pool.is_allocated a ≡ not (has a free)
  pub conserved : pool.free_count + allocated pool ≡ pool.capacity

pub Chain-frame :
    (m n : Store) (ps : List Slot)
    → ((a : Slot) → a ∈ ps → (n a).next ≡ (m a).next)
    → Chain m ps
    → Chain n ps
Chain-frame m n [] same c = tt
Chain-frame m n (p ∷ ps) same c =
    (ground (arith, same p), Chain-frame m n ps (λ a i. same a (ground arith)) c.1)

pub Within-mem : (n : ℕ) (a : Slot) (ps : List Slot) → Within n ps → a ∈ ps → a < n
Within-mem n a [] w i = cc
Within-mem n a (p ∷ ps) w i = ground (arith, Within-mem n a ps w.1)

pub count_flags-none : (n : ℕ) → count_flags (λ _. false) n ≡ 0
unfolding count_flags
count_flags-none zero = refl
count_flags-none (suc n) = omega (arith, count_flags-none n)

count_flags-above :
    (f : Slot → Bool) (p : Slot) (b : Bool) (n : ℕ)
    → n ≤ p
    → count_flags (set_flag f p b) n ≡ count_flags f n
unfolding count_flags
count_flags-above f p b zero h = refl
count_flags-above f p b (suc n) h = ground (arith, count_flags-above f p b n)

-- Setting a flag that is not set adds one, and clearing one that is set takes one away.
pub count_flags-set :
    (f : Slot → Bool) (p : Slot) (n : ℕ)
    → p < n
    → f p ≡ false
    → count_flags (set_flag f p true) n ≡ suc (count_flags f n)
unfolding count_flags
count_flags-set f p zero h e = absurd (omega arith)
count_flags-set f p (suc n) h e =
    ground (arith, count_flags-above f p true n, count_flags-set f p n)

pub count_flags-clear :
    (f : Slot → Bool) (p : Slot) (n : ℕ)
    → p < n
    → f p ≡ true
    → suc (count_flags (set_flag f p false) n) ≡ count_flags f n
unfolding count_flags
count_flags-clear f p zero h e = absurd (omega arith)
count_flags-clear f p (suc n) h e =
    ground (arith, count_flags-above f p false n, count_flags-clear f p n)
