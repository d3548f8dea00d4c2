-- ===== src/PriceLevel/Queue.antt =====
-- What a price level stands for: the slots of its orders, oldest first.
use market_maker_ops.Prelude.{
  ℕ, ◌+◌, ◌%◌, ◌≡◌, refl, ap, ◌∙◌, none, some, List, [], ◌∷◌, ◌++◌, arith,
}
use market_maker_ops.Order.{Order, Slot, Ptr, Store, set_next, set_prev, u32_mod}
use market_maker_ops.PriceLevel.{PriceLevel}
use market_maker_ops.PriceLevel.Links.{
  ◌∉◌, Distinct, Links, first_or, last_or, redirect_next, redirect_prev,
}

-- An order without its two links.
abbrev pub payload : Order → Order
payload o = record o { next = none; prev = none }

-- Nothing but links differs.
abbrev pub SamePayload : Store → Store → Type 0
SamePayload m n = (a : Slot) → payload (n a) ≡ payload (m a)

-- Nothing differs away from the slots.
abbrev pub SameOutside : List Slot → Store → Store → Type 0
SameOutside ps m n = (a : Slot) → a ∉ ps → n a ≡ m a

-- The quantity that the orders ask for together.
unfoldable pub total : Store → List Slot → ℕ
total m [] = 0
total m (p ∷ ps) = (m p).quantity + total m ps

-- A level holds the orders of the slots `ps`, in that order.
pub record IsQueue (m : Store) (pl : PriceLevel) (ps : List Slot) : Type 0 where
  pub head : pl.head ≡ first_or none ps
  pub tail : pl.tail ≡ last_or none ps
  pub links : Links m none ps none
  pub distinct : Distinct ps
  pub sum : pl.total_quantity ≡ total m ps % u32_mod

pub SamePayload-quantity :
    (m n : Store) → SamePayload m n → (a : Slot) → (n a).quantity ≡ (m a).quantity
SamePayload-quantity m n same a = ap (λ (o : Order). o.quantity) (same a)

pub set_next-SamePayload : (m : Store) (q : Slot) (n : Ptr) → SamePayload m (set_next m q n)
set_next-SamePayload m q n a = ground arith

pub set_prev-SamePayload : (m : Store) (q : Slot) (n : Ptr) → SamePayload m (set_prev m q n)
set_prev-SamePayload m q n a = ground arith

pub total-frame :
    (m n : Store) (ps : List Slot)
    → ((a : Slot) → (n a).quantity ≡ (m a).quantity)
    → total n ps ≡ total m ps
unfolding total
total-frame m n [] same = refl
total-frame m n (p ∷ ps) same = omega (arith, same p, total-frame m n ps same)

pub total-append : (m : Store) (ps qs : List Slot) → total m (ps ++ qs) ≡ total m ps + total m qs
unfolding total
total-append m [] qs = omega arith
total-append m (p ∷ ps) qs = omega (arith, total-append m ps qs)

pub SamePayload-trans : (m n k : Store) → SamePayload m n → SamePayload n k → SamePayload m k
SamePayload-trans m n k same same' a = same' a ∙ same a

pub redirect_next-SamePayload : (m : Store) (q n : Ptr) → SamePayload m (redirect_next q n m)
redirect_next-SamePayload m none n a = refl
redirect_next-SamePayload m (some q) n a = set_next-SamePayload m q n a

pub redirect_prev-SamePayload : (m : Store) (q n : Ptr) → SamePayload m (redirect_prev q n m)
redirect_prev-SamePayload m none n a = refl
redirect_prev-SamePayload m (some q) n a = set_prev-SamePayload m q n a
