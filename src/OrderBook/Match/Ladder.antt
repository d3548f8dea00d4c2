-- ===== src/OrderBook/Match/Ladder.antt =====
-- What the levels of a side of include/order_book.h stand for: the queues of their slots.
use market_maker_ops.Prelude.{ℕ, ◌%◌, ◌<◌, ◌≡◌, refl, sym, ap, ◌∙◌, none, List, [], ◌∷◌, arith}
use market_maker_ops.Order.{Order, Slot, Store, u32_mod}
use market_maker_ops.PriceLevel.{PriceLevel}
use market_maker_ops.PriceLevel.Links.{◌∈◌, mem-append_left, mem-append_right, Links-frame}
use market_maker_ops.PriceLevel.Queue.{IsQueue, payload, total}
use market_maker_ops.OrderBook.Match.Spec.{Queues, slots, resting, resting_at}

-- Live orders of a price.
abbrev pub Rests : Store → ℕ → List Slot → Type 0
Rests m price [] = Unit {0}
Rests m price (p ∷ ps) =
    ((m p).price ≡ price) × (0 < (m p).quantity) × ((m p).quantity < u32_mod) × Rests m price ps

abbrev pub Ladder : Store → List PriceLevel → Queues → Type 0
Ladder m [] [] = Unit {0}
Ladder m [] (q ∷ qs) = ⊥
Ladder m (l ∷ ls) [] = ⊥
Ladder m (l ∷ ls) ((p, ps) ∷ qs) = IsQueue m l (p ∷ ps) × Rests m l.price (p ∷ ps) × Ladder m ls qs

-- Nothing differs in the slots.
abbrev pub SameAt : List Slot → Store → Store → Type 0
SameAt ps m n = (a : Slot) → a ∈ ps → n a ≡ m a

pub total-SameAt : (m n : Store) (ps : List Slot) → SameAt ps m n → total n ps ≡ total m ps
unfolding total
total-SameAt m n [] same = refl
total-SameAt m n (p ∷ ps) same = omega (
  arith,
  ap (λ (o : Order). o.quantity) (same p (ground arith)),
  total-SameAt m n ps (λ a i. same a (ground arith)),
)

pub IsQueue-SameAt :
    (m n : Store) (l : PriceLevel) (ps : List Slot)
    → SameAt ps m n
    → IsQueue m l ps
    → IsQueue n l ps
IsQueue-SameAt m n l ps same is = record {
  head = is.head;
  tail = is.tail;
  links =
      Links-frame m n none ps none
        (λ a i. (ap (λ (o : Order). o.prev) (same a i), ap (λ (o : Order). o.next) (same a i)))
        is.links;
  distinct = is.distinct;
  sum = is.sum ∙ ap (λ t. t % u32_mod) (sym (total-SameAt m n ps same));
}

-- Nothing but links differs in the slots.
abbrev pub SameDataAt : List Slot → Store → Store → Type 0
SameDataAt ps m n = (a : Slot) → a ∈ ps → payload (n a) ≡ payload (m a)

pub Rests-SameDataAt :
    (m n : Store) (price : ℕ) (ps : List Slot)
    → SameDataAt ps m n
    → Rests m price ps
    → Rests n price ps
Rests-SameDataAt m n price [] same r = tt
Rests-SameDataAt m n price (p ∷ ps) same r =
    let e = same p (ground arith) in
    let q : (n p).quantity ≡ (m p).quantity = ap (λ (o : Order). o.quantity) e in
    (
      ap (λ (o : Order). o.price) e ∙ r.0,
      rw q r.1,
      rw q r.2,
      Rests-SameDataAt m n price ps (λ a i. same a (ground arith)) r.3,
    )

resting_at-payload :
    (m n : Store) (p : Slot) → payload (n p) ≡ payload (m p) → resting_at n p ≡ resting_at m p
resting_at-payload m n p e = ap (λ (o : Order). resting_at (λ _. o) p) e

pub resting-SameDataAt :
    (m n : Store) (ps : List Slot) → SameDataAt ps m n → resting n ps ≡ resting m ps
resting-SameDataAt m n [] same = refl
resting-SameDataAt m n (p ∷ ps) same =
    rw (resting_at-payload m n p (same p (ground arith)))
      (ap (◌∷◌ (resting_at m p)) (resting-SameDataAt m n ps (λ a i. same a (ground arith))))

pub Ladder-SameAt :
    (m n : Store) (ls : List PriceLevel) (qs : Queues)
    → SameAt (slots qs) m n
    → Ladder m ls qs
    → Ladder n ls qs
Ladder-SameAt m n [] [] same d = tt
Ladder-SameAt m n [] (q ∷ qs) same d = absurd d
Ladder-SameAt m n (l ∷ ls) [] same d = absurd d
Ladder-SameAt m n (l ∷ ls) ((p, ps) ∷ qs) same d =
    let here : SameAt (p ∷ ps) m n = λ a i. same a (mem-append_left a (p ∷ ps) (slots qs) i) in
    (
      IsQueue-SameAt m n l (p ∷ ps) here d.0,
      Rests-SameDataAt m n l.price (p ∷ ps) (λ a i. ap payload (here a i)) d.1,
      Ladder-SameAt m n ls qs (λ a i. same a (mem-append_right a (p ∷ ps) (slots qs) i)) d.2,
    )
