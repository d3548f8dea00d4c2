-- ===== src/OrderBook/Match/Fill.antt =====
-- One fill of the loop of `matchBuy` and `matchSell` of include/order_book.h: the incoming order and
-- the order at the head of the best level lose the same quantity.
use market_maker_ops.Prelude.{ℕ, ◌-◌, ◌<◌, ◌≤◌, ◌≡◌, ap, false, none, List, ◌∷◌, arith, ◌==◌}
use market_maker_ops.Order.{Order, Slot, Store, set_quantity, u32_mod}
use market_maker_ops.PriceLevel.{PriceLevel, sub32}
use market_maker_ops.PriceLevel.Links.{◌∉◌, Links-frame, ne_of_mem, not_mem_cons}
use market_maker_ops.PriceLevel.Queue.{IsQueue, total}
use market_maker_ops.OrderBook.Match.Ladder.{SameAt, total-SameAt}

-- The memory behind the two subtractions.
abbrev pub after_fill : Store → Slot → Slot → ℕ → Store
after_fill m o r q =
    let m1 = set_quantity m o (sub32 (m o).quantity q) in
    set_quantity m1 r (sub32 (m1 r).quantity q)

abbrev pub less : Order → ℕ → Order
less o q = record o { quantity = o.quantity - q }

pub record Filled (o r : Slot) (q : ℕ) (m n : Store) : Type 0 where
  pub links : (a : Slot) → ((n a).prev ≡ (m a).prev) × ((n a).next ≡ (m a).next)
  pub incoming : n o ≡ less (m o) q
  pub resting : n r ≡ less (m r) q
  pub elsewhere : (a : Slot) → (a == o) ≡ false → (a == r) ≡ false → n a ≡ m a

pub sub32_le : (a b : ℕ) → b ≤ a → a < u32_mod → sub32 a b ≡ a - b
sub32_le a b h k = omega arith

pub after_fill-Filled :
    (m : Store) (o r : Slot) (q : ℕ)
    → (o == r) ≡ false
    → q ≤ (m o).quantity
    → (m o).quantity < u32_mod
    → q ≤ (m r).quantity
    → (m r).quantity < u32_mod
    → Filled o r q m (after_fill m o r q)
after_fill-Filled m o r q ne ho bo hr br = record {
  links = λ a. (ground arith, ground arith);
  incoming = ground (arith, sub32_le (m o).quantity q ho bo);
  resting = ground (arith, sub32_le (m r).quantity q hr br);
  elsewhere = λ a i j. ground arith;
}

pub Filled-SameAt :
    (m n : Store) (o r : Slot) (q : ℕ) (ps : List Slot)
    → Filled o r q m n
    → o ∉ ps
    → r ∉ ps
    → SameAt ps m n
Filled-SameAt m n o r q ps f out out' a i =
    f.elsewhere a (ground (arith, ne_of_mem o a ps out i)) (ground (arith, ne_of_mem r a ps out' i))

-- The level with its total reduced is a queue of the same slots.
pub Filled-IsQueue :
    (m n : Store) (o r : Slot) (q : ℕ) (pl : PriceLevel) (ps : List Slot)
    → Filled o r q m n
    → o ∉ r ∷ ps
    → q ≤ (m r).quantity
    → q < u32_mod
    → IsQueue m pl (r ∷ ps)
    → IsQueue n (record pl { total_quantity = sub32 pl.total_quantity q }) (r ∷ ps)
unfolding total
Filled-IsQueue m n o r q pl ps f out h b is = record {
  head = is.head;
  tail = is.tail;
  links = Links-frame m n none (r ∷ ps) none (λ a i. f.links a) is.links;
  distinct = is.distinct;
  sum = omega (
    arith,
    is.sum,
    ap (λ (x : Order). x.quantity) f.resting,
    total-SameAt m n ps (Filled-SameAt m n o r q ps f (not_mem_cons o r ps out).1 is.distinct.0),
  );
}
