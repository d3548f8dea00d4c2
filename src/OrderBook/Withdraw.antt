-- ===== src/OrderBook/Withdraw.antt =====
-- `withdraw` on the orders of a list of slots.
use market_maker_ops.Prelude.{ℕ, ◌≡◌, refl, ap, true, false, List, [], ◌∷◌, ◌++◌, arith, ◌==◌}
use market_maker_ops.Order.{Side, Slot, Store}
use market_maker_ops.PriceLevel.{PriceLevel}
use market_maker_ops.PriceLevel.Links.{◌∈◌}
use market_maker_ops.OrderBook.Abstract.{withdraw}
use market_maker_ops.OrderBook.Levels.Search.{Sorted, Descends}
use market_maker_ops.OrderBook.Match.Ladder.{Rests}
use market_maker_ops.OrderBook.Match.Spec.{resting, resting_at}
use market_maker_ops.OrderBook.WellFormed.{OnSide}

pub withdraw-none :
    (m : Store) (id : ℕ) (ps : List Slot)
    → ((a : Slot) → a ∈ ps → ((m a).order_id == id) ≡ false)
    → withdraw id (resting m ps) ≡ resting m ps
withdraw-none m id [] h = refl
withdraw-none m id (p ∷ ps) h =
    rw (h p (ground arith))
      (ap (◌∷◌ (resting_at m p)) (withdraw-none m id ps (λ a i. h a (ground arith))))

pub withdraw-middle :
    (m : Store) (id : ℕ) (o : Slot) (xs ys : List Slot)
    → ((m o).order_id == id) ≡ true
    → ((a : Slot) → a ∈ xs ++ ys → ((m a).order_id == id) ≡ false)
    → withdraw id (resting m (xs ++ o ∷ ys)) ≡ resting m (xs ++ ys)
withdraw-middle m id o [] ys e h = rw e (withdraw-none m id ys h)
withdraw-middle m id o (x ∷ xs) ys e h =
    rw (h x (ground arith))
      (ap (◌∷◌ (resting_at m x)) (withdraw-middle m id o xs ys e (λ a i. h a (ground arith))))

-- Levels of the same prices are sorted alike.
Descends-level :
    (side : Side) (p : ℕ) (front : List PriceLevel) (l k : PriceLevel) (behind : List PriceLevel)
    → l.price ≡ k.price
    → Descends side p (front ++ k ∷ behind)
    → Descends side p (front ++ l ∷ behind)
Descends-level side p [] l k behind e d = rw e d
Descends-level side p (f ∷ front) l k behind e d =
    (d.0, Descends-level side f.price front l k behind e d.1)

pub Sorted-level :
    (side : Side) (front : List PriceLevel) (l k : PriceLevel) (behind : List PriceLevel)
    → l.price ≡ k.price
    → Sorted side (front ++ k ∷ behind)
    → Sorted side (front ++ l ∷ behind)
Sorted-level side [] l k behind e s = rw e s
Sorted-level side (f ∷ front) l k behind e s = Descends-level side f.price front l k behind e s

pub OnSide-all :
    (m : Store) (side : Side) (ps : List Slot)
    → ((a : Slot) → a ∈ ps → (m a).side ≡ side)
    → OnSide m side ps
OnSide-all m side [] h = tt
OnSide-all m side (p ∷ ps) h =
    (h p (ground arith), OnSide-all m side ps (λ a i. h a (ground arith)))

pub Rests-middle :
    (m : Store) (price : ℕ) (o : Slot) (xs ys : List Slot)
    → Rests m price (xs ++ o ∷ ys)
    → Rests m price (xs ++ ys)
Rests-middle m price o [] ys r = r.3
Rests-middle m price o (x ∷ xs) ys r = (r.0, r.1, r.2, Rests-middle m price o xs ys r.3)
