-- ===== src/OrderBook/Levels/Prices.antt =====
-- Whether a side of include/order_book.h is sorted depends on the prices of its levels alone.
use market_maker_ops.Prelude.{ℕ, ◌≡◌, subst, true, List, [], ◌∷◌, ◌++◌, map}
use market_maker_ops.Order.{Side}
use market_maker_ops.PriceLevel.{PriceLevel}
use market_maker_ops.OrderBook.Levels.{before}
use market_maker_ops.OrderBook.Levels.Search.{Descends, Sorted}

abbrev pub prices : List PriceLevel → List ℕ
prices ls = map (λ (l : PriceLevel). l.price) ls

abbrev FallsFrom : Side → ℕ → List ℕ → Type 0
FallsFrom side p [] = Unit {0}
FallsFrom side p (q ∷ qs) = (before side q p ≡ true) × FallsFrom side q qs

abbrev Falls : Side → List ℕ → Type 0
Falls side [] = Unit {0}
Falls side (p ∷ ps) = FallsFrom side p ps

Descends-FallsFrom :
    (side : Side) (p : ℕ) (ls : List PriceLevel) → Descends side p ls → FallsFrom side p (prices ls)
Descends-FallsFrom side p [] d = tt
Descends-FallsFrom side p (l ∷ ls) d = (d.0, Descends-FallsFrom side l.price ls d.1)

FallsFrom-Descends :
    (side : Side) (p : ℕ) (ls : List PriceLevel) → FallsFrom side p (prices ls) → Descends side p ls
FallsFrom-Descends side p [] d = tt
FallsFrom-Descends side p (l ∷ ls) d = (d.0, FallsFrom-Descends side l.price ls d.1)

Sorted-Falls : (side : Side) (ls : List PriceLevel) → Sorted side ls → Falls side (prices ls)
Sorted-Falls side [] s = tt
Sorted-Falls side (l ∷ ls) s = Descends-FallsFrom side l.price ls s

Falls-Sorted : (side : Side) (ls : List PriceLevel) → Falls side (prices ls) → Sorted side ls
Falls-Sorted side [] s = tt
Falls-Sorted side (l ∷ ls) s = FallsFrom-Descends side l.price ls s

Falls-tail : (side : Side) (p : ℕ) (ps : List ℕ) → FallsFrom side p ps → Falls side ps
Falls-tail side p [] f = tt
Falls-tail side p (q ∷ qs) f = f.1

Falls-suffix : (side : Side) (ps qs : List ℕ) → Falls side (ps ++ qs) → Falls side qs
Falls-suffix side [] qs f = f
Falls-suffix side (p ∷ ps) qs f = Falls-suffix side ps qs (Falls-tail side p (ps ++ qs) f)

-- A side stays sorted when its first levels go.
pub suffix-Sorted :
    (side : Side) (ls ks : List PriceLevel) (gone : List ℕ)
    → prices ls ≡ gone ++ prices ks
    → Sorted side ls
    → Sorted side ks
suffix-Sorted side ls ks gone e s =
    Falls-Sorted side ks
      (Falls-suffix side gone (prices ks) (subst (Falls side) e (Sorted-Falls side ls s)))
