-- ===== src/OrderBook/Levels/Search.antt =====
-- The sorted vectors of price levels of include/order_book.h, and what the searches find in them.
use market_maker_ops.Prelude.{
  ℕ, ◌<◌, ◌≡◌, ◌⊎◌, inl, inr, refl, true, false, Option, some, List, [], ◌∷◌, arith, lt→ltb, ◌==◌,
  ==_iff, if_cases, length,
}
use market_maker_ops.Order.{Side, buy, sell}
use market_maker_ops.PriceLevel.{PriceLevel, new_level}
use market_maker_ops.OrderBook.Levels.{
  max_price_levels, before, Cursor, seek, lower_bound, rejoin, Found, insert_level, found_or,
  find_or_create,
}

-- From a price downwards: every level stands before the one that heads it.
abbrev pub Descends : Side → ℕ → List PriceLevel → Type 0
Descends side p [] = Unit {0}
Descends side p (l ∷ ls) = (before side l.price p ≡ true) × Descends side l.price ls

-- The levels of a side, the best in front, are strictly sorted.
abbrev pub Sorted : Side → List PriceLevel → Type 0
Sorted side [] = Unit {0}
Sorted side (l ∷ ls) = Descends side l.price ls

-- Upwards from a price, as the levels behind an iterator stand.
abbrev pub Ascends : Side → ℕ → List PriceLevel → Type 0
Ascends side p [] = Unit {0}
Ascends side p (l ∷ ls) = (before side p l.price ≡ true) × Ascends side l.price ls

-- Whether a level stands in front of a price, as `std::lower_bound` is to find it.
abbrev pub Stops : Side → ℕ → List PriceLevel → Type 0
Stops side p [] = Unit {0}
Stops side p (l ∷ ls) = before side l.price p ≡ true

abbrev pub Passes : Side → ℕ → List PriceLevel → Type 0
Passes side p [] = Unit {0}
Passes side p (l ∷ ls) = before side l.price p ≡ false

-- An iterator into a sorted side.
abbrev pub Between : Side → List PriceLevel → List PriceLevel → Type 0
Between side [] ls = Sorted side ls
Between side (k ∷ later) ls = Descends side k.price ls × Ascends side k.price later

pub record Seeks (side : Side) (p : ℕ) (levels : List PriceLevel) (it : Cursor) : Type 0 where
  pub between : Between side it.later it.earlier
  pub stops : Stops side p it.earlier
  pub passes : Passes side p it.later
  pub whole : rejoin it.later it.earlier ≡ levels

pub before_irreflexive : (side : Side) (p : ℕ) → before side p p ≡ false
before_irreflexive buy p = ground arith
before_irreflexive sell p = ground arith

pub before_total :
    (side : Side) (p q : ℕ) → before side p q ≡ false → (p == q) ≡ false → before side q p ≡ true
before_total buy p q h n = ground arith
before_total sell p q h n = ground arith

step-Between :
    (side : Side) (l : PriceLevel) (later ls : List PriceLevel)
    → Between side later (l ∷ ls)
    → Between side (l ∷ later) ls
step-Between side l [] ls b = (b, tt)
step-Between side l (k ∷ later) ls (b, c) = (b.1, (b.0, c))

seek_lem :
    (side : Side) (p : ℕ) (later ls : List PriceLevel)
    → Between side later ls
    → Passes side p later
    → Seeks side p (rejoin later ls) (seek side p later ls)
unfolding seek rejoin
seek_lem side p later [] b h = record { between = b; stops = tt; passes = h; whole = refl }
seek_lem side p later (l ∷ ls) b h =
    if_cases (Seeks side p (rejoin later (l ∷ ls))) (before side l.price p)
      (λ e. record { between = b; stops = e; passes = h; whole = refl })
      (λ e. seek_lem side p (l ∷ later) ls (step-Between side l later ls b) e)

-- Below a price at which the search stopped.
pub Descends-stop :
    (side : Side) (p : ℕ) (ls : List PriceLevel)
    → Sorted side ls
    → Stops side p ls
    → Descends side p ls
Descends-stop side p [] s h = tt
Descends-stop side p (l ∷ ls) s h = (h, s)

pub Between-earlier :
    (side : Side) (later ls : List PriceLevel) → Between side later ls → Sorted side ls
Between-earlier side [] ls b = b
Between-earlier side (k ∷ later) [] b = tt
Between-earlier side (k ∷ later) (l ∷ ls) b = b.0.1

pub rejoin-Sorted :
    (side : Side) (later : List PriceLevel) (l : PriceLevel) (ls : List PriceLevel)
    → Ascends side l.price later
    → Descends side l.price ls
    → Sorted side (rejoin later (l ∷ ls))
unfolding rejoin
rejoin-Sorted side [] l ls a d = d
rejoin-Sorted side (k ∷ later) l ls a d = rejoin-Sorted side later k (l ∷ ls) a.1 (a.0, d)

-- The level of a price: one of the side, or a new one where it belongs.
pub record Placed (side : Side) (p : ℕ) (levels : List PriceLevel) (f : Found) : Type 0 where
  pub price : f.0.price ≡ p
  pub sorted : Sorted side (rejoin f.1.later (f.0 ∷ f.1.earlier))
  pub origin :
      (rejoin f.1.later (f.0 ∷ f.1.earlier) ≡ levels)
      ⊎ ((f.0 ≡ new_level p) × (rejoin f.1.later f.1.earlier ≡ levels))

insert-Placed :
    (side : Side) (p : ℕ) (levels : List PriceLevel) (it : Cursor)
    → Ascends side p it.later
    → Seeks side p levels it
    → Placed side p levels (new_level p, it)
insert-Placed side p levels it a s = record {
  price = refl;
  sorted = rejoin-Sorted side it.later (new_level p) it.earlier a (
      Descends-stop side p it.earlier (Between-earlier side it.later it.earlier s.between) s.stops);
  origin = inr (refl, s.whole);
}

insert_level-some :
    (p count : ℕ) (it : Cursor)
    → count < max_price_levels
    → insert_level p count it ≡ some (new_level p, it)
unfolding insert_level
insert_level-some p count it h = rw (lt→ltb count max_price_levels h)

abbrev FindsLevel : Side → ℕ → List PriceLevel → Option Found → Type 0
FindsLevel side p levels r = (f : Found) × (r ≡ some f) × Placed side p levels f

found_or_lem :
    (side : Side) (p count : ℕ) (levels later earlier : List PriceLevel)
    → count < max_price_levels
    → Seeks side p levels (record { later = later; earlier = earlier })
    → FindsLevel side p levels
        (found_or p count later (record { later = later; earlier = earlier }))
unfolding found_or rejoin
found_or_lem side p count levels [] earlier h s =
    let it : Cursor = record { later = []; earlier = earlier } in
    ((new_level p, it), insert_level-some p count it h, insert-Placed side p levels it tt s)
found_or_lem side p count levels (k ∷ later) earlier h s =
    let it : Cursor = record { later = k ∷ later; earlier = earlier } in
    let at : Cursor = record { later = later; earlier = earlier } in
    if_cases (FindsLevel side p levels) (k.price == p)
      (λ e. (
        (k, at),
        refl,
        record {
          price = (==_iff k.price p).0 e;
          sorted = rejoin-Sorted side later k earlier s.between.1 s.between.0;
          origin = inl s.whole;
        },
      ))
      (λ n. (
        (new_level p, it),
        insert_level-some p count it h,
        insert-Placed side p levels it (before_total side k.price p s.passes n, s.between.1) s,
      ))

pub lower_bound_lem :
    (side : Side) (p : ℕ) (levels : List PriceLevel)
    → Sorted side levels
    → Seeks side p levels (lower_bound side p levels)
unfolding lower_bound rejoin
lower_bound_lem side p levels s = seek_lem side p [] levels s tt

-- `find_or_create`, on a sorted side that is not full, finds the level of the price or makes it, in
-- its place.
pub find_or_create_lem :
    (side : Side) (p : ℕ) (levels : List PriceLevel)
    → Sorted side levels
    → length levels < max_price_levels
    → (f : Found) × (find_or_create side p levels ≡ some f) × Placed side p levels f
unfolding find_or_create
find_or_create_lem side p levels s h =
    let it = lower_bound side p levels in
    found_or_lem side p (length levels) levels it.later it.earlier h
      (lower_bound_lem side p levels s)
