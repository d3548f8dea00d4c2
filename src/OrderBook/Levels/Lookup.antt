-- ===== src/OrderBook/Levels/Lookup.antt =====
-- Which prices of include/order_book.h have a level: when the searches find one, and when there is
-- no room for another.
use market_maker_ops.Prelude.{
  ℕ, ◌≤◌, ◌≡◌, refl, ap, ◌∙◌, Bool, Bool-cases, true, false, ◌||◌, inl, inr, none, List, [], ◌∷◌,
  arith, ◌==◌, ==_iff, length, if_cases,
}
use market_maker_ops.Order.{Side, buy, sell}
use market_maker_ops.PriceLevel.{PriceLevel}
use market_maker_ops.OrderBook.Levels.{
  max_price_levels, before, Cursor, seek, lower_bound, rejoin, insert_level, found_or,
  find_or_create,
}
use market_maker_ops.OrderBook.Levels.Search.{
  Descends, Sorted, Ascends, Stops, Seeks, before_total, before_irreflexive, rejoin-Sorted,
  Descends-stop, Between-earlier, lower_bound_lem,
}

-- Does the side have a level of the price?
abbrev pub has_price : ℕ → List PriceLevel → Bool
has_price p [] = false
has_price p (l ∷ ls) = (l.price == p) || has_price p ls

has_price-rejoin :
    (p : ℕ) (later ls : List PriceLevel)
    → has_price p (rejoin later ls) ≡ (has_price p later || has_price p ls)
unfolding rejoin
has_price-rejoin p [] ls = refl
has_price-rejoin p (k ∷ later) ls = ground (arith, has_price-rejoin p later (k ∷ ls))

Descends-absent :
    (side : Side) (p q : ℕ) (ls : List PriceLevel)
    → before side p q ≡ false
    → Descends side q ls
    → has_price p ls ≡ false
Descends-absent side p q [] h d = refl
Descends-absent buy p q (l ∷ ls) h d =
    ground (arith, d.0, Descends-absent buy p l.price ls (ground (arith, d.0)) d.1)
Descends-absent sell p q (l ∷ ls) h d =
    ground (arith, d.0, Descends-absent sell p l.price ls (ground (arith, d.0)) d.1)

Ascends-absent :
    (side : Side) (p q : ℕ) (ls : List PriceLevel)
    → before side q p ≡ false
    → Ascends side q ls
    → has_price p ls ≡ false
Ascends-absent side p q [] h d = refl
Ascends-absent buy p q (l ∷ ls) h d =
    ground (arith, d.0, Ascends-absent buy p l.price ls (ground (arith, d.0)) d.1)
Ascends-absent sell p q (l ∷ ls) h d =
    ground (arith, d.0, Ascends-absent sell p l.price ls (ground (arith, d.0)) d.1)

seek-whole :
    (side : Side) (p : ℕ) (later ls : List PriceLevel)
    → rejoin (seek side p later ls).later (seek side p later ls).earlier ≡ rejoin later ls
unfolding seek rejoin
seek-whole side p later [] = refl
seek-whole side p later (l ∷ ls) =
    if_cases (λ (it : Cursor). rejoin it.later it.earlier ≡ rejoin later (l ∷ ls))
      (before side l.price p) (λ e. refl) (λ e. seek-whole side p (l ∷ later) ls)

insert_level-none :
    (p count : ℕ) (it : Cursor) → max_price_levels ≤ count → insert_level p count it ≡ none
unfolding insert_level
insert_level-none p count it h = ground arith

found_or-none :
    (p count : ℕ) (later : List PriceLevel) (it : Cursor)
    → max_price_levels ≤ count
    → has_price p later ≡ false
    → found_or p count later it ≡ none
unfolding found_or
found_or-none p count [] it h n = insert_level-none p count it h
found_or-none p count (k ∷ later) it h n = ground (arith, insert_level-none p count it h)

-- `find_or_create` fails its assertion for a price with no level when the side is full.
pub find_or_create-none :
    (side : Side) (p : ℕ) (levels : List PriceLevel)
    → max_price_levels ≤ length levels
    → has_price p levels ≡ false
    → find_or_create side p levels ≡ none
unfolding find_or_create lower_bound rejoin
find_or_create-none side p levels h n =
    let it : Cursor = seek side p [] levels in
    found_or-none p (length levels) it.later it h (
      ground (
        arith,
        n,
        has_price-rejoin p it.later it.earlier,
        ap (has_price p) (seek-whole side p [] levels),
      ))

pub before_trans :
    (side : Side) (p q r : ℕ)
    → before side p q ≡ true
    → before side q r ≡ true
    → before side p r ≡ true
before_trans buy p q r h k = ground arith
before_trans sell p q r h k = ground arith

Descends-weaken :
    (side : Side) (p q : ℕ) (ls : List PriceLevel)
    → before side p q ≡ true
    → Descends side p ls
    → Descends side q ls
Descends-weaken side p q [] h d = tt
Descends-weaken side p q (l ∷ ls) h d = (before_trans side l.price p q d.0 h, d.1)

Descends-Sorted : (side : Side) (p : ℕ) (ls : List PriceLevel) → Descends side p ls → Sorted side ls
Descends-Sorted side p [] d = tt
Descends-Sorted side p (l ∷ ls) d = d.1

-- A side stays sorted when a level leaves it.
pub cut-Sorted :
    (side : Side) (p : ℕ) (later ls : List PriceLevel)
    → Ascends side p later
    → Descends side p ls
    → Sorted side (rejoin later ls)
unfolding rejoin
cut-Sorted side p [] ls a d = Descends-Sorted side p ls d
cut-Sorted side p (k ∷ later) ls a d =
    rejoin-Sorted side later k ls a.1 (Descends-weaken side p k.price ls a.0 d)

-- What an iterator at the level of a price tells.
pub record FoundAt (side : Side) (p : ℕ) (levels : List PriceLevel) (k : PriceLevel)
    (later earlier : List PriceLevel) : Type 0 where
  pub price : k.price ≡ p
  pub whole : rejoin later (k ∷ earlier) ≡ levels
  pub cut : Sorted side (rejoin later earlier)

abbrev Finds : Side → ℕ → List PriceLevel → Cursor → Type 0
Finds side p levels it =
    (k : PriceLevel) × (later : List PriceLevel) × (earlier : List PriceLevel) × (it
      ≡ record { later = k ∷ later; earlier = earlier })
    × FoundAt side p levels k later earlier

not_absent :
    (side : Side) (p : ℕ) (later earlier : List PriceLevel)
    → has_price p (rejoin later earlier) ≡ true
    → Ascends side p later
    → Sorted side earlier
    → Stops side p earlier
    → ⊥
not_absent side p later earlier h a s stop = ground (
  arith,
  h,
  has_price-rejoin p later earlier,
  Ascends-absent side p p later (before_irreflexive side p) a,
  Descends-absent side p p earlier (before_irreflexive side p)
      (Descends-stop side p earlier s stop),
)

Seeks-Finds :
    (side : Side) (p : ℕ) (levels later earlier : List PriceLevel)
    → has_price p levels ≡ true
    → Seeks side p levels (record { later = later; earlier = earlier })
    → Finds side p levels (record { later = later; earlier = earlier })
unfolding rejoin
Seeks-Finds side p levels [] earlier h s =
    absurd (not_absent side p [] earlier (ap (has_price p) s.whole ∙ h) tt s.between s.stops)
Seeks-Finds side p levels (k ∷ later) earlier h s = elim (Bool-cases (k.price == p)) [
  | inl e ↦ (
    k,
    later,
    earlier,
    refl,
    record {
      price = (==_iff k.price p).0 e;
      whole = s.whole;
      cut = cut-Sorted side k.price later earlier s.between.1 s.between.0;
    },
  )
  | inr n ↦ absurd (
      not_absent side p (k ∷ later) earlier (ap (has_price p) s.whole ∙ h)
        (before_total side k.price p s.passes n, s.between.1)
        (Between-earlier side (k ∷ later) earlier s.between) s.stops)
]

-- On a sorted side with a level of the price, `lower_bound` stops at that level.
pub lower_bound-has_price :
    (side : Side) (p : ℕ) (levels : List PriceLevel)
    → Sorted side levels
    → has_price p levels ≡ true
    → (k : PriceLevel) × (later : List PriceLevel) × (earlier : List PriceLevel) × (lower_bound side
          p levels
        ≡ record { later = k ∷ later; earlier = earlier })
      × FoundAt side p levels k later earlier
lower_bound-has_price side p levels s h =
    let it = lower_bound side p levels in
    Seeks-Finds side p levels it.later it.earlier h (lower_bound_lem side p levels s)
