-- ===== src/OrderBook/Levels/Split.antt =====
-- The searches of include/order_book.h, with a side as what stands before a price, at it, and behind
-- it.
use market_maker_ops.Prelude.{
  ℕ, ◌<◌, ◌≡◌, refl, sym, subst, ap, ◌∙◌, ◌⊎◌, inl, inr, true, some, List, [], ◌∷◌, ◌++◌, length,
  append_assoc,
}
use market_maker_ops.Order.{Side}
use market_maker_ops.PriceLevel.{PriceLevel, new_level}
use market_maker_ops.OrderBook.Levels.{
  max_price_levels, before, Cursor, lower_bound, rejoin, find_or_create,
}
use market_maker_ops.OrderBook.Levels.Search.{Descends, Sorted, Ascends, find_or_create_lem}
use market_maker_ops.OrderBook.Levels.Lookup.{
  has_price, before_trans, cut-Sorted, lower_bound-has_price,
}

-- Every level is better than the price, or worse.
abbrev pub Better : Side → ℕ → List PriceLevel → Type 0
Better side p [] = Unit {0}
Better side p (l ∷ ls) = (before side p l.price ≡ true) × Better side p ls

abbrev pub Worse : Side → ℕ → List PriceLevel → Type 0
Worse side p [] = Unit {0}
Worse side p (l ∷ ls) = (before side l.price p ≡ true) × Worse side p ls

pub rejoin-append : (later ls : List PriceLevel) → rejoin later ls ≡ rejoin later [] ++ ls
unfolding rejoin
rejoin-append [] ls = refl
rejoin-append (k ∷ later) ls =
    rejoin-append later (k ∷ ls)
    ∙ sym (append_assoc (rejoin later []) (k ∷ []) ls)
    ∙ ap (λ xs. xs ++ ls) (sym (rejoin-append later (k ∷ [])))

Sorted-rejoin :
    (side : Side) (later : List PriceLevel) (l : PriceLevel) (ls : List PriceLevel)
    → Sorted side (rejoin later (l ∷ ls))
    → Ascends side l.price later × Descends side l.price ls
unfolding rejoin
Sorted-rejoin side [] l ls s = (tt, s)
Sorted-rejoin side (k ∷ later) l ls s =
    let (a, d) = Sorted-rejoin side later k (l ∷ ls) s in ((d.0, a), d.1)

Ascends-Better :
    (side : Side) (p q : ℕ) (ls : List PriceLevel)
    → before side p q ≡ true
    → Ascends side q ls
    → Better side p ls
Ascends-Better side p q [] h a = tt
Ascends-Better side p q (l ∷ ls) h a =
    let k = before_trans side p q l.price h a.0 in (k, Ascends-Better side p l.price ls k a.1)

Descends-Worse :
    (side : Side) (p q : ℕ) (ls : List PriceLevel)
    → before side q p ≡ true
    → Descends side q ls
    → Worse side p ls
Descends-Worse side p q [] h d = tt
Descends-Worse side p q (l ∷ ls) h d =
    let k = before_trans side l.price q p d.0 h in (k, Descends-Worse side p l.price ls k d.1)

Better-rejoin :
    (side : Side) (p : ℕ) (later ls : List PriceLevel)
    → Better side p later
    → Better side p ls
    → Better side p (rejoin later ls)
unfolding rejoin
Better-rejoin side p [] ls b c = c
Better-rejoin side p (k ∷ later) ls b c = Better-rejoin side p later (k ∷ ls) b.1 (b.0, c)

ahead :
    (side : Side) (p : ℕ) (later : List PriceLevel)
    → Ascends side p later
    → Better side p (rejoin later [])
ahead side p [] a = Better-rejoin side p [] [] tt tt
ahead side p (k ∷ later) a =
    Better-rejoin side p (k ∷ later) [] (a.0, Ascends-Better side p k.price later a.0 a.1) tt

pub Descends-All :
    (side : Side) (p : ℕ) (ls : List PriceLevel) → Descends side p ls → Worse side p ls
Descends-All side p [] d = tt
Descends-All side p (l ∷ ls) d = (d.0, Descends-Worse side p l.price ls d.0 d.1)

-- A sorted side around one of its levels.
pub record Around (side : Side) (k : PriceLevel) (front behind : List PriceLevel) : Type 0 where
  pub better : Better side k.price front
  pub worse : Worse side k.price behind
  pub cut : Sorted side (front ++ behind)

pub rejoin-Around :
    (side : Side) (k : PriceLevel) (later earlier : List PriceLevel)
    → Sorted side (rejoin later (k ∷ earlier))
    → Around side k (rejoin later []) earlier
rejoin-Around side k later earlier s =
    let (a, d) = Sorted-rejoin side later k earlier s in
    record {
      better = ahead side k.price later a;
      worse = Descends-All side k.price earlier d;
      cut =
          subst (Sorted side) (rejoin-append later earlier)
            (cut-Sorted side k.price later earlier a d);
    }

-- The level for a price, with the levels before it and behind it.
pub record Finds (side : Side) (p : ℕ) (levels : List PriceLevel) (k : PriceLevel)
    (front behind : List PriceLevel) : Type 0 where
  pub price : k.price ≡ p
  pub around : Around side k front behind
  pub whole : Sorted side (front ++ k ∷ behind)
  pub origin : (levels ≡ front ++ k ∷ behind) ⊎ ((k ≡ new_level p) × (levels ≡ front ++ behind))

pub find_or_create_split :
    (side : Side) (p : ℕ) (levels : List PriceLevel)
    → Sorted side levels
    → length levels < max_price_levels
    → (k : PriceLevel) × (it : Cursor) × (find_or_create side p levels ≡ some (k, it))
      × Finds side p levels k (rejoin it.later []) it.earlier
find_or_create_split side p levels s h =
    let ((k, it), e, placed) = find_or_create_lem side p levels s h in
    let join = λ (ls : List PriceLevel). rejoin-append it.later ls in
    (
      k,
      it,
      e,
      record {
        price = placed.price;
        around = rejoin-Around side k it.later it.earlier placed.sorted;
        whole = subst (Sorted side) (join (k ∷ it.earlier)) placed.sorted;
        origin = elim placed.origin [
          | inl w ↦ inl (sym w ∙ join (k ∷ it.earlier))
          | inr (n, w) ↦ inr (n, sym w ∙ join it.earlier)
        ];
      },
    )

pub lower_bound_split :
    (side : Side) (p : ℕ) (levels : List PriceLevel)
    → Sorted side levels
    → has_price p levels ≡ true
    → (k : PriceLevel) × (later : List PriceLevel) × (behind : List PriceLevel) × (lower_bound side
          p levels
        ≡ record { later = k ∷ later; earlier = behind })
      × (k.price ≡ p)
      × (levels ≡ rejoin later [] ++ k ∷ behind)
      × Around side k (rejoin later []) behind
lower_bound_split side p levels s h =
    let (k, later, earlier, e, at) = lower_bound-has_price side p levels s h in
    (
      k,
      later,
      earlier,
      e,
      at.price,
      sym at.whole ∙ rejoin-append later (k ∷ earlier),
      rejoin-Around side k later earlier (subst (Sorted side) (sym at.whole) s),
    )
