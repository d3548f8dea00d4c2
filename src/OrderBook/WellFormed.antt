-- ===== src/OrderBook/WellFormed.antt =====
-- What a book of include/order_book.h stands for: the queues of its two sides and the unused slots.
use market_maker_ops.Prelude.{
  ℕ, ◌+◌, ◌<◌, ◌≡◌, refl, sym, subst, ap, ◌∙◌, true, ◌⊎◌, inl, inr, Bool-cases, List, [], ◌∷◌, ◌++◌,
  arith, ◌==◌, ==_iff, length,
}
use market_maker_ops.Order.{Side, buy, sell, Slot, Store, u32_mod}
use market_maker_ops.PriceLevel.{PriceLevel}
use market_maker_ops.PriceLevel.Links.{has, ◌∈◌, Distinct, Disjoint, has-append}
use market_maker_ops.PriceLevel.Middle.{mem-swap, Distinct-swap, Within-swap, length-swap}
use market_maker_ops.OrderPool.FreeList.{IsPool, Within}
use market_maker_ops.OrderPool.{OrderPool}
use market_maker_ops.OrderBook.{OrderBook, side_levels, with_levels}
use market_maker_ops.OrderBook.Levels.{opposite, before}
use market_maker_ops.OrderBook.Levels.Search.{Sorted}
use market_maker_ops.OrderBook.Levels.Lookup.{has_price}
use market_maker_ops.OrderBook.Levels.Split.{Better, Worse}
use market_maker_ops.OrderBook.Match.Spec.{Queues, slots}
use market_maker_ops.OrderBook.Match.Ladder.{Rests, Ladder}
use market_maker_ops.OrderBook.Index.{Indexed}

abbrev pub OnSide : Store → Side → List Slot → Type 0
OnSide m side [] = Unit {0}
OnSide m side (p ∷ ps) = ((m p).side ≡ side) × OnSide m side ps

-- One side: sorted levels, and the queues of its orders.
pub record IsSide (m : Store) (side : Side) (levels : List PriceLevel) (qs : Queues) : Type 0 where
  pub ladder : Ladder m levels qs
  pub sorted : Sorted side levels
  pub on_side : OnSide m side (slots qs)

-- The slots of all live orders.
abbrev pub live : Queues → Queues → List Slot
live own opp = slots own ++ slots opp

-- A pool, an index and two sides that make a book: `own` are the queues of one side, `opp` those of
-- the other. Every slot of the pool is in one queue or unused, and the index has exactly the live
-- orders.
pub record IsState (side : Side) (of : OrderPool) (ids : List (ℕ × Slot))
    (levels opp_levels : List PriceLevel) (own opp : Queues) (free : List Slot) : Type 0 where
  pub pool : IsPool of free
  pub own_side : IsSide of.orders side levels own
  pub opp_side : IsSide of.orders (opposite side) opp_levels opp
  pub distinct : Distinct (live own opp)
  pub apart : Disjoint (live own opp) free
  pub within : Within of.capacity (live own opp)
  pub index : Indexed of.orders (live own opp) ids
  pub full : length free + length (live own opp) ≡ of.capacity

-- A book, seen from one side.
abbrev pub IsBook : Side → OrderBook → Queues → Queues → List Slot → Type 0
IsBook side b own opp free =
    IsState side b.pool b.order_index (side_levels side b) (side_levels (opposite side) b) own opp
      free

-- What a write to one side, the pool and the index leaves.
pub with_levels-IsBook :
    (side : Side) (ls : List PriceLevel) (b : OrderBook) (pool : OrderPool)
    (index : List (ℕ × Slot)) (own opp : Queues) (free : List Slot)
    → IsState side pool index ls (side_levels (opposite side) b) own opp free
    → IsBook side (with_levels side ls (record b { pool = pool; order_index = index })) own opp free
with_levels-IsBook buy ls b pool index own opp free is = is
with_levels-IsBook sell ls b pool index own opp free is = is

pub with_pool-IsBook :
    (side : Side) (b : OrderBook) (pool : OrderPool) (own opp : Queues) (free : List Slot)
    → IsState side pool b.order_index
        (side_levels side b)
        (side_levels (opposite side) b)
        own
        opp
        free
    → IsBook side (record b { pool = pool }) own opp free
with_pool-IsBook buy b pool own opp free is = is
with_pool-IsBook sell b pool own opp free is = is

pub with_levels-pool :
    (side : Side) (ls : List PriceLevel) (b : OrderBook) → (with_levels side ls b).pool ≡ b.pool
with_levels-pool buy ls b = refl
with_levels-pool sell ls b = refl

opposite-opposite : (side : Side) → side ≡ opposite (opposite side)
opposite-opposite buy = refl
opposite-opposite sell = refl

-- The same book, seen from the other side.
pub IsBook-flip :
    (side : Side) (b : OrderBook) (own opp : Queues) (free : List Slot)
    → IsBook side b own opp free
    → IsBook (opposite side) b opp own free
IsBook-flip side b own opp free is = record {
  pool = is.pool;
  own_side = is.opp_side;
  opp_side =
      subst (λ s. IsSide b.pool.orders s (side_levels s b) own) (opposite-opposite side)
        is.own_side;
  distinct = Distinct-swap (slots own) (slots opp) is.distinct;
  apart = λ a i. is.apart a (mem-swap a (slots opp) (slots own) i);
  within = Within-swap b.pool.capacity (slots own) (slots opp) is.within;
  index = λ id p.
      let (found, finds) = is.index id p in
      (
        λ e. let (i, k) = found e in (mem-swap p (slots own) (slots opp) i, k),
        λ (i, k). finds (mem-swap p (slots opp) (slots own) i, k),
      );
  full = ap (λ n. length free + n) (length-swap (slots opp) (slots own)) ∙ is.full;
}

pub flip-IsBook :
    (side : Side) (b : OrderBook) (own opp : Queues) (free : List Slot)
    → IsBook (opposite side) b opp own free
    → IsBook side b own opp free
flip-IsBook side b own opp free is =
    subst (λ s. IsBook s b own opp free) (sym (opposite-opposite side))
      (IsBook-flip (opposite side) b opp own free is)

pub OnSide-mem :
    (m : Store) (side : Side) (a : Slot) (ps : List Slot)
    → OnSide m side ps
    → a ∈ ps
    → (m a).side ≡ side
OnSide-mem m side a [] s i = absurd (ground arith)
OnSide-mem m side a (p ∷ ps) s i = elim (Bool-cases (a == p)) [
  | inl e ↦ subst (λ x. (m x).side ≡ side) (sym ((==_iff a p).0 e)) s.0
  | inr ne ↦ OnSide-mem m side a ps s.1 (ground arith)
]

-- What a live order's slot tells.
abbrev pub Alive : Store → ℕ → Slot → Type 0
Alive m price a = ((m a).price ≡ price) × (0 < (m a).quantity) × ((m a).quantity < u32_mod)

pub Rests-mem :
    (m : Store) (price : ℕ) (a : Slot) (ps : List Slot)
    → Rests m price ps
    → a ∈ ps
    → Alive m price a
Rests-mem m price a [] r i = absurd (ground arith)
Rests-mem m price a (p ∷ ps) r i = elim (Bool-cases (a == p)) [
  | inl e ↦ subst (Alive m price) (sym ((==_iff a p).0 e)) (r.0, r.1, r.2)
  | inr ne ↦ Rests-mem m price a ps r.3 (ground arith)
]

pub in_one : (a : Slot) (ps qs : List Slot) → a ∈ ps ++ qs → (a ∈ ps) ⊎ (a ∈ qs)
in_one a ps qs i = elim (Bool-cases (has a ps)) [
  | inl e ↦ inl e
  | inr ne ↦ inr (ground (arith, has-append a ps qs))
]

-- An order's price has a level, and that of a level that is better, or worse, is so as well.
pub Ladder-has_price :
    (m : Store) (a : Slot) (ls : List PriceLevel) (qs : Queues)
    → Ladder m ls qs
    → a ∈ slots qs
    → has_price (m a).price ls ≡ true
Ladder-has_price m a [] [] d i = absurd (ground arith)
Ladder-has_price m a [] (q ∷ qs) d i = absurd d
Ladder-has_price m a (l ∷ ls) [] d i = absurd d
Ladder-has_price m a (l ∷ ls) ((p, ps) ∷ qs) d i = elim (in_one a (p ∷ ps) (slots qs) i) [
  | inl j ↦
      let e = (Rests-mem m l.price a (p ∷ ps) d.1 j).0 in
      ground (arith, e, ==_iff l.price (m a).price)
  | inr j ↦ ground (arith, Ladder-has_price m a ls qs d.2 j)
]

pub Better-mem :
    (m : Store) (side : Side) (price : ℕ) (a : Slot) (ls : List PriceLevel) (qs : Queues)
    → Ladder m ls qs
    → Better side price ls
    → a ∈ slots qs
    → before side price (m a).price ≡ true
Better-mem m side price a [] [] d b i = absurd (ground arith)
Better-mem m side price a [] (q ∷ qs) d b i = absurd d
Better-mem m side price a (l ∷ ls) [] d b i = absurd d
Better-mem m side price a (l ∷ ls) ((p, ps) ∷ qs) d b i = elim (in_one a (p ∷ ps) (slots qs) i) [
  | inl j ↦ ap (before side price) (Rests-mem m l.price a (p ∷ ps) d.1 j).0 ∙ b.0
  | inr j ↦ Better-mem m side price a ls qs d.2 b.1 j
]

pub Worse-mem :
    (m : Store) (side : Side) (price : ℕ) (a : Slot) (ls : List PriceLevel) (qs : Queues)
    → Ladder m ls qs
    → Worse side price ls
    → a ∈ slots qs
    → before side (m a).price price ≡ true
Worse-mem m side price a [] [] d b i = absurd (ground arith)
Worse-mem m side price a [] (q ∷ qs) d b i = absurd d
Worse-mem m side price a (l ∷ ls) [] d b i = absurd d
Worse-mem m side price a (l ∷ ls) ((p, ps) ∷ qs) d b i = elim (in_one a (p ∷ ps) (slots qs) i) [
  | inl j ↦ ap (λ x. before side x price) (Rests-mem m l.price a (p ∷ ps) d.1 j).0 ∙ b.0
  | inr j ↦ Worse-mem m side price a ls qs d.2 b.1 j
]
