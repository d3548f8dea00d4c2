-- ===== src/OrderBook/Accounts.antt =====
-- The slots of a book of include/order_book.h while an incoming order is neither in a queue nor unused.
use market_maker_ops.Prelude.{
  ℕ, suc, ◌+◌, ◌≡◌, refl, sym, ap, ◌∙◌, List, [], ◌∷◌, ◌++◌, arith, ==_comm, length, erase, nat_key,
}
use market_maker_ops.Order.{Order, Slot, Store}
use market_maker_ops.PriceLevel.Links.{◌∈◌, Distinct, Disjoint, cons_not_mem, ne_of_mem}
use market_maker_ops.PriceLevel.Middle.{
  has-middle, length-middle, mem-middle, Distinct-middle, Within-middle,
}
use market_maker_ops.OrderPool.FreeList.{Within}
use market_maker_ops.OrderBook.Match.Progress.{SameIdentity, returned, erase_all}
use market_maker_ops.OrderBook.Index.{Indexed, Indexed-erase}

-- The slot `o` is held, those in `live` are in queues, and those in `free` unused.
pub record Accounts (m : Store) (capacity : ℕ) (o : Slot) (live free : List Slot)
    (ids : List (ℕ × Slot)) : Type 0 where
  pub distinct : Distinct (o ∷ live)
  pub apart : Disjoint (o ∷ live) free
  pub within : Within capacity (o ∷ live)
  pub index : Indexed m live ids
  pub full : length free + suc (length live) ≡ capacity

-- An order in the middle goes.
release :
    (m : Store) (capacity : ℕ) (o r : Slot) (xs ys free : List Slot) (ids : List (ℕ × Slot))
    → Accounts m capacity o (xs ++ r ∷ ys) free ids
    → Accounts m capacity o (xs ++ ys) (r ∷ free) (erase (m r).order_id ids)
release m capacity o r xs ys free ids a =
    let (d, out) = Distinct-middle r (o ∷ xs) ys a.distinct in
    let kept = λ (p : Slot) (i : p ∈ (o ∷ xs) ++ ys). mem-middle p r (o ∷ xs) ys i in
    record {
      distinct = d;
      apart = λ p i.
          cons_not_mem p r free (==_comm p r ∙ ne_of_mem r p ((o ∷ xs) ++ ys) out i)
            (a.apart p (kept p i));
      within = (Within-middle capacity r (o ∷ xs) ys a.within).1;
      index =
          Indexed-erase m m r (xs ++ r ∷ ys) (xs ++ ys) ids
            (λ p. has-middle p r xs ys, ground (arith, out)) (λ p i. refl) a.index;
      full = omega (arith, a.full, length-middle r xs ys);
    }

pub release_all :
    (m : Store) (capacity : ℕ) (o : Slot) (xs dead ys free : List Slot) (ids : List (ℕ × Slot))
    → Accounts m capacity o (xs ++ (dead ++ ys)) free ids
    → Accounts m capacity o (xs ++ ys) (returned dead free) (erase_all m dead ids)
release_all m capacity o xs [] ys free ids a = a
release_all m capacity o xs (r ∷ dead) ys free ids a =
    release_all m capacity o xs dead ys (r ∷ free) (erase (m r).order_id ids)
      (release m capacity o r xs (dead ++ ys) free ids a)

pub Accounts-SameIdentity :
    (m n : Store) (capacity : ℕ) (o : Slot) (live free : List Slot) (ids : List (ℕ × Slot))
    → SameIdentity m n
    → Accounts m capacity o live free ids
    → Accounts n capacity o live free ids
Accounts-SameIdentity m n capacity o live free ids same a = record {
  distinct = a.distinct;
  apart = a.apart;
  within = a.within;
  index = λ id p.
      let e = ap (λ (x : Order). x.order_id) (same p) in
      let (found, finds) = a.index id p in
      (λ k. let (i, j) = found k in (i, e ∙ j), λ (i, j). finds (i, sym e ∙ j));
  full = a.full;
}
