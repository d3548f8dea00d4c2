-- ===== src/OrderBook/Match/Progress.antt =====
-- What the loop of `matchBuy` and `matchSell` of include/order_book.h changes, and what it leaves.
use market_maker_ops.Prelude.{
  ℕ, ◌≡◌, refl, sym, ap, ◌∙◌, List, [], ◌∷◌, ◌++◌, append_assoc, none, erase, nat_key, arith, ◌==◌,
  inl, inr, Bool-cases, ==_iff, subst,
}
use market_maker_ops.Order.{Order, Slot, Store, set_quantity}
use market_maker_ops.PriceLevel.Links.{◌∉◌, not_mem-append, not_mem_cons, cons_not_mem}
use market_maker_ops.PriceLevel.Queue.{SameOutside}
use market_maker_ops.OrderBook.Levels.Prices.{prices}
use market_maker_ops.OrderBook.Match.{Matching, with_orders}
use market_maker_ops.OrderBook.Match.Spec.{Queues, slots}
use market_maker_ops.OrderBook.Match.Fill.{Filled}

-- An order without what the loop changes.
abbrev pub identity : Order → Order
identity o = record o { quantity = 0; next = none; prev = none }

abbrev pub SameIdentity : Store → Store → Type 0
SameIdentity m n = (a : Slot) → identity (n a) ≡ identity (m a)

-- The free list behind the release of slots, one after the other.
abbrev pub returned : List Slot → List Slot → List Slot
returned [] free = free
returned (r ∷ rs) free = returned rs (r ∷ free)

-- The index without the orders of slots.
abbrev pub erase_all : Store → List Slot → List (ℕ × Slot) → List (ℕ × Slot)
erase_all m [] index = index
erase_all m (r ∷ rs) index = erase_all m rs (erase (m r).order_id index)

-- The resting orders in the slots `dead` are filled and gone, from the front; no order but these, the
-- incoming one and those that rest is touched, and none loses its identity.
pub record Progress (o : Slot) (s : Matching) (qs : Queues) (free : List Slot) (s' : Matching)
    (qs' : Queues) (free' : List Slot) : Type 0 where
  pub dead : List Slot
  pub gone : List ℕ
  pub split : slots qs ≡ dead ++ slots qs'
  pub freed : free' ≡ returned dead free
  pub index : s'.order_index ≡ erase_all s.pool.orders dead s.order_index
  pub levels : prices s.levels ≡ gone ++ prices s'.levels
  pub same : SameIdentity s.pool.orders s'.pool.orders
  pub outside : SameOutside (o ∷ slots qs) s.pool.orders s'.pool.orders
  pub capacity : s'.pool.capacity ≡ s.pool.capacity

returned-append :
    (xs ys free : List Slot) → returned (xs ++ ys) free ≡ returned ys (returned xs free)
returned-append [] ys free = refl
returned-append (x ∷ xs) ys free = returned-append xs ys (x ∷ free)

erase_all-append :
    (m : Store) (xs ys : List Slot) (index : List (ℕ × Slot))
    → erase_all m (xs ++ ys) index ≡ erase_all m ys (erase_all m xs index)
erase_all-append m [] ys index = refl
erase_all-append m (x ∷ xs) ys index = erase_all-append m xs ys (erase (m x).order_id index)

erase_all-SameIdentity :
    (m n : Store) (rs : List Slot) (index : List (ℕ × Slot))
    → SameIdentity m n
    → erase_all n rs index ≡ erase_all m rs index
erase_all-SameIdentity m n [] index same = refl
erase_all-SameIdentity m n (r ∷ rs) index same =
    ap (λ (x : Order). erase_all n rs (erase x.order_id index)) (same r)
    ∙ erase_all-SameIdentity m n rs (erase (m r).order_id index) same

pub Progress-refl :
    (o : Slot) (s : Matching) (qs : Queues) (free : List Slot) → Progress o s qs free s qs free
Progress-refl o s qs free = record {
  dead = [];
  gone = [];
  split = refl;
  freed = refl;
  index = refl;
  levels = refl;
  same = λ a. refl;
  outside = λ a i. refl;
  capacity = refl;
}

later_outside : (a o : Slot) (rs xs ys : List Slot) → xs ≡ rs ++ ys → a ∉ o ∷ xs → a ∉ o ∷ ys
later_outside a o rs xs ys e i =
    let (ne, out) = not_mem_cons a o xs i in
    cons_not_mem a o ys ne (not_mem-append a rs ys (subst (λ zs. a ∉ zs) e out)).1

pub Progress-trans :
    (o : Slot) (s : Matching) (qs : Queues) (free : List Slot) (s1 : Matching) (qs1 : Queues)
    (free1 : List Slot) (s2 : Matching) (qs2 : Queues) (free2 : List Slot)
    → Progress o s qs free s1 qs1 free1
    → Progress o s1 qs1 free1 s2 qs2 free2
    → Progress o s qs free s2 qs2 free2
Progress-trans o s qs free s1 qs1 free1 s2 qs2 free2 p r = record {
  dead = p.dead ++ r.dead;
  gone = p.gone ++ r.gone;
  split = p.split ∙ ap (◌++◌ p.dead) r.split ∙ sym (append_assoc p.dead r.dead (slots qs2));
  freed = r.freed ∙ ap (returned r.dead) p.freed ∙ sym (returned-append p.dead r.dead free);
  index =
      r.index
      ∙ ap (erase_all s1.pool.orders r.dead) p.index
      ∙ erase_all-SameIdentity s.pool.orders s1.pool.orders r.dead _ p.same
      ∙ sym (erase_all-append s.pool.orders p.dead r.dead s.order_index);
  levels =
      p.levels ∙ ap (◌++◌ p.gone) r.levels ∙ sym (append_assoc p.gone r.gone (prices s2.levels));
  same = λ a. r.same a ∙ p.same a;
  outside = λ a i.
      r.outside a (later_outside a o p.dead (slots qs) (slots qs1) p.split i) ∙ p.outside a i;
  capacity = r.capacity ∙ p.capacity;
}

-- A write to the incoming order's quantity.
pub stop-Progress :
    (o : Slot) (q : ℕ) (s : Matching) (qs : Queues) (free : List Slot)
    → Progress o s qs free
        (record s { pool = with_orders (set_quantity s.pool.orders o q) s.pool })
        qs
        free
stop-Progress o q s qs free = record {
  dead = [];
  gone = [];
  split = refl;
  freed = refl;
  index = refl;
  levels = refl;
  same = λ a. ground arith;
  outside = λ a i. ground arith;
  capacity = refl;
}

pub Filled-SameIdentity : (m n : Store) (o r : Slot) (q : ℕ) → Filled o r q m n → SameIdentity m n
Filled-SameIdentity m n o r q f a = elim (Bool-cases (a == o)) [
  | inl e ↦
      subst (λ x. identity (n x) ≡ identity (m x)) (sym ((==_iff a o).0 e)) (ap identity f.incoming)
  | inr ne ↦ elim (Bool-cases (a == r)) [
    | inl e ↦
        subst (λ x. identity (n x) ≡ identity (m x)) (sym ((==_iff a r).0 e))
          (ap identity f.resting)
    | inr ne' ↦ ap identity (f.elsewhere a ne ne')
  ]
]
