-- ===== src/PriceLevel/Remove.antt =====
-- `PriceLevel::remove` of src/price_level.cpp against the queue that the level stands for.
use market_maker_ops.Prelude.{
  ℕ, ◌%◌, ◌≡◌, ◌≢◌, refl, sym, ap, ◌∙◌, false, none, some, List, [], ◌∷◌, ◌++◌, arith, ◌==◌,
  ==_comm, append-nil,
}
use market_maker_ops.Order.{Order, Slot, Ptr, Store, set_next, set_prev, u32_mod}
use market_maker_ops.PriceLevel.{PriceLevel, remove, sub32}
use market_maker_ops.PriceLevel.Links.{
  ◌∈◌, ◌∉◌, Distinct, Disjoint, Links, first_or, last_or, has-append, append-Links, Links-append,
  Distinct-append, append-Distinct, last_or-append, last_or-some, last_or-mem, Links-frame,
  ne_of_mem, not_mem_cons, redirect_next, redirect_prev, Links-redirect_next, Links-redirect_prev,
  redirect_next-outside, redirect_prev-outside,
}
use market_maker_ops.PriceLevel.Queue.{
  SamePayload, SameOutside, total, IsQueue, SamePayload-quantity, total-frame, total-append,
  set_next-SamePayload, set_prev-SamePayload, redirect_next-SamePayload, redirect_prev-SamePayload,
}

-- The memory after both neighbours are joined and the order's own links are cleared.
abbrev joined : Slot → Ptr → Ptr → Store → Store
joined o p n m = redirect_prev n p (redirect_next p n m)

abbrev cleared : Slot → Store → Store
cleared o m = set_prev (set_next m o none) o none

abbrev head_after : Ptr → Ptr → Ptr → Ptr
head_after none n old = n
head_after (some q) n old = old

module _ (o : Slot) (pl : PriceLevel) (m : Store) where
  -- What `remove` computes, where the order does not precede itself.
  record Computed (p n : Ptr) : Type 0 where
    store : (remove o pl m).1 ≡ cleared o (joined o p n m)
    head : (remove o pl m).0.head ≡ head_after p n pl.head
    tail : (remove o pl m).0.tail ≡ head_after n p pl.tail
    price : (remove o pl m).0.price ≡ pl.price
    sum : (remove o pl m).0.total_quantity ≡ sub32 pl.total_quantity (m o).quantity

  remove-Computed : (p n : Ptr) → (m o).prev ≡ p → (m o).next ≡ n → p ≢ some o → Computed p n
  unfolding remove
  remove-Computed none none ep en ne = record {
    store = ground arith;
    head = ground arith;
    tail = ground arith;
    price = ground arith;
    sum = ground arith;
  }
  remove-Computed none (some y) ep en ne = record {
    store = ground arith;
    head = ground arith;
    tail = ground arith;
    price = ground arith;
    sum = ground arith;
  }
  remove-Computed (some q) none ep en ne = record {
    store = ground arith;
    head = ground arith;
    tail = ground arith;
    price = ground arith;
    sum = ground arith;
  }
  remove-Computed (some q) (some y) ep en ne = record {
    store = ground arith;
    head = ground arith;
    tail = ground arith;
    price = ground arith;
    sum = ground arith;
  }

-- What removing does to the memory and the level.
pub record Removed (o : Slot) (xs ys : List Slot) (pl : PriceLevel) (m : Store)
    (r : PriceLevel × Store) : Type 0 where
  pub queue : IsQueue r.1 r.0 (xs ++ ys)
  pub price : r.0.price ≡ pl.price
  pub no_next : (r.1 o).next ≡ none
  pub no_prev : (r.1 o).prev ≡ none
  pub same : SamePayload m r.1
  pub outside : SameOutside (xs ++ o ∷ ys) m r.1

cleared-SamePayload : (m : Store) (o : Slot) → SamePayload m (cleared o m)
cleared-SamePayload m o a =
    set_prev-SamePayload (set_next m o none) o none a ∙ set_next-SamePayload m o none a

cleared-outside : (m : Store) (o a : Slot) → (a == o) ≡ false → cleared o m a ≡ m a
cleared-outside m o a ne = ground arith

cleared_links :
    (m : Store) (o : Slot) → ((cleared o m o).next ≡ none) × ((cleared o m o).prev ≡ none)
cleared_links m o = ground arith

not_mem_append : (a : Slot) (ps qs : List Slot) → a ∉ ps ++ qs → (a ∉ ps) × (a ∉ qs)
not_mem_append a ps qs out = ground (arith, has-append a ps qs)

-- A chain survives any change that spares its own slots.
Links-spared :
    (m n : Store) (start : Ptr) (ps : List Slot) (stop : Ptr)
    → ((a : Slot) → a ∈ ps → n a ≡ m a)
    → Links m start ps stop
    → Links n start ps stop
Links-spared m n start ps stop same l =
    Links-frame m n start ps stop
      (λ a i. (ap (λ (o : Order). o.prev) (same a i), ap (λ (o : Order). o.next) (same a i))) l

not_mem_of_mem : (a : Slot) (ps qs : List Slot) → Disjoint ps qs → a ∈ qs → a ∉ ps
not_mem_of_mem a ps qs apart i = ground (arith, apart a)

head-left :
    (o : Slot) (xs ys : List Slot) (old : Ptr)
    → old ≡ first_or none (xs ++ o ∷ ys)
    → head_after (last_or none xs) (first_or none ys) old ≡ first_or none (xs ++ ys)
head-left o [] ys old e = refl
head-left o (x ∷ xs) ys old e = let (q, last) = last_or-some x xs in rw last e

tail-left :
    (o : Slot) (xs ys : List Slot) (old : Ptr)
    → old ≡ last_or none (xs ++ o ∷ ys)
    → head_after (first_or none ys) (last_or none xs) old ≡ last_or none (xs ++ ys)
tail-left o xs [] old e = rw append-nil refl
tail-left o xs (y ∷ ys) old e =
    e ∙ last_or-append none xs (o ∷ y ∷ ys) ∙ sym (last_or-append none xs (y ∷ ys))

last_or-ne : (o : Slot) (xs ys : List Slot) → Disjoint xs (o ∷ ys) → last_or none xs ≢ some o
last_or-ne o [] ys apart e = cc
last_or-ne o (x ∷ xs) ys apart e = ground (arith, apart o, last_or-mem x o xs e)

module _ (m : Store) (o : Slot) (xs ys : List Slot) where
  abbrev forward : Store
  forward = redirect_next (last_or none xs) (first_or none ys) m

  abbrev both : Store
  both = redirect_prev (first_or none ys) (last_or none xs) forward

  -- The memory that `remove` leaves, by the order's place in the queue.
  abbrev after : Store
  after = cleared o both

  after-SamePayload : SamePayload m after
  after-SamePayload a =
      cleared-SamePayload both o a
      ∙ redirect_prev-SamePayload forward (first_or none ys) (last_or none xs) a
      ∙ redirect_next-SamePayload m (last_or none xs) (first_or none ys) a

  after-outside : SameOutside (xs ++ o ∷ ys) m after
  after-outside a out =
      let (ox, oo) = not_mem_append a xs (o ∷ ys) out in
      let (ne, oy) = not_mem_cons a o ys oo in
      cleared-outside both o a ne
      ∙ redirect_prev-outside forward ys (last_or none xs) a oy
      ∙ redirect_next-outside m xs (first_or none ys) a ox

  before-Links :
      Distinct xs
      → Disjoint xs (o ∷ ys)
      → Links m none xs (some o)
      → Links after none xs (first_or none ys)
  before-Links dx apart lx =
      Links-spared forward after none xs (first_or none ys)
        (λ a i.
          let (ne, oy) = not_mem_cons a o ys (apart a i) in
          cleared-outside both o a ne ∙ redirect_prev-outside forward ys (last_or none xs) a oy)
        (Links-redirect_next m xs (some o) (first_or none ys) dx lx)

  behind-Links :
      Distinct (o ∷ ys)
      → Disjoint xs (o ∷ ys)
      → Links m (some o) ys none
      → Links after (last_or none xs) ys none
  behind-Links d apart ly =
      Links-spared both after (last_or none xs) ys none
        (λ a i. cleared-outside both o a (rw (==_comm a o) (ne_of_mem o a ys d.0 i)))
        (Links-redirect_prev forward (some o) (last_or none xs) ys none d.1 (
          Links-spared m forward (some o) ys none
            (λ a i.
              redirect_next-outside m xs (first_or none ys) a
                (not_mem_of_mem a xs (o ∷ ys) apart (ground arith)))
            ly))

  after-Links :
      Distinct (xs ++ o ∷ ys) → Links m none (xs ++ o ∷ ys) none → Links after none (xs ++ ys) none
  after-Links d l =
      let (lx, lo) = Links-append m none xs (o ∷ ys) none l in
      let (dx, dy, apart) = Distinct-append xs (o ∷ ys) d in
      append-Links after none xs ys none (before-Links dx apart lx) (behind-Links dy apart lo.2)

  left-Distinct : Distinct (xs ++ o ∷ ys) → Distinct (xs ++ ys)
  left-Distinct d =
      let (dx, dy, apart) = Distinct-append xs (o ∷ ys) d in
      append-Distinct xs ys dx dy.1 (λ a i. (not_mem_cons a o ys (apart a i)).1)

  left-sum :
      (old : ℕ)
      → old ≡ total m (xs ++ o ∷ ys) % u32_mod
      → sub32 old (m o).quantity ≡ total after (xs ++ ys) % u32_mod
  unfolding total
  left-sum old e =
      rw (total-frame m after (xs ++ ys) (SamePayload-quantity m after after-SamePayload))
        (omega (arith, total-append m xs (o ∷ ys), total-append m xs ys))

-- `remove` of an order in a level takes it out of the queue, with the others in their order.
pub remove_lem :
    (o : Slot) (pl : PriceLevel) (m : Store) (xs ys : List Slot)
    → IsQueue m pl (xs ++ o ∷ ys)
    → Removed o xs ys pl m (remove o pl m)
remove_lem o pl m xs ys is =
    let (lx, lo) = Links-append m none xs (o ∷ ys) none is.links in
    let c =
      remove-Computed o pl m (last_or none xs) (first_or none ys) lo.0 lo.1
        (last_or-ne o xs ys (Distinct-append xs (o ∷ ys) is.distinct).2) in
    record {
      queue = record {
        head = c.head ∙ head-left o xs ys pl.head is.head;
        tail = c.tail ∙ tail-left o xs ys pl.tail is.tail;
        links = rw c.store (after-Links m o xs ys is.distinct is.links);
        distinct = left-Distinct m o xs ys is.distinct;
        sum = c.sum ∙ rw c.store (left-sum m o xs ys pl.total_quantity is.sum);
      };
      price = c.price;
      no_next = rw c.store (cleared_links (both m o xs ys) o).0;
      no_prev = rw c.store (cleared_links (both m o xs ys) o).1;
      same = rw c.store (after-SamePayload m o xs ys);
      outside = rw c.store (after-outside m o xs ys);
    }
