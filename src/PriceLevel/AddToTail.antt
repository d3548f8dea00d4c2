-- ===== src/PriceLevel/AddToTail.antt =====
-- `PriceLevel::addToTail` of src/price_level.cpp against the queue that the level stands for.
use market_maker_ops.Prelude.{
  ℕ, ◌%◌, ◌≡◌, refl, sym, ◌∙◌, false, none, some, List, [], ◌∷◌, ◌++◌, arith, ◌==◌, ==_comm,
}
use market_maker_ops.Order.{Slot, Ptr, Store, set_next, set_prev, u32_mod}
use market_maker_ops.PriceLevel.{PriceLevel, add_to_tail, enlarge, add32}
use market_maker_ops.PriceLevel.Links.{
  ◌∉◌, Distinct, Links, last_or, append-Links, append-Distinct, last_or-some, last_or-mem,
  last_or-append, Links-frame, Links-set_next, ne_of_mem, not_mem_cons,
}
use market_maker_ops.PriceLevel.Queue.{
  SamePayload, SameOutside, total, IsQueue, SamePayload-quantity, total-frame, total-append,
  set_next-SamePayload,
}

-- What appending does to the memory and the level.
pub record Appended (o : Slot) (ps : List Slot) (pl : PriceLevel) (m : Store)
    (r : PriceLevel × Store) : Type 0 where
  pub queue : IsQueue r.1 r.0 (ps ++ o ∷ [])
  pub price : r.0.price ≡ pl.price
  pub same : SamePayload m r.1
  pub outside : SameOutside (o ∷ ps) m r.1

module _ (m : Store) (o : Slot) where
  -- The memory after the order's own links are set.
  abbrev linked : Ptr → Store
  linked t = set_prev (set_next m o none) o t

  linked-Links :
      (t : Ptr) (ps : List Slot) → o ∉ ps → Links m none ps none → Links (linked t) none ps none
  linked-Links t ps out =
      Links-frame m (linked t) none ps none
        λ a i. let ne = ne_of_mem o a ps out i in (ground arith, ground arith)

  linked-outside : (t : Ptr) (a : Slot) → (a == o) ≡ false → linked t a ≡ m a
  linked-outside t a ne = ground arith

  append-outside :
      (t : Ptr) (q a : Slot)
      → (a == o) ≡ false
      → (a == q) ≡ false
      → set_next (linked t) q (some o) a ≡ m a
  append-outside t q a ne ne' = rw ne' (linked-outside t a ne)

  linked-SamePayload : (t : Ptr) → SamePayload m (linked t)
  linked-SamePayload t a = ground arith

  append-SamePayload : (t : Ptr) (q : Slot) → SamePayload m (set_next (linked t) q (some o))
  append-SamePayload t q a = set_next-SamePayload (linked t) q (some o) a ∙ linked-SamePayload t a

  grown-sum :
      (n : Store) (ps : List Slot) (old : ℕ)
      → SamePayload m n
      → old ≡ total m ps % u32_mod
      → add32 old (n o).quantity ≡ total n (ps ++ o ∷ []) % u32_mod
  unfolding total
  grown-sum n ps old same e =
      omega (arith, total-append n ps (o ∷ []), total-frame m n ps (SamePayload-quantity m n same))

  append-cons :
      (p q : Slot) (ps : List Slot)
      → last_or (some p) ps ≡ some q
      → o ∉ p ∷ ps
      → Distinct (p ∷ ps)
      → Links m none (p ∷ ps) none
      → Links (set_next (linked (some q)) q (some o)) none ((p ∷ ps) ++ o ∷ []) none
  append-cons p q ps e out d l =
      let ne = ne_of_mem o q (p ∷ ps) out (last_or-mem p q ps e) in
      let n = set_next (linked (some q)) q (some o) in
      append-Links n none (p ∷ ps) (o ∷ []) none
        (Links-set_next (linked (some q)) none p q ps none (some o) e d
          (linked-Links (some q) (p ∷ ps) out l))
        (rw e (ground arith, ground arith, tt))

-- `addToTail` of an order that is not in the level appends it to the queue, and succeeds.
pub add_to_tail_lem :
    (o : Slot) (pl : PriceLevel) (m : Store) (ps : List Slot)
    → IsQueue m pl ps
    → o ∉ ps
    → (r : PriceLevel × Store) × (add_to_tail o pl m ≡ some r) × Appended o ps pl m r
unfolding add_to_tail
add_to_tail_lem o pl m [] is out =
    let n : Store = linked m o pl.tail in
    let same : SamePayload m n = linked-SamePayload m o pl.tail in
    let r : PriceLevel × Store = enlarge o (record pl { head = some o; tail = some o }, n) in
    (
      r,
      rw is.head,
      record {
        queue = record {
          head = refl;
          tail = refl;
          links = (rw is.tail (ground arith), ground arith, tt);
          distinct = (refl, tt);
          sum = grown-sum m o n [] _ same is.sum;
        };
        price = refl;
        same = same;
        outside = λ a i. linked-outside m o pl.tail a (not_mem_cons a o [] i).0;
      },
    )
add_to_tail_lem o pl m (p ∷ ps) is out =
    let (q, e) = last_or-some p ps in
    let n : Store = set_next (linked m o (some q)) q (some o) in
    let at_tail : pl.tail ≡ some q = is.tail ∙ e in
    let same : SamePayload m n = append-SamePayload m o (some q) q in
    let r : PriceLevel × Store = enlarge o (record pl { tail = some o }, n) in
    (
      r,
      rw (is.head, at_tail),
      record {
        queue = record {
          head = is.head;
          tail = sym (last_or-append none (p ∷ ps) (o ∷ []));
          links = append-cons m o p q ps e out is.distinct is.links;
          distinct =
              append-Distinct (p ∷ ps) (o ∷ []) is.distinct (refl, tt)
                λ a i. rw (==_comm a o, ne_of_mem o a (p ∷ ps) out i);
          sum = grown-sum m o n (p ∷ ps) _ same is.sum;
        };
        price = refl;
        same = same;
        outside = λ a i.
            let (ne, out') = not_mem_cons a o (p ∷ ps) i in
            append-outside m o (some q) q a ne (ne_of_mem a q (p ∷ ps) out' (last_or-mem p q ps e));
      },
    )
