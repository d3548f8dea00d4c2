-- ===== src/PriceLevel/Links.antt =====
-- The doubly linked chains that the `next` and `prev` members of the orders form, as lists of slots.
use market_maker_ops.Prelude.{
  ◌≡◌, refl, sym, subst, ◌∙◌, Bool, Bool-cases, inl, inr, true, false, ◌||◌, none, some, List, [],
  ◌∷◌, ◌++◌, arith, ◌==◌, if◌then◌else◌,
}
use market_maker_ops.Order.{Slot, Ptr, Store, set_next, set_prev}

abbrev pub has : Slot → List Slot → Bool
has a [] = false
has a (p ∷ ps) = (a == p) || has a ps

infix 40 ◌∈◌ ◌∉◌
abbrev pub ◌∈◌ : Slot → List Slot → Type 0
a ∈ ps = has a ps ≡ true

abbrev pub ◌∉◌ : Slot → List Slot → Type 0
a ∉ ps = has a ps ≡ false

abbrev pub Distinct : List Slot → Type 0
Distinct [] = Unit {0}
Distinct (p ∷ ps) = (p ∉ ps) × Distinct ps

abbrev pub Disjoint : List Slot → List Slot → Type 0
Disjoint ps qs = (a : Slot) → a ∈ ps → a ∉ qs

-- The pointer to the first slot, or to the last one, where there is one.
abbrev pub first_or : Ptr → List Slot → Ptr
first_or stop [] = stop
first_or stop (p ∷ ps) = some p

abbrev pub last_or : Ptr → List Slot → Ptr
last_or start [] = start
last_or start (p ∷ ps) = last_or (some p) ps

-- The slots are linked both ways; the first one points back to `start`, the last one on to `stop`.
abbrev pub Links : Store → Ptr → List Slot → Ptr → Type 0
Links m start [] stop = Unit {0}
Links m start (p ∷ ps) stop =
    ((m p).prev ≡ start) × ((m p).next ≡ first_or stop ps) × Links m (some p) ps stop

pub has-append : (a : Slot) (ps qs : List Slot) → has a (ps ++ qs) ≡ (has a ps || has a qs)
has-append a [] qs = refl
has-append a (p ∷ ps) qs = ground (arith, has-append a ps qs)

pub mem-append_left : (a : Slot) (ps qs : List Slot) → a ∈ ps → a ∈ ps ++ qs
mem-append_left a ps qs i = ground (arith, has-append a ps qs)

pub mem-append_right : (a : Slot) (ps qs : List Slot) → a ∈ qs → a ∈ ps ++ qs
mem-append_right a ps qs i = ground (arith, has-append a ps qs)

pub not_mem-append : (a : Slot) (ps qs : List Slot) → a ∉ ps ++ qs → (a ∉ ps) × (a ∉ qs)
not_mem-append a ps qs out = ground (arith, has-append a ps qs)

pub first_or-append :
    (stop : Ptr) (ps qs : List Slot) → first_or stop (ps ++ qs) ≡ first_or (first_or stop qs) ps
first_or-append stop [] qs = refl
first_or-append stop (p ∷ ps) qs = refl

pub last_or-append :
    (start : Ptr) (ps qs : List Slot) → last_or start (ps ++ qs) ≡ last_or (last_or start ps) qs
last_or-append start [] qs = refl
last_or-append start (p ∷ ps) qs = last_or-append (some p) ps qs

pub Distinct-append :
    (ps qs : List Slot) → Distinct (ps ++ qs) → Distinct ps × Distinct qs × Disjoint ps qs
Distinct-append [] qs d = (tt, d, λ a i. cc)
Distinct-append (p ∷ ps) qs d =
    let (dp, dq, apart) = Distinct-append ps qs d.1 in
    (
      (ground (arith, has-append p ps qs), dp),
      dq,
      λ a i. ground (arith, has-append p ps qs, apart a),
    )

pub append-Distinct :
    (ps qs : List Slot) → Distinct ps → Distinct qs → Disjoint ps qs → Distinct (ps ++ qs)
append-Distinct [] qs dp dq apart = dq
append-Distinct (p ∷ ps) qs dp dq apart = (
  ground (arith, has-append p ps qs, apart p),
  append-Distinct ps qs dp.1 dq (λ a i. apart a (ground arith)),
)

module _ (m : Store) where
  pub Links-append :
      (start : Ptr) (ps qs : List Slot) (stop : Ptr)
      → Links m start (ps ++ qs) stop
      → Links m start ps (first_or stop qs) × Links m (last_or start ps) qs stop
  Links-append start [] qs stop l = (tt, l)
  Links-append start (p ∷ ps) qs stop l =
      let (a, b) = Links-append (some p) ps qs stop l.2 in
      ((l.0, l.1 ∙ first_or-append stop ps qs, a), b)

  pub append-Links :
      (start : Ptr) (ps qs : List Slot) (stop : Ptr)
      → Links m start ps (first_or stop qs)
      → Links m (last_or start ps) qs stop
      → Links m start (ps ++ qs) stop
  append-Links start [] qs stop l k = k
  append-Links start (p ∷ ps) qs stop l k =
      (l.0, l.1 ∙ sym (first_or-append stop ps qs), append-Links (some p) ps qs stop l.2 k)

-- A chain depends only on the two links of its own slots.
pub Links-frame :
    (m n : Store) (start : Ptr) (ps : List Slot) (stop : Ptr)
    → ((a : Slot) → a ∈ ps → ((n a).prev ≡ (m a).prev) × ((n a).next ≡ (m a).next))
    → Links m start ps stop
    → Links n start ps stop
Links-frame m n start [] stop same l = tt
Links-frame m n start (p ∷ ps) stop same l =
    let here = same p (ground arith) in
    (
      here.0 ∙ l.0,
      here.1 ∙ l.1,
      Links-frame m n (some p) ps stop (λ a i. same a (ground arith)) l.2,
    )

-- The last slot of a chain with one at least.
pub last_or-mem : (p q : Slot) (ps : List Slot) → last_or (some p) ps ≡ some q → q ∈ p ∷ ps
last_or-mem p q [] e = ground arith
last_or-mem p q (x ∷ ps) e = ground (arith, last_or-mem x q ps e)

pub last_or-some : (p : Slot) (ps : List Slot) → (q : Slot) × (last_or (some p) ps ≡ some q)
last_or-some p [] = (p, refl)
last_or-some p (x ∷ ps) = last_or-some x ps

pub ne_of_mem : (p q : Slot) (ps : List Slot) → p ∉ ps → q ∈ ps → (p == q) ≡ false
ne_of_mem p q [] out i = cc
ne_of_mem p q (x ∷ ps) out i = ground (arith, ne_of_mem p q ps)

pub not_mem_cons : (a p : Slot) (ps : List Slot) → a ∉ p ∷ ps → ((a == p) ≡ false) × (a ∉ ps)
not_mem_cons a p ps out = ground arith

pub cons_not_mem : (a p : Slot) (ps : List Slot) → (a == p) ≡ false → a ∉ ps → a ∉ p ∷ ps
cons_not_mem a p ps ne out = rw ne out

pub Disjoint-sym : (ps qs : List Slot) → Disjoint ps qs → Disjoint qs ps
Disjoint-sym ps qs apart a i = elim (Bool-cases (has a ps)) [
  | inl j ↦ ground (arith, i, apart a j)
  | inr out ↦ out
]

-- What a write to a link leaves, and what it sets.
pub set_next-prev : (m : Store) (q a : Slot) (n : Ptr) → (set_next m q n a).prev ≡ (m a).prev
set_next-prev m q a n = ground arith

pub set_next-next :
    (m : Store) (q a : Slot) (n : Ptr)
    → (set_next m q n a).next ≡ (if a == q then n else (m a).next)
set_next-next m q a n = ground arith

pub set_prev-next : (m : Store) (q a : Slot) (n : Ptr) → (set_prev m q n a).next ≡ (m a).next
set_prev-next m q a n = ground arith

pub set_prev-prev :
    (m : Store) (q a : Slot) (n : Ptr)
    → (set_prev m q n a).prev ≡ (if a == q then n else (m a).prev)
set_prev-prev m q a n = ground arith

-- A write to the last slot's `next` makes the chain end at another pointer.
pub Links-set_next :
    (m : Store) (start : Ptr) (p q : Slot) (ps : List Slot) (old stop : Ptr)
    → last_or (some p) ps ≡ some q
    → Distinct (p ∷ ps)
    → Links m start (p ∷ ps) old
    → Links (set_next m q stop) start (p ∷ ps) stop
Links-set_next m start p q [] old stop e d l = (ground arith, ground arith, tt)
Links-set_next m start p q (x ∷ ps) old stop e d l =
    let apart = ne_of_mem p q (x ∷ ps) d.0 (last_or-mem x q ps e) in
    (
      set_next-prev m q p stop ∙ l.0,
      set_next-next m q p stop ∙ rw apart l.1,
      Links-set_next m (some p) x q ps old stop e d.1 l.2,
    )

-- A write to the first slot's `prev` makes the chain start from another pointer.
pub Links-set_prev :
    (m : Store) (old start : Ptr) (p : Slot) (ps : List Slot) (stop : Ptr)
    → Distinct (p ∷ ps)
    → Links m old (p ∷ ps) stop
    → Links (set_prev m p start) start (p ∷ ps) stop
Links-set_prev m old start p ps stop d l = (
  ground arith,
  ground arith,
  Links-frame m (set_prev m p start) (some p) ps stop (λ a i. (ground arith, ground arith)) l.2,
)

-- A write through a pointer, where it is not null.
abbrev pub redirect_next : Ptr → Ptr → Store → Store
redirect_next none n m = m
redirect_next (some q) n m = set_next m q n

abbrev pub redirect_prev : Ptr → Ptr → Store → Store
redirect_prev none p m = m
redirect_prev (some q) p m = set_prev m q p

pub Links-redirect_next :
    (m : Store) (ps : List Slot) (old stop : Ptr)
    → Distinct ps
    → Links m none ps old
    → Links (redirect_next (last_or none ps) stop m) none ps stop
Links-redirect_next m [] old stop d l = tt
Links-redirect_next m (p ∷ ps) old stop d l =
    let (q, e) = last_or-some p ps in
    subst (λ x. Links (redirect_next x stop m) none (p ∷ ps) stop) (sym e)
      (Links-set_next m none p q ps old stop e d l)

pub Links-redirect_prev :
    (m : Store) (old start : Ptr) (ps : List Slot) (stop : Ptr)
    → Distinct ps
    → Links m old ps stop
    → Links (redirect_prev (first_or none ps) start m) start ps stop
Links-redirect_prev m old start [] stop d l = tt
Links-redirect_prev m old start (p ∷ ps) stop d l = Links-set_prev m old start p ps stop d l

pub redirect_next-outside :
    (m : Store) (ps : List Slot) (n : Ptr) (a : Slot)
    → a ∉ ps
    → redirect_next (last_or none ps) n m a ≡ m a
redirect_next-outside m [] n a out = refl
redirect_next-outside m (p ∷ ps) n a out =
    let (q, e) = last_or-some p ps in rw (e, ne_of_mem a q (p ∷ ps) out (last_or-mem p q ps e))

pub redirect_prev-outside :
    (m : Store) (ps : List Slot) (n : Ptr) (a : Slot)
    → a ∉ ps
    → redirect_prev (first_or none ps) n m a ≡ m a
redirect_prev-outside m [] n a out = refl
redirect_prev-outside m (p ∷ ps) n a out = rw (not_mem_cons a p ps out).0
