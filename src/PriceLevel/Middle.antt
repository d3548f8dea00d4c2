-- ===== src/PriceLevel/Middle.antt =====
-- Lists of slots with one slot put in, or taken out.
use market_maker_ops.Prelude.{
  ℕ, suc, ◌<◌, ◌≡◌, refl, sym, subst, ap, ◌∙◌, append-nil, inl, inr, Bool-cases, ==_iff, ◌||◌, List,
  [], ◌∷◌, ◌++◌, arith, ◌==◌, ==_comm, length, length-append,
}
use market_maker_ops.Order.{Slot}
use market_maker_ops.PriceLevel.Links.{
  has, ◌∈◌, ◌∉◌, Distinct, Disjoint, has-append, Distinct-append, Disjoint-sym, not_mem-append,
  cons_not_mem, ne_of_mem,
}
use market_maker_ops.OrderPool.FreeList.{Within}

pub has-middle :
    (a o : Slot) (xs ys : List Slot) → has a (xs ++ o ∷ ys) ≡ ((a == o) || has a (xs ++ ys))
has-middle a o [] ys = refl
has-middle a o (x ∷ xs) ys = ground (arith, has-middle a o xs ys)

pub length-middle : (o : Slot) (xs ys : List Slot) → length (xs ++ o ∷ ys) ≡ suc (length (xs ++ ys))
length-middle o [] ys = refl
length-middle o (x ∷ xs) ys = ap suc (length-middle o xs ys)

pub Distinct-middle :
    (o : Slot) (xs ys : List Slot) → Distinct (xs ++ o ∷ ys) → Distinct (xs ++ ys) × (o ∉ xs ++ ys)
Distinct-middle o [] ys d = (d.1, d.0)
Distinct-middle o (x ∷ xs) ys d =
    let (e, out) = Distinct-middle o xs ys d.1 in
    ((ground (arith, d.0, has-middle x o xs ys), e), ground (arith, d.0, has-middle x o xs ys, out))

pub middle-Distinct :
    (o : Slot) (xs ys : List Slot) → Distinct (xs ++ ys) → o ∉ xs ++ ys → Distinct (xs ++ o ∷ ys)
middle-Distinct o [] ys d out = (out, d)
middle-Distinct o (x ∷ xs) ys d out =
    (ground (arith, d.0, has-middle x o xs ys), middle-Distinct o xs ys d.1 (ground arith))

pub Within-middle :
    (n : ℕ) (o : Slot) (xs ys : List Slot) → Within n (xs ++ o ∷ ys) → (o < n) × Within n (xs ++ ys)
Within-middle n o [] ys w = w
Within-middle n o (x ∷ xs) ys w = let (lt, v) = Within-middle n o xs ys w.1 in (lt, (w.0, v))

pub middle-Within :
    (n : ℕ) (o : Slot) (xs ys : List Slot) → o < n → Within n (xs ++ ys) → Within n (xs ++ o ∷ ys)
middle-Within n o [] ys lt w = (lt, w)
middle-Within n o (x ∷ xs) ys lt w = (w.0, middle-Within n o xs ys lt w.1)

pub mem-split :
    (a : Slot) (ps : List Slot) → a ∈ ps → (xs : List Slot) × (ys : List Slot) × (ps ≡ xs ++ a ∷ ys)
mem-split a [] i = absurd (ground arith)
mem-split a (p ∷ ps) i = elim (Bool-cases (a == p)) [
  | inl e ↦ ([], ps, ap (λ x. x ∷ ps) (sym ((==_iff a p).0 e)))
  | inr ne ↦ let (xs, ys, e) = mem-split a ps (ground arith) in (p ∷ xs, ys, ap (◌∷◌ p) e)
]

-- The other way round.
has-swap : (a : Slot) (xs ys : List Slot) → has a (xs ++ ys) ≡ has a (ys ++ xs)
has-swap a xs ys = ground (arith, has-append a xs ys, has-append a ys xs)

pub mem-swap : (a : Slot) (xs ys : List Slot) → a ∈ xs ++ ys → a ∈ ys ++ xs
mem-swap a xs ys i = sym (has-swap a xs ys) ∙ i

pub Distinct-swap : (xs ys : List Slot) → Distinct (xs ++ ys) → Distinct (ys ++ xs)
Distinct-swap xs [] d = subst Distinct (append-nil xs) d
Distinct-swap xs (y ∷ ys) d =
    let (e, out) = Distinct-middle y xs ys d in
    (sym (has-swap y xs ys) ∙ out, Distinct-swap xs ys e)

pub Within-swap : (n : ℕ) (xs ys : List Slot) → Within n (xs ++ ys) → Within n (ys ++ xs)
Within-swap n xs [] w = subst (Within n) (append-nil xs) w
Within-swap n xs (y ∷ ys) w = let (lt, v) = Within-middle n y xs ys w in (lt, Within-swap n xs ys v)

pub length-swap : (xs ys : List Slot) → length (xs ++ ys) ≡ length (ys ++ xs)
length-swap xs ys = omega (arith, length-append xs ys, length-append ys xs)

pub mem-middle : (a o : Slot) (xs ys : List Slot) → a ∈ xs ++ ys → a ∈ xs ++ o ∷ ys
mem-middle a o xs ys i = ground (arith, has-middle a o xs ys)

-- A slot in front of, or behind, a part of a list is neither in that part nor one that is in none.
pub apart_middle :
    (o : Slot) (fs ks ls : List Slot)
    → Distinct (fs ++ (ks ++ ls))
    → o ∉ fs ++ (ks ++ ls)
    → Disjoint fs (o ∷ ks) × Disjoint ls (o ∷ ks)
apart_middle o fs ks ls d out =
    let (_, d2, d3) = Distinct-append fs (ks ++ ls) d in
    let (_, _, d5) = Distinct-append ks ls d2 in
    let (out_fs, out_rest) = not_mem-append o fs (ks ++ ls) out in
    (
      λ a i.
          cons_not_mem a o ks (==_comm a o ∙ ne_of_mem o a fs out_fs i)
            (not_mem-append a ks ls (d3 a i)).0,
      λ a i.
          cons_not_mem a o ks (==_comm a o ∙ ne_of_mem o a ls (not_mem-append o ks ls out_rest).1 i)
            (Disjoint-sym ks ls d5 a i),
    )
