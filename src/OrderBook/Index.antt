-- ===== src/OrderBook/Index.antt =====
-- The index of include/order_book.h, from the ids of live orders to their slots.
use market_maker_ops.Prelude.{
  ℕ, ◌≡◌, ◌≢◌, ◌↔◌, refl, sym, subst, ◌∙◌, inl, inr, Bool-cases, ==_iff, false, ◌||◌, some, none,
  List, arith, ◌==◌, lookup, insert, try_emplace, erase, lookup-insert_self, lookup-insert_ne,
  lookup-erase_self, lookup-erase_ne, nat_key,
}
use market_maker_ops.Order.{Slot, Store}
use market_maker_ops.PriceLevel.Links.{has, ◌∈◌, ◌∉◌}

-- The index finds exactly the live orders, each under its id.
abbrev pub Indexed : Store → List Slot → List (ℕ × Slot) → Type 0
Indexed m live index =
    (id : ℕ) (p : Slot) → (lookup id index ≡ some p) ↔ ((p ∈ live) × ((m p).order_id ≡ id))

-- The list of live slots, with one more or one less in it.
abbrev pub OneMore : Slot → List Slot → List Slot → Type 0
OneMore o longer shorter = ((a : Slot) → has a longer ≡ ((a == o) || has a shorter)) × (o ∉ shorter)

abbrev pub SameIds : List Slot → Store → Store → Type 0
SameIds live m n = (a : Slot) → a ∈ live → (n a).order_id ≡ (m a).order_id

pub none_ne_some : (p : Slot) → none ≢ some p
none_ne_some p e = cc

module _ (m n : Store) (o : Slot) (longer shorter : List Slot) (index : List (ℕ × Slot))
    (more : OneMore o longer shorter) where
  module _ (same : SameIds shorter m n) (is : Indexed m longer index) where
    abbrev id_o : ℕ
    id_o = (m o).order_id

    left_behind : (p : Slot) → p ∈ shorter → p ∈ longer
    left_behind p i = ground (arith, more.0 p)

    not_live : (p : Slot) → p ∈ shorter → (n p).order_id ≢ id_o
    not_live p i k =
        let at_o : lookup id_o index ≡ some o = (is id_o o).1 (ground (arith, more.0 o), refl) in
        let at_p = (is id_o p).1 (left_behind p i, sym (same p i) ∙ k) in
        ground (arith, more.1, sym at_o ∙ at_p)

    still_live :
        (id : ℕ) (p : Slot) → p ∈ longer → (m p).order_id ≡ id → (id_o == id) ≡ false → p ∈ shorter
    still_live id p i k ne = elim (Bool-cases (p == o)) [
      | inl e ↦
          let here : id_o ≡ id = subst (λ x. (m x).order_id ≡ id) ((==_iff p o).0 e) k in
          ground (arith, here, ne)
      | inr apart ↦ ground (arith, more.0 p)
    ]

    erase_found :
        (id : ℕ) (p : Slot)
        → lookup id (erase id_o index) ≡ some p
        → (p ∈ shorter) × ((n p).order_id ≡ id)
    erase_found id p found = elim (Bool-cases (id_o == id)) [
      | inl e ↦
          let here = (==_iff id_o id).0 e in
          let nothing =
            subst (λ k. lookup k (erase id_o index) ≡ none) here (lookup-erase_self id_o index) in
          absurd (none_ne_some p (sym nothing ∙ found))
      | inr ne ↦
          let (i, k) = (is id p).0 (sym (lookup-erase_ne id_o id index ne) ∙ found) in
          let live : p ∈ shorter = still_live id p i k ne in (live, same p live ∙ k)
    ]

    erase_finds :
        (id : ℕ) (p : Slot)
        → p ∈ shorter
        → (n p).order_id ≡ id
        → lookup id (erase id_o index) ≡ some p
    erase_finds id p i k = elim (Bool-cases (id_o == id)) [
      | inl e ↦ absurd (not_live p i (k ∙ sym ((==_iff id_o id).0 e)))
      | inr ne ↦
          lookup-erase_ne id_o id index ne ∙ (is id p).1 (left_behind p i, sym (same p i) ∙ k)
    ]

    -- An order leaves.
    pub Indexed-erase : Indexed n shorter (erase (m o).order_id index)
    Indexed-erase id p = (erase_found id p, λ (i, k). erase_finds id p i k)

  module _ (same : SameIds shorter m n) (is : Indexed m shorter index)
      (fresh : lookup (n o).order_id index ≡ none) where
    abbrev new_id : ℕ
    new_id = (n o).order_id

    not_new : (p : Slot) → p ∈ shorter → (n p).order_id ≢ new_id
    not_new p i k = none_ne_some p (sym fresh ∙ (is new_id p).1 (i, sym (same p i) ∙ k))

    insert_found :
        (id : ℕ) (p : Slot)
        → lookup id (insert new_id o index) ≡ some p
        → (p ∈ longer) × ((n p).order_id ≡ id)
    insert_found id p found = elim (Bool-cases (new_id == id)) [
      | inl e ↦
          let here = (==_iff new_id id).0 e in
          let at_o =
            subst (λ k. lookup k (insert new_id o index) ≡ some o) here
              (lookup-insert_self new_id o index) in
          let same_slot : o ≡ p = cc (sym at_o ∙ found) in
          subst (λ x. (x ∈ longer) × ((n x).order_id ≡ id)) same_slot
            (ground (arith, more.0 o), here)
      | inr ne ↦
          let (i, k) = (is id p).0 (sym (lookup-insert_ne new_id id o index ne) ∙ found) in
          (ground (arith, more.0 p), same p i ∙ k)
    ]

    insert_finds :
        (id : ℕ) (p : Slot)
        → p ∈ longer
        → (n p).order_id ≡ id
        → lookup id (insert new_id o index) ≡ some p
    insert_finds id p i k = elim (Bool-cases (p == o)) [
      | inl e ↦
          let here = (==_iff p o).0 e in
          let id_lem : new_id ≡ id = subst (λ x. (n x).order_id ≡ id) here k in
          subst (λ x. lookup id (insert new_id o index) ≡ some x) (sym here)
            (subst (λ j. lookup j (insert new_id o index) ≡ some o) id_lem
              (lookup-insert_self new_id o index))
      | inr apart ↦
          let i' : p ∈ shorter = ground (arith, more.0 p) in
          let ne : (new_id == id) ≡ false =
            ground (arith, λ (e : id ≡ new_id). not_new p i' (k ∙ e)) in
          lookup-insert_ne new_id id o index ne ∙ (is id p).1 (i', sym (same p i') ∙ k)
    ]

    -- An order joins, under an id that is not in the index.
    pub Indexed-try_emplace : Indexed n longer (try_emplace new_id o index)
    Indexed-try_emplace id p =
        subst (λ r. (lookup id r ≡ some p) ↔ ((p ∈ longer) × ((n p).order_id ≡ id)))
          (sym (rw (fresh, try_emplace) refl)) (insert_found id p, λ (i, k). insert_finds id p i k)
