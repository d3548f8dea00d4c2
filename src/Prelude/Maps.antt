-- ===== src/Prelude/Maps.antt =====
-- Keyed tables as association lists, for the program's `std::unordered_map` and `std::map`: no key
-- occurs twice where the tables are built by these operations.
use Prim.Native.Nat.{ℕ}
use mathlib.Core.Path.{◌≡◌, refl, sym, subst}
use mathlib.Core.Logic.{◌↔◌, inl, inr}
use mathlib.Core.Bool.{Bool, true, false, ◌&&◌}
use mathlib.Core.List.{List, [], ◌∷◌}
use mathlib.Core.Option.{Option, none, some}
use native.Mathlib.Omega.{arith}
use market_maker_ops.Prelude.Tests.{◌==◌, ==_iff, Bool-cases, if◌then◌else◌}

-- What a key type offers: a test that decides equality.
pub record Key {ℓ} (K : Type ℓ) : Type ℓ where
  pub eqb : K → K → Bool
  pub eqb_iff : (a b : K) → (eqb a b ≡ true) ↔ (a ≡ b)

instance abbrev pub nat_key : Key ℕ
nat_key = record { eqb = ◌==◌; eqb_iff = ==_iff }

-- Byte strings.
abbrev pub bytes_eq : List ℕ → List ℕ → Bool
bytes_eq [] [] = true
bytes_eq [] (y ∷ ys) = false
bytes_eq (x ∷ xs) [] = false
bytes_eq (x ∷ xs) (y ∷ ys) = (x == y) && bytes_eq xs ys

pub bytes_eq_iff : (xs ys : List ℕ) → (bytes_eq xs ys ≡ true) ↔ (xs ≡ ys)
bytes_eq_iff [] [] = (λ _. refl, λ _. refl)
bytes_eq_iff [] (y ∷ ys) = (λ h. cc, λ h. cc)
bytes_eq_iff (x ∷ xs) [] = (λ h. cc, λ h. cc)
bytes_eq_iff (x ∷ xs) (y ∷ ys) =
    let (there, back) = bytes_eq_iff xs ys in (λ h. ground arith, λ h. ground arith)

instance abbrev pub bytes_key : Key (List ℕ)
bytes_key = record { eqb = bytes_eq; eqb_iff = bytes_eq_iff }

module _ {ℓ κ} {K : Type ℓ} {V : Type κ} ⦃k : Key K⦄ where
  -- `find`.
  abbrev pub lookup : K → List (K × V) → Option V
  lookup a [] = none
  lookup a ((b, v) ∷ m) = if k.eqb b a then some v else lookup a m

  -- `m[key] = value`.
  abbrev pub insert : K → V → List (K × V) → List (K × V)
  insert a v [] = (a, v) ∷ []
  insert a v ((b, w) ∷ m) = if k.eqb b a then (a, v) ∷ m else (b, w) ∷ insert a v m

  -- `try_emplace`: an entry that is there stays.
  abbrev pub try_emplace : K → V → List (K × V) → List (K × V)
  try_emplace a v m = elim (lookup a m) [ none ↦ insert a v m | some _ ↦ m ]

  abbrev pub erase : K → List (K × V) → List (K × V)
  erase a [] = []
  erase a ((b, w) ∷ m) = if k.eqb b a then erase a m else (b, w) ∷ erase a m

pub eqb_refl {ℓ} : {K : Type ℓ} ⦃k : Key K⦄ (a : K) → k.eqb a a ≡ true
eqb_refl ⦃k⦄ a = (k.eqb_iff a a).1 refl

module _ {ℓ κ} {K : Type ℓ} {V : Type κ} ⦃k : Key K⦄ where
  pub lookup-insert_self : (a : K) (v : V) (m : List (K × V)) → lookup a (insert a v m) ≡ some v
  lookup-insert_self a v [] = rw (eqb_refl a)
  lookup-insert_self a v ((b, w) ∷ m) = elim (Bool-cases (k.eqb b a)) [
    | inl same ↦ rw same (rw (eqb_refl a))
    | inr other ↦ rw other (rw other (lookup-insert_self a v m))
  ]

  pub lookup-insert_ne :
      (a b : K) (v : V) (m : List (K × V))
      → k.eqb a b ≡ false
      → lookup b (insert a v m) ≡ lookup b m
  lookup-insert_ne a b v [] ne = rw ne
  lookup-insert_ne a b v ((c, w) ∷ m) ne = elim (Bool-cases (k.eqb c a)) [
    | inl same ↦
        let e = (k.eqb_iff c a).0 same in
        rw same (
          rw ne
            (subst (λ x. lookup b m ≡ (if k.eqb x b then some w else lookup b m)) (sym e) (rw ne)))
    | inr other ↦ rw other (rw (lookup-insert_ne a b v m ne))
  ]

  pub lookup-erase_self : (a : K) (m : List (K × V)) → lookup a (erase a m) ≡ none
  lookup-erase_self a [] = refl
  lookup-erase_self a ((b, w) ∷ m) = elim (Bool-cases (k.eqb b a)) [
    | inl same ↦ rw same (lookup-erase_self a m)
    | inr other ↦ rw other (rw other (lookup-erase_self a m))
  ]

  pub lookup-erase_ne :
      (a b : K) (m : List (K × V)) → k.eqb a b ≡ false → lookup b (erase a m) ≡ lookup b m
  lookup-erase_ne a b [] ne = refl
  lookup-erase_ne a b ((c, w) ∷ m) ne = elim (Bool-cases (k.eqb c a)) [
    | inl same ↦
        let e = (k.eqb_iff c a).0 same in
        rw same (
          rw (lookup-erase_ne a b m ne)
            (subst (λ x. lookup b m ≡ (if k.eqb x b then some w else lookup b m)) (sym e) (rw ne)))
    | inr other ↦ rw other (rw (lookup-erase_ne a b m ne))
  ]
