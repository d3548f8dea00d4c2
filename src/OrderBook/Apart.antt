-- ===== src/OrderBook/Apart.antt =====
-- No bid of a book of include/order_book.h is at the price of an ask or above: what incoming and
-- cancelled orders do to that, on the two lists of resting orders.
use market_maker_ops.Prelude.{
  ℕ, ◌-◌, ◌≡◌, sym, subst, true, inl, inr, List, [], ◌∷◌, ◌++◌, ◌||◌, arith, ltb, ◌==◌, if_cases,
}
use market_maker_ops.Order.{Side, buy, sell, Slot, Store}
use market_maker_ops.PriceLevel.{PriceLevel}
use market_maker_ops.OrderBook.Levels.{opposite, before}
use market_maker_ops.OrderBook.Levels.Search.{Descends, Sorted}
use market_maker_ops.OrderBook.Match.Spec.{refuses, Resting, Crossed, cross, Queues, slots, resting}
use market_maker_ops.OrderBook.Match.Ladder.{Rests, Ladder}
use market_maker_ops.OrderBook.Match.Parts.{resting-append}
use market_maker_ops.OrderBook.Match.Uncrossed.{Refuses, Clear, cross-Settled}
use market_maker_ops.OrderBook.Abstract.{beats, place, enter, withdraw}

-- No order of the list is at a price that an order with the limit accepts.
abbrev pub AllRefused : Side → ℕ → List Resting → Type 0
AllRefused side limit [] = Unit {0}
AllRefused side limit (r ∷ rs) = Refuses side limit r.price × AllRefused side limit rs

-- No two orders of the lists accept each other.
abbrev pub Apart : Side → List Resting → List Resting → Type 0
Apart side [] opp = Unit {0}
Apart side (r ∷ rs) opp = AllRefused side r.price opp × Apart side rs opp

Refuses-flip : (side : Side) (a b : ℕ) → Refuses side a b → Refuses (opposite side) b a
Refuses-flip buy a b h = h
Refuses-flip sell a b h = h

Apart-nil : (side : Side) (own : List Resting) → Apart side own []
Apart-nil side [] = tt
Apart-nil side (r ∷ rs) = (tt, Apart-nil side rs)

Apart-cons :
    (side : Side) (r : Resting) (own opp : List Resting)
    → AllRefused side r.price own
    → Apart (opposite side) own opp
    → Apart (opposite side) own (r ∷ opp)
Apart-cons side r [] opp a b = tt
Apart-cons side r (x ∷ xs) opp a b =
    ((Refuses-flip side r.price x.price a.0, b.0), Apart-cons side r xs opp a.1 b.1)

-- The same, seen from the other side.
pub Apart-flip :
    (side : Side) (own opp : List Resting) → Apart side own opp → Apart (opposite side) opp own
Apart-flip side [] opp a = Apart-nil (opposite side) opp
Apart-flip side (r ∷ rs) opp a = Apart-cons side r opp rs a.0 (Apart-flip side rs opp a.1)

-- Every order of the book that is left was there, with its price.
cross-AllRefused :
    (side : Side) (limit : ℕ) (from : Side) (id who price q : ℕ) (rs : List Resting)
    → AllRefused side limit rs
    → AllRefused side limit (cross from id who price q rs).book
cross-AllRefused side limit from id who price q [] a = tt
cross-AllRefused side limit from id who price q (r ∷ rs) a =
    let kept : Crossed → Type 0 = λ c. AllRefused side limit c.book in
    if_cases kept ((q == 0) || refuses from price r.price) (λ e. a)
      (λ hit.
        if_cases kept (r.participant_id == who) (λ e. a)
          (λ e.
            if_cases kept (ltb q r.quantity) (λ lt. a)
              (λ ge. cross-AllRefused side limit from id who price (q - r.quantity) rs a.1)))

cross-Apart :
    (side : Side) (from : Side) (id who price q : ℕ) (own opp : List Resting)
    → Apart side own opp
    → Apart side own (cross from id who price q opp).book
cross-Apart side from id who price q [] opp a = tt
cross-Apart side from id who price q (r ∷ rs) opp a = (
  cross-AllRefused side r.price from id who price q opp a.0,
  cross-Apart side from id who price q rs opp a.1,
)

place-Apart :
    (side : Side) (r : Resting) (own opp : List Resting)
    → AllRefused side r.price opp
    → Apart side own opp
    → Apart side (place side r own) opp
place-Apart side r [] opp a b = (a, tt)
place-Apart side r (x ∷ xs) opp a b =
    if_cases (λ l. Apart side l opp) (beats side r.price x.price) (λ e. (a, b))
      (λ e. (b.0, place-Apart side r xs opp a b.1))

withdraw-AllRefused :
    (side : Side) (limit id : ℕ) (rs : List Resting)
    → AllRefused side limit rs
    → AllRefused side limit (withdraw id rs)
withdraw-AllRefused side limit id [] a = tt
withdraw-AllRefused side limit id (r ∷ rs) a =
    let rest = withdraw-AllRefused side limit id rs a.1 in
    if_cases (AllRefused side limit) (r.order_id == id) (λ e. rest) (λ e. (a.0, rest))

-- A cancel keeps the two sides apart.
pub withdraw-Apart :
    (side : Side) (id : ℕ) (own opp : List Resting)
    → Apart side own opp
    → Apart side (withdraw id own) (withdraw id opp)
withdraw-Apart side id [] opp a = tt
withdraw-Apart side id (r ∷ rs) opp a =
    let rest = withdraw-Apart side id rs opp a.1 in
    if_cases (λ l. Apart side l (withdraw id opp)) (r.order_id == id) (λ e. rest)
      (λ e. (withdraw-AllRefused side r.price id opp a.0, rest))

-- An incoming order does so, where the first order that it leaves on the other side being out of its
-- reach means that all are.
pub enter-Apart :
    (side : Side) (id who price q : ℕ) (own opp : List Resting)
    → (let left = (cross side id who price q opp).book in
        Clear side price left → AllRefused side price left)
    → Apart side own opp
    → (let e = enter side id who price q own opp in Apart side e.own e.opposite)
enter-Apart side id who price q own opp sorted a =
    let c = cross side id who price q opp in
    let kept = cross-Apart side side id who price q own opp a in
    if_cases (λ l. Apart side l c.book) (c.left == 0) (λ e. kept)
      (λ e. elim (cross-Settled side id who price q opp) [
        | inl z ↦ absurd (ground (arith, z, e))
        | inr clear ↦
            place-Apart side
              (record { order_id = id; participant_id = who; price = price; quantity = c.left }) own
              c.book (sorted clear) kept
      ])

append-AllRefused :
    (side : Side) (limit : ℕ) (rs ss : List Resting)
    → AllRefused side limit rs
    → AllRefused side limit ss
    → AllRefused side limit (rs ++ ss)
append-AllRefused side limit [] ss a b = b
append-AllRefused side limit (r ∷ rs) ss a b = (a.0, append-AllRefused side limit rs ss a.1 b)

Rests-AllRefused :
    (side : Side) (limit : ℕ) (m : Store) (price : ℕ) (ps : List Slot)
    → Refuses side limit price
    → Rests m price ps
    → AllRefused side limit (resting m ps)
Rests-AllRefused side limit m price [] h r = tt
Rests-AllRefused side limit m price (p ∷ ps) h r =
    (subst (Refuses side limit) (sym r.0) h, Rests-AllRefused side limit m price ps h r.3)

Refuses-before :
    (side : Side) (limit p q : ℕ)
    → before (opposite side) q p ≡ true
    → Refuses side limit p
    → Refuses side limit q
Refuses-before buy limit p q b h = ground arith
Refuses-before sell limit p q b h = ground arith

Descends-AllRefused :
    (side : Side) (limit price : ℕ) (m : Store) (ls : List PriceLevel) (qs : Queues)
    → Refuses side limit price
    → Descends (opposite side) price ls
    → Ladder m ls qs
    → AllRefused side limit (resting m (slots qs))
Descends-AllRefused side limit price m [] [] h s d = tt
Descends-AllRefused side limit price m [] (q ∷ qs) h s d = absurd d
Descends-AllRefused side limit price m (l ∷ ls) [] h s d = absurd d
Descends-AllRefused side limit price m (l ∷ ls) ((p, ps) ∷ qs) h s d =
    let here = Refuses-before side limit price l.price s.0 h in
    subst (AllRefused side limit) (sym (resting-append m (p ∷ ps) (slots qs))) (
      append-AllRefused side limit (resting m (p ∷ ps)) (resting m (slots qs))
        (Rests-AllRefused side limit m l.price (p ∷ ps) here d.1)
        (Descends-AllRefused side limit l.price m ls qs here s.1 d.2))

-- On a sorted side, an order that the first resting order is too dear for has none to match.
pub Clear-AllRefused :
    (side : Side) (limit : ℕ) (m : Store) (ls : List PriceLevel) (qs : Queues)
    → Sorted (opposite side) ls
    → Ladder m ls qs
    → Clear side limit (resting m (slots qs))
    → AllRefused side limit (resting m (slots qs))
Clear-AllRefused side limit m [] [] s d c = tt
Clear-AllRefused side limit m [] (q ∷ qs) s d c = absurd d
Clear-AllRefused side limit m (l ∷ ls) [] s d c = absurd d
Clear-AllRefused side limit m (l ∷ ls) ((p, ps) ∷ qs) s d c =
    let here = subst (Refuses side limit) d.1.0 c in
    subst (AllRefused side limit) (sym (resting-append m (p ∷ ps) (slots qs))) (
      append-AllRefused side limit (resting m (p ∷ ps)) (resting m (slots qs))
        (Rests-AllRefused side limit m l.price (p ∷ ps) here d.1)
        (Descends-AllRefused side limit l.price m ls qs here s d.2))
