-- ===== src/OrderBook/Gap.antt =====
-- Where `addLimitOrder` of include/order_book.h queues an order: behind the orders of its price.
use market_maker_ops.Prelude.{
  ℕ, ◌≡◌, refl, sym, subst, ap, ◌∙◌, true, false, inl, inr, List, [], ◌∷◌, ◌++◌, append_assoc,
  arith,
}
use market_maker_ops.Order.{Side, buy, sell, Slot, Store}
use market_maker_ops.PriceLevel.{PriceLevel, new_level}
use market_maker_ops.PriceLevel.Links.{◌∈◌}
use market_maker_ops.PriceLevel.Queue.{IsQueue, total}
use market_maker_ops.OrderBook.Levels.{before}
use market_maker_ops.OrderBook.Levels.Split.{Better, Worse, Finds}
use market_maker_ops.OrderBook.Match.Spec.{Resting, Queues, slots, resting, resting_at}
use market_maker_ops.OrderBook.Match.Ladder.{Rests, Ladder}
use market_maker_ops.OrderBook.Match.Parts.{slots-append, Ladder-append}
use market_maker_ops.OrderBook.Abstract.{beats, place}
use market_maker_ops.OrderBook.WellFormed.{in_one, Rests-mem, Better-mem, Worse-mem}
use market_maker_ops.OrderBook.Locate.{Ladder-Headed}

-- The queue of a level that is there or new, between the queues of the better and the worse levels.
pub record Gap (m : Store) (k : PriceLevel) (front behind : List PriceLevel) (qs : Queues)
    : Type 0 where
  pub first : Queues
  pub here : List Slot
  pub last : Queues
  pub front_ladder : Ladder m front first
  pub behind_ladder : Ladder m behind last
  pub queue : IsQueue m k here
  pub rests : Rests m k.price here
  pub place : slots qs ≡ slots first ++ (here ++ slots last)

new_level-IsQueue : (m : Store) (p : ℕ) → IsQueue m (new_level p) []
unfolding total
new_level-IsQueue m p = record { head = refl; tail = refl; links = tt; distinct = tt; sum = refl }

pub Finds-Gap :
    (m : Store) (side : Side) (p : ℕ) (levels : List PriceLevel) (k : PriceLevel)
    (front behind : List PriceLevel) (qs : Queues)
    → Finds side p levels k front behind
    → Ladder m levels qs
    → Gap m k front behind qs
Finds-Gap m side p levels k front behind qs f d = elim f.origin [
  | inl e ↦
      let (qa, rest, q, da, dk) =
        Ladder-append m front (k ∷ behind) qs (subst (λ ls. Ladder m ls qs) e d) in
      let h = Ladder-Headed m k behind rest dk in
      record {
        first = qa;
        here = h.first;
        last = h.rest;
        front_ladder = da;
        behind_ladder = h.ladder;
        queue = h.queue;
        rests = h.rests;
        place = ap slots q ∙ slots-append qa rest ∙ ap (◌++◌ (slots qa)) h.whole;
      }
  | inr (n, e) ↦
      let (qa, qb, q, da, db) =
        Ladder-append m front behind qs (subst (λ ls. Ladder m ls qs) e d) in
      record {
        first = qa;
        here = [];
        last = qb;
        front_ladder = da;
        behind_ladder = db;
        queue = subst (λ l. IsQueue m l []) (sym n) (new_level-IsQueue m p);
        rests = tt;
        place = ap slots q ∙ slots-append qa qb;
      }
]

-- An order is placed behind those that it does not beat.
place-behind :
    (m : Store) (side : Side) (r : Resting) (ps : List Slot)
    → ((a : Slot) → a ∈ ps → beats side r.price (m a).price ≡ true)
    → place side r (resting m ps) ≡ r ∷ resting m ps
place-behind m side r [] w = refl
place-behind m side r (p ∷ ps) w = rw (w p (ground arith)) refl

pub place-append :
    (m : Store) (side : Side) (r : Resting) (ps qs : List Slot)
    → ((a : Slot) → a ∈ ps → beats side r.price (m a).price ≡ false)
    → ((a : Slot) → a ∈ qs → beats side r.price (m a).price ≡ true)
    → place side r (resting m (ps ++ qs)) ≡ resting m ps ++ r ∷ resting m qs
place-append m side r [] qs b w = place-behind m side r qs w
place-append m side r (p ∷ ps) qs b w =
    rw (b p (ground arith))
      (ap (◌∷◌ (resting_at m p)) (place-append m side r ps qs (λ a i. b a (ground arith)) w))

beats-better : (side : Side) (p q : ℕ) → before side p q ≡ true → beats side p q ≡ false
beats-better buy p q h = ground arith
beats-better sell p q h = ground arith

beats-worse : (side : Side) (p q : ℕ) → before side q p ≡ true → beats side p q ≡ true
beats-worse buy p q h = ground arith
beats-worse sell p q h = ground arith

beats_irreflexive : (side : Side) (p : ℕ) → beats side p p ≡ false
beats_irreflexive buy p = ground arith
beats_irreflexive sell p = ground arith

-- Behind its own price's queue is where an order is placed.
pub Gap-place :
    (m : Store) (side : Side) (k : PriceLevel) (front behind : List PriceLevel) (qs : Queues)
    (r : Resting)
    → (g : Gap m k front behind qs) → k.price ≡ r.price
    → Better side k.price front
    → Worse side k.price behind
    → place side r (resting m (slots qs))
      ≡ resting m (slots g.first ++ g.here) ++ r ∷ resting m (slots g.last)
Gap-place m side k front behind qs r g e b w =
    ap (λ xs. place side r (resting m xs))
      (g.place ∙ sym (append_assoc (slots g.first) g.here (slots g.last)))
    ∙ place-append m side r (slots g.first ++ g.here) (slots g.last)
        (λ a i. elim (in_one a (slots g.first) g.here i) [
          | inl j ↦ beats-better side r.price (m a).price (
              subst (λ p. before side p (m a).price ≡ true) e
                (Better-mem m side k.price a front g.first g.front_ladder b j))
          | inr j ↦
              ap (beats side r.price) ((Rests-mem m k.price a g.here g.rests j).0 ∙ e)
              ∙ beats_irreflexive side r.price
        ])
        (λ a i. beats-worse side r.price (m a).price (
          subst (λ p. before side (m a).price p ≡ true) e
            (Worse-mem m side k.price a behind g.last g.behind_ladder w i)))
