-- ===== src/OrderBook/Locate.antt =====
-- Where a live order of include/order_book.h stands: its level, and its place in the level's queue.
use market_maker_ops.Prelude.{
  ◌≡◌, refl, sym, subst, ap, ◌∙◌, List, [], ◌∷◌, ◌++◌, append_assoc, arith,
}
use market_maker_ops.Order.{Side, Slot, Store}
use market_maker_ops.PriceLevel.{PriceLevel}
use market_maker_ops.PriceLevel.Links.{◌∈◌, has-append}
use market_maker_ops.PriceLevel.Queue.{IsQueue}
use market_maker_ops.PriceLevel.Middle.{mem-split}
use market_maker_ops.OrderBook.Levels.{lower_bound, rejoin}
use market_maker_ops.OrderBook.Levels.Search.{before_irreflexive}
use market_maker_ops.OrderBook.Levels.Split.{Better, Worse, Around, lower_bound_split}
use market_maker_ops.OrderBook.Match.Spec.{Queues, slots}
use market_maker_ops.OrderBook.Match.Ladder.{Rests, Ladder}
use market_maker_ops.OrderBook.Match.Parts.{slots-append, Ladder-append}
use market_maker_ops.OrderBook.WellFormed.{IsSide, Ladder-has_price, Better-mem, Worse-mem}

-- The order in slot `o` on a side with the levels `levels` and the queues `qs`.
pub record Located (m : Store) (side : Side) (levels : List PriceLevel) (qs : Queues) (o : Slot)
    : Type 0 where
  pub level : PriceLevel
  pub later : List PriceLevel
  pub behind : List PriceLevel
  pub first : Queues
  pub last : Queues
  pub xs : List Slot
  pub ys : List Slot
  pub found :
      lower_bound side (m o).price levels ≡ record { later = level ∷ later; earlier = behind }
  pub price : level.price ≡ (m o).price
  pub whole : levels ≡ rejoin later [] ++ level ∷ behind
  pub around : Around side level (rejoin later []) behind
  pub front_ladder : Ladder m (rejoin later []) first
  pub behind_ladder : Ladder m behind last
  pub queue : IsQueue m level (xs ++ o ∷ ys)
  pub rests : Rests m level.price (xs ++ o ∷ ys)
  pub place : slots qs ≡ (slots first ++ xs) ++ o ∷ (ys ++ slots last)

-- The queue of a level, and those behind it.
pub record Headed (m : Store) (l : PriceLevel) (ls : List PriceLevel) (qs : Queues) : Type 0 where
  pub first : List Slot
  pub rest : Queues
  pub queue : IsQueue m l first
  pub rests : Rests m l.price first
  pub ladder : Ladder m ls rest
  pub whole : slots qs ≡ first ++ slots rest

pub Ladder-Headed :
    (m : Store) (l : PriceLevel) (ls : List PriceLevel) (qs : Queues)
    → Ladder m (l ∷ ls) qs
    → Headed m l ls qs
Ladder-Headed m l ls [] d = absurd d
Ladder-Headed m l ls ((p, ps) ∷ qs) d = record {
  first = p ∷ ps;
  rest = qs;
  queue = d.0;
  rests = d.1;
  ladder = d.2;
  whole = refl;
}

module _ (m : Store) (side : Side) (o : Slot) where
  in_level :
      (front behind : List PriceLevel) (qa qb : Queues) (ps : List Slot)
      → Ladder m front qa
      → Ladder m behind qb
      → Better side (m o).price front
      → Worse side (m o).price behind
      → o ∈ slots qa ++ (ps ++ slots qb)
      → o ∈ ps
  in_level front behind qa qb ps da db b w i =
      let irr = before_irreflexive side (m o).price in
      let out_front = λ (j : o ∈ slots qa). Better-mem m side (m o).price o front qa da b j in
      let out_behind = λ (j : o ∈ slots qb). Worse-mem m side (m o).price o behind qb db w j in
      ground (
        arith,
        irr,
        out_front,
        out_behind,
        has-append o (slots qa) (ps ++ slots qb),
        has-append o ps (slots qb),
      )

regroup :
    (fs xs ys ls : List Slot) (o : Slot)
    → fs ++ ((xs ++ o ∷ ys) ++ ls) ≡ (fs ++ xs) ++ o ∷ (ys ++ ls)
regroup fs xs ys ls o =
    ap (◌++◌ fs) (append_assoc xs (o ∷ ys) ls) ∙ sym (append_assoc fs xs (o ∷ (ys ++ ls)))

-- Every order of a side is found.
pub locate :
    (m : Store) (side : Side) (levels : List PriceLevel) (qs : Queues) (o : Slot)
    → IsSide m side levels qs
    → o ∈ slots qs
    → Located m side levels qs o
locate m side levels qs o is i =
    let (k, later, behind, found, price, whole, around) =
      lower_bound_split side (m o).price levels is.sorted
        (Ladder-has_price m o levels qs is.ladder i) in
    let (qa, rest, e, da, dk) =
      Ladder-append m (rejoin later []) (k ∷ behind) qs
        (subst (λ ls. Ladder m ls qs) whole is.ladder) in
    let h = Ladder-Headed m k behind rest dk in
    let parts : slots qs ≡ slots qa ++ (h.first ++ slots h.rest) =
      ap slots e ∙ slots-append qa rest ∙ ap (◌++◌ (slots qa)) h.whole in
    let here : o ∈ h.first =
      in_level m side o (rejoin later []) behind qa h.rest h.first da h.ladder
        (subst (λ p. Better side p (rejoin later [])) price around.better)
        (subst (λ p. Worse side p behind) price around.worse) (subst (λ ps. o ∈ ps) parts i) in
    let (xs, ys, split) = mem-split o h.first here in
    record {
      level = k;
      later = later;
      behind = behind;
      first = qa;
      last = h.rest;
      xs = xs;
      ys = ys;
      found = found;
      price = price;
      whole = whole;
      around = around;
      front_ladder = da;
      behind_ladder = h.ladder;
      queue = subst (λ ps. IsQueue m k ps) split h.queue;
      rests = subst (λ ps. Rests m k.price ps) split h.rests;
      place =
          parts
          ∙ ap (λ ps. slots qa ++ (ps ++ slots h.rest)) split
          ∙ regroup (slots qa) xs ys (slots h.rest) o;
    }
