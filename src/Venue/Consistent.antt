-- ===== src/Venue/Consistent.antt =====
-- The tables of venue/venue.cpp and the book together, and what an order that is accepted does to them.
use market_maker_ops.Prelude.{
  ℕ, ◌≡◌, ◌≢◌, refl, sym, subst, ap, ◌∙◌, true, false, Bool-cases, some, List, [], ◌∷◌, inl, inr,
  arith, ltb, leb, ◌==◌, ==_iff, lookup, nat_key,
}
use market_maker_ops.Order.{buy, sell, Slot, Store}
use market_maker_ops.PriceLevel.Links.{◌∈◌, ◌∉◌, Distinct}
use market_maker_ops.OrderBook.Match.Spec.{refuses, Resting, resting}
use market_maker_ops.OrderBook.Index.{Indexed}
use market_maker_ops.Protocol.Inbound
use market_maker_ops.Protocol.Inbound.{OrderSide}
use market_maker_ops.OrderBook.Levels.{opposite}
use market_maker_ops.Venue.State.{ConnId, LiveOrder}
use market_maker_ops.Venue.Requests.{to_engine_side, crosses}
use market_maker_ops.Venue.Admission.{NoOwnCross}
use market_maker_ops.Venue.Mirror.{Table, Mirrored, Without, DistinctIds, NotOwn}

-- The index tells the orders of two slots apart.
id_of_other :
    (m : Store) (live : List Slot) (ids : List (ℕ × Slot)) (p q : Slot)
    → Indexed m live ids
    → p ∈ live
    → q ∈ live
    → (q == p) ≡ false
    → ((m q).order_id == (m p).order_id) ≡ false
id_of_other m live ids p q is i j ne = elim (Bool-cases ((m q).order_id == (m p).order_id)) [
  | inr e ↦ e
  | inl e ↦
      let at_p = (is (m p).order_id p).1 (i, refl) in
      let at_q = (is (m p).order_id q).1 (j, (==_iff _ _).0 e) in
      ground (arith, ne, sym at_p ∙ at_q)
]

pub resting-Without :
    (m : Store) (live : List Slot) (ids : List (ℕ × Slot)) (p : Slot) (ps : List Slot)
    → Indexed m live ids
    → p ∈ live
    → p ∉ ps
    → ((a : Slot) → a ∈ ps → a ∈ live)
    → Without (m p).order_id (resting m ps)
resting-Without m live ids p [] is i out within = tt
resting-Without m live ids p (q ∷ ps) is i out within = (
  id_of_other m live ids p q is i (within q (ground arith)) (ground arith),
  resting-Without m live ids p ps is i (ground arith) (λ a j. within a (ground arith)),
)

-- No two orders that rest have one id.
pub resting-DistinctIds :
    (m : Store) (live : List Slot) (ids : List (ℕ × Slot)) (ps : List Slot)
    → Indexed m live ids
    → Distinct ps
    → ((a : Slot) → a ∈ ps → a ∈ live)
    → DistinctIds (resting m ps)
resting-DistinctIds m live ids [] is d within = tt
resting-DistinctIds m live ids (p ∷ ps) is d within =
    let rest : (a : Slot) → a ∈ ps → a ∈ live = λ a j. within a (ground arith) in
    (
      resting-Without m live ids p ps is (within p (ground arith)) d.0 rest,
      resting-DistinctIds m live ids ps is d.1 rest,
    )

-- The check of `wouldSelfCross` at an order that the table has.
lookup-NoOwnCross :
    (conn : ConnId) (side : OrderSide) (price id : ℕ) (t : Table) (lo : LiveOrder)
    → NoOwnCross conn side price t
    → lookup id t ≡ some lo
    → lo.owner ≡ conn
    → crosses side price lo ≡ false
lookup-NoOwnCross conn side price id [] lo h e own = absurd (ground arith)
lookup-NoOwnCross conn side price id ((j, l) ∷ t) lo h e own = elim (Bool-cases (j == id)) [
  | inl same ↦
      let here : l ≡ lo = ground (arith, same, e) in
      subst (λ x. crosses side price x ≡ false) here
        (h.0 (ap (λ (x : LiveOrder). x.owner) here ∙ own))
  | inr other ↦ lookup-NoOwnCross conn side price id t lo h.1 (ground (arith, other, e)) own
]

buy_ne_sell : buy ≢ sell
buy_ne_sell e = cc

at_buyer :
    (side : OrderSide) (price p : ℕ)
    → to_engine_side side ≡ sell
    → elim side [ Inbound.buy ↦ false | Inbound.sell ↦ leb p price ] ≡ false
    → ltb price p ≡ true
at_buyer Inbound.buy price p e h = absurd (buy_ne_sell e)
at_buyer Inbound.sell price p e h = ground arith

at_seller :
    (side : OrderSide) (price p : ℕ)
    → to_engine_side side ≡ buy
    → elim side [ Inbound.buy ↦ leb price p | Inbound.sell ↦ false ] ≡ false
    → ltb p price ≡ true
at_seller Inbound.buy price p e h = ground arith
at_seller Inbound.sell price p e h = absurd (buy_ne_sell (sym e))

crosses-refuses :
    (side : OrderSide) (price : ℕ) (lo : LiveOrder)
    → to_engine_side lo.side ≡ opposite (to_engine_side side)
    → crosses side price lo ≡ false
    → refuses (to_engine_side side) price lo.price_ticks ≡ true
crosses-refuses Inbound.buy price lo e h = at_buyer lo.side price lo.price_ticks e h
crosses-refuses Inbound.sell price lo e h = at_seller lo.side price lo.price_ticks e h

-- So no order that would match is of the same connection.
pub Mirrored-NotOwn :
    (conn : ConnId) (side : OrderSide) (price : ℕ) (t : Table) (rs : List Resting)
    → NoOwnCross conn side price t
    → Mirrored t (opposite (to_engine_side side)) rs
    → NotOwn (to_engine_side side) conn price rs
Mirrored-NotOwn conn side price t [] h m = tt
Mirrored-NotOwn conn side price t (r ∷ rs) h m =
    let (lo, e, owner, at_side, at_price, left) = m.0 in
    (
      λ open_price. elim (Bool-cases (r.participant_id == conn)) [
        | inr ne ↦ ne
        | inl own ↦
            let k = crosses-refuses side price lo at_side (
              lookup-NoOwnCross conn side price r.order_id t lo h e (owner ∙ (==_iff _ _).0 own)) in
            absurd (
              ground (
                arith,
                open_price,
                subst (λ p. refuses (to_engine_side side) price p ≡ true) at_price k,
              ))
      ],
      Mirrored-NotOwn conn side price t rs h m.2,
    )
