-- ===== src/Venue/Joining.antt =====
-- The book of venue/venue.cpp and its table of live orders, when an order joins both.
use market_maker_ops.Prelude.{
  ℕ, ◌<◌, ◌≡◌, refl, ap, ◌∙◌, false, none, List, [], ◌∷◌, arith, ◌==◌, ==_comm, if◌then◌else◌,
  if_cases, lookup, insert, lookup-insert_ne, nat_key, bytes_key,
}
use market_maker_ops.Order.{Side, Slot, Store}
use market_maker_ops.PriceLevel.Links.{◌∈◌, mem-append_left, mem-append_right, Distinct-append}
use market_maker_ops.OrderBook.{OrderBook}
use market_maker_ops.OrderBook.Match.Spec.{Resting, Crossed, Queues, slots, resting}
use market_maker_ops.OrderBook.Abstract.{beats, place}
use market_maker_ops.OrderBook.WellFormed.{IsBook, live}
use market_maker_ops.OrderBook.Cancelled.{no_id}
use market_maker_ops.Protocol.Inbound.{InboundMessage}
use market_maker_ops.OrderBook.Levels.{opposite}
use market_maker_ops.Venue.State.{ConnId, LiveOrder, Venue}
use market_maker_ops.Venue.Requests.{to_engine_side}
use market_maker_ops.Venue.Admission.{NoOwnCross}
use market_maker_ops.Venue.Mirror.{Table, remains-some, Known, Mirrored, Without, Meets, Traded}
use market_maker_ops.Venue.Consistent.{resting-Without, resting-DistinctIds, Mirrored-NotOwn}

-- The book is well-formed, and the table has every order that rests in it.
pub record IsConsistent (side : Side) (b : OrderBook) (t : Table) : Type 0 where
  pub own : Queues
  pub opp : Queues
  pub free : List Slot
  pub book : IsBook side b own opp free
  pub own_known : Mirrored t side (resting b.pool.orders (slots own))
  pub opp_known : Mirrored t (opposite side) (resting b.pool.orders (slots opp))

pub Mirrored-place :
    (t : Table) (side other : Side) (r : Resting) (rs : List Resting)
    → Known t side r
    → 0 < r.quantity
    → Mirrored t side rs
    → Mirrored t side (place other r rs)
Mirrored-place t side other r [] k h m = (k, h, tt)
Mirrored-place t side other r (x ∷ xs) k h m =
    if_cases (Mirrored t side) (beats other r.price x.price) (λ e. (k, h, m))
      (λ e. (m.0, m.1, Mirrored-place t side other r xs k h m.2))

-- Orders that a change of the table passes by.
pub Mirrored-kept :
    (m : Store) (t t' : Table) (side : Side) (ps : List Slot)
    → ((a : Slot) → a ∈ ps → lookup (m a).order_id t' ≡ lookup (m a).order_id t)
    → Mirrored t side (resting m ps)
    → Mirrored t' side (resting m ps)
Mirrored-kept m t t' side [] same k = tt
Mirrored-kept m t t' side (p ∷ ps) same k =
    let (lo, e, owner, at_side, at_price, left) = k.0 in
    (
      (lo, same p (ground arith) ∙ e, owner, at_side, at_price, left),
      k.1,
      Mirrored-kept m t t' side ps (λ a i. same a (ground arith)) k.2,
    )

pub all_Without :
    (m : Store) (id : ℕ) (ps : List Slot)
    → ((a : Slot) → a ∈ ps → ((m a).order_id == id) ≡ false)
    → Without id (resting m ps)
all_Without m id [] h = tt
all_Without m id (p ∷ ps) h = (h p (ground arith), all_Without m id ps (λ a i. h a (ground arith)))

module _ (side : Side) (b : OrderBook) (t : Table) (is : IsConsistent side b t) (i : ℕ)
    (fresh : lookup i b.order_index ≡ none) where
  abbrev pub rs : List Resting
  rs = resting b.pool.orders (slots is.opp)

  pub not_i : (a : Slot) → a ∈ live is.own is.opp → ((b.pool.orders a).order_id == i) ≡ false
  not_i a j = no_id side i b is.own is.opp is.free is.book fresh a j

  pub in_own : (a : Slot) → a ∈ slots is.own → a ∈ live is.own is.opp
  in_own a j = mem-append_left a (slots is.own) (slots is.opp) j

  pub in_opp : (a : Slot) → a ∈ slots is.opp → a ∈ live is.own is.opp
  in_opp a j = mem-append_right a (slots is.own) (slots is.opp) j

  -- What an order that stays under another id than `i` and those of the other side keeps.
  pub own-Without : (a : Slot) → a ∈ slots is.own → Without (b.pool.orders a).order_id rs
  own-Without a j =
      resting-Without b.pool.orders (live is.own is.opp) b.order_index a (slots is.opp)
        is.book.index (in_own a j)
        ((Distinct-append (slots is.own) (slots is.opp) is.book.distinct).2 a j) in_opp

module _ (m : InboundMessage) (b : OrderBook) (t : Table)
    (is : IsConsistent (to_engine_side m.side) b t) (i : ℕ) (fresh : lookup i b.order_index ≡ none)
    (lo : LiveOrder) (conn : ConnId) (no_cross : NoOwnCross conn m.side m.price_ticks t) where
  abbrev pub side : Side
  side = to_engine_side m.side

  abbrev pub met : List Resting
  met = rs side b t is i fresh

  pub start-Meets : Meets side (opposite side) i conn m.price_ticks (insert i lo t) met
  start-Meets = record {
    mirrored =
        Mirrored-kept b.pool.orders t (insert i lo t) (opposite side) (slots is.opp)
          (λ a j. lookup-insert_ne i (b.pool.orders a).order_id lo t (
            ==_comm i (b.pool.orders a).order_id
            ∙ not_i side b t is i fresh a (in_opp side b t is i fresh a j)))
          is.opp_known;
    distinct =
        resting-DistinctIds b.pool.orders (live is.own is.opp) b.order_index (slots is.opp)
          is.book.index (Distinct-append (slots is.own) (slots is.opp) is.book.distinct).1
          (in_opp side b t is i fresh);
    new_id =
        all_Without b.pool.orders i (slots is.opp)
          (λ a j. not_i side b t is i fresh a (in_opp side b t is i fresh a j));
    not_own = Mirrored-NotOwn conn m.side m.price_ticks t met no_cross is.opp_known;
  }

  -- The orders of the incoming order's side, behind the trades.
  module _ (c : Crossed) (v v' : Venue) (at_t : v.by_engine_id ≡ insert i lo t)
      (d : Traded (opposite side) i lo met c v v') where
    own_kept :
        (a : Slot)
        → a ∈ slots is.own
        → lookup (b.pool.orders a).order_id v'.by_engine_id ≡ lookup (b.pool.orders a).order_id t
    own_kept a j =
        let ne : (i == (b.pool.orders a).order_id) ≡ false =
          ==_comm i (b.pool.orders a).order_id
          ∙ not_i side b t is i fresh a (in_own side b t is i fresh a j) in
        d.outside (b.pool.orders a).order_id ne (own-Without side b t is i fresh a j)
        ∙ ap (lookup (b.pool.orders a).order_id) at_t
        ∙ lookup-insert_ne i (b.pool.orders a).order_id lo t ne

    pub own-Mirrored :
        lo.owner ≡ conn
        → to_engine_side lo.side ≡ side
        → lo.price_ticks ≡ m.price_ticks
        → (let own = resting b.pool.orders (slots is.own) in
            let r : Resting = record {
              order_id = i;
              participant_id = conn;
              price = m.price_ticks;
              quantity = c.left;
            } in
            Mirrored v'.by_engine_id side (if c.left == 0 then own else place side r own))
    own-Mirrored owner at_side at_price =
        let kept =
          Mirrored-kept b.pool.orders t v'.by_engine_id side (slots is.own) own_kept is.own_known in
        if_cases (Mirrored v'.by_engine_id side) (c.left == 0) (λ e. kept)
          (λ e.
            let more : 0 < c.left = ground arith in
            Mirrored-place v'.by_engine_id side side
              (record {
                order_id = i;
                participant_id = conn;
                price = m.price_ticks;
                quantity = c.left;
              })
              (resting b.pool.orders (slots is.own))
              (
                record lo { remaining = c.left },
                d.incoming ∙ remains-some lo c.left more,
                owner,
                at_side,
                at_price,
                refl,
              )
              more kept)
