-- ===== src/Venue/Handling.antt =====
-- `handleNewOrder` and `handleCancel` of venue/venue.cpp as a whole, at a venue whose book and tables agree.
use market_maker_ops.Prelude.{
  none, ◌≡◌, ◌↔◌, ◌⊎◌, refl, sym, ◌∙◌, true, false, not, Bool, Bool-cases, Option-cases, some, [],
  ◌∷◌, ◌&&◌, inl, inr, arith, ltb, ◌==◌, lookup, nat_key, bytes_key, bytes_eq, bytes_eq_iff, length,
}
use market_maker_ops.OrderBook.Runs.{Enters}
use market_maker_ops.Protocol.Inbound.{InboundMessage}
use market_maker_ops.Venue.State.{
  symbol, ConnId, ack, reject, cancel_ack, cancel_reject, fill, Sent, Venue, Step,
}
use market_maker_ops.Venue.Requests.{to_engine_side, table_of, self_cross, handle_new_order}
use market_maker_ops.Venue.Admission.{
  self_cross-false, NoOwnCross-self_cross, Admissible, with_table, Refused, unchanged,
  with_new_table, handle_new_order-Admissible, handle_new_order-Refused,
}
use market_maker_ops.Venue.Joining.{IsConsistent}
use market_maker_ops.Venue.Accepting.{accept_order-IsConsistent}

-- Does an operation answer by an ack first?
abbrev pub acked : Sent → Bool
acked [] = false
acked ((c, ack cid eid) ∷ sent) = true
acked ((c, reject cid reason) ∷ sent) = false
acked ((c, cancel_ack cid eid) ∷ sent) = false
acked ((c, cancel_reject cid reason) ∷ sent) = false
acked ((c, fill eid cid q p n) ∷ sent) = false

-- The conditions on an order but that its id is new, as one test.
abbrev passes : InboundMessage → ConnId → Venue → Bool
passes m conn v =
    let fields : Bool = m.has_client_order_id && m.has_side && m.has_price && m.has_qty in
    let values : Bool = m.has_symbol && bytes_eq m.symbol symbol && not (m.qty == 0) in
    let room : Bool = ltb (length v.by_engine_id) v.soft_cap in
    fields && values && room && not (self_cross conn m.side m.price_ticks v.by_engine_id)

passes-Admissible :
    (conn : ConnId) (m : InboundMessage) (v : Venue)
    → passes m conn v ≡ true
    → lookup m.client_order_id (table_of conn v.by_conn) ≡ none
    → Admissible conn m v
passes-Admissible conn m v e new = record {
  has_id = ground arith;
  has_symbol = ground arith;
  our_symbol = (bytes_eq_iff m.symbol symbol).0 (ground arith);
  has_side = ground arith;
  has_price = ground arith;
  has_qty = ground arith;
  some_qty = ground arith;
  new_id = new;
  room = ground arith;
  no_cross = self_cross-false conn m.side m.price_ticks v.by_engine_id (ground arith);
}

Admissible-passes :
    (conn : ConnId) (m : InboundMessage) (v : Venue) → Admissible conn m v → passes m conn v ≡ true
Admissible-passes conn m v ok =
    let ours = (bytes_eq_iff m.symbol symbol).1 ok.our_symbol in
    let clear = NoOwnCross-self_cross conn m.side m.price_ticks v.by_engine_id ok.no_cross in
    ground (
      arith, ours, clear, ok.has_id, ok.has_symbol, ok.has_side, ok.has_price, ok.has_qty,
      ok.some_qty, ok.room,
    )

-- Whether an order is admissible can be decided.
Admissible-dec :
    (conn : ConnId) (m : InboundMessage) (v : Venue) → Admissible conn m v ⊎ (¬ Admissible conn m v)
Admissible-dec conn m v = elim (Bool-cases (passes m conn v)) [
  | inr e ↦ inr (λ ok. cc (sym (Admissible-passes conn m v ok) ∙ e))
  | inl e ↦ elim (Option-cases (lookup m.client_order_id (table_of conn v.by_conn))) [
    | inl new ↦ inl (passes-Admissible conn m v e new)
    | inr (r, old) ↦ inr (λ ok. cc (sym old ∙ ok.new_id))
  ]
]

-- How a new order ends.
pub record NewOrdered (conn : ConnId) (m : InboundMessage) (v : Venue) (sent : Sent) (v' : Venue)
    : Type 0 where
  pub consistent : IsConsistent (to_engine_side m.side) v'.book v'.by_engine_id
  pub decided : (acked sent ≡ true) ↔ Admissible conn m v

refused_lem :
    (conn : ConnId) (m : InboundMessage) (v : Venue) (r : Step)
    → IsConsistent (to_engine_side m.side) v.book v.by_engine_id
    → (¬ Admissible conn m v)
    → Refused conn v r
    → (sent : Sent) × (v' : Venue) × (r ≡ some (sent, v')) × NewOrdered conn m v sent v'
refused_lem conn m v r is never (unchanged cid reason) =
    (_, _, refl, record { consistent = is; decided = (λ e. cc, λ ok. absurd (never ok)) })
refused_lem conn m v r is never (with_new_table cid reason) =
    (_, _, refl, record { consistent = is; decided = (λ e. cc, λ ok. absurd (never ok)) })

-- Where the book is well-formed and the table of live orders has every order that rests in it, a new
-- order that the book lets in (a 32-bit quantity, an id that is not in the book, an unused slot and
-- fewer than 4096 levels on its side) ends without a fault, leaves the book and the table so, and is
-- acknowledged first of all exactly if it is admissible: it has an id, the venue's symbol, a side, a
-- price and a quantity other than 0, the id is new to the connection, the venue is below its cap, and
-- no live order of the connection would match it.
pub handle_new_order_lem :
    (conn : ConnId) (m : InboundMessage) (v : Venue)
    → IsConsistent (to_engine_side m.side) v.book v.by_engine_id
    → Enters (to_engine_side m.side) m.qty v.next_engine_id v.book
    → (sent : Sent) × (v' : Venue) × (handle_new_order conn m v ≡ some (sent, v'))
      × NewOrdered conn m v sent v'
handle_new_order_lem conn m v is enters = elim (Admissible-dec conn m v) [
  | inr never ↦ refused_lem conn m v _ is never (handle_new_order-Refused conn m v never)
  | inl ok ↦
      let (sent, v', e, is', n) =
        accept_order-IsConsistent conn (table_of conn v.by_conn) m (with_table conn v) is enters
          (ground (arith, ok.some_qty)) ok.no_cross in
      (
        _,
        v',
        handle_new_order-Admissible conn m v ok ∙ e,
        record { consistent = is'; decided = (λ _. ok, λ _. refl) },
      )
]
