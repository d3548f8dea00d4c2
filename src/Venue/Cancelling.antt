-- ===== src/Venue/Cancelling.antt =====
-- What `handleCancel` of venue/venue.cpp refuses.
use market_maker_ops.Prelude.{
  ◌≡◌, ap, ◌∙◌, true, Option, none, some, [], ◌∷◌, arith, Bytes, codes, erase, ◌>>=◌, nat_key,
}
use market_maker_ops.Protocol.Inbound.{InboundMessage}
use market_maker_ops.Venue.State.{
  ConnId, OrderState, resting, filled, cancelled, ClientRecord, cancel_reject, cancel_ack, Venue,
}
use market_maker_ops.OrderBook.{OrderBook, cancel_order}
use market_maker_ops.Venue.Fills.{set_state}
use market_maker_ops.Venue.Routing.{mark, find_record-set_state}
use market_maker_ops.Venue.Requests.{find_record, cancel_record, cancel_at, handle_cancel}

-- The reason for which a cancel is refused, if it is: it names no order of the connection, or one
-- that is no longer resting.
abbrev pub refusal : Option ClientRecord → Option Bytes
refusal none = some (codes "not_found")
refusal (some r) = elim r.state [
  | resting ↦ none
  | filled ↦ some (codes "already_filled")
  | cancelled ↦ some (codes "already_cancelled")
]

refused_record :
    (conn : ConnId) (cid reason : Bytes) (r : ClientRecord) (state : OrderState) (v : Venue)
    → refusal (some (record r { state = state })) ≡ some reason
    → cancel_record conn cid r state v ≡ some ((conn, cancel_reject cid reason) ∷ [], v)
unfolding cancel_record
refused_record conn cid reason r resting v e = cc
refused_record conn cid reason r filled v e = ground arith
refused_record conn cid reason r cancelled v e = ground arith

refused_at :
    (conn : ConnId) (cid reason : Bytes) (o : Option ClientRecord) (v : Venue)
    → refusal o ≡ some reason
    → cancel_at conn cid o v ≡ some ((conn, cancel_reject cid reason) ∷ [], v)
unfolding cancel_at
refused_at conn cid reason none v e = ground arith
refused_at conn cid reason (some r) v e = refused_record conn cid reason r r.state v e

-- A cancel of an order that the connection does not have, or that is filled or cancelled, changes
-- nothing and is answered by the reason.
pub handle_cancel-refusal :
    (conn : ConnId) (m : InboundMessage) (v : Venue) (reason : Bytes)
    → m.has_client_order_id ≡ true
    → refusal (find_record conn m.client_order_id v) ≡ some reason
    → handle_cancel conn m v ≡ some ((conn, cancel_reject m.client_order_id reason) ∷ [], v)
unfolding handle_cancel
handle_cancel-refusal conn m v reason named e =
    rw named (refused_at conn m.client_order_id reason (find_record conn m.client_order_id v) v e)

-- What a cancel of a resting order does, once the book has cancelled it.
abbrev pub after_cancel : ConnId → Bytes → ClientRecord → OrderBook → Venue → Venue
after_cancel conn cid r book v =
    set_state cancelled conn cid
      (record v { book = book; by_engine_id = erase r.engine_id v.by_engine_id })

pub cancel_at-resting :
    (conn : ConnId) (cid : Bytes) (r : ClientRecord) (book : OrderBook) (v : Venue)
    → r.state ≡ resting
    → cancel_order r.engine_id v.book ≡ some book
    → cancel_at conn cid (some r) v
      ≡ some ((conn, cancel_ack cid r.exchange_id) ∷ [], after_cancel conn cid r book v)
unfolding cancel_at cancel_record
cancel_at-resting conn cid r book v state e =
    ap (λ (st : OrderState). cancel_record conn cid r st v) state
    ∙ ap
        (λ (o : Option OrderBook).
          o >>= λ b. some ((conn, cancel_ack cid r.exchange_id) ∷ [], after_cancel conn cid r b v))
        e

-- A second cancel of an order finds it cancelled: once a resting order is cancelled, cancelling it
-- again changes nothing.
pub handle_cancel_twice :
    (conn : ConnId) (m : InboundMessage) (r : ClientRecord) (book : OrderBook) (v : Venue)
    → m.has_client_order_id ≡ true
    → find_record conn m.client_order_id v ≡ some r
    → r.state ≡ resting
    → cancel_order r.engine_id v.book ≡ some book
    → (v' : Venue) × (handle_cancel conn m v
        ≡ some ((conn, cancel_ack m.client_order_id r.exchange_id) ∷ [], v'))
      × (handle_cancel conn m v'
          ≡ some ((conn, cancel_reject m.client_order_id (codes "already_cancelled")) ∷ [], v'))
handle_cancel_twice conn m r book v named found state e = (
  after_cancel conn m.client_order_id r book v,
  unfold handle_cancel in
      rw (named, found) (cancel_at-resting conn m.client_order_id r book v state e),
  handle_cancel-refusal conn m _ (codes "already_cancelled") named (
      ap refusal (find_record-set_state cancelled conn m.client_order_id _)
      ∙ ap (λ (o : Option ClientRecord). refusal (mark cancelled o)) found),
)
