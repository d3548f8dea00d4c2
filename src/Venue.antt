-- ===== src/Venue.antt =====
-- venue/venue.h and venue/venue.cpp of engine/order-matching-engine: the protocol state around the
-- book. An operation returns what it hands to `send_`, in order, and the new state; a message is
-- encoded with the time at which it is sent. `none` is a fault of the book. This file has
-- `handleLine` and `dropConnection`; `State`, `Fills` and `Requests` have what they are built from.
pub mod State
pub mod Fills
pub mod Requests
pub mod Admission
pub mod Routing
pub mod Reductions
pub mod Mirror
pub mod Consistent
pub mod Joining
pub mod Accepting
pub mod Dropping
pub mod Handling
pub mod Withdrawing
pub mod Cancelling
use market_maker_ops.Prelude.{
  ℕ, ◌+◌, ◌-◌, ◌%◌, Option, none, some, List, [], ◌∷◌, ◌++◌, Bool, true, false, ◌&&◌, ◌||◌, not,
  ltb, leb, ◌==◌, if◌then◌else◌, ◌>>=◌, length, lookup, insert, erase, nat_key, bytes_key, bytes_eq,
  Bytes, codes,
}
use market_maker_ops.OrderBook.{
  OrderBook, create, best_bid, best_ask, add_limit_order, cancel_order,
}
use market_maker_ops.Protocol.Inbound.{
  MsgType, new_order, cancel, heartbeat, unknown, OrderSide, InboundMessage, parse_inbound,
}
use market_maker_ops.Venue.State.{
  symbol, ConnId, OrderState, resting, filled, cancelled, LiveOrder, ClientRecord, Message, ack,
  reject, cancel_ack, cancel_reject, fill, Sent, ClientTable, Venue, Step,
}
use market_maker_ops.Venue.Requests.{refuse, handle_new_order, handle_cancel}

-- The id that a refusal of an unusable message carries.
abbrev pub id_or_empty : InboundMessage → Bytes
id_or_empty m = if m.has_client_order_id then m.client_order_id else []

abbrev pub dispatch : ConnId → InboundMessage → MsgType → Venue → Step
dispatch conn m new_order v = handle_new_order conn m v
dispatch conn m cancel v = handle_cancel conn m v
dispatch conn m heartbeat v = some ([], v)
dispatch conn m unknown v = refuse conn (id_or_empty m) (codes "unsupported") v

abbrev pub is_unknown : MsgType → Bool
is_unknown unknown = true
is_unknown _ = false

unfoldable pub handle_message : ConnId → InboundMessage → Venue → Step
handle_message conn m v =
    if m.parse_error || is_unknown m.type
    then refuse conn (id_or_empty m) (codes "malformed") v
    else dispatch conn m m.type v

unfoldable pub handle_line : ConnId → Bytes → Venue → Step
handle_line conn payload v = handle_message conn (parse_inbound payload) v

unfoldable pub owned_by : ConnId → List (ℕ × LiveOrder) → List ℕ
owned_by conn [] = []
owned_by conn ((id, lo) ∷ los) =
    let rest = owned_by conn los in if lo.owner == conn then id ∷ rest else rest

unfoldable pub cancel_all : List ℕ → Venue → Option Venue
cancel_all [] v = some v
cancel_all (id ∷ ids) v = do
  book ← cancel_order id v.book
  cancel_all ids (record v { book = book; by_engine_id = erase id v.by_engine_id })

unfoldable pub drop_connection : ConnId → Venue → Option Venue
drop_connection conn v = do
  v' ← cancel_all (owned_by conn v.by_engine_id) v
  some (record v' { by_conn = erase conn v'.by_conn })
