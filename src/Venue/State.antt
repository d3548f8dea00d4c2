-- ===== src/Venue/State.antt =====
-- The types and members of venue/venue.h of engine/order-matching-engine, its constructor, and
-- `currentTop` of venue/venue.cpp.
use market_maker_ops.Prelude.{
  ℕ, Option, none, some, List, [], Bool, true, false, ◌>>=◌, nat_key, bytes_key, Bytes, codes,
}
use market_maker_ops.OrderBook.{OrderBook, create, best_bid, best_ask}
use market_maker_ops.Protocol.Inbound.{OrderSide}
use market_maker_ops.Protocol.Outbound.{
  encode_ack, encode_reject, encode_cancel_ack, encode_cancel_reject, encode_fill,
}

abbrev pub symbol : Bytes
symbol = codes "SIM1"

abbrev pub ConnId : Type 0
ConnId = ℕ

pub data OrderState : Type 0 where
  resting filled cancelled : OrderState

pub record LiveOrder : Type 0 where
  pub owner : ConnId
  pub client_order_id : Bytes
  pub exchange_id : Bytes
  pub side : OrderSide
  pub price_ticks : ℕ
  pub remaining : ℕ

pub record ClientRecord : Type 0 where
  pub state : OrderState
  pub exchange_id : Bytes
  pub engine_id : ℕ

-- A call of an encoder, but for the time stamp.
pub data Message : Type 0 where
  ack : (client_order_id exchange_id : Bytes) → Message
  reject : (client_order_id reason : Bytes) → Message
  cancel_ack : (client_order_id exchange_id : Bytes) → Message
  cancel_reject : (client_order_id reason : Bytes) → Message
  fill : (exchange_id client_order_id : Bytes) → (qty price_ticks remaining : ℕ) → Message

unfoldable pub encode : Message → Bytes → Bytes
unfolding encode_ack encode_reject encode_cancel_ack encode_cancel_reject encode_fill
encode (ack cid eid) ts = encode_ack cid eid ts
encode (reject cid reason) ts = encode_reject cid reason ts
encode (cancel_ack cid eid) ts = encode_cancel_ack cid eid ts
encode (cancel_reject cid reason) ts = encode_cancel_reject cid reason ts
encode (fill eid cid qty price remaining) ts = encode_fill eid cid qty price remaining ts

abbrev pub Sent : Type 0
Sent = List (ConnId × Message)

abbrev pub ClientTable : Type 0
ClientTable = List (Bytes × ClientRecord)

pub record Venue : Type 0 where
  pub soft_cap : ℕ
  pub next_engine_id : ℕ
  pub has_last_trade : Bool
  pub last_trade_ticks : ℕ
  pub by_engine_id : List (ℕ × LiveOrder)
  pub by_conn : List (ConnId × ClientTable)
  pub book : OrderBook

abbrev pub Step : Type 0
Step = Option (Sent × Venue)

unfoldable pub create_venue : (book_capacity soft_cap : ℕ) → Option Venue
create_venue book_capacity soft_cap = do
  book ← create book_capacity
  some (record {
    soft_cap = soft_cap;
    next_engine_id = 1;
    has_last_trade = false;
    last_trade_ticks = 0;
    by_engine_id = [];
    by_conn = [];
    book = book;
  })

pub record Top : Type 0 where
  pub has_bid : Bool
  pub bid_ticks : ℕ
  pub has_ask : Bool
  pub ask_ticks : ℕ
  pub has_last : Bool
  pub last_ticks : ℕ

unfoldable pub current_top : Venue → Top
current_top v = record {
  has_bid = elim (best_bid v.book) [ none ↦ false | some _ ↦ true ];
  bid_ticks = elim (best_bid v.book) [ none ↦ 0 | some l ↦ l.price ];
  has_ask = elim (best_ask v.book) [ none ↦ false | some _ ↦ true ];
  ask_ticks = elim (best_ask v.book) [ none ↦ 0 | some l ↦ l.price ];
  has_last = v.has_last_trade;
  last_ticks = v.last_trade_ticks;
}
