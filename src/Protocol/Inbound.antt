-- ===== src/Protocol/Inbound.antt =====
-- `InboundMessage` and `parseInbound` of venue/protocol.h and venue/protocol.cpp.
use market_maker_ops.Prelude.{
  ℕ, Option, none, some, [], Bool, true, false, if◌then◌else◌, ◌>>=◌, lookup, bytes_eq, bytes_key,
  Bytes, codes,
}
use market_maker_ops.Protocol.Scan.{
  JsonValue, Table, Outcome, parsed, failed, out_of_fuel, parse_flat_object,
}
use market_maker_ops.Protocol.Number.{parse_uint32, parse_decimal_to_ticks}

pub data MsgType : Type 0 where
  new_order cancel heartbeat unknown : MsgType

pub data OrderSide : Type 0 where
  buy sell : OrderSide

pub record InboundMessage : Type 0 where
  pub type : MsgType
  pub client_order_id : Bytes
  pub symbol : Bytes
  pub side : OrderSide
  pub price_ticks : ℕ
  pub qty : ℕ
  pub has_client_order_id : Bool
  pub has_symbol : Bool
  pub has_side : Bool
  pub has_price : Bool
  pub has_qty : Bool
  pub parse_error : Bool
  pub error_detail : Bytes

-- The default member values.
abbrev pub no_message : InboundMessage
no_message = record {
  type = unknown;
  client_order_id = [];
  symbol = [];
  side = buy;
  price_ticks = 0;
  qty = 0;
  has_client_order_id = false;
  has_symbol = false;
  has_side = false;
  has_price = false;
  has_qty = false;
  parse_error = false;
  error_detail = [];
}

abbrev pub refused : Bytes → InboundMessage
refused detail = record no_message { parse_error = true; error_detail = detail }

abbrev pub type_of : Bytes → MsgType
type_of t =
    if bytes_eq t (codes "NEW_ORDER")
    then new_order
    else if bytes_eq t (codes "CANCEL")
    then cancel
    else if bytes_eq t (codes "HEARTBEAT")
    then heartbeat
    else unknown

-- A member with a string, or with a number.
abbrev pub string_of : JsonValue → Option Bytes
string_of v = if v.is_string then some v.str else none

abbrev pub number_of : JsonValue → Option Bytes
number_of v = if v.is_string then none else some v.num_raw

abbrev pub string_member : Bytes → Table → Option Bytes
string_member key obj = lookup key obj >>= string_of

abbrev pub number_member : Bytes → Table → Option Bytes
number_member key obj = lookup key obj >>= number_of

abbrev pub set_client_order_id : Option Bytes → InboundMessage → InboundMessage
set_client_order_id none m = m
set_client_order_id (some s) m = record m { client_order_id = s; has_client_order_id = true }

abbrev pub set_symbol : Option Bytes → InboundMessage → InboundMessage
set_symbol none m = m
set_symbol (some s) m = record m { symbol = s; has_symbol = true }

abbrev pub set_side : Option Bytes → InboundMessage → InboundMessage
set_side none m = m
set_side (some s) m =
    if bytes_eq s (codes "BUY")
    then record m { side = buy; has_side = true }
    else if bytes_eq s (codes "SELL")
    then record m { side = sell; has_side = true }
    else m

abbrev pub set_price : Option ℕ → InboundMessage → InboundMessage
set_price none m = m
set_price (some t) m = record m { price_ticks = t; has_price = true }

abbrev pub set_qty : Option ℕ → InboundMessage → InboundMessage
set_qty none m = m
set_qty (some q) m = record m { qty = q; has_qty = true }

-- The message of a parsed object whose `type` is the string `t`.
unfoldable pub fields : Table → Bytes → InboundMessage
unfolding parse_uint32 parse_decimal_to_ticks
fields obj t =
    let m : InboundMessage = record no_message { type = type_of t } in
    let m : InboundMessage = set_client_order_id (string_member (codes "client_order_id") obj) m in
    let m : InboundMessage = set_symbol (string_member (codes "symbol") obj) m in
    let m : InboundMessage = set_side (string_member (codes "side") obj) m in
    let price = number_member (codes "price") obj >>= parse_decimal_to_ticks in
    let m : InboundMessage = set_price price m in
    set_qty (number_member (codes "qty") obj >>= parse_uint32) m

unfoldable pub message_of : Outcome → InboundMessage
unfolding fields
message_of (parsed obj) = elim (string_member (codes "type") obj) [
  | none ↦ refused (codes "type")
  | some t ↦ fields obj t
]
message_of failed = refused (codes "json")
message_of out_of_fuel = refused (codes "json")

unfoldable pub parse_inbound : Bytes → InboundMessage
unfolding parse_flat_object message_of
parse_inbound line = message_of (parse_flat_object line)
