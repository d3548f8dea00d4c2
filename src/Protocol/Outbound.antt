-- ===== src/Protocol/Outbound.antt =====
-- `quoteJson` and the encoders of venue/protocol.cpp. The time stamp is an argument.
pub mod Quote
use market_maker_ops.Prelude.{
  ℕ, ◌+◌, ◌-◌, ◌/◌, ◌%◌, [], ◌∷◌, ◌++◌, Bool, ltb, ◌==◌, if◌then◌else◌, Bytes, codes,
}
use market_maker_ops.Protocol.Scan.{quote, backslash}
use market_maker_ops.Protocol.Number.{to_decimal, ticks_to_decimal}
use market_maker_ops.Protocol.Inbound.{OrderSide, buy, sell}

abbrev pub hex_digit : ℕ → ℕ
hex_digit d = if ltb d 10 then b'0' + d else b'a' + (d - 10)

-- The text of one character: an escape, `\u%04x` below 0x20, or itself.
abbrev pub quote_char : ℕ → Bytes
quote_char c =
    if c == quote
    then backslash ∷ quote ∷ []
    else if c == backslash
    then backslash ∷ backslash ∷ []
    else if c == 10
    then backslash ∷ b'n' ∷ []
    else if c == 13
    then backslash ∷ b'r' ∷ []
    else if c == 9
    then backslash ∷ b't' ∷ []
    else if ltb c 0x20
    then backslash ∷ b'u' ∷ b'0' ∷ b'0' ∷ hex_digit (c / 16) ∷ hex_digit (c % 16) ∷ []
    else c ∷ []

unfoldable pub quote_body : Bytes → Bytes
quote_body [] = quote ∷ []
quote_body (c ∷ s) = quote_char c ++ quote_body s

unfoldable pub quote_json : Bytes → Bytes
quote_json s = quote ∷ quote_body s

abbrev pub side_to_string : OrderSide → Bytes
side_to_string buy = codes "BUY"
side_to_string sell = codes "SELL"

-- `,"name":` and `{"type":"NAME"`.
abbrev pub field : Bytes → Bytes
field name = b',' ∷ quote ∷ (name ++ quote ∷ b':' ∷ [])

abbrev pub type_field : Bytes → Bytes
type_field name = codes "{\"type\":\"" ++ (name ++ quote ∷ [])

abbrev pub stamp : Bytes → Bytes
stamp ts = field (codes "ts") ++ (quote_json ts ++ codes "}")

unfoldable pub encode_ack : (client_order_id exchange_order_id ts : Bytes) → Bytes
unfolding quote_json
encode_ack cid eid ts =
    type_field (codes "ACK")
    ++ (field (codes "client_order_id")
        ++ (quote_json cid ++ (field (codes "exchange_order_id") ++ (quote_json eid ++ stamp ts))))

unfoldable pub encode_reject : (client_order_id reason ts : Bytes) → Bytes
unfolding quote_json
encode_reject cid reason ts =
    type_field (codes "REJECT")
    ++ (field (codes "client_order_id")
        ++ (quote_json cid ++ (field (codes "reason") ++ (quote_json reason ++ stamp ts))))

unfoldable pub encode_cancel_ack : (client_order_id exchange_order_id ts : Bytes) → Bytes
unfolding quote_json
encode_cancel_ack cid eid ts =
    type_field (codes "CANCEL_ACK")
    ++ (field (codes "client_order_id")
        ++ (quote_json cid ++ (field (codes "exchange_order_id") ++ (quote_json eid ++ stamp ts))))

unfoldable pub encode_cancel_reject : (client_order_id reason ts : Bytes) → Bytes
unfolding quote_json
encode_cancel_reject cid reason ts =
    type_field (codes "CANCEL_REJECT")
    ++ (field (codes "client_order_id")
        ++ (quote_json cid ++ (field (codes "reason") ++ (quote_json reason ++ stamp ts))))

unfoldable pub encode_fill :
    (exchange_order_id client_order_id : Bytes)
    → (fill_qty fill_price_ticks remaining_qty : ℕ) → (ts : Bytes) → Bytes
unfolding quote_json to_decimal ticks_to_decimal
encode_fill eid cid qty price remaining ts =
    type_field (codes "FILL")
    ++ (field (codes "exchange_order_id")
        ++ (quote_json eid
            ++ (field (codes "client_order_id")
                ++ (quote_json cid
                    ++ (field (codes "fill_qty")
                        ++ (to_decimal qty
                            ++ (field (codes "fill_price")
                                ++ (ticks_to_decimal price
                                    ++ (field (codes "remaining_qty")
                                        ++ (to_decimal remaining ++ stamp ts))))))))))

unfoldable pub encode_heartbeat : ℕ → Bytes → Bytes
unfolding quote_json to_decimal
encode_heartbeat seq ts =
    type_field (codes "HEARTBEAT") ++ (field (codes "seq") ++ (to_decimal seq ++ stamp ts))

abbrev pub price_or_null : Bool → ℕ → Bytes
price_or_null has ticks = if has then ticks_to_decimal ticks else codes "null"

unfoldable pub encode_market_data :
    (symbol : Bytes) (has_bid : Bool) (bid_ticks : ℕ) (has_ask : Bool) (ask_ticks : ℕ)
    → (has_last : Bool) (last_ticks : ℕ) (ts : Bytes) → Bytes
unfolding quote_json ticks_to_decimal
encode_market_data symbol has_bid bid has_ask ask has_last last ts =
    type_field (codes "MARKET_DATA")
    ++ (field (codes "symbol")
        ++ (quote_json symbol
            ++ (field (codes "best_bid")
                ++ (price_or_null has_bid bid
                    ++ (field (codes "best_ask")
                        ++ (price_or_null has_ask ask
                            ++ (field (codes "last_trade")
                                ++ (price_or_null has_last last ++ stamp ts))))))))
