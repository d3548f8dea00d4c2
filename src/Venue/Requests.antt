-- ===== src/Venue/Requests.antt =====
-- `handleNewOrder`, `wouldSelfCross` and `handleCancel` of venue/venue.cpp.
use market_maker_ops.Prelude.{
  ℕ, ◌+◌, ◌%◌, Option, none, some, List, [], ◌∷◌, ◌++◌, Bool, false, ◌&&◌, ◌||◌, not, leb, ◌==◌,
  if◌then◌else◌, ◌>>=◌, length, lookup, insert, erase, nat_key, bytes_key, bytes_eq, Bytes, codes,
}
use market_maker_ops.Order.{Side, buy, sell, u64_mod}
use market_maker_ops.OrderBook.{add_limit_order, cancel_order}
use market_maker_ops.Protocol.Number.{to_decimal}
use market_maker_ops.Protocol.Inbound
use market_maker_ops.Protocol.Inbound.{
  MsgType, new_order, cancel, heartbeat, unknown, OrderSide, InboundMessage, parse_inbound,
}
use market_maker_ops.Venue.State.{
  symbol, ConnId, OrderState, resting, filled, cancelled, LiveOrder, ClientRecord, ack, reject,
  cancel_ack, cancel_reject, ClientTable, Venue, Step,
}
use market_maker_ops.Venue.Fills.{set_state, on_trades}

abbrev pub to_engine_side : OrderSide → Side
to_engine_side Inbound.buy = buy
to_engine_side Inbound.sell = sell

-- `byConn_[conn]`: the table of a connection, empty if it has none.
abbrev pub table_of : ConnId → List (ConnId × ClientTable) → ClientTable
table_of conn m = elim (lookup conn m) [ none ↦ [] | some t ↦ t ]

abbrev pub crosses : OrderSide → ℕ → LiveOrder → Bool
crosses Inbound.buy price lo = elim lo.side [
  | Inbound.buy ↦ false
  | Inbound.sell ↦ leb lo.price_ticks price
]
crosses Inbound.sell price lo = elim lo.side [
  | Inbound.buy ↦ leb price lo.price_ticks
  | Inbound.sell ↦ false
]

unfoldable pub self_cross : ConnId → OrderSide → ℕ → List (ℕ × LiveOrder) → Bool
self_cross conn side price [] = false
self_cross conn side price ((_, lo) ∷ los) =
    (lo.owner == conn && crosses side price lo) || self_cross conn side price los

unfoldable pub would_self_cross : ConnId → OrderSide → ℕ → Venue → Bool
would_self_cross conn side price v = self_cross conn side price v.by_engine_id

-- The part of `handleNewOrder` behind the checks.
unfoldable pub accept_order : ConnId → ClientTable → InboundMessage → Venue → Step
accept_order conn table m v =
    let id : ℕ = v.next_engine_id in
    let cid : Bytes = m.client_order_id in
    let exchange_id : Bytes = codes "e-" ++ to_decimal id in
    let live : LiveOrder = record {
      owner = conn;
      client_order_id = cid;
      exchange_id = exchange_id;
      side = m.side;
      price_ticks = m.price_ticks;
      remaining = m.qty;
    } in
    let client : ClientRecord = record {
      state = resting;
      exchange_id = exchange_id;
      engine_id = id;
    } in
    do
      (ts, book) ← add_limit_order (to_engine_side m.side) m.price_ticks m.qty id conn v.book
      let (sent, v') = on_trades ts (record v {
        next_engine_id = (id + 1) % u64_mod;
        by_engine_id = insert id live v.by_engine_id;
        by_conn = insert conn (insert cid client table) v.by_conn;
        book = book;
      })
      some ((conn, ack cid exchange_id) ∷ sent, v')

abbrev pub refuse : ConnId → Bytes → Bytes → Venue → Step
refuse conn cid reason v = some ((conn, reject cid reason) ∷ [], v)

-- The checks from the connection's table on, at what the table has for the id.
unfoldable pub check_new :
    Option ClientRecord → ConnId → ClientTable → InboundMessage → Venue → Step
check_new (some _) conn table m v =
    refuse conn m.client_order_id (codes "duplicate_client_order_id") v
check_new none conn table m v =
    if leb v.soft_cap (length v.by_engine_id)
    then refuse conn m.client_order_id (codes "venue_full") v
    else (if would_self_cross conn m.side m.price_ticks v
        then refuse conn m.client_order_id (codes "self_match") v
        else accept_order conn table m v)

-- The checks that read the connection's table, which `byConn_[conn]` creates.
unfoldable pub admit : ConnId → InboundMessage → Venue → Step
admit conn m v =
    let table : ClientTable = table_of conn v.by_conn in
    check_new (lookup m.client_order_id table) conn table m
      (record v { by_conn = insert conn table v.by_conn })

unfoldable pub handle_new_order : ConnId → InboundMessage → Venue → Step
handle_new_order conn m v =
    let cid : Bytes = m.client_order_id in
    if not m.has_client_order_id
    then refuse conn [] (codes "missing_client_order_id") v
    else if not m.has_symbol || not (bytes_eq m.symbol symbol)
    then refuse conn cid (codes "unknown_symbol") v
    else (if not m.has_side
        then refuse conn cid (codes "bad_side") v
        else if not m.has_price
        then refuse conn cid (codes "bad_price") v
        else if not m.has_qty || m.qty == 0
        then refuse conn cid (codes "bad_qty") v
        else admit conn m v)

abbrev pub refuse_cancel : ConnId → Bytes → Bytes → Venue → Step
refuse_cancel conn cid reason v = some ((conn, cancel_reject cid reason) ∷ [], v)

-- A cancel at a record, by its state.
unfoldable pub cancel_record : ConnId → Bytes → ClientRecord → OrderState → Venue → Step
cancel_record conn cid r filled v = refuse_cancel conn cid (codes "already_filled") v
cancel_record conn cid r cancelled v = refuse_cancel conn cid (codes "already_cancelled") v
cancel_record conn cid r resting v = do
  book ← cancel_order r.engine_id v.book
  some (
    (conn, cancel_ack cid r.exchange_id) ∷ [],
    set_state cancelled conn cid
        (record v { book = book; by_engine_id = erase r.engine_id v.by_engine_id }),
  )

abbrev pub find_record : ConnId → Bytes → Venue → Option ClientRecord
find_record conn cid v = lookup conn v.by_conn >>= lookup cid

-- A cancel, at what the tables have for the id.
unfoldable pub cancel_at : ConnId → Bytes → Option ClientRecord → Venue → Step
cancel_at conn cid none v = refuse_cancel conn cid (codes "not_found") v
cancel_at conn cid (some r) v = cancel_record conn cid r r.state v

unfoldable pub handle_cancel : ConnId → InboundMessage → Venue → Step
handle_cancel conn m v =
    let cid : Bytes = m.client_order_id in
    if not m.has_client_order_id
    then refuse_cancel conn [] (codes "not_found") v
    else cancel_at conn cid (find_record conn cid v) v
