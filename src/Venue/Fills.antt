-- ===== src/Venue/Fills.antt =====
-- `onTrade` and `routeFill` of venue/venue.cpp: what the book's trades make of the venue's tables.
use market_maker_ops.Prelude.{
  Option, ℕ, ◌-◌, none, some, List, [], ◌∷◌, ◌++◌, true, ltb, ◌==◌, if◌then◌else◌, lookup, insert,
  erase, nat_key, bytes_key, Bytes,
}
use market_maker_ops.Order.{Trade}
use market_maker_ops.Venue.State.{ConnId, OrderState, filled, LiveOrder, fill, Sent, Venue}

-- `r->second.state = state`, where the record is there.
abbrev pub set_state : OrderState → ConnId → Bytes → Venue → Venue
set_state state conn cid v = elim (lookup conn v.by_conn) [
  | none ↦ v
  | some t ↦ elim (lookup cid t) [
    | none ↦ v
    | some r ↦ record v {
      by_conn = insert conn (insert cid (record r { state = state }) t) v.by_conn;
    }
  ]
]

-- `routeFill` at an order that is there, from `remainingAfter` on.
unfoldable pub fill_left : ℕ → LiveOrder → (price_ticks qty remaining : ℕ) → Venue → Sent × Venue
fill_left id lo price qty remaining v =
    let sent : Sent = (lo.owner, fill lo.exchange_id lo.client_order_id qty price remaining) ∷ [] in
    if remaining == 0
    then (let v' : Venue = set_state filled lo.owner lo.client_order_id v in
        (sent, record v' { by_engine_id = erase id v.by_engine_id }))
    else (
      sent,
      record v { by_engine_id = insert id (record lo { remaining = remaining }) v.by_engine_id },
    )

unfoldable pub fill_order : ℕ → LiveOrder → (price_ticks qty : ℕ) → Venue → Sent × Venue
fill_order id lo price qty v =
    fill_left id lo price qty (if ltb qty lo.remaining then lo.remaining - qty else 0) v

-- `routeFill`, at what the table has for the id.
unfoldable pub route_at : ℕ → Option LiveOrder → (price_ticks qty : ℕ) → Venue → Sent × Venue
route_at id none price qty v = ([], v)
route_at id (some lo) price qty v = fill_order id lo price qty v

unfoldable pub route_fill : ℕ → (price_ticks qty : ℕ) → Venue → Sent × Venue
route_fill id price qty v = route_at id (lookup id v.by_engine_id) price qty v

unfoldable pub on_trade : Trade → Venue → Sent × Venue
on_trade t v =
    let v0 : Venue = record v { last_trade_ticks = t.price; has_last_trade = true } in
    let (s1, v1) = route_fill t.buy_order_id t.price t.quantity v0 in
    let (s2, v2) = route_fill t.sell_order_id t.price t.quantity v1 in (s1 ++ s2, v2)

-- The callback at each trade of a call of the book, which it does not reach into.
unfoldable pub on_trades : List Trade → Venue → Sent × Venue
on_trades [] v = ([], v)
on_trades (t ∷ ts) v =
    let (s1, v1) = on_trade t v in let (s2, v2) = on_trades ts v1 in (s1 ++ s2, v2)
