-- ===== src/Server.antt =====
-- venue/server.h and venue/server.cpp of engine/order-matching-engine: the connections around the
-- venue. What the operating system answers (accepted descriptors, the results of `recv` and `send`,
-- the events of `poll`, the time) is an argument. Sockets are set up in `setupListen`, which is not
-- modelled. `none` is a fault of the book.
pub mod Connections
pub mod Reading
use market_maker_ops.Prelude.{
  ℕ, ◌+◌, ◌%◌, Option, none, some, List, [], ◌∷◌, ◌++◌, Bool, true, false, ◌&&◌, not, ◌==◌,
  if◌then◌else◌, ◌>>=◌, map, length, drop, lookup, insert, erase, nat_key, Bytes,
}
use market_maker_ops.Order.{u64_mod}
use market_maker_ops.Framing.{FrameDecoder, new_decoder, encode_frame, feed, drain_all}
use market_maker_ops.Protocol.Outbound.{encode_heartbeat, encode_market_data}
use market_maker_ops.Venue.State.{
  symbol, ConnId, Sent, encode, Venue, create_venue, Top, current_top,
}
use market_maker_ops.Venue.{handle_line, drop_connection}
use market_maker_ops.Server.Connections.{
  Fd, Conn, Server, new_conn, enqueue_all, close_conn, broadcast_feed, broadcast_payload,
  md_payload, top_eq, accept_new,
}
use market_maker_ops.Server.Reading.{Recv, conn_at, handle_readable}

-- The answers of `send`: bytes taken (one at least), `EAGAIN`, `EINTR`, or another error.
pub data SendResult : Type 0 where
  sent : ℕ → SendResult
  would_block interrupted failed : SendResult

-- One round of `handleWritable`; `next` runs those that follow.
abbrev pub write_round : (Server → Option Server) → Fd → SendResult → Server → Option Server
write_round next fd (sent n) s =
    let c : Conn = conn_at fd s in
    next (record s { conns = insert fd (record c { out = drop n c.out }) s.conns })
write_round next fd would_block s = some s
write_round next fd interrupted s = next s
write_round next fd failed s = close_conn fd s

abbrev pub is_nil : Bytes → Bool
is_nil [] = true
is_nil (b ∷ bs) = false

unfoldable pub handle_writable : Fd → List SendResult → Server → Option Server
handle_writable fd [] s = some s
handle_writable fd (r ∷ rs) s =
    if is_nil (conn_at fd s).out then some s else write_round (handle_writable fd rs) fd r s

-- What `poll` reports of a connection: `POLLHUP` and its kin, and the answers that reading and
-- writing will get where it reports `POLLIN` and `POLLOUT`.
pub record Ready : Type 0 where
  pub fd : Fd
  pub hangup : Bool
  pub input : Option (List Recv)
  pub output : Option (List SendResult)

abbrev pub read_if : Fd → Option (List Recv) → Bytes → Server → Option Server
read_if fd none ts s = some s
read_if fd (some rs) ts s = handle_readable fd rs ts s

abbrev pub write_if : Fd → Option (List SendResult) → Server → Option Server
write_if fd none s = some s
write_if fd (some rs) s = elim (lookup fd s.conns) [
  | none ↦ some s
  | some _ ↦ handle_writable fd rs s
]

unfoldable pub handle_ready : Ready → Bytes → Server → Option Server
unfolding handle_writable
handle_ready r ts s = elim (lookup r.fd s.conns) [
  | none ↦ some s
  | some _ ↦
      if r.hangup then close_conn r.fd s else (read_if r.fd r.input ts s >>= write_if r.fd r.output)
]

unfoldable pub handle_all : List Ready → Bytes → Server → Option Server
unfolding handle_ready
handle_all [] ts s = some s
handle_all (r ∷ rs) ts s = handle_ready r ts s >>= handle_all rs ts

-- The market data that goes out where the top has moved.
unfoldable pub publish : Bytes → Server → Server
publish ts s =
    let top : Top = current_top s.venue in
    if top_eq top s.last_top
    then s
    else broadcast_payload (md_payload top ts) (record s { last_top = top })

-- A round of the loop of `run`: the heartbeat if it is due, the descriptors that wait to be
-- accepted, the connections that are ready, and the market data.
unfoldable pub pass : Bool → List Fd → List Ready → Bytes → Server → Option Server
unfolding handle_all publish
pass beat accepted ready ts s = do
  s' ← handle_all ready ts (accept_new accepted ts (if beat then broadcast_feed true ts s else s))
  some (publish ts s')
