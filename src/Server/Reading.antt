-- ===== src/Server/Reading.antt =====
-- `handleReadable` of venue/server.cpp: what `recv` returns is fed to the connection's decoder, and
-- the complete frames go to the venue.
use market_maker_ops.Prelude.{
  Option, none, some, List, [], ◌∷◌, Bool, true, false, if◌then◌else◌, ◌>>=◌, lookup, insert,
  nat_key, Bytes,
}
use market_maker_ops.Framing.{feed, drain_all}
use market_maker_ops.Venue.State.{ConnId}
use market_maker_ops.Venue.{handle_line}
use market_maker_ops.Server.Connections.{Fd, Conn, Server, new_conn, enqueue_all, close_conn}

-- `conns_[fd]`, which makes an entry where there is none.
abbrev pub conn_at : Fd → Server → Conn
conn_at fd s = elim (lookup fd s.conns) [ none ↦ new_conn | some c ↦ c ]

-- The answers of `recv`: bytes, the end of the stream, `EAGAIN`, `EINTR`, or another error.
pub data Recv : Type 0 where
  received : Bytes → Recv
  closed would_block interrupted failed : Recv

-- `decoder.feed`, for bytes that have come in.
abbrev pub feed_conn : Fd → Bytes → Server → Server
feed_conn fd bytes s =
    let c : Conn = conn_at fd s in
    record s { conns = insert fd (record c { decoder = feed c.decoder bytes }) s.conns }

-- The loop that reads. True if it ends with the connection still open.
unfoldable pub read_loop : Fd → List Recv → Server → Option (Bool × Server)
unfolding close_conn
read_loop fd [] s = some (true, s)
read_loop fd (received bytes ∷ rs) s = read_loop fd rs (feed_conn fd bytes s)
read_loop fd (closed ∷ rs) s = close_conn fd s >>= λ s'. some (false, s')
read_loop fd (would_block ∷ rs) s = some (true, s)
read_loop fd (interrupted ∷ rs) s = read_loop fd rs s
read_loop fd (failed ∷ rs) s = close_conn fd s >>= λ s'. some (false, s')

-- `handleLine` for each payload, with what it sends.
unfoldable pub handle_lines : ConnId → List Bytes → Bytes → Server → Option Server
unfolding enqueue_all
handle_lines id [] ts s = some s
handle_lines id (p ∷ ps) ts s = do
  (sent, venue) ← handle_line id p s.venue
  handle_lines id ps ts (enqueue_all sent ts (record s { venue = venue }))

-- The frames that are complete, and the end of the connection on a framing error.
-- `fdConn_[fd]`, which makes an entry of 0 where there is none.
abbrev pub conn_id_at : Fd → Server → ConnId × Server
conn_id_at fd s = elim (lookup fd s.fd_conn) [
  | none ↦ (0, record s { fd_conn = insert fd 0 s.fd_conn })
  | some id ↦ (id, s)
]

unfoldable pub handle_frames : Fd → Bytes → Server → Option Server
unfolding handle_lines close_conn
handle_frames fd ts s = do
  let (id, s0) = conn_id_at fd s
  (payloads, decoder) ← drain_all (conn_at fd s0).decoder
  let c = conn_at fd s0
  s' ←
      handle_lines id payloads ts
        (record s0 { conns = insert fd (record c { decoder = decoder }) s0.conns })
  if decoder.error then close_conn fd s' else some s'

unfoldable pub handle_readable : Fd → List Recv → Bytes → Server → Option Server
unfolding read_loop handle_frames
handle_readable fd rs ts s = do
  (still_open, s') ← read_loop fd rs s
  if still_open then handle_frames fd ts s' else some s'
