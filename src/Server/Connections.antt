-- ===== src/Server/Connections.antt =====
-- The members of venue/server.h, and from venue/server.cpp the output buffers (`enqueue`,
-- `broadcastPayload`, `broadcastFeed`), `acceptNew` and `closeConn`.
use market_maker_ops.Prelude.{
  ℕ, ◌+◌, ◌%◌, Option, none, some, List, [], ◌∷◌, ◌++◌, Bool, true, false, ◌&&◌, not, ◌==◌,
  if◌then◌else◌, ◌>>=◌, lookup, insert, erase, nat_key, Bytes,
}
use market_maker_ops.Order.{u64_mod}
use market_maker_ops.Framing.{FrameDecoder, new_decoder, encode_frame}
use market_maker_ops.Protocol.Outbound.{encode_heartbeat, encode_market_data}
use market_maker_ops.Venue.State.{
  symbol, ConnId, Sent, encode, Venue, create_venue, Top, current_top,
}
use market_maker_ops.Venue.{drop_connection}

-- A file descriptor. That of a socket that is not open yet, -1 in the program, is `none`.
abbrev pub Fd : Type 0
Fd = ℕ

pub record Conn : Type 0 where
  pub decoder : FrameDecoder
  pub out : Bytes

pub record Server : Type 0 where
  pub port : ℕ
  pub heartbeat_ms : ℕ
  pub listen_fd : Option Fd
  pub next_conn_id : ConnId
  pub heartbeat_seq : ℕ
  pub last_top : Top
  pub conns : List (Fd × Conn)
  pub conn_fd : List (ConnId × Fd)
  pub fd_conn : List (Fd × ConnId)
  pub venue : Venue

abbrev pub no_top : Top
no_top = record {
  has_bid = false;
  bid_ticks = 0;
  has_ask = false;
  ask_ticks = 0;
  has_last = false;
  last_ticks = 0;
}

unfoldable pub create_server : (port book_capacity soft_cap heartbeat_ms : ℕ) → Option Server
create_server port book_capacity soft_cap heartbeat_ms = do
  venue ← create_venue book_capacity soft_cap
  some (record {
    port = port;
    heartbeat_ms = heartbeat_ms;
    listen_fd = none;
    next_conn_id = 1;
    heartbeat_seq = 0;
    last_top = no_top;
    conns = [];
    conn_fd = [];
    fd_conn = [];
    venue = venue;
  })

-- `Top::operator==`.
abbrev pub bool_eq : Bool → Bool → Bool
bool_eq true b = b
bool_eq false b = not b

abbrev pub top_eq : Top → Top → Bool
top_eq a b =
    bool_eq a.has_bid b.has_bid
    && (a.bid_ticks == b.bid_ticks
        && (bool_eq a.has_ask b.has_ask
            && (a.ask_ticks == b.ask_ticks
                && (bool_eq a.has_last b.has_last && a.last_ticks == b.last_ticks))))

unfoldable pub md_payload : Top → Bytes → Bytes
md_payload t ts =
    encode_market_data symbol t.has_bid t.bid_ticks t.has_ask t.ask_ticks t.has_last t.last_ticks ts

abbrev pub add_out : Bytes → Conn → Conn
add_out bytes c = record c { out = c.out ++ bytes }

-- A descriptor's buffer grows, where the descriptor is open.
abbrev pub append_out : Fd → Bytes → Server → Server
append_out fd bytes s = elim (lookup fd s.conns) [
  | none ↦ s
  | some c ↦ record s { conns = insert fd (add_out bytes c) s.conns }
]

unfoldable pub enqueue : ConnId → Bytes → Server → Server
enqueue id payload s = elim (lookup id s.conn_fd) [
  | none ↦ s
  | some fd ↦ append_out fd (encode_frame payload) s
]

-- The calls of `send_` during an operation of the venue, which does not look at the buffers.
unfoldable pub enqueue_all : Sent → Bytes → Server → Server
unfolding enqueue
enqueue_all [] ts s = s
enqueue_all ((id, m) ∷ sent) ts s = enqueue_all sent ts (enqueue id (encode m ts) s)

abbrev pub add_to_all : Bytes → List (Fd × Conn) → List (Fd × Conn)
add_to_all bytes [] = []
add_to_all bytes ((fd, c) ∷ cs) = (fd, add_out bytes c) ∷ add_to_all bytes cs

unfoldable pub broadcast_payload : Bytes → Server → Server
broadcast_payload payload s = record s { conns = add_to_all (encode_frame payload) s.conns }

unfoldable pub broadcast_feed : Bool → Bytes → Server → Server
unfolding broadcast_payload
broadcast_feed include_heartbeat ts s =
    let seq : ℕ = (s.heartbeat_seq + 1) % u64_mod in
    let s1 : Server =
      if include_heartbeat
      then broadcast_payload (encode_heartbeat seq ts) (record s { heartbeat_seq = seq })
      else s in
    let top : Top = current_top s1.venue in
    broadcast_payload (md_payload top ts) (record s1 { last_top = top })

abbrev pub new_conn : Conn
new_conn = record { decoder = new_decoder; out = [] }

-- `emplace`: a descriptor that is there keeps its entry.
abbrev pub emplace_conn : Fd → List (Fd × Conn) → List (Fd × Conn)
emplace_conn fd cs = elim (lookup fd cs) [ none ↦ insert fd new_conn cs | some _ ↦ cs ]

unfoldable pub accept_one : Fd → Bytes → Server → Server
unfolding enqueue
accept_one fd ts s =
    let id : ConnId = s.next_conn_id in
    enqueue id (md_payload (current_top s.venue) ts) (record s {
      next_conn_id = (id + 1) % u64_mod;
      conns = emplace_conn fd s.conns;
      conn_fd = insert id fd s.conn_fd;
      fd_conn = insert fd id s.fd_conn;
    })

-- The descriptors that `accept` returns before it has no more.
unfoldable pub accept_new : List Fd → Bytes → Server → Server
unfolding accept_one
accept_new [] ts s = s
accept_new (fd ∷ fds) ts s = accept_new fds ts (accept_one fd ts s)

-- The part of `closeConn` for a descriptor with a connection id.
abbrev pub forget : Fd → ConnId → Server → Option Server
forget fd id s = do
  venue ← drop_connection id s.venue
  some (record s {
    venue = venue;
    conn_fd = erase id s.conn_fd;
    fd_conn = erase fd s.fd_conn;
    conns = erase fd s.conns;
  })

unfoldable pub close_conn : Fd → Server → Option Server
close_conn fd s = elim (lookup fd s.fd_conn) [
  | none ↦ some (record s { conns = erase fd s.conns })
  | some id ↦ forget fd id s
]
