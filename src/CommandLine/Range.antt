-- ===== src/CommandLine/Range.antt =====
-- The settings with which venue/main.cpp goes on.
use market_maker_ops.Prelude.{
  ℕ, ◌+◌, ◌<◌, ◌≤◌, ◌^◌, ◌≡◌, false, subst, Option, none, some, List, [], ◌∷◌, arith, Bytes,
  bytes_eq, codes, if_cases, ◌>>=◌, ◌||◌, ltb, ◌==◌,
}
use mathlib.Core.Option.{map}
use market_maker_ops.Order.{buy, u64_mod}
use market_maker_ops.OrderBook.{create, OrderBook}
use market_maker_ops.OrderBook.WellFormed.{IsBook}
use market_maker_ops.OrderPool.Construct.{slots_from}
use market_maker_ops.Venue.State.{Venue}
use market_maker_ops.Server.Connections.{Server, no_top}
use market_maker_ops.CommandLine.{
  Settings, Outcome, goes, exits, defaults, parse_u64, whole, upto, nonzero, or_usage, set_port,
  set_capacity, set_heartbeat, set_option, parse_args, env_settings, settings_of,
}

-- A port, a heartbeat of at most an hour, and a capacity of 64 bits, none of them 0.
pub record InRange (s : Settings) : Type 0 where
  pub port_pos : 0 < s.port
  pub port_lt : s.port < 2 ^ 16
  pub capacity_pos : 0 < s.capacity
  pub capacity_lt : s.capacity < u64_mod
  pub heartbeat_pos : 0 < s.heartbeat_ms
  pub heartbeat_le : s.heartbeat_ms ≤ 3600000

-- If an outcome lets the program go on, its settings are in range.
abbrev pub Ranged : Outcome → Type 0
Ranged (goes s) = InRange s
Ranged (exits n) = Unit {0}

abbrev Some : (ℕ → Type 0) → Option ℕ → Type 0
Some P none = Unit {0}
Some P (some v) = P v

abbrev From1 : ℕ → ℕ → Type 0
From1 limit v = (0 < v) × (v ≤ limit)

abbrev Wide : ℕ → Type 0
Wide v = v < u64_mod

abbrev Wide1 : ℕ → Type 0
Wide1 v = (0 < v) × (v < u64_mod)

Some-bind :
    (P Q : ℕ → Type 0) (f : ℕ → Option ℕ) (v : Option ℕ)
    → ((n : ℕ) → P n → Some Q (f n))
    → Some P v
    → Some Q (v >>= f)
Some-bind P Q f none h p = tt
Some-bind P Q f (some n) h p = h n p

upto-Some : (limit v : ℕ) → Some (From1 limit) (upto limit v)
upto-Some limit v =
    if_cases (Some (From1 limit)) (v == 0 || ltb limit v) (λ e. tt)
      (λ e. (ground arith, ground arith))

nonzero-Some : (v : ℕ) → v < u64_mod → Some Wide1 (nonzero v)
nonzero-Some v h = if_cases (Some Wide1) (v == 0) (λ e. tt) (λ e. (ground arith, h))

whole-Some : (v : ℕ) (end : Bytes) → v < u64_mod → Some Wide (whole v end)
whole-Some v [] h = h
whole-Some v (c ∷ cs) h = tt

or_usage-Ranged :
    (P : ℕ → Type 0) (f : ℕ → Settings) (v : Option ℕ)
    → ((n : ℕ) → P n → InRange (f n))
    → Some P v
    → Ranged (or_usage (map f v))
or_usage-Ranged P f none h p = tt
or_usage-Ranged P f (some n) h p = h n p

set_port-InRange : (s : Settings) → InRange s → (v : ℕ) → From1 65535 v → InRange (set_port s v)
set_port-InRange s r v h = record {
  port_pos = omega arith;
  port_lt = omega arith;
  capacity_pos = r.capacity_pos;
  capacity_lt = r.capacity_lt;
  heartbeat_pos = r.heartbeat_pos;
  heartbeat_le = r.heartbeat_le;
}

set_capacity-InRange : (s : Settings) → InRange s → (v : ℕ) → Wide1 v → InRange (set_capacity s v)
set_capacity-InRange s r v h = record {
  port_pos = r.port_pos;
  port_lt = r.port_lt;
  capacity_pos = h.0;
  capacity_lt = h.1;
  heartbeat_pos = r.heartbeat_pos;
  heartbeat_le = r.heartbeat_le;
}

set_heartbeat-InRange :
    (s : Settings) → InRange s → (v : ℕ) → From1 3600000 v → InRange (set_heartbeat s v)
set_heartbeat-InRange s r v h = record {
  port_pos = r.port_pos;
  port_lt = r.port_lt;
  capacity_pos = r.capacity_pos;
  capacity_lt = r.capacity_lt;
  heartbeat_pos = h.0;
  heartbeat_le = h.1;
}

defaults-InRange : InRange defaults
defaults-InRange = record {
  port_pos = omega arith;
  port_lt = omega arith;
  capacity_pos = omega arith;
  capacity_lt = omega arith;
  heartbeat_pos = omega arith;
  heartbeat_le = omega arith;
}

abbrev StartsInRange : Option Settings → Type 0
StartsInRange none = Unit {0}
StartsInRange (some s) = InRange s

abbrev new_venue : ℕ → OrderBook → Venue
new_venue soft_cap b = record {
  soft_cap = soft_cap;
  next_engine_id = 1;
  has_last_trade = false;
  last_trade_ticks = 0;
  by_engine_id = [];
  by_conn = [];
  book = b;
}

abbrev new_server : Settings → Venue → Server
new_server s v = record {
  port = s.port;
  heartbeat_ms = s.heartbeat_ms;
  listen_fd = none;
  next_conn_id = 1;
  heartbeat_seq = 0;
  last_top = no_top;
  conns = [];
  conn_fd = [];
  fd_conn = [];
  venue = v;
}

-- A server as it starts: the settings are its own, it has no connection, its venue has no order and the
-- cap that is asked for, and its book is as the constructor makes it for 64 slots more, well-formed,
-- with no order on either side and every slot unused.
pub record IsStarted (s : Settings) (server : Server) : Type 0 where
  pub port : server.port ≡ s.port
  pub heartbeat_ms : server.heartbeat_ms ≡ s.heartbeat_ms
  pub no_conns : server.conns ≡ []
  pub soft_cap : server.venue.soft_cap ≡ s.capacity
  pub no_orders : server.venue.by_engine_id ≡ []
  pub no_records : server.venue.by_conn ≡ []
  pub new_book : create (s.capacity + 64) ≡ some server.venue.book
  pub unused : IsBook buy server.venue.book [] [] (slots_from 0 (s.capacity + 64))

module _ (strtoull : Bytes → ℕ × Bytes) (wide : (s : Bytes) → (strtoull s).0 < u64_mod) where
  parse_u64-Some : (s : Bytes) → Some Wide (parse_u64 strtoull s)
  unfolding parse_u64
  parse_u64-Some [] = tt
  parse_u64-Some (c ∷ cs) = whole-Some (strtoull (c ∷ cs)).0 (strtoull (c ∷ cs)).1 (wide (c ∷ cs))

  value-Some : (s : Option Bytes) → Some Wide (s >>= parse_u64 strtoull)
  value-Some none = tt
  value-Some (some s) = parse_u64-Some s

  set_option-Ranged :
      (arg : Bytes) (value : Option Bytes) (s : Settings)
      → InRange s
      → Ranged (set_option strtoull arg value s)
  unfolding set_option
  set_option-Ranged arg value s r =
      let v = value-Some value in
      let value' = value >>= parse_u64 strtoull in
      if_cases Ranged (bytes_eq arg (codes "--port"))
        (λ e.
          or_usage-Ranged (From1 65535) (set_port s) (value' >>= upto 65535) (set_port-InRange s r)
            (Some-bind Wide (From1 65535) (upto 65535) value' (λ n h. upto-Some 65535 n) v))
        (λ e.
          if_cases Ranged (bytes_eq arg (codes "--capacity"))
            (λ e.
              or_usage-Ranged Wide1 (set_capacity s) (value' >>= nonzero) (set_capacity-InRange s r)
                (Some-bind Wide Wide1 nonzero value' nonzero-Some v))
            (λ e.
              if_cases Ranged (bytes_eq arg (codes "--heartbeat-ms"))
                (λ e.
                  or_usage-Ranged (From1 3600000) (set_heartbeat s) (value' >>= upto 3600000)
                    (set_heartbeat-InRange s r)
                    (Some-bind Wide (From1 3600000) (upto 3600000) value'
                      (λ n h. upto-Some 3600000 n) v))
                (λ e.
                  if_cases Ranged (bytes_eq arg (codes "--help") || bytes_eq arg (codes "-h"))
                    (λ e. tt) (λ e. tt))))

  after_option :
      (o : Outcome) (args : List Bytes)
      → ((s : Settings) → InRange s → Ranged (parse_args strtoull args s))
      → Ranged o
      → Ranged (elim o [ goes s ↦ parse_args strtoull args s | exits n ↦ exits n ])
  after_option (goes s) args h r = h s r
  after_option (exits n) args h r = tt

  parse_args-Ranged :
      (args : List Bytes) (s : Settings) → InRange s → Ranged (parse_args strtoull args s)
  unfolding parse_args
  parse_args-Ranged [] s r = r
  parse_args-Ranged (arg ∷ []) s r = set_option-Ranged arg none s r
  parse_args-Ranged (arg ∷ value ∷ args) s r =
      after_option (set_option strtoull arg (some value) s) args (parse_args-Ranged args)
        (set_option-Ranged arg (some value) s r)

  map-set_port :
      (port : Option ℕ) → Some (From1 65535) port → StartsInRange (map (set_port defaults) port)
  map-set_port none h = tt
  map-set_port (some v) h = set_port-InRange defaults defaults-InRange v h

  env_settings-InRange : (env_port : Option Bytes) → StartsInRange (env_settings strtoull env_port)
  env_settings-InRange none = defaults-InRange
  env_settings-InRange (some env) = map-set_port (parse_u64 strtoull env >>= upto 65535) (
      Some-bind Wide (From1 65535) (upto 65535) (parse_u64 strtoull env) (λ n h. upto-Some 65535 n)
        (parse_u64-Some env))

  parse_args-StartsInRange :
      (start : Option Settings) (args : List Bytes)
      → StartsInRange start
      → Ranged (elim start [ none ↦ exits 2 | some s ↦ parse_args strtoull args s ])
  parse_args-StartsInRange none args h = tt
  parse_args-StartsInRange (some s) args h = parse_args-Ranged args s h

  -- Where `strtoull` gives 64-bit numbers and `main` goes on with settings, the port is from 1 to
  -- 65535, the heartbeat from 1 to 3600000 milliseconds, and the capacity a 64-bit number other than 0.
  pub settings_of-InRange :
      (env_port : Option Bytes) (args : List Bytes) (s : Settings)
      → settings_of strtoull env_port args ≡ goes s
      → InRange s
  unfolding settings_of
  settings_of-InRange env_port args s e = subst Ranged e (
      parse_args-StartsInRange (env_settings strtoull env_port) args
        (env_settings-InRange env_port))
