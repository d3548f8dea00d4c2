-- ===== src/CommandLine.antt =====
-- venue/main.cpp of engine/order-matching-engine: the options of the venue's program. `strtoull` is
-- the C library's, and gives the number that it reads and the text behind it. The environment's
-- VENUE_PORT and the arguments behind the program's name are arguments; what is printed is left out.
pub mod Range
use market_maker_ops.Prelude.{
  ℕ, ◌+◌, ◌%◌, ◌^◌, Option, none, some, List, [], ◌∷◌, Bool, ◌||◌, ltb, ◌==◌, if◌then◌else◌, ◌>>=◌,
  Bytes, bytes_eq, codes,
}
use mathlib.Core.Option.{map}
use market_maker_ops.Order.{u64_mod}
use market_maker_ops.Server.Connections.{Server, create_server}

pub record Settings : Type 0 where
  pub port : ℕ
  pub capacity : ℕ
  pub heartbeat_ms : ℕ

-- The program goes on with the settings, or ends with a status.
pub data Outcome : Type 0 where
  goes : Settings → Outcome
  exits : ℕ → Outcome

abbrev pub defaults : Settings
defaults = record { port = 9200; capacity = 2 ^ 20; heartbeat_ms = 1000 }

-- The number, if nothing stands behind it.
abbrev pub whole : ℕ → Bytes → Option ℕ
whole v [] = some v
whole v (c ∷ cs) = none

-- A value from 1 to a limit, and one from 1.
abbrev pub upto : ℕ → ℕ → Option ℕ
upto limit v = if v == 0 || ltb limit v then none else some v

abbrev pub nonzero : ℕ → Option ℕ
nonzero v = if v == 0 then none else some v

abbrev pub or_usage : Option Settings → Outcome
or_usage none = exits 2
or_usage (some s) = goes s

abbrev pub set_port : Settings → ℕ → Settings
set_port s v = record s { port = v % 2 ^ 16 }

abbrev pub set_capacity : Settings → ℕ → Settings
set_capacity s v = record s { capacity = v }

abbrev pub set_heartbeat : Settings → ℕ → Settings
set_heartbeat s v = record s { heartbeat_ms = v }

module _ (strtoull : Bytes → ℕ × Bytes) where
  -- `parseU64` of a string that is not null.
  unfoldable pub parse_u64 : Bytes → Option ℕ
  parse_u64 [] = none
  parse_u64 (c ∷ cs) = let (v, end) = strtoull (c ∷ cs) in whole v end

  -- A round of the loop over the arguments, with the value that stands behind the option.
  unfoldable pub set_option : Bytes → Option Bytes → Settings → Outcome
  set_option arg value s =
      let v : Option ℕ = value >>= parse_u64 in
      if bytes_eq arg (codes "--port")
      then or_usage (map (set_port s) (v >>= upto 65535))
      else if bytes_eq arg (codes "--capacity")
      then or_usage (map (set_capacity s) (v >>= nonzero))
      else if bytes_eq arg (codes "--heartbeat-ms")
      then or_usage (map (set_heartbeat s) (v >>= upto 3600000))
      else (if bytes_eq arg (codes "--help") || bytes_eq arg (codes "-h") then exits 0 else exits 2)

  -- An option that lets the program go on has taken its value.
  unfoldable pub parse_args : List Bytes → Settings → Outcome
  parse_args [] s = goes s
  parse_args (arg ∷ []) s = set_option arg none s
  parse_args (arg ∷ value ∷ args) s = elim (set_option arg (some value) s) [
    | goes s' ↦ parse_args args s'
    | exits n ↦ exits n
  ]

  -- The settings before the arguments are read.
  abbrev pub env_settings : Option Bytes → Option Settings
  env_settings none = some defaults
  env_settings (some env) = map (set_port defaults) (parse_u64 env >>= upto 65535)

  unfoldable pub settings_of : (env_port : Option Bytes) → List Bytes → Outcome
  settings_of env_port args = elim (env_settings env_port) [
    | none ↦ exits 2
    | some s ↦ parse_args args s
  ]

-- The server that `main` constructs: the pool has headroom beyond the cap on live orders.
unfoldable pub server_of : Settings → Option Server
server_of s =
    let soft_cap : ℕ = s.capacity in
    create_server s.port ((soft_cap + 64) % u64_mod) soft_cap s.heartbeat_ms
