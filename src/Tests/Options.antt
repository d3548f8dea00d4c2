-- ===== src/Tests/Options.antt =====
-- The options of venue/main.cpp on a command line, with a reader of decimal digits for `strtoull`.
use market_maker_ops.Prelude.{
  ℕ, ◌+◌, ◌-◌, ◌*◌, ◌<◌, ◌≡◌, refl, none, some, List, [], ◌∷◌, arith, ltb, if◌then◌else◌, if_cases,
  ltb→lt, Bytes, codes, is_digit,
}
use market_maker_ops.Order.{u64_mod}
use market_maker_ops.Server.Connections.{Server}
use market_maker_ops.CommandLine.{
  Settings, goes, exits, parse_u64, set_option, parse_args, settings_of,
}
use market_maker_ops.CommandLine.Range.{InRange, settings_of-InRange}

read_digits : ℕ → Bytes → ℕ × Bytes
read_digits v [] = (v, [])
read_digits v (c ∷ cs) = if is_digit c then read_digits (v * 10 + (c - 48)) cs else (v, c ∷ cs)

-- A number that does not fit is read as the largest that does.
abbrev saturated : ℕ → ℕ
saturated v = if ltb v u64_mod then v else u64_mod - 1

abbrev read_number : Bytes → ℕ × Bytes
read_number s = let (v, end) = read_digits 0 s in (saturated v, end)

read_number_wide : (s : Bytes) → (read_number s).0 < u64_mod
read_number_wide s =
    if_cases (λ v. v < u64_mod) (ltb (read_digits 0 s).0 u64_mod)
      (λ e. ltb→lt (read_digits 0 s).0 u64_mod e) (λ e. omega arith)

abbrev arguments : List Bytes
arguments = codes "--capacity" ∷ codes "4096" ∷ codes "--port" ∷ codes "9300" ∷ []

abbrev settings : Settings
settings = record { port = 9300; capacity = 4096; heartbeat_ms = 1000 }

arguments_read : settings_of read_number (some (codes "9201")) arguments ≡ goes settings
unfolding settings_of parse_args set_option parse_u64 read_digits
arguments_read = refl

port_out_of_range : settings_of read_number (some (codes "65536")) [] ≡ exits 2
unfolding settings_of parse_args set_option parse_u64 read_digits
port_out_of_range = refl

help_asked : settings_of read_number none (codes "-h" ∷ []) ≡ exits 0
unfolding settings_of parse_args set_option parse_u64 read_digits
help_asked = refl

settings_of-InRange_example : InRange settings
settings_of-InRange_example =
    settings_of-InRange read_number read_number_wide (some (codes "9201")) arguments settings
      arguments_read
