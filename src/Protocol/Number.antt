-- ===== src/Protocol/Number.antt =====
-- `parseUint32`, `parseDecimalToTicks`, `std::to_string` and `ticksToDecimal` of venue/protocol.cpp.
-- Prices are counted in hundredths, `ticks`.
pub mod RoundTrip
pub mod Bounds
pub mod Prices
use market_maker_ops.Prelude.{
  ℕ, zero, suc, ◌+◌, ◌-◌, ◌*◌, ◌/◌, ◌%◌, Option, none, some, [], ◌∷◌, ◌++◌, Bool, true, ◌&&◌, ltb,
  ◌==◌, if◌then◌else◌, ◌>>=◌, length, Bytes, is_digit,
}

abbrev pub u32_max : ℕ
u32_max = 0xFFFF_FFFF

abbrev pub price_scale : ℕ
price_scale = 100

-- One round of the digit loops: `v = v * 10 + (c - '0')`, given up above the largest `uint32_t`.
unfoldable pub accumulate : ℕ → Bytes → Option ℕ
accumulate v [] = some v
accumulate v (c ∷ s) =
    let v' : ℕ = v * 10 + (c - b'0') in
    let rest = accumulate v' s in
    if is_digit c then (if ltb u32_max v' then none else rest) else none

unfoldable pub parse_uint32 : Bytes → Option ℕ
parse_uint32 [] = none
parse_uint32 (c ∷ s) = accumulate 0 (c ∷ s)

-- The text before the first point, and the text behind it.
unfoldable pub split_dot : Bytes → Bytes × Bytes
split_dot [] = ([], [])
split_dot (c ∷ s) =
    let (whole, frac) = split_dot s in if c == b'.' then ([], s) else (c ∷ whole, frac)

abbrev pub all_digits : Bytes → Bool
all_digits [] = true
all_digits (c ∷ s) = is_digit c && all_digits s

-- `while (fracPart.size() < 2) fracPart.push_back('0')`, for a text of two bytes at most.
abbrev pub pad_fraction : Bytes → Bytes
pad_fraction [] = b'0' ∷ b'0' ∷ []
pad_fraction (c ∷ []) = c ∷ b'0' ∷ []
pad_fraction (c ∷ d ∷ s) = c ∷ d ∷ s

-- `(fracPart[0] - '0') * 10 + (fracPart[1] - '0')`.
abbrev pub hundredths : Bytes → ℕ
hundredths [] = 0
hundredths (c ∷ []) = (c - b'0') * 10
hundredths (c ∷ d ∷ s) = (c - b'0') * 10 + (d - b'0')

abbrev pub to_ticks : ℕ → ℕ → Option ℕ
to_ticks whole frac =
    let ticks : ℕ = whole * price_scale + frac in if ltb u32_max ticks then none else some ticks

-- The rest of `parseDecimalToTicks`, from the two parts of the text on.
unfoldable pub parts_to_ticks : Bytes → Bytes → Option ℕ
parts_to_ticks [] frac = none
parts_to_ticks (c ∷ whole) frac =
    if ltb 2 (length frac)
    then none
    else if all_digits (c ∷ whole) && all_digits (pad_fraction frac)
    then (accumulate 0 (c ∷ whole) >>= λ w. to_ticks w (hundredths (pad_fraction frac)))
    else none

unfoldable pub parse_decimal_to_ticks : Bytes → Option ℕ
parse_decimal_to_ticks [] = none
parse_decimal_to_ticks (c ∷ s) =
    let (whole, frac) = split_dot (c ∷ s) in if c == b'-' then none else parts_to_ticks whole frac

-- The digits of `n` in front of `acc`, twenty at most: enough for a `uint64_t`.
unfoldable pub print_digits : ℕ → ℕ → Bytes → Bytes
print_digits zero n acc = acc
print_digits (suc k) n acc =
    let digits : Bytes = (b'0' + n % 10) ∷ acc in
    let rest = print_digits k (n / 10) digits in if n / 10 == 0 then digits else rest

-- `std::to_string`, and `%u`.
unfoldable pub to_decimal : ℕ → Bytes
to_decimal n = print_digits 20 n []

-- `%02u` of a number below 100.
abbrev pub two_digits : ℕ → Bytes
two_digits n = (b'0' + n / 10) ∷ (b'0' + n % 10) ∷ []

unfoldable pub ticks_to_decimal : ℕ → Bytes
ticks_to_decimal ticks = to_decimal (ticks / price_scale) ++ b'.' ∷ two_digits (ticks % price_scale)
