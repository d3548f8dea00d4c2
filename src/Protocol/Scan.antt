-- ===== src/Protocol/Scan.antt =====
-- `skipWs`, `parseString`, `parseNumber` and `parseFlatObject` of venue/protocol.cpp.
use market_maker_ops.Prelude.{
  ℕ, zero, suc, Option, none, some, List, [], ◌∷◌, ◌++◌, Bool, true, false, ◌||◌, ◌==◌,
  if◌then◌else◌, ◌>>=◌, length, insert, bytes_key, Bytes, is_digit,
}

-- Quote and backslash.
abbrev pub quote : ℕ
quote = 34

abbrev pub backslash : ℕ
backslash = 92

abbrev pub is_ws : ℕ → Bool
is_ws c = c == b' ' || (c == 9 || (c == 13 || c == 10))

unfoldable pub skip_ws : Bytes → Bytes
skip_ws [] = []
skip_ws (c ∷ s) = if is_ws c then skip_ws s else c ∷ s

-- The character that an escape stands for.
abbrev pub unescape : ℕ → Option ℕ
unescape e =
    if e == quote
    then some quote
    else if e == backslash
    then some backslash
    else if e == b'/'
    then some b'/'
    else if e == b'n'
    then some 10
    else if e == b't'
    then some 9
    else if e == b'r'
    then some 13
    else none

-- What is added to the text read so far.
abbrev pub push : ℕ → Option (Bytes × Bytes) → Option (Bytes × Bytes)
push c r = r >>= λ (out, rest). some (c ∷ out, rest)

abbrev pub push_escape : Option ℕ → Option (Bytes × Bytes) → Option (Bytes × Bytes)
push_escape none r = none
push_escape (some c) r = push c r

-- The loop of `parseString`: the text up to the closing quote, and what follows it.
unfoldable pub string_body : Bytes → Option (Bytes × Bytes)
string_body [] = none
string_body (c ∷ []) = if c == quote then some ([], []) else none
string_body (c ∷ e ∷ s) = if c == quote then some ([], e ∷ s) else (elim (c == backslash) [
  | true ↦ push_escape (unescape e) (string_body s)
  | false ↦ push c (string_body (e ∷ s))
])

unfoldable pub parse_string : Bytes → Option (Bytes × Bytes)
parse_string [] = none
parse_string (c ∷ s) = if c == quote then string_body s else none

-- The digits in front, and what follows them.
unfoldable pub span_digits : Bytes → Bytes × Bytes
span_digits [] = ([], [])
span_digits (c ∷ s) =
    let (ds, rest) = span_digits s in if is_digit c then (c ∷ ds, rest) else ([], c ∷ s)

-- The part of `parseNumber` from the decimal point on, behind the digits `whole`.
abbrev pub fraction : Bytes → Bytes → Option (Bytes × Bytes)
fraction whole [] = some (whole, [])
fraction whole (c ∷ s) =
    if c == b'.'
    then (let (ds, rest) = span_digits s in
        elim ds [ [] ↦ none | d ∷ ds' ↦ some (whole ++ c ∷ d ∷ ds', rest) ])
    else some (whole, c ∷ s)

abbrev pub unsigned : Bytes → Option (Bytes × Bytes)
unsigned s =
    let (ds, rest) = span_digits s in elim ds [ [] ↦ none | d ∷ ds' ↦ fraction (d ∷ ds') rest ]

-- The raw token of a number.
unfoldable pub parse_number : Bytes → Option (Bytes × Bytes)
unfolding span_digits
parse_number [] = none
parse_number (c ∷ s) =
    if c == b'-' then (unsigned s >>= λ (raw, rest). some (c ∷ raw, rest)) else unsigned (c ∷ s)

pub record JsonValue : Type 0 where
  pub is_string : Bool
  pub str : Bytes
  pub num_raw : Bytes

-- The test and the call that a value takes.
unfoldable pub parse_value : Bytes → Option (JsonValue × Bytes)
unfolding parse_string parse_number
parse_value [] = none
parse_value (c ∷ s) =
    if c == quote
    then (parse_string (c ∷ s) >>= λ (str, rest).
        some (record { is_string = true; str = str; num_raw = [] }, rest))
    else (parse_number (c ∷ s) >>= λ (raw, rest).
        some (record { is_string = false; str = []; num_raw = raw }, rest))

-- The byte that must come next.
abbrev pub expect : ℕ → Bytes → Option Bytes
expect b [] = none
expect b (c ∷ s) = if c == b then some s else none

-- A key, a colon and a value, with the blanks before each of them and behind the value.
unfoldable pub parse_member : Bytes → Option (Bytes × JsonValue × Bytes)
unfolding skip_ws parse_string parse_value
parse_member s = do
  (key, s) ← parse_string (skip_ws s)
  s ← expect b':' (skip_ws s)
  (v, s) ← parse_value (skip_ws s)
  some (key, v, skip_ws s)

abbrev pub Table : Type 0
Table = List (Bytes × JsonValue)

-- `false` and the end of the fuel are told apart.
pub data Outcome : Type 0 where
  parsed : Table → Outcome
  failed : Outcome
  out_of_fuel : Outcome

abbrev pub finish : Table → Bytes → Outcome
finish out [] = parsed out
finish out (c ∷ s) = failed

-- What follows a member: a comma and another round, or the end of the object.
abbrev pub after_member : (Table → Bytes → Outcome) → Table → Bytes → Outcome
after_member next out [] = failed
after_member next out (c ∷ s) =
    if c == b',' then next out s else if c == b'}' then finish out (skip_ws s) else failed

abbrev pub take_member :
    (Table → Bytes → Outcome) → Table → Option (Bytes × JsonValue × Bytes) → Outcome
take_member next out none = failed
take_member next out (some (key, v, s)) = after_member next (insert key v out) s

unfoldable pub members : ℕ → Table → Bytes → Outcome
unfolding parse_member
members zero out s = out_of_fuel
members (suc fuel) out s = take_member (members fuel) out (parse_member s)

abbrev pub open_object : Bytes → Bytes → Outcome
open_object s [] = members (suc (length s)) [] []
open_object s (c ∷ rest) =
    if c == b'}' then finish [] (skip_ws rest) else members (suc (length s)) [] (c ∷ rest)

-- Each round of the loop reads at least one byte, so the length is fuel enough.
unfoldable pub parse_flat_object : Bytes → Outcome
unfolding members
parse_flat_object s = elim (expect b'{' (skip_ws s)) [
  | none ↦ failed
  | some r ↦ open_object r (skip_ws r)
]
