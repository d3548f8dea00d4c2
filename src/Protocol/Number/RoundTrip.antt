-- ===== src/Protocol/Number/RoundTrip.antt =====
-- The numbers and prices that the venue prints are read back.
use native.Mathlib.Nat.{pow-suc}
use market_maker_ops.Prelude.{
  ℕ, zero, suc, ◌+◌, ◌*◌, ◌/◌, ◌%◌, ◌^◌, ◌≤◌, ◌<◌, ◌≡◌, refl, ap, ◌∙◌, inl, inr, true, false, some,
  [], ◌∷◌, ◌++◌, arith, ◌==◌, Bool-cases, Bytes, is_digit,
}
use market_maker_ops.Protocol.Number.{
  u32_max, accumulate, parse_uint32, split_dot, all_digits, parts_to_ticks, parse_decimal_to_ticks,
  print_digits, to_decimal, two_digits, ticks_to_decimal, price_scale,
}

accumulate-digit :
    (v d : ℕ) (s : Bytes)
    → d < 10
    → v * 10 + d ≤ u32_max
    → accumulate v ((b'0' + d) ∷ s) ≡ accumulate (v * 10 + d) s
unfolding accumulate
accumulate-digit v d s h fits = ground arith

div-lt-pow : (k n : ℕ) → n < 10 ^ suc k → n / 10 < 10 ^ k
div-lt-pow k n h = omega (arith, pow-suc 10 k)

print_last :
    (k n : ℕ) (acc : Bytes)
    → (n / 10 == 0) ≡ true
    → print_digits (suc k) n acc ≡ (b'0' + n % 10) ∷ acc
unfolding print_digits
print_last k n acc e = rw e

print_more :
    (k n : ℕ) (acc : Bytes)
    → (n / 10 == 0) ≡ false
    → print_digits (suc k) n acc ≡ print_digits k (n / 10) ((b'0' + n % 10) ∷ acc)
unfolding print_digits
print_more k n acc e = rw e

-- Reading the digits in front of `acc` amounts to starting from the number.
accumulate-last :
    (n : ℕ) (acc : Bytes)
    → (n / 10 == 0) ≡ true
    → n ≤ u32_max
    → accumulate 0 ((b'0' + n % 10) ∷ acc) ≡ accumulate n acc
accumulate-last n acc e fits =
    accumulate-digit 0 (n % 10) acc (omega arith) (omega arith)
    ∙ ap (λ (v : ℕ). accumulate v acc) (ground arith)

accumulate-print_digits :
    (k n : ℕ) (acc : Bytes)
    → n < 10 ^ suc k
    → n ≤ u32_max
    → accumulate 0 (print_digits (suc k) n acc) ≡ accumulate n acc
accumulate-print_digits zero n acc h fits =
    let e : (n / 10 == 0) ≡ true = ground arith in
    rw (print_last zero n acc e) (accumulate-last n acc e fits)
accumulate-print_digits (suc k) n acc h fits = elim (Bool-cases (n / 10 == 0)) [
  | inl small ↦ rw (print_last (suc k) n acc small) (accumulate-last n acc small fits)
  | inr big ↦ rw (print_more (suc k) n acc big) (
      accumulate-print_digits k (n / 10) _ (div-lt-pow (suc k) n h) (omega arith)
      ∙ accumulate-digit (n / 10) (n % 10) acc (omega arith) (omega arith)
      ∙ ap (λ (v : ℕ). accumulate v acc) (omega arith))
]

-- The printed digits are digits, one at least, in front of what was there.
print_digits-digits :
    (k n : ℕ) (acc : Bytes) → all_digits acc ≡ true → all_digits (print_digits k n acc) ≡ true
print_digits-digits zero n acc h = unfold print_digits in h
print_digits-digits (suc k) n acc h = elim (Bool-cases (n / 10 == 0)) [
  | inl small ↦ rw (print_last k n acc small) (ground arith)
  | inr big ↦ rw (print_more k n acc big) (print_digits-digits k (n / 10) _ (ground arith))
]

abbrev StartsWithDigit : Bytes → Type 0
StartsWithDigit [] = ⊥
StartsWithDigit (c ∷ s) = is_digit c ≡ true

print_digits-StartsWithDigit :
    (k n : ℕ) (acc : Bytes) → StartsWithDigit acc → StartsWithDigit (print_digits k n acc)
print_digits-StartsWithDigit zero n acc h = unfold print_digits in h
print_digits-StartsWithDigit (suc k) n acc h = elim (Bool-cases (n / 10 == 0)) [
  | inl small ↦ rw (print_last k n acc small) (ground arith)
  | inr big ↦ rw (print_more k n acc big) (print_digits-StartsWithDigit k (n / 10) _ (ground arith))
]

to_decimal-StartsWithDigit : (n : ℕ) → StartsWithDigit (to_decimal n)
unfolding to_decimal
to_decimal-StartsWithDigit n = elim (Bool-cases (n / 10 == 0)) [
  | inl small ↦ rw (print_last 19 n [] small) (ground arith)
  | inr big ↦
      rw (print_more 19 n [] big) (print_digits-StartsWithDigit 19 (n / 10) _ (ground arith))
]

accumulate-to_decimal : (n : ℕ) → n ≤ u32_max → accumulate 0 (to_decimal n) ≡ some n
unfolding to_decimal
accumulate-to_decimal n fits =
    accumulate-print_digits 19 n [] (omega arith) fits ∙ unfold accumulate in refl

to_decimal-digits : (n : ℕ) → all_digits (to_decimal n) ≡ true
unfolding to_decimal
to_decimal-digits n = print_digits-digits 20 n [] refl

parse_uint32-nonempty : (s : Bytes) → StartsWithDigit s → parse_uint32 s ≡ accumulate 0 s
unfolding parse_uint32
parse_uint32-nonempty [] h = absurd h
parse_uint32-nonempty (c ∷ s) h = refl

-- A number that `std::to_string` prints is read back by `parseUint32`.
pub parse_uint32-to_decimal : (n : ℕ) → n < 2 ^ 32 → parse_uint32 (to_decimal n) ≡ some n
parse_uint32-to_decimal n h =
    parse_uint32-nonempty (to_decimal n) (to_decimal-StartsWithDigit n)
    ∙ accumulate-to_decimal n (omega arith)

split_dot-append : (ds s : Bytes) → all_digits ds ≡ true → split_dot (ds ++ b'.' ∷ s) ≡ (ds, s)
unfolding split_dot
split_dot-append [] s h = refl
split_dot-append (d ∷ ds) s h = ground (arith, split_dot-append ds s)

not_minus : (d : ℕ) → is_digit d ≡ true → (d == b'-') ≡ false
not_minus d h = ground arith

parse_decimal_to_ticks-parts :
    (ds s : Bytes)
    → StartsWithDigit ds
    → all_digits ds ≡ true
    → parse_decimal_to_ticks (ds ++ b'.' ∷ s) ≡ parts_to_ticks ds s
unfolding parse_decimal_to_ticks
parse_decimal_to_ticks-parts [] s h all = absurd h
parse_decimal_to_ticks-parts (d ∷ ds) s h all =
    rw (not_minus d h)
      (ap (λ (p : Bytes × Bytes). parts_to_ticks p.0 p.1) (split_dot-append (d ∷ ds) s all))

parts_to_ticks-accumulate :
    (ds : Bytes) (w f : ℕ)
    → StartsWithDigit ds
    → all_digits ds ≡ true
    → accumulate 0 ds ≡ some w
    → f < 100
    → w * 100 + f ≤ u32_max
    → parts_to_ticks ds (two_digits f) ≡ some (w * 100 + f)
unfolding parts_to_ticks
parts_to_ticks-accumulate [] w f h all e lt fits = absurd h
parts_to_ticks-accumulate (d ∷ ds) w f h all e lt fits = rw (all, e) (ground arith)

-- A price that `ticksToDecimal` prints is read back by `parseDecimalToTicks`.
pub parse_decimal_to_ticks-ticks_to_decimal :
    (t : ℕ) → t < 2 ^ 32 → parse_decimal_to_ticks (ticks_to_decimal t) ≡ some t
unfolding ticks_to_decimal
parse_decimal_to_ticks-ticks_to_decimal t h =
    let w = t / price_scale in
    let start = to_decimal-StartsWithDigit w in
    parse_decimal_to_ticks-parts (to_decimal w) (two_digits (t % price_scale)) start
      (to_decimal-digits w)
    ∙ parts_to_ticks-accumulate (to_decimal w) w (t % price_scale) start (to_decimal-digits w)
        (accumulate-to_decimal w (omega arith)) (omega arith) (omega arith)
    ∙ ap some (omega arith)
