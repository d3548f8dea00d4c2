-- ===== src/Protocol/Number/Bounds.antt =====
-- What the number parsers accept, and the range of what they return.
use market_maker_ops.Prelude.{
  ℕ, ◌+◌, ◌-◌, ◌*◌, ◌≤◌, ◌≡◌, ◌≢◌, ◌↔◌, refl, true, some, [], ◌∷◌, arith, Bytes,
}
use market_maker_ops.Protocol.Number.{u32_max, accumulate, parse_uint32, all_digits}

-- The number that a text of digits stands for, behind the digits of `v`, with no bound.
unfoldable pub horner : ℕ → Bytes → ℕ
horner v [] = v
horner v (c ∷ s) = horner (v * 10 + (c - b'0')) s

pub horner-le : (v : ℕ) (s : Bytes) → v ≤ horner v s
unfolding horner
horner-le v [] = omega arith
horner-le v (c ∷ s) = omega (arith, horner-le (v * 10 + (c - b'0')) s)

pub accumulate-horner :
    (v r : ℕ) (s : Bytes)
    → v ≤ u32_max
    → accumulate v s ≡ some r
    → (all_digits s ≡ true) × (r ≡ horner v s) × (r ≤ u32_max)
unfolding accumulate horner
accumulate-horner v r [] h e = ground arith
accumulate-horner v r (c ∷ s) h e = ground (arith, accumulate-horner (v * 10 + (c - b'0')) r s)

pub horner-accumulate :
    (v : ℕ) (s : Bytes)
    → all_digits s ≡ true
    → horner v s ≤ u32_max
    → accumulate v s ≡ some (horner v s)
unfolding accumulate horner
horner-accumulate v [] d h = refl
horner-accumulate v (c ∷ s) d h =
    ground (arith, horner-accumulate (v * 10 + (c - b'0')) s, horner-le (v * 10 + (c - b'0')) s)

-- `parseUint32` accepts exactly the non-empty texts of digits whose number fits 32 bits, and
-- returns that number.
pub parse_uint32_iff :
    (s : Bytes) (r : ℕ)
    → (parse_uint32 s ≡ some r)
      ↔ ((s ≢ []) × (all_digits s ≡ true) × (r ≡ horner 0 s) × (r ≤ u32_max))
unfolding parse_uint32
parse_uint32_iff [] r = (λ h. cc, λ h. absurd (h.0 refl))
parse_uint32_iff (c ∷ s) r = (
  λ h. let (d, e, fits) = accumulate-horner 0 r (c ∷ s) (omega arith) h in ((λ n. cc), d, e, fits),
  λ (_, d, e, fits). rw e (horner-accumulate 0 (c ∷ s) d (rw e at fits)),
)
