-- ===== src/Protocol/Number/Prices.antt =====
-- Which texts `parseDecimalToTicks` of venue/protocol.cpp accepts, and what it reads them as.
use market_maker_ops.Prelude.{ℕ, ◌+◌, ◌*◌, ◌≤◌, ◌≡◌, ◌≢◌, ◌⊎◌, true, [], ◌∷◌, ◌++◌, Bytes, length}
use market_maker_ops.Protocol.Number.{u32_max, price_scale, all_digits, pad_fraction, hundredths}
use market_maker_ops.Protocol.Number.Bounds.{horner}

-- A text is its part before a point alone, or has a point and a part behind it.
abbrev pub Joined : (s whole frac : Bytes) → Type 0
Joined s whole frac = ((s ≡ whole) × (frac ≡ [])) ⊎ (s ≡ whole ++ b'.' ∷ frac)

-- Digits with two at most behind a point, that stand for a number of hundredths of 32 bits: the number
-- that is written without the point, with the places behind it filled up by zeros.
pub record IsPrice (s : Bytes) (t : ℕ) (whole frac : Bytes) : Type 0 where
  pub joined : Joined s whole frac
  pub some_whole : whole ≢ []
  pub whole_digits : all_digits whole ≡ true
  pub frac_digits : all_digits frac ≡ true
  pub places : length frac ≤ 2
  pub number : t ≡ horner 0 (whole ++ pad_fraction frac)
  pub fits : t ≤ u32_max

-- The number that the two parts stand for.
abbrev ticks_of : Bytes → Bytes → ℕ
ticks_of whole frac = horner 0 whole * price_scale + hundredths (pad_fraction frac)

abbrev Parts : (whole frac : Bytes) → ℕ → Type 0
Parts whole frac t =
    (whole ≢ [])
    × (all_digits whole ≡ true)
    × (all_digits (pad_fraction frac) ≡ true)
    × (length frac ≤ 2)
    × (t ≡ ticks_of whole frac)
    × (t ≤ u32_max)
