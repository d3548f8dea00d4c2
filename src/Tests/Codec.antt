-- ===== src/Tests/Codec.antt =====
-- The theorems on frames, numbers and quoted texts, at concrete texts.
use market_maker_ops.Prelude.{
  ℕ, ◌≡◌, ◌≢◌, ◌↔◌, ◌≤◌, refl, none, some, true, List, [], ◌∷◌, ◌++◌, arith, Bytes, codes,
}
use market_maker_ops.Framing.{FrameDecoder, encode_frame, next, feed, drain, drain_all}
use market_maker_ops.Framing.RoundTrip.{decoder, next-encode_frame}
use market_maker_ops.Framing.Stream.{
  drain_all_total, drain_all-feed, encode_frames, drain_all-encode_frames,
}
use market_maker_ops.Protocol.Number.{
  u32_max, all_digits, parse_uint32, to_decimal, parse_decimal_to_ticks, split_dot, parts_to_ticks,
  accumulate, ticks_to_decimal,
}
use market_maker_ops.Protocol.Number.RoundTrip.{
  parse_uint32-to_decimal, parse_decimal_to_ticks-ticks_to_decimal,
}
use market_maker_ops.Protocol.Number.Bounds.{horner, parse_uint32_iff}
use market_maker_ops.Protocol.Scan.{parse_string}
use market_maker_ops.Protocol.Outbound.{quote_json}
use market_maker_ops.Protocol.Outbound.Quote.{parse_string-quote_json, parse_string_fails}

abbrev hello : Bytes
hello = codes "{}"

next-encode_frame_example :
    next (decoder (encode_frame hello ++ codes "VEN")) ≡ (some hello, decoder (codes "VEN"))
next-encode_frame_example = next-encode_frame hello (codes "VEN") (omega arith)

drain_all_total_example :
    (r : List Bytes × FrameDecoder) × (drain_all (decoder (codes "VEN1")) ≡ some r)
drain_all_total_example = drain_all_total (decoder (codes "VEN1"))

-- The frame of `{}`, cut behind its header.
abbrev head_part : Bytes
head_part = codes "VEN1" ++ 0 ∷ 0 ∷ 0 ∷ 2 ∷ []

half_read : drain_all (decoder head_part) ≡ some ([], decoder head_part)
unfolding drain_all drain next
half_read = refl

whole_read : drain_all (feed (decoder head_part) hello) ≡ some (hello ∷ [], decoder [])
unfolding drain_all drain next feed
whole_read = refl

hundred_and_a_half : parse_decimal_to_ticks (codes "100.5") ≡ some 10050
unfolding parse_decimal_to_ticks split_dot parts_to_ticks accumulate
hundred_and_a_half = refl

drain_all-feed_example : drain_all (feed (decoder head_part) hello) ≡ some (hello ∷ [], decoder [])
drain_all-feed_example =
    drain_all-feed (decoder head_part) hello ([], decoder head_part) (hello ∷ [], decoder [])
      half_read whole_read

drain_all-encode_frames_example :
    drain_all (decoder (encode_frames (hello ∷ [] ∷ []))) ≡ some (hello ∷ [] ∷ [], decoder [])
drain_all-encode_frames_example = drain_all-encode_frames (hello ∷ [] ∷ []) (omega arith)

parse_uint32-to_decimal_example : parse_uint32 (to_decimal 4294967295) ≡ some 4294967295
parse_uint32-to_decimal_example = parse_uint32-to_decimal 4294967295 (omega arith)

parse_decimal_to_ticks-ticks_to_decimal_example :
    parse_decimal_to_ticks (ticks_to_decimal 10002) ≡ some 10002
parse_decimal_to_ticks-ticks_to_decimal_example =
    parse_decimal_to_ticks-ticks_to_decimal 10002 (omega arith)

parse_uint32_iff_example : (parse_uint32 (codes "042") ≡ some 42) ↔ (
    (codes "042" ≢ [])
    × (all_digits (codes "042") ≡ true)
    × (◌≡◌ {A = ℕ} 42 (horner 0 (codes "042")))
    × (42 ≤ u32_max))
parse_uint32_iff_example = parse_uint32_iff (codes "042") 42

parse_string-quote_json_example :
    parse_string (quote_json (codes "a\"b\n") ++ codes ",") ≡ some (codes "a\"b\n", codes ",")
parse_string-quote_json_example = parse_string-quote_json (codes "a\"b\n") (codes ",") refl

parse_string_fails_example : parse_string (quote_json (1 ∷ []) ++ codes "}") ≡ none
parse_string_fails_example = parse_string_fails (1 ∷ []) (codes "}") refl
