-- ===== src/Framing/Cases.antt =====
-- What `FrameDecoder::next` can do, and how that depends on the bytes behind.
use native.Mathlib.Decide.{dec_lt}
use market_maker_ops.Prelude.{
  ℕ, ◌+◌, ◌≤◌, ◌<◌, ◌≡◌, ◌≢◌, refl, ◌∙◌, ◌⊎◌, inl, inr, Bool, true, false, none, some, ◌++◌, arith,
  length, length-append, length-drop, take, drop, take-append_le, drop-append_le, get_or-append_lt,
  ◌==◌, ==_iff, Bool-cases, Bytes,
}
use market_maker_ops.Framing.{
  FrameDecoder, next, feed, word_at, frame_magic, max_payload_bytes, frame_header_bytes,
}
use market_maker_ops.Framing.RoundTrip.{
  decoder, next_short, next_bad, next_incomplete, next_complete,
}

word_at-append : (buf y : Bytes) (i : ℕ) → i + 3 < length buf → word_at (buf ++ y) i ≡ word_at buf i
word_at-append buf y i h = omega (
  arith,
  get_or-append_lt buf y i 0 (omega arith),
  get_or-append_lt buf y (i + 1) 0 (omega arith),
  get_or-append_lt buf y (i + 2) 0 (omega arith),
  get_or-append_lt buf y (i + 3) 0 h,
)

abbrev pub bad : FrameDecoder → FrameDecoder
bad d = record d { error = true }

-- What `next` can do, and that it does the same with more bytes behind, unless it waits for them.
pub data Next (d : FrameDecoder) : Type 0 where
  waits : next d ≡ (none, d) → Next d
  breaks :
      next d ≡ (none, bad d)
      → ((y : Bytes) → next (feed d y) ≡ (none, feed (bad d) y))
      → ((y : Bytes) → next (feed (bad d) y) ≡ (none, feed (bad d) y))
      → Next d
  yields :
      (p : Bytes) (d' : FrameDecoder)
      → next d ≡ (some p, d')
      → length d'.buf < length d.buf
      → ((y : Bytes) → next (feed d y) ≡ (some p, feed d' y))
      → Next d

-- Framing errors are sticky.
pub next-error : (d : FrameDecoder) → d.error ≡ true → next d ≡ (none, d)
unfolding next
next-error d e = rw e

broken :
    (buf : Bytes)
    → frame_header_bytes ≤ length buf
    → (word_at buf 0 ≢ frame_magic) ⊎ (max_payload_bytes < word_at buf 4)
    → Next (decoder buf)
unfolding feed
broken buf h b =
    breaks (next_bad buf h b)
      (λ y.
        next_bad (buf ++ y) (omega (arith, length-append buf y))
          (rw (word_at-append buf y 0 (omega arith), word_at-append buf y 4 (omega arith)) b))
      (λ y. next-error _ refl)

complete :
    (buf : Bytes)
    → word_at buf 0 ≡ frame_magic
    → word_at buf 4 ≤ max_payload_bytes
    → frame_header_bytes + word_at buf 4 ≤ length buf
    → Next (decoder buf)
unfolding feed
complete buf magic small enough =
    let len = word_at buf 4 in
    let w0 = λ (y : Bytes). word_at-append buf y 0 (omega arith) in
    let w4 = λ (y : Bytes). word_at-append buf y 4 (omega arith) in
    yields (take len (drop 8 buf)) (decoder (drop (8 + len) buf))
      (next_complete buf magic small enough) (omega (arith, length-drop (8 + len) buf))
      (λ y.
        next_complete (buf ++ y) (w0 y ∙ magic) (omega (arith, w4 y))
          (omega (arith, w4 y, length-append buf y))
        ∙ rw (
          w4 y,
          drop-append_le (8 + len) buf y enough,
          drop-append_le 8 buf y (omega arith),
          take-append_le len (drop 8 buf) y (omega (arith, length-drop 8 buf)),
        ))

long_enough : (buf : Bytes) → frame_header_bytes ≤ length buf → Next (decoder buf)
long_enough buf h = elim (Bool-cases (word_at buf 0 == frame_magic)) [
  | inr ne ↦ broken buf h (inl (λ e. ground arith))
  | inl eq ↦
      let magic = (==_iff _ _).0 eq in
      elim (dec_lt max_payload_bytes (word_at buf 4)) [
        | yes long ↦ broken buf h (inr long)
        | no small ↦ elim (dec_lt (length buf) (frame_header_bytes + word_at buf 4)) [
          | yes short ↦ waits (next_incomplete buf h magic (omega arith) short)
          | no enough ↦ complete buf magic (omega arith) (omega arith)
        ]
      ]
]

by_error : (buf : Bytes) (error : Bool) → Next (record { buf = buf; error = error })
by_error buf true = waits (next-error _ refl)
by_error buf false = elim (dec_lt (length buf) frame_header_bytes) [
  | yes short ↦ waits (next_short buf short)
  | no long ↦ long_enough buf (omega arith)
]

pub Next-cases : (d : FrameDecoder) → Next d
Next-cases d = by_error d.buf d.error
