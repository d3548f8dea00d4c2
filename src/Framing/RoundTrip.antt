-- ===== src/Framing/RoundTrip.antt =====
-- `FrameDecoder::next` against `encodeFrame`.
use market_maker_ops.Prelude.{
  ℕ, ◌+◌, ◌*◌, ◌/◌, ◌%◌, ◌^◌, ◌≤◌, ◌<◌, ◌≢◌, ◌⊎◌, inl, inr, ◌≡◌, refl, ◌∙◌, none, some, ◌++◌, true,
  false, arith, lt→ltb, length, length-append, take, drop, take-append, drop-append, drop-add,
  Bytes,
}
use market_maker_ops.Framing.{
  encode_frame, FrameDecoder, next, word_at, frame_magic, max_payload_bytes, frame_header_bytes,
}

abbrev pub decoder : Bytes → FrameDecoder
decoder buf = record { buf = buf; error = false }

-- The branches of `next` on a decoder without an error.
pub next_short :
    (buf : Bytes) → length buf < frame_header_bytes → next (decoder buf) ≡ (none, decoder buf)
unfolding next
next_short buf h = rw (lt→ltb _ _ h)

pub next_bad :
    (buf : Bytes)
    → frame_header_bytes ≤ length buf
    → (word_at buf 0 ≢ frame_magic) ⊎ (max_payload_bytes < word_at buf 4)
    → next (decoder buf) ≡ (none, record { buf = buf; error = true })
unfolding next
next_bad buf h (inl bad) = ground arith
next_bad buf h (inr long) = ground arith

pub next_incomplete :
    (buf : Bytes)
    → frame_header_bytes ≤ length buf
    → word_at buf 0 ≡ frame_magic
    → word_at buf 4 ≤ max_payload_bytes
    → length buf < frame_header_bytes + word_at buf 4
    → next (decoder buf) ≡ (none, decoder buf)
unfolding next
next_incomplete buf h magic small short = ground arith

pub next_complete :
    (buf : Bytes)
    → word_at buf 0 ≡ frame_magic
    → word_at buf 4 ≤ max_payload_bytes
    → frame_header_bytes + word_at buf 4 ≤ length buf
    → next (decoder buf) ≡ (
      some (take (word_at buf 4) (drop frame_header_bytes buf)),
      decoder (drop (frame_header_bytes + word_at buf 4) buf),
    )
unfolding next
next_complete buf magic small enough = ground arith

big_endian_word :
    (w : ℕ)
    → w < 2 ^ 32
    → (w / 2 ^ 24 % 256) * 2 ^ 24
        + (w / 2 ^ 16 % 256) * 2 ^ 16
        + (w / 2 ^ 8 % 256) * 2 ^ 8
        + w % 256
      ≡ w
big_endian_word w h = omega arith

frame_length :
    (payload rest : Bytes)
    → length payload ≤ max_payload_bytes
    → word_at (encode_frame payload ++ rest) 4 ≡ length payload
unfolding encode_frame
frame_length payload rest h = omega arith

-- A frame at the front of the buffer, with any bytes behind it, gives its payload and is removed.
pub next-encode_frame :
    (payload rest : Bytes)
    → length payload ≤ max_payload_bytes
    → next (decoder (encode_frame payload ++ rest)) ≡ (some payload, decoder rest)
unfolding encode_frame
next-encode_frame payload rest h =
    let buf : Bytes = encode_frame payload ++ rest in
    let len = frame_length payload rest h in
    next_complete buf refl (omega (arith, len)) (omega (arith, len, length-append payload rest))
    ∙ rw (len, drop-add 8 (length payload) buf, take-append payload rest, drop-append payload rest)
