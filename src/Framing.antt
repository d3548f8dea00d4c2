-- ===== src/Framing.antt =====
-- venue/framing.h and venue/framing.cpp of engine/order-matching-engine: a frame is four magic
-- bytes, four bytes of payload length, and the payload. A `std::string` is its list of bytes.
pub mod RoundTrip
pub mod Cases
pub mod Stream
use market_maker_ops.Prelude.{
  ℕ, zero, suc, ◌+◌, ◌*◌, ◌/◌, ◌%◌, ◌^◌, Option, none, some, List, [], ◌∷◌, ◌++◌, Bool, true, false,
  ltb, ◌==◌, if◌then◌else◌, ◌>>=◌, length, get_or, take, drop, Bytes,
}

abbrev pub frame_magic : ℕ
frame_magic = 0x56454E31

abbrev pub frame_header_bytes : ℕ
frame_header_bytes = 8

abbrev pub max_payload_bytes : ℕ
max_payload_bytes = 2 ^ 20

-- A `uint32_t` as four bytes, the most significant first: `(w >> 24) & 0xFF` and so on.
abbrev pub big_endian : ℕ → Bytes
big_endian w = (w / 2 ^ 24 % 256) ∷ (w / 2 ^ 16 % 256) ∷ (w / 2 ^ 8 % 256) ∷ (w % 256) ∷ []

unfoldable pub encode_frame : Bytes → Bytes
encode_frame payload =
    let len = length payload % 2 ^ 32 in big_endian frame_magic ++ (big_endian len ++ payload)

pub record FrameDecoder : Type 0 where
  pub buf : Bytes
  pub error : Bool

abbrev pub new_decoder : FrameDecoder
new_decoder = record { buf = []; error = false }

unfoldable pub feed : FrameDecoder → Bytes → FrameDecoder
feed d bytes = record d { buf = d.buf ++ bytes }

-- `(b(i) << 24) | (b(i + 1) << 16) | …`: the four bytes share no bit, so the `or` is their sum.
abbrev pub word_at : Bytes → ℕ → ℕ
word_at buf i =
    get_or buf i 0 * 2 ^ 24
    + get_or buf (i + 1) 0 * 2 ^ 16
    + get_or buf (i + 2) 0 * 2 ^ 8
    + get_or buf (i + 3) 0

-- `next`: the payload where it returns true, and the decoder.
unfoldable pub next : FrameDecoder → Option Bytes × FrameDecoder
next d =
    if d.error
    then (none, d)
    else if ltb (length d.buf) frame_header_bytes
    then (none, d)
    else if word_at d.buf 0 == frame_magic
    then (let len = word_at d.buf 4 in
        if ltb max_payload_bytes len
        then (none, record d { error = true })
        else if ltb (length d.buf) (frame_header_bytes + len)
        then (none, d)
        else (
          some (take len (drop frame_header_bytes d.buf)),
          record d { buf = drop (frame_header_bytes + len) d.buf },
        ))
    else (none, record d { error = true })

-- The payloads in order, and the decoder that is left.
abbrev pub Drained : Type 0
Drained = Option (List Bytes × FrameDecoder)

abbrev pub prepend : Bytes → List Bytes × FrameDecoder → List Bytes × FrameDecoder
prepend p (ps, d) = (p ∷ ps, d)

-- A round of the loop, at what `next` returns; `rest` runs the rounds that follow.
abbrev pub drain_round : (FrameDecoder → Drained) → Option Bytes × FrameDecoder → Drained
drain_round rest (none, d) = some ([], d)
drain_round rest (some p, d) = rest d >>= λ r. some (prepend p r)

-- `while (decoder.next(payload))`. Every round but the last takes a header's bytes off the buffer;
-- `none` means that the fuel ran out.
unfoldable pub drain : ℕ → FrameDecoder → Drained
drain zero d = none
drain (suc fuel) d = drain_round (drain fuel) (next d)

unfoldable pub drain_all : FrameDecoder → Drained
drain_all d = drain (suc (length d.buf)) d
