-- ===== src/Framing/Stream.antt =====
-- The decoder as a reader of a stream: how the bytes are cut into chunks does not matter.
use market_maker_ops.Prelude.{
  ℕ, zero, suc, ◌≤◌, ◌<◌, ◌≡◌, refl, sym, ap, subst, ◌∙◌, none, some, some-injective, List, [], ◌∷◌,
  ◌++◌, arith, length, ◌>>=◌, Bytes,
}
use market_maker_ops.Framing.{
  encode_frame, FrameDecoder, next, drain, drain_all, Drained, prepend, drain_round, feed,
  max_payload_bytes,
}
use market_maker_ops.Framing.RoundTrip.{decoder, next_short, next-encode_frame}
use market_maker_ops.Framing.Cases.{waits, breaks, yields, bad, Next-cases}

abbrev pub prefixed : List Bytes → List Bytes × FrameDecoder → List Bytes × FrameDecoder
prefixed ps (qs, d) = (ps ++ qs, d)

drain-none :
    (fuel : ℕ) (d d' : FrameDecoder) → next d ≡ (none, d') → drain (suc fuel) d ≡ some ([], d')
unfolding drain
drain-none fuel d d' e = ap (drain_round (drain fuel)) e

drain-some :
    (fuel : ℕ) (d d' : FrameDecoder) (p : Bytes) (r : List Bytes × FrameDecoder)
    → next d ≡ (some p, d')
    → drain fuel d' ≡ some r
    → drain (suc fuel) d ≡ some (prepend p r)
unfolding drain
drain-some fuel d d' p r e k = ap (drain_round (drain fuel)) e ∙ rw k

-- More fuel than the buffer has bytes is enough.
drain_total :
    (fuel : ℕ) (d : FrameDecoder)
    → length d.buf < fuel
    → (r : List Bytes × FrameDecoder) × (drain fuel d ≡ some r)
drain_total zero d h = absurd (omega arith)
drain_total (suc fuel) d h = elim (Next-cases d) [
  | waits e ↦ (([], d), drain-none fuel d d e)
  | breaks e _ _ ↦ (([], bad d), drain-none fuel d (bad d) e)
  | yields p d' e less _ ↦
      let (r, k) = drain_total fuel d' (omega arith) in (prepend p r, drain-some fuel d d' p r e k)
]

prepended-eq-some :
    (p : Bytes) (m : Drained) (r : List Bytes × FrameDecoder)
    → (m >>= λ q. some (prepend p q)) ≡ some r
    → (q : List Bytes × FrameDecoder) × (m ≡ some q) × (r ≡ prepend p q)
prepended-eq-some p none r h = cc
prepended-eq-some p (some q) r h = (q, refl, sym (some-injective _ _ h))

drain-some_inv :
    (fuel : ℕ) (d d' : FrameDecoder) (p : Bytes) (r : List Bytes × FrameDecoder)
    → next d ≡ (some p, d')
    → drain (suc fuel) d ≡ some r
    → (q : List Bytes × FrameDecoder) × (drain fuel d' ≡ some q) × (r ≡ prepend p q)
unfolding drain
drain-some_inv fuel d d' p r e h =
    prepended-eq-some p (drain fuel d') r (ap (drain_round (drain fuel)) (sym e) ∙ h)

drain-none_inv :
    (fuel : ℕ) (d d' : FrameDecoder) (r : List Bytes × FrameDecoder)
    → next d ≡ (none, d')
    → drain (suc fuel) d ≡ some r
    → r ≡ ([], d')
drain-none_inv fuel d d' r e h = some-injective _ _ (sym h ∙ drain-none fuel d d' e)

-- Two runs that both have fuel enough agree.
drain_same :
    (f g : ℕ) (d : FrameDecoder) (r q : List Bytes × FrameDecoder)
    → drain f d ≡ some r
    → drain g d ≡ some q
    → r ≡ q
unfolding drain
drain_same zero g d r q h k = cc
drain_same (suc f) zero d r q h k = cc
drain_same (suc f) (suc g) d r q h k = elim (Next-cases d) [
  | waits e ↦ drain-none_inv f d d r e h ∙ sym (drain-none_inv g d d q e k)
  | breaks e _ _ ↦ drain-none_inv f d (bad d) r e h ∙ sym (drain-none_inv g d (bad d) q e k)
  | yields p d' e _ _ ↦
      let (r', h', er) = drain-some_inv f d d' p r e h in
      let (q', k', eq) = drain-some_inv g d d' p q e k in
      er ∙ ap (prepend p) (drain_same f g d' r' q' h' k') ∙ sym eq
]

drain_quiet :
    (g : ℕ) (d d' : FrameDecoder) (q : List Bytes × FrameDecoder)
    → next d ≡ (none, d')
    → drain g d ≡ some q
    → q ≡ ([], d')
unfolding drain
drain_quiet zero d d' q e h = cc
drain_quiet (suc g) d d' q e h = drain-none_inv g d d' q e h

-- A run over one chunk, and a run of what it leaves with a second chunk, are a run over both.
drain_join :
    (f g k : ℕ) (d : FrameDecoder) (y : Bytes) (s q r : List Bytes × FrameDecoder)
    → drain f d ≡ some s
    → drain g (feed s.1 y) ≡ some q
    → drain k (feed d y) ≡ some r
    → r ≡ prefixed s.0 q
unfolding drain
drain_join zero g k d y s q r hs hq hr = cc
drain_join (suc f) g zero d y s q r hs hq hr = cc
drain_join (suc f) g (suc k) d y s q r hs hq hr = elim (Next-cases d) [
  | waits e ↦
      let es = drain-none_inv f d d s e hs in
      let hq' = subst (λ (t : List Bytes × FrameDecoder). drain g (feed t.1 y) ≡ some q) es hq in
      drain_same (suc k) g (feed d y) r q hr hq'
      ∙ subst (λ (t : List Bytes × FrameDecoder). q ≡ prefixed t.0 q) (sym es) refl
  | breaks e wet again ↦
      let es = drain-none_inv f d (bad d) s e hs in
      let hq' = subst (λ (t : List Bytes × FrameDecoder). drain g (feed t.1 y) ≡ some q) es hq in
      let eq = drain_quiet g (feed (bad d) y) (feed (bad d) y) q (again y) hq' in
      drain-none_inv k (feed d y) (feed (bad d) y) r (wet y) hr
      ∙ sym eq
      ∙ subst (λ (t : List Bytes × FrameDecoder). q ≡ prefixed t.0 q) (sym es) refl
  | yields p e' e _ on ↦
      let (s', hs', es) = drain-some_inv f d e' p s e hs in
      let (r', hr', er) = drain-some_inv k (feed d y) (feed e' y) p r (on y) hr in
      let hq' = subst (λ (t : List Bytes × FrameDecoder). drain g (feed t.1 y) ≡ some q) es hq in
      er
      ∙ ap (prepend p) (drain_join f g k e' y s' q r' hs' hq' hr')
      ∙ subst (λ (t : List Bytes × FrameDecoder). prepend p (prefixed s'.0 q) ≡ prefixed t.0 q)
          (sym es) refl
]

-- `while (decoder.next(payload))` ends, whatever the buffer holds.
pub drain_all_total : (d : FrameDecoder) → (r : List Bytes × FrameDecoder) × (drain_all d ≡ some r)
unfolding drain_all
drain_all_total d = drain_total (suc (length d.buf)) d (omega arith)

-- Reading a chunk, and then another one, gives the payloads and leaves the decoder that reading
-- both at once does.
pub drain_all-feed :
    (d : FrameDecoder) (y : Bytes) (s q : List Bytes × FrameDecoder)
    → drain_all d ≡ some s
    → drain_all (feed s.1 y) ≡ some q
    → drain_all (feed d y) ≡ some (s.0 ++ q.0, q.1)
unfolding drain_all
drain_all-feed d y s q hs hq =
    let (r, hr) = drain_all_total (feed d y) in hr ∙ ap some (drain_join _ _ _ d y s q r hs hq hr)

-- What the peer writes for a list of payloads.
abbrev pub encode_frames : List Bytes → Bytes
encode_frames [] = []
encode_frames (p ∷ ps) = encode_frame p ++ encode_frames ps

abbrev pub FitFrames : List Bytes → Type 0
FitFrames [] = Unit {0}
FitFrames (p ∷ ps) = (length p ≤ max_payload_bytes) × FitFrames ps

drain-encode_frames :
    (fuel : ℕ) (ps : List Bytes) (r : List Bytes × FrameDecoder)
    → FitFrames ps
    → drain fuel (decoder (encode_frames ps)) ≡ some r
    → r ≡ (ps, decoder [])
unfolding drain
drain-encode_frames zero ps r fit h = cc
drain-encode_frames (suc fuel) [] r fit h =
    drain-none_inv fuel (decoder []) (decoder []) r (next_short [] (omega arith)) h
drain-encode_frames (suc fuel) (p ∷ ps) r fit h =
    let (q, h', e) = drain-some_inv fuel _ _ p r (next-encode_frame p (encode_frames ps) fit.0) h in
    e ∙ ap (prepend p) (drain-encode_frames fuel ps q fit.1 h')

-- A stream of frames decodes to the payloads that were encoded, in order, and nothing is left.
pub drain_all-encode_frames :
    (ps : List Bytes)
    → FitFrames ps
    → drain_all (decoder (encode_frames ps)) ≡ some (ps, decoder [])
unfolding drain_all
drain_all-encode_frames ps fit =
    let (r, h) = drain_all_total (decoder (encode_frames ps)) in
    h ∙ ap some (drain-encode_frames _ ps r fit h)
