-- ===== src/State/Codec/Rows.antt =====
-- What is read back from the row that a flush has put.
use logdna_agent_v.Base.{
  ℕ, zero, suc, ◌+◌, ◌≤◌, ◌<◌, ◌≡◌, refl, ◌∙◌, Bool, ap, true, false, ◌||◌, Option, some, List, [],
  ◌∷◌, ◌++◌, Result, ok, ◌>>=◌, arith, length, u64_mod, ltb, ◌==◌, lt→ltb,
}
use logdna_agent_v.State.Span.{Span, SpanError, new}
use logdna_agent_v.State.Span.Merge.{IsValid}
use logdna_agent_v.State.SpanVec.{SpanVec, insert}
use logdna_agent_v.State.SpanVec.Place.{Rising}
use logdna_agent_v.State.SpanVec.Cover.{in_span, covers}
use logdna_agent_v.State.SpanVec.Insert.{insert-covers}
use logdna_agent_v.State.Codec.{
  Bytes, to_be_bytes, from_be_bytes, encode_spans, encode_row, decode_spans, decode_row, add_span,
}
use logdna_agent_v.State.Codec.Words.{
  from_be_bytes-to_be_bytes, split_at-to_be_bytes, length-to_be_bytes,
}

-- The words of a row behind the first one, and their bytes.
abbrev words : SpanVec → List ℕ
words [] = []
words (s ∷ spans) = s.start ∷ s.end ∷ words spans

abbrev bytes_of : List ℕ → Bytes
bytes_of [] = []
bytes_of (v ∷ vs) = to_be_bytes v ++ bytes_of vs

encode-words : (spans : SpanVec) → encode_spans spans ≡ bytes_of (words spans)
unfolding encode_spans
encode-words [] = refl
encode-words (s ∷ spans) = rw (encode-words spans)

-- Words that do not fall, from `b` on.
abbrev Climbing : ℕ → List ℕ → Type 0
Climbing b [] = Unit
Climbing b (v ∷ vs) = (b ≤ v) × (v + 1 < u64_mod) × Climbing v vs

abbrev last : ℕ → List ℕ → ℕ
last v [] = v
last v (w ∷ vs) = last w vs

length-bytes_of : (vs : List ℕ) → length vs ≤ length (bytes_of vs)
length-bytes_of [] = omega arith
length-bytes_of (v ∷ vs) = omega (arith, length-to_be_bytes v (bytes_of vs), length-bytes_of vs)

-- The bytes from the first of these words to the last.
abbrev pub spanned : ℕ → List ℕ → ℕ → Bool
spanned v [] p = false
spanned v (w ∷ vs) p = in_span (record { start = v; end = last w vs }) p

spanned-cons :
    (v w : ℕ) (vs : List ℕ) (p : ℕ)
    → v ≤ w
    → Climbing w vs
    → (in_span (record { start = v; end = w }) p || spanned w vs p) ≡ spanned v (w ∷ vs) p
spanned-cons v w [] p h c = ground arith
spanned-cons v w (u ∷ vs) p h c = ground (arith, le-last u vs c.2)
  where
    le-last : (u : ℕ) (vs : List ℕ) → Climbing u vs → u ≤ last u vs
    le-last u [] c = omega arith
    le-last u (v ∷ vs) c = omega (arith, le-last v vs c.2)

decode_last :
    (fuel v : ℕ) (acc : SpanVec) → decode_spans (suc fuel) (bytes_of (v ∷ [])) acc ≡ some (ok acc)
unfolding decode_spans to_be_bytes
decode_last fuel v acc = refl

two_words : (v w : ℕ) (bs : Bytes) → ltb 8 (length (to_be_bytes v ++ (to_be_bytes w ++ bs))) ≡ true
two_words v w bs =
    lt→ltb 8 _ (omega (arith, length-to_be_bytes v (to_be_bytes w ++ bs), length-to_be_bytes w bs))

new-le : (v w : ℕ) → v ≤ w → new v w ≡ ok (record { start = v; end = w })
unfolding new
new-le v w h = ground arith

add_words :
    (v w : ℕ) (acc : SpanVec) (rest : SpanVec → Option (Result SpanError SpanVec))
    → v ≤ w
    → w + 1 < u64_mod
    → add_span acc (new (from_be_bytes (to_be_bytes v)) (from_be_bytes (to_be_bytes w))) rest
      ≡ (insert acc (record { start = v; end = w }) >>= rest)
add_words v w acc rest h k = rw (
  from_be_bytes-to_be_bytes v (omega arith),
  from_be_bytes-to_be_bytes w (omega arith),
  new-le v w h,
)

decode_next :
    (fuel v w : ℕ) (vs : List ℕ) (acc : SpanVec)
    → v ≤ w
    → w + 1 < u64_mod
    → decode_spans (suc fuel) (bytes_of (v ∷ w ∷ vs)) acc ≡ (
        insert acc (record { start = v; end = w }) >>= λ acc'.
        decode_spans fuel (bytes_of (w ∷ vs)) acc')
unfolding decode_spans
decode_next fuel v w vs acc h k =
    rw (two_words v w (bytes_of vs), decode_spans)
      (rw (split_at-to_be_bytes v (bytes_of (w ∷ vs))) (
        rw (split_at-to_be_bytes w (bytes_of vs))
          (add_words v w acc (λ acc'. decode_spans fuel (bytes_of (w ∷ vs)) acc') h k)))

decode-reads :
    (fuel v : ℕ) (vs : List ℕ) (acc : SpanVec)
    → v + 1 < u64_mod
    → Climbing v vs
    → Rising 0 acc
    → length vs < fuel
    → (out : SpanVec) × (decode_spans fuel (bytes_of (v ∷ vs)) acc ≡ some (ok out))
      × Rising 0 out
      × ((p : ℕ) → covers out p ≡ (covers acc p || spanned v vs p))
decode-reads zero v vs acc b c s h = absurd (omega arith)
decode-reads (suc fuel) v [] acc b c s h = (acc, decode_last fuel v acc, s, λ p. ground arith)
decode-reads (suc fuel) v (w ∷ vs) acc b c s h =
    let (mid, e, s', k) =
      insert-covers acc (record { start = v; end = w }) (record { ordered = c.0; in_range = c.1 })
        s in
    let (out, e', s'', k') = decode-reads fuel w vs mid c.1 c.2 s' (omega arith) in
    (
      out,
      decode_next fuel v w vs acc c.0 c.1 ∙ rw e e',
      s'',
      λ p. k' p ∙ rw (k p, ← spanned-cons v w vs p c.0 c.2) (ground arith),
    )

-- Spans none of which begins before the one in front of it ends.
abbrev pub InOrder : ℕ → SpanVec → Type 0
InOrder b [] = Unit
InOrder b (s ∷ spans) = (b ≤ s.start) × IsValid s × InOrder s.end spans

words-Climbing : (b : ℕ) (spans : SpanVec) → InOrder b spans → Climbing b (words spans)
words-Climbing b [] o = tt
words-Climbing b (s ∷ spans) o =
    let v = o.1 in (o.0, omega arith, (v.ordered, v.in_range, words-Climbing s.end spans o.2))

-- The end of the last span.
abbrev pub last_end : Span → SpanVec → ℕ
last_end s [] = s.end
last_end s (t ∷ spans) = last_end t spans

last-words : (s : Span) (spans : SpanVec) → last s.end (words spans) ≡ last_end s spans
last-words s [] = refl
last-words s (t ∷ spans) = last-words t spans

-- What is read back from a row covers all bytes from the start of the first span to the end of the
-- last one, those between the spans too, if no span begins before the one in front of it ends.
pub decode-encode :
    (s : Span) (spans : SpanVec)
    → InOrder 0 (s ∷ spans)
    → (row : Bytes) × (encode_row (s ∷ spans) ≡ some row)
      × (out : SpanVec) × (decode_row row ≡ some (ok out))
      × Rising 0 out
      × ((p : ℕ) → covers out p ≡ in_span (record { start = s.start; end = last_end s spans }) p)
unfolding encode_row decode_row
decode-encode s spans o =
    let c = words-Climbing 0 (s ∷ spans) o in
    let (out, e, r, k) =
      decode-reads (length row) s.start (s.end ∷ words spans) [] c.1 c.2 tt enough in
    (
      row,
      ap (λ bs. some (to_be_bytes s.end ++ bs)) (encode-words (s ∷ spans)),
      out,
      rw (longer, decode_row) (rw (split_at-to_be_bytes s.end (bytes_of (words (s ∷ spans)))) e),
      r,
      λ p. k p ∙ ap (λ t. in_span (record { start = s.start; end = t }) p) (last-words s spans),
    )
  where
    row : Bytes
    row = to_be_bytes s.end ++ bytes_of (words (s ∷ spans))

    longer : (length row == 8) ≡ false
    longer = ground (
      arith,
      length-to_be_bytes s.end (bytes_of (words (s ∷ spans))),
      length-to_be_bytes s.start (to_be_bytes s.end ++ bytes_of (words spans)),
    )

    enough : length (s.end ∷ words spans) < length row
    enough = omega (
      arith,
      length-bytes_of (words (s ∷ spans)),
      length-to_be_bytes s.end (bytes_of (words (s ∷ spans))),
    )
