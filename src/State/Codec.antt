-- ===== src/State/Codec.antt =====
-- common/state/src/state.rs: how the spans of a file are written to the database and read back.
-- A row is a list of bytes. `none` is a panic, or the end of the fuel.
pub mod Words
pub mod Rows
use logdna_agent_v.Base.{
  ℕ, zero, suc, ◌+◌, ◌*◌, ◌/◌, ◌%◌, ◌^◌, true, false, Option, none, some, List, [], ◌∷◌, ◌++◌,
  Result, ok, err, ◌>>=◌, unwrap, ltb, ◌==◌, if◌then◌else◌, length, split_at,
}
use logdna_agent_v.State.Span.{Span, SpanError, new}
use logdna_agent_v.State.SpanVec.{SpanVec, insert}

abbrev pub Bytes : Type 0
Bytes = List ℕ

-- `u64::to_be_bytes`
unfoldable pub to_be_bytes : ℕ → Bytes
to_be_bytes v =
    v / 2 ^ 56 % 256
    ∷ v / 2 ^ 48 % 256
    ∷ v / 2 ^ 40 % 256
    ∷ v / 2 ^ 32 % 256
    ∷ v / 2 ^ 24 % 256
    ∷ v / 2 ^ 16 % 256
    ∷ v / 2 ^ 8 % 256
    ∷ v % 256
    ∷ []

from_digits : ℕ → Bytes → ℕ
from_digits acc [] = acc
from_digits acc (b ∷ bs) = from_digits (acc * 256 + b) bs

-- `u64::from_be_bytes(bytes.try_into().unwrap_or([0; 8]))`
unfoldable pub from_be_bytes : Bytes → ℕ
unfolding from_digits
from_be_bytes bs = if length bs == 8 then from_digits 0 bs else 0

-- The bytes of the spans: the start and the end of each.
unfoldable pub encode_spans : SpanVec → Bytes
encode_spans [] = []
encode_spans (s ∷ spans) = to_be_bytes s.start ++ (to_be_bytes s.end ++ encode_spans spans)

-- The row that a flush puts for a file: the end of its first span, then all spans. There is none
-- for an empty vector.
unfoldable pub encode_row : SpanVec → Option Bytes
unfolding encode_spans
encode_row [] = none
encode_row (first ∷ spans) = some (to_be_bytes first.end ++ encode_spans (first ∷ spans))

-- `offsets.insert(Span::new(..)?)`, and the rest of the loop.
abbrev pub add_span :
    SpanVec
    → Result SpanError Span
    → (SpanVec → Option (Result SpanError SpanVec))
    → Option (Result SpanError SpanVec)
add_span offsets (err e) rest = some (err e)
add_span offsets (ok span) rest = do offsets' ← insert offsets span; rest offsets'

-- One pass of the loop puts the span of the next two words in the vector, and drops one word.
unfoldable pub decode_spans : ℕ → Bytes → SpanVec → Option (Result SpanError SpanVec)
decode_spans zero v_bytes_rem offsets = none
decode_spans (suc fuel) v_bytes_rem offsets = elim (ltb 8 (length v_bytes_rem)) [
  | false ↦ some (ok offsets)
  | true ↦ do
    (v_bytes_start, rest) ← split_at v_bytes_rem 8
    (v_bytes_end, after) ← split_at rest 8
    add_span offsets (new (from_be_bytes v_bytes_start) (from_be_bytes v_bytes_end))
        λ offsets'. decode_spans fuel rest offsets'
]

-- The spans that `FileOffsetState::offsets` reads from a row.
unfoldable pub decode_row : Bytes → Option (Result SpanError SpanVec)
decode_row v =
    let spans = (do
      (v_bytes_min, v_bytes_rem) ← split_at v 8
      decode_spans (length v) v_bytes_rem []) in
    let single = (do
      (v_bytes_min, v_bytes_rem) ← split_at v 8
      span ← unwrap (new 0 (from_be_bytes v_bytes_min))
      offsets ← insert [] span
      some (ok offsets)) in
    if length v == 8 then single else spans
