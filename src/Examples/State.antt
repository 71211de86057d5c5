-- ===== src/Examples/State.antt =====
-- Spans and their rows.
use logdna_agent_v.Base.{ℕ, ◌<◌, ◌≡◌, ◌↔◌, refl, true, false, not, ◌||◌, some, [], ◌∷◌, ok, arith}
use logdna_agent_v.State.Span.{Span, merge, coalesce}
use logdna_agent_v.State.SpanVec.{
  SpanVec, insert, insert_loop, merge_in_span, from_iter, contains, first_gap, iter_gaps,
  partition_point,
}
use logdna_agent_v.State.SpanVec.Place.{Rising}
use logdna_agent_v.State.SpanVec.Cover.{in_span, covers}
use logdna_agent_v.State.SpanVec.Insert.{insert-covers, from_iter-covers}
use logdna_agent_v.State.SpanVec.Spaced.{Spaced}
use logdna_agent_v.State.SpanVec.Spacing.{Tidy, insert-Spaced}
use logdna_agent_v.State.SpanVec.Contains.{contains_iff}
use logdna_agent_v.State.SpanVec.Gaps.{
  Inside, Words, Closed, first_gap-uncovered, gaps_taken, same, iter_gaps-repeats,
}
use logdna_agent_v.State.Codec.{Bytes, encode_row, decode_row}
use logdna_agent_v.State.Codec.Rows.{decode-encode}

abbrev span : ℕ → ℕ → Span
span a b = record { start = a; end = b }

abbrev three : SpanVec
three = span 0 1 ∷ span 5 6 ∷ span 8 9 ∷ []

insert_joins : insert three (span 2 4) ≡ some (span 0 6 ∷ span 8 9 ∷ [])
unfolding insert insert_loop merge_in_span merge coalesce partition_point
insert_joins = refl

-- The span that is written in place of (5, 6) overlaps (8, 9).
insert_leaves_overlap : insert three (span 3 20) ≡ some (span 0 1 ∷ span 3 20 ∷ span 8 9 ∷ [])
unfolding insert insert_loop merge_in_span merge coalesce partition_point
insert_leaves_overlap = refl

insert-covers_example :
    (out : SpanVec) × (insert three (span 2 4) ≡ some out)
    × Rising 0 out
    × ((p : ℕ) → covers out p ≡ (covers three p || in_span (span 2 4) p))
insert-covers_example = insert-covers three (span 2 4) (omega arith) (omega arith)

from_iter-covers_example :
    (out : SpanVec) × (from_iter [] (span 8 9 ∷ span 0 1 ∷ span 1 7 ∷ []) ≡ some out)
    × Rising 0 out
    × ((p : ℕ) → covers out p ≡ covers (span 8 9 ∷ span 0 1 ∷ span 1 7 ∷ []) p)
from_iter-covers_example = from_iter-covers (span 8 9 ∷ span 0 1 ∷ span 1 7 ∷ []) (omega arith)

insert-Spaced_example :
    (out : SpanVec) × (insert three (span 3 20) ≡ some out)
    × (Spaced 0 out ↔ Tidy (span 3 20) three)
insert-Spaced_example = insert-Spaced three (span 3 20) (omega arith) (omega arith)

contains_iff_example :
    (contains three (span 5 5) ≡ true)
    ↔ ((p : ℕ) → (not (in_span (span 5 5) p) || covers three p) ≡ true)
contains_iff_example = contains_iff three (span 5 5) (omega arith) (omega arith)

first_gap-uncovered_example :
    ((p : ℕ) → p < (first_gap three).start → covers three p ≡ true)
    × ((p : ℕ) → Inside p (first_gap three) → covers three p ≡ false)
    × (Words three → Closed three (first_gap three))
first_gap-uncovered_example = first_gap-uncovered three (omega arith)

iter_gaps-repeats_example :
    gaps_taken 3 (iter_gaps (span 4 5 ∷ [])) ≡ same 3 (some (record { start = 0; end = some 3 }))
iter_gaps-repeats_example = iter_gaps-repeats 3 (span 4 5) [] (omega arith)

decode-encode_example :
    (row : Bytes) × (encode_row three ≡ some row)
    × (out : SpanVec) × (decode_row row ≡ some (ok out))
    × Rising 0 out
    × ((p : ℕ) → covers out p ≡ in_span (span 0 9) p)
decode-encode_example = decode-encode (span 0 1) (span 5 6 ∷ span 8 9 ∷ []) (omega arith)
