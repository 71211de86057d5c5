-- ===== src/State/Span.antt =====
-- common/state/src/span.rs: spans of bytes, and the merge of two or three of them. The arithmetic
-- is that of a release build, where `u64` wraps. Vectors of spans are in the children.
pub mod Merge
use logdna_agent_v.Base.{
  ℕ, ◌+◌, ◌%◌, min, max, Bool, ◌&&◌, Option, none, some, Result, ok, err, ◌>>=◌, unwrap, u64_mod,
  ltb, leb, ◌==◌, if◌then◌else◌,
}

pub data SpanError : Type 0 where
  invalid_span : SpanError

pub record Span : Type 0 where
  pub start : ℕ
  pub end : ℕ

pub record Gap : Type 0 where
  pub start : ℕ
  pub end : Option ℕ

pub into_span : Gap → Option Span
into_span g = elim g.end [ none ↦ none | some end ↦ some (record { start = g.start; end = end }) ]

unfoldable pub new : ℕ → ℕ → Result SpanError Span
new start end = if ltb end start then err invalid_span else ok (record { start = start; end = end })

-- The derived `==`.
abbrev pub span_eq : Span → Span → Bool
span_eq a b = a.start == b.start && a.end == b.end

pub data MergeResult : Type 0 where
  merged : Span → MergeResult
  identity : Span → MergeResult
  un_merged : Span → Span → MergeResult

-- `none` is the panic of the `unwrap`.
unfoldable pub merge_right : Span → Span → Option MergeResult
unfolding new
merge_right self right =
    if span_eq self right
    then some (identity self)
    else if leb self.start right.start && leb right.start ((self.end + 1) % u64_mod)
    then (do
      s ← unwrap (new (min self.start right.start) (max self.end right.end))
      some (merged s))
    else some (un_merged self right)

abbrev flip_merged : Span → Span → MergeResult → MergeResult
flip_merged left right (merged s) = merged s
flip_merged left right (identity s) = un_merged left right
flip_merged left right (un_merged a b) = un_merged left right

abbrev or_flipped : MergeResult → Option MergeResult
or_flipped (un_merged left right) = do
  flipped ← merge_right right left
  some (flip_merged left right flipped)
or_flipped (merged s) = some (merged s)
or_flipped (identity s) = some (identity s)

unfoldable pub merge : Span → Span → Option MergeResult
unfolding merge_right
merge self right = do res ← merge_right self right; or_flipped res

pub data SpanCoalesced : Type 0 where
  overlap identity_overlap : Span → SpanCoalesced
  left_identity_overlap right_identity_overlap left_identity right_identity left_overlap
        right_overlap :
      Span → Span → SpanCoalesced
  disjoint : Span → Span → Span → SpanCoalesced

-- `SpanCoalesced::new`
abbrev pub coalesced : MergeResult → MergeResult → SpanCoalesced
coalesced (merged l) (merged s) = overlap s
coalesced (identity s) (identity r) = identity_overlap s
coalesced (identity l) (merged r) = left_identity_overlap l r
coalesced (merged l) (identity r) = right_identity_overlap l r
coalesced (identity l) (un_merged m r) = left_identity l r
coalesced (un_merged l m) (identity r) = right_identity l r
coalesced (merged l) (un_merged m r) = left_overlap l r
coalesced (un_merged l m) (merged r) = right_overlap l r
coalesced (un_merged l orig) (un_merged m r) = disjoint l orig r

-- The span that is merged with the right neighbour: the one that the left neighbour has absorbed.
abbrev merged_or : Span → MergeResult → Span
merged_or self (identity m) = m
merged_or self (merged m) = m
merged_or self (un_merged a b) = self

unfoldable pub coalesce : Span → Span → Span → Option SpanCoalesced
unfolding merge_right
coalesce self left_other right_other = do
  left_merge ← merge_right left_other self
  right_merge ← merge_right (merged_or self left_merge) right_other
  some (coalesced left_merge right_merge)
