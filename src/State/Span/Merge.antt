-- ===== src/State/Span/Merge.antt =====
-- What merging two or three spans gives, for the spans that a vector holds: valid ones, ordered by
-- their starts.
use logdna_agent_v.Base.{◌+◌, ◌≤◌, ◌<◌, ◌≡◌, max, Bool, some, arith, u64_mod, leb, if◌then◌else◌}
use logdna_agent_v.State.Span.{
  Span, merged, identity, un_merged, overlap, left_overlap, right_overlap, disjoint, left_identity,
  right_identity, left_identity_overlap, span_eq, merge_right, merge, coalesce,
}

-- What `Span::new` accepts, with room for the `end + 1` of `merge_right`.
pub record IsValid (s : Span) : Type 0 where
  pub ordered : s.start ≤ s.end
  pub in_range : s.end + 1 < u64_mod

-- `a` overlaps or touches a span `b` that does not start before it.
abbrev pub reaches : Span → Span → Bool
reaches a b = leb b.start (a.end + 1)

abbrev pub union : Span → Span → Span
union a b = record { start = a.start; end = max a.end b.end }

pub union-IsValid : {a b : Span} → IsValid a → IsValid b → IsValid (union a b)
union-IsValid v w = record { ordered = omega arith; in_range = omega arith }

pub merge_right_self : (a : Span) → merge_right a a ≡ some (identity a)
unfolding merge_right
merge_right_self a = ground arith

merge_right_lt :
    (a b : Span)
    → IsValid a
    → IsValid b
    → a.start < b.start
    → merge_right a b ≡ some (if reaches a b then merged (union a b) else un_merged a b)
unfolding merge_right
merge_right_lt a b v w h = ground arith

merge_right_le :
    (a b : Span)
    → IsValid a
    → IsValid b
    → a.start ≤ b.start
    → merge_right a b
      ≡ some (
          if span_eq a b
          then identity a
          else if reaches a b
          then merged (union a b)
          else un_merged a b)
unfolding merge_right
merge_right_le a b v w h = ground arith

-- The new span is behind the left one, or in front of the right one.
pub merge_behind :
    (a b : Span)
    → IsValid a
    → IsValid b
    → a.start < b.start
    → merge a b ≡ some (if reaches a b then merged (union a b) else un_merged a b)
unfolding merge
merge_behind a b v w h = ground arith

pub merge_front :
    (a b : Span)
    → IsValid a
    → IsValid b
    → b.start ≤ a.start
    → merge a b
      ≡ some (
          if span_eq b a
          then identity a
          else if reaches b a
          then merged (union b a)
          else un_merged a b)
unfolding merge
merge_front a b v w h = ground arith

pub coalesce_between :
    (l e r : Span)
    → IsValid l
    → IsValid e
    → IsValid r
    → l.start < e.start
    → e.start ≤ r.start
    → coalesce e l r
      ≡ some (
          if reaches l e
          then (if reaches (union l e) r
              then overlap (union (union l e) r)
              else left_overlap (union l e) r)
          else if span_eq e r
          then right_identity l e
          else if reaches e r
          then right_overlap l (union e r)
          else disjoint l e r)
unfolding coalesce
coalesce_between l e r v w u h k = ground arith

pub coalesce_at_left :
    (m r : Span)
    → IsValid m
    → IsValid r
    → m.start < r.start
    → coalesce m m r
      ≡ some (if reaches m r then left_identity_overlap m (union m r) else left_identity m r)
unfolding coalesce
coalesce_at_left m r v w h = ground arith

pub coalesce_at_right :
    (k m : Span)
    → IsValid k
    → IsValid m
    → k.start < m.start
    → coalesce m k m ≡ some (if reaches k m then overlap (union k m) else right_identity k m)
unfolding coalesce
coalesce_at_right k m v w h = ground arith

pub merge_self : (a : Span) → merge a a ≡ some (identity a)
unfolding merge
merge_self a = ground arith
