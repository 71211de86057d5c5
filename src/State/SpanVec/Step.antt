-- ===== src/State/SpanVec/Step.antt =====
-- One pass of the loop of `SpanVec::insert`, at an index behind a prefix `rp` in reverse order.
use native.Mathlib.Numerals.{add-one}
use native.Mathlib.Nat.{add-zero}
use logdna_agent_v.Base.{
  ◌+◌, ◌≤◌, ◌<◌, ◌≡◌, refl, some, [], ◌∷◌, arith, length, get_elem?, set, rev_append,
  length-rev_append, get_elem?-rev_append, set-rev_append, insert_at-rev_append,
  remove_at-rev_append, if◌then◌else◌,
}
use logdna_agent_v.State.Span.{
  Span, coalesce, SpanCoalesced, overlap, identity_overlap, left_overlap, right_overlap, disjoint,
  left_identity, right_identity, left_identity_overlap, right_identity_overlap, span_eq,
}
use logdna_agent_v.State.Span.Merge.{IsValid, reaches, union, merge_front, merge_behind, merge_self}
use logdna_agent_v.State.SpanVec.{
  SpanVec, pair, triple, Change, unchanged, changed, partition_to_window, apply_triple,
  merge_in_span,
}

window_at_end :
    (rp : SpanVec) (l : Span)
    → partition_to_window (length (rev_append rp (l ∷ []))) (length rp + 1)
      ≡ some (pair (length rp))
unfolding partition_to_window
window_at_end rp l = rw (length-rev_append rp (l ∷ []), add-one) (ground arith)

window_between :
    (rp : SpanVec) (l r : Span) (post : SpanVec)
    → partition_to_window (length (rev_append rp (l ∷ r ∷ post))) (length rp + 1)
      ≡ some (triple (length rp))
unfolding partition_to_window
window_between rp l r post = rw (length-rev_append rp (l ∷ r ∷ post), add-one) (ground arith)

get_at :
    (rp : SpanVec) (x : Span) (ys : SpanVec)
    → get_elem? (rev_append rp (x ∷ ys)) (length rp) ≡ some x
get_at rp x ys = rw add-zero at (get_elem?-rev_append rp (x ∷ ys) 0)

set_at :
    (rp : SpanVec) (x v : Span) (ys : SpanVec)
    → set (rev_append rp (x ∷ ys)) (length rp) v ≡ some (rev_append rp (v ∷ ys))
set_at rp x v ys = rw add-zero at (set-rev_append rp (x ∷ ys) 0 v)

-- The new span in front of all, or behind all.
pub step_front :
    (e x : Span) (ys : SpanVec)
    → IsValid e
    → IsValid x
    → e.start ≤ x.start
    → merge_in_span (x ∷ ys) e 0
      ≡ some (
          unchanged
            (if span_eq e x then x ∷ ys else if reaches e x then union e x ∷ ys else e ∷ x ∷ ys))
unfolding merge_in_span
step_front e x ys v w h = rw (merge_front x e w v h) (ground arith)

pub step_end :
    (rp : SpanVec) (l e : Span)
    → IsValid l
    → IsValid e
    → l.start < e.start
    → merge_in_span (rev_append rp (l ∷ [])) e (length rp + 1)
      ≡ some (unchanged (rev_append rp (if reaches l e then union l e ∷ [] else l ∷ e ∷ [])))
unfolding merge_in_span
step_end rp l e v w h = rw (window_at_end rp l) (
    rw (get_at rp l [], merge_behind l e v w h)
      (ground (arith, set_at rp l (union l e) [], insert_at-rev_append rp (l ∷ []) 1 e)))

-- The outcomes that `coalesce` has where the starts rise.
abbrev pub IsRegular : SpanCoalesced → Type 0
IsRegular (identity_overlap s) = ⊥
IsRegular _ = Unit

abbrev pub triple_change : SpanVec → Span → Span → SpanVec → SpanCoalesced → Change
triple_change rp l r post (overlap s) = changed (length rp + 1) s (rev_append rp (s ∷ post))
triple_change rp l r post (identity_overlap s) = unchanged (rev_append rp (l ∷ r ∷ post))
triple_change rp l r post (left_identity_overlap a s) =
    changed (length rp + 1) s (rev_append rp (s ∷ post))
triple_change rp l r post (right_identity_overlap s b) =
    changed (length rp + 1) s (rev_append rp (s ∷ post))
triple_change rp l r post (left_identity a b) = unchanged (rev_append rp (l ∷ r ∷ post))
triple_change rp l r post (right_identity a b) = unchanged (rev_append rp (l ∷ r ∷ post))
triple_change rp l r post (left_overlap s b) = changed (length rp) s (rev_append rp (s ∷ r ∷ post))
triple_change rp l r post (right_overlap a s) =
    changed (length rp + 1) s (rev_append rp (l ∷ s ∷ post))
triple_change rp l r post (disjoint a s b) = unchanged (rev_append rp (l ∷ s ∷ r ∷ post))

apply_triple-eq :
    (rp : SpanVec) (l r : Span) (post : SpanVec) (c : SpanCoalesced)
    → IsRegular c
    → apply_triple (rev_append rp (l ∷ r ∷ post)) (length rp) c ≡ some (triple_change rp l r post c)
unfolding apply_triple
apply_triple-eq rp l r post (overlap s) h =
    rw (remove_at-rev_append rp (l ∷ r ∷ post) 1) (rw (set_at rp l s post))
apply_triple-eq rp l r post (identity_overlap s) h = absurd h
apply_triple-eq rp l r post (left_identity_overlap a s) h =
    rw (set_at rp l s (r ∷ post)) (rw (remove_at-rev_append rp (s ∷ r ∷ post) 1))
apply_triple-eq rp l r post (right_identity_overlap s b) h =
    rw (set_at rp l s (r ∷ post)) (rw (remove_at-rev_append rp (s ∷ r ∷ post) 1))
apply_triple-eq rp l r post (left_identity a b) h = refl
apply_triple-eq rp l r post (right_identity a b) h = refl
apply_triple-eq rp l r post (left_overlap s b) h = rw (set_at rp l s (r ∷ post))
apply_triple-eq rp l r post (right_overlap a s) h = rw (set-rev_append rp (l ∷ r ∷ post) 1 s)
apply_triple-eq rp l r post (disjoint a s b) h = rw (insert_at-rev_append rp (l ∷ r ∷ post) 1 s)

-- The new span between two.
pub step_between :
    (rp : SpanVec) (l e r : Span) (post : SpanVec) (c : SpanCoalesced)
    → coalesce e l r ≡ some c
    → IsRegular c
    → merge_in_span (rev_append rp (l ∷ r ∷ post)) e (length rp + 1)
      ≡ some (triple_change rp l r post c)
unfolding merge_in_span
step_between rp l e r post c p h = rw (window_between rp l r post) (
    rw (get_at rp l (r ∷ post), get_elem?-rev_append rp (l ∷ r ∷ post) 1, p)
      (apply_triple-eq rp l r post c h))

pub step_end_self :
    (rp : SpanVec) (m : Span)
    → merge_in_span (rev_append rp (m ∷ [])) m (length rp + 1)
      ≡ some (unchanged (rev_append rp (m ∷ [])))
unfolding merge_in_span
step_end_self rp m = rw (window_at_end rp m) (rw (get_at rp m [], merge_self m))
