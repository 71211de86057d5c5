-- ===== src/State/SpanVec/Loop.antt =====
-- The index loop of `SpanVec::insert` computes the recursion of `Place`, and its fuel is enough.
use native.Mathlib.Numerals.{add-one}
use native.Mathlib.Nat.{add-zero, zero-add}
use logdna_agent_v.Base.{
  ℕ, zero, suc, ◌+◌, ◌≤◌, ◌<◌, ◌≡◌, refl, ◌∙◌, inl, inr, some, [], ◌∷◌, arith, true, false,
  Bool-cases, length, rev_append, ltb, ltb→lt, shift,
}
use logdna_agent_v.State.Span.{
  Span, SpanCoalesced, overlap, left_overlap, right_overlap, disjoint, left_identity,
  right_identity, left_identity_overlap, span_eq, coalesce,
}
use logdna_agent_v.State.Span.Merge.{
  IsValid, reaches, union, union-IsValid, coalesce_between, coalesce_at_left, coalesce_at_right,
}
use logdna_agent_v.State.SpanVec.{
  SpanVec, unchanged, changed, merge_in_span, insert_loop, insert, partition_point,
}
use logdna_agent_v.State.SpanVec.Place.{
  Rising, Falling, Rising-mono, Falling-mono, absorb, settle, place, walk,
}
use logdna_agent_v.State.SpanVec.Step.{
  step_front, step_end, IsRegular, step_end_self, step_between, triple_change,
}

loop_ends :
    (f : ℕ) (xs ys : SpanVec) (e : Span) (i : ℕ)
    → merge_in_span xs e i ≡ some (unchanged ys)
    → insert_loop (suc f) xs e i ≡ some ys
unfolding insert_loop
loop_ends f xs ys e i p = rw (p, insert_loop)

loop_goes_on :
    (f : ℕ) (xs ys : SpanVec) (e m : Span) (i j : ℕ)
    → merge_in_span xs e i ≡ some (changed j m ys)
    → insert_loop (suc f) xs e i ≡ insert_loop f ys m j
unfolding insert_loop
loop_goes_on f xs ys e m i j p = rw (p, insert_loop)

-- At the span that has just been written, to the right.
loop-absorb :
    (f : ℕ) (rp : SpanVec) (m : Span) (post : SpanVec)
    → IsValid m
    → Rising (suc m.start) post
    → length post < f
    → insert_loop f (rev_append rp (m ∷ post)) m (length rp + 1)
      ≡ some (rev_append rp (absorb m post))
loop-absorb zero rp m post v s h = absurd (omega arith)
loop-absorb (suc f) rp m [] v s h = loop_ends f _ _ m _ (step_end_self rp m)
loop-absorb (suc f) rp m (r ∷ post) v s h = elim (Bool-cases (reaches m r)) [
  | inl hit ↦
      loop_goes_on f _ (rev_append rp (union m r ∷ post)) m (union m r) _ (length rp + 1) (
        step_between rp m m r post (left_identity_overlap m (union m r))
          (coalesce_at_left m r v s.1 s.0 ∙ rw hit refl) tt)
      ∙ loop-absorb f rp (union m r) post (union-IsValid v s.1) (Rising-mono post s.2 (omega arith))
          (omega arith)
      ∙ rw hit refl
  | inr miss ↦
      loop_ends f _ _ m _ (
        step_between rp m m r post (left_identity m r)
          (coalesce_at_left m r v s.1 s.0 ∙ rw miss refl) tt)
      ∙ rw miss refl
]

-- At the span that has just been written, to the left.
loop-settle :
    (f : ℕ) (rp : SpanVec) (m : Span) (post : SpanVec)
    → Falling m.start rp
    → IsValid m
    → Rising (suc m.start) post
    → length post + 1 < f
    → insert_loop f (rev_append rp (m ∷ post)) m (length rp) ≡ some (settle rp m post)
loop-settle zero rp m post d v s h = absurd (omega arith)
loop-settle (suc f) [] m post d v s h =
    loop_ends f _ _ m 0 (step_front m m post v v (omega arith)) ∙ ground arith
loop-settle (suc f) (k ∷ rp) m post d v s h =
    rw (← add-one (length rp)) (elim (Bool-cases (reaches k m)) [
      | inl hit ↦
          loop_goes_on f _ (rev_append rp (union k m ∷ post)) m (union k m) _ (length rp + 1) (
            step_between rp k m m post (overlap (union k m))
              (coalesce_at_right k m d.1 v d.0 ∙ rw hit refl) tt)
          ∙ loop-absorb f rp (union k m) post (union-IsValid d.1 v)
              (Rising-mono post s (omega arith)) (omega arith)
          ∙ rw hit refl
      | inr miss ↦
          loop_ends f _ _ m _ (
            step_between rp k m m post (right_identity k m)
              (coalesce_at_right k m d.1 v d.0 ∙ rw miss refl) tt)
          ∙ rw miss refl
    ])

-- The new span right behind `l` and in front of `r`, by what it reaches.
module _ (f : ℕ) (rp : SpanVec) (l e r : Span) (post : SpanVec) (d : Falling l.start rp)
    (vl : IsValid l) (ve : IsValid e) (vr : IsValid r) (le : l.start < e.start)
    (er : e.start ≤ r.start) (s : Rising (suc r.start) post) (fuel : length post + 3 < f) where
  between :
      (c : SpanCoalesced)
      → coalesce e l r ≡ some c
      → IsRegular c
      → merge_in_span (rev_append rp (l ∷ r ∷ post)) e (length rp + 1)
        ≡ some (triple_change rp l r post c)
  between c p h = step_between rp l e r post c p h

  loop-left :
      reaches l e ≡ true
      → insert_loop (suc f) (rev_append rp (l ∷ r ∷ post)) e (length rp + 1)
        ≡ some (place (l ∷ rp) e (r ∷ post))
  loop-left hit = elim (Bool-cases (reaches (union l e) r)) [
    | inl far ↦
        loop_goes_on f _ _ e (union (union l e) r) _ _ (
          between (overlap (union (union l e) r))
            (coalesce_between l e r vl ve vr le er ∙ rw (hit, far) refl) tt)
        ∙ loop-absorb f rp (union (union l e) r) post (union-IsValid (union-IsValid vl ve) vr)
            (Rising-mono post s (omega arith)) (omega arith)
        ∙ rw (hit, far) refl
    | inr near ↦
        loop_goes_on f _ _ e (union l e) _ _ (
          between (left_overlap (union l e) r)
            (coalesce_between l e r vl ve vr le er ∙ rw (hit, near) refl) tt)
        ∙ loop-settle f rp (union l e) (r ∷ post) d (union-IsValid vl ve) (omega arith, vr, s)
            (omega arith)
        ∙ rw (hit, near) refl
  ]

  loop-right :
      reaches l e ≡ false
      → insert_loop (suc f) (rev_append rp (l ∷ r ∷ post)) e (length rp + 1)
        ≡ some (place (l ∷ rp) e (r ∷ post))
  loop-right miss = elim (Bool-cases (span_eq e r)) [
    | inl same ↦
        loop_ends f _ _ e _ (
          between (right_identity l e)
            (coalesce_between l e r vl ve vr le er ∙ rw (miss, same) refl) tt)
        ∙ rw (miss, same) refl
    | inr other ↦ elim (Bool-cases (reaches e r)) [
      | inl hit ↦
          loop_goes_on f _ _ e (union e r) _ _ (
            between (right_overlap l (union e r))
              (coalesce_between l e r vl ve vr le er ∙ rw (miss, other, hit) refl) tt)
          ∙ (let settled : insert_loop f (rev_append (l ∷ rp) (union e r ∷ post)) (union e r)
                    (length rp + 1)
                  ≡ some (settle (l ∷ rp) (union e r) post) =
                rw (add-one (length rp)) (
                  loop-settle f (l ∷ rp) (union e r) post (le, vl, d) (union-IsValid ve vr)
                    (Rising-mono post s (omega arith)) (omega arith)) in
              settled)
          ∙ rw (miss, other, hit) refl
      | inr apart ↦
          loop_ends f _ _ e _ (
            between (disjoint l e r)
              (coalesce_between l e r vl ve vr le er ∙ rw (miss, other, apart) refl) tt)
          ∙ rw (miss, other, apart) refl
    ]
  ]

loop-place :
    (f : ℕ) (rp : SpanVec) (e : Span) (ys : SpanVec)
    → Falling e.start rp
    → IsValid e
    → Rising e.start ys
    → length ys + 2 < f
    → insert_loop (suc f) (rev_append rp ys) e (length rp) ≡ some (place rp e ys)
loop-place f [] e [] d v s h = loop_ends f _ _ e 0 (unfold merge_in_span in refl)
loop-place f [] e (x ∷ ys) d v s h = loop_ends f _ _ e 0 (step_front e x ys v s.1 s.0)
loop-place f (l ∷ rp) e [] d v s h =
    rw (← add-one (length rp)) (loop_ends f _ _ e _ (step_end rp l e d.1 v d.0) ∙ ground arith)
loop-place f (l ∷ rp) e (r ∷ post) d v s h =
    rw (← add-one (length rp)) (elim (Bool-cases (reaches l e)) [
      | inl hit ↦ loop-left f rp l e r post d.2 d.1 v s.1 d.0 s.0 s.2 (omega arith) hit
      | inr miss ↦ loop-right f rp l e r post d.2 d.1 v s.1 d.0 s.0 s.2 (omega arith) miss
    ])

-- The search for the place of the new span.
loop-walk :
    (f : ℕ) (rp : SpanVec) (e : Span) (ys : SpanVec) (b : ℕ)
    → Falling e.start rp
    → Falling b rp
    → IsValid e
    → Rising b ys
    → length ys + 2 < f
    → insert_loop
        (suc f)
        (rev_append rp ys)
        e
        (length rp + partition_point (λ x. ltb x.start e.start) ys)
      ≡ some (walk rp e ys)
unfolding partition_point
loop-walk f rp e [] b d d' v s h = rw add-zero (loop-place f rp e [] d v tt h)
loop-walk f rp e (x ∷ ys) b d d' v s h = elim (Bool-cases (ltb x.start e.start)) [
  | inl before ↦
      rw (before, partition_point)
        (rw (← shift (length rp) (partition_point (λ x. ltb x.start e.start) ys)) (
          loop-walk f (x ∷ rp) e ys (suc x.start) (ltb→lt _ _ before, s.1, Falling-mono rp d' s.0)
            (omega arith, s.1, Falling-mono rp d' s.0) v s.2 (omega arith)))
  | inr behind ↦
      rw (behind, partition_point)
        (rw add-zero (loop-place f rp e (x ∷ ys) d v (ground arith, s.1, s.2) h))
]

-- The loop of `SpanVec::insert` ends and does not panic on valid spans that stand in the order of
-- their starts, and it computes the recursion of `Place`.
pub insert-walk :
    (spans : SpanVec) (elem : Span)
    → IsValid elem
    → Rising 0 spans
    → insert spans elem ≡ some (walk [] elem spans)
unfolding insert
insert-walk spans elem v s =
    let p : insert_loop (suc (length spans + 3)) spans elem (0 + point)
        ≡ some (walk [] elem spans) =
      loop-walk (length spans + 3) [] elem spans 0 tt tt v s (omega arith) in
    let fuel : length spans + 4 ≡ suc (length spans + 3) = omega arith in rw fuel (rw zero-add at p)
  where
    point : ℕ
    point = partition_point (λ x. ltb x.start elem.start) spans
