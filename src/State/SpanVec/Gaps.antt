-- ===== src/State/SpanVec/Gaps.antt =====
-- The gaps between the spans of a vector.
use logdna_agent_v.Base.{
  ℕ, zero, suc, u64_mod, true, ◌≤◌, ◌<◌, ◌≡◌, ◌≢◌, refl, ap, false, inl, inr, ◌==◌, Bool-cases,
  Option, none, some, List, [], ◌∷◌, arith,
}
use logdna_agent_v.State.Span.{Span, Gap}
use logdna_agent_v.State.SpanVec.{SpanVec, before, first_gap, iter_gaps, next_gap, GapsIter}
use logdna_agent_v.State.SpanVec.Place.{Rising}
use logdna_agent_v.State.Span.Merge.{IsValid}
use logdna_agent_v.State.SpanVec.Cover.{covers}
use logdna_agent_v.State.SpanVec.Contains.{covers_below}

-- Every start is a word of 64 bits.
abbrev pub Words : SpanVec → Type 0
Words [] = Unit
Words (x ∷ spans) = (x.start < u64_mod) × Words spans

abbrev pub Inside : ℕ → Gap → Type 0
Inside p g = (g.start < p) × elim g.end [ none ↦ Unit | some end ↦ p ≤ end ]

-- Behind the end of the gap a span goes on, if the gap has an end.
abbrev pub Closed : SpanVec → Gap → Type 0
Closed spans g = elim g.end [ none ↦ Unit | some end ↦ covers spans (suc end) ≡ true ]

first_covered : (x : Span) (spans : SpanVec) → IsValid x → covers (x ∷ spans) x.start ≡ true
first_covered x spans v = ground arith

closed_at :
    (x : Span) (spans : SpanVec)
    → IsValid x
    → 0 < x.start
    → x.start < u64_mod
    → covers (x ∷ spans) (suc (before x.start)) ≡ true
closed_at x spans v h w =
    let same : suc (before x.start) ≡ x.start = omega arith in rw same (first_covered x spans v)

-- For valid spans in order the first gap is this: every byte in front of its start is covered, and no
-- byte of it behind its start is. If it has an end, and the starts of the spans are words of 64 bits,
-- the byte behind its end is covered.
pub first_gap-uncovered :
    (spans : SpanVec)
    → Rising 0 spans
    → ((p : ℕ) → p < (first_gap spans).start → covers spans p ≡ true)
      × ((p : ℕ) → Inside p (first_gap spans) → covers spans p ≡ false)
      × (Words spans → Closed spans (first_gap spans))
unfolding first_gap
first_gap-uncovered [] s = (λ p h. absurd (omega arith), λ p h. refl, λ w. tt)
first_gap-uncovered (x ∷ []) s = elim (Bool-cases (x.start == 0)) [
  | inl e ↦ rw e (λ p h. ground arith, λ p h. ground arith, λ w. tt)
  | inr e ↦
      rw e (
        λ p h. absurd (omega arith),
        λ p h. ground arith,
        λ w. closed_at x [] s.1 (ground arith) w.0,
      )
]
first_gap-uncovered (x ∷ y ∷ spans) s = elim (Bool-cases (x.start == 0)) [
  | inl e ↦ rw e (
    λ p h. ground arith,
    λ p h. ground (arith, covers_below y.start p (y ∷ spans)),
    λ w. ground (arith, closed_at y spans (s.2.1) (omega arith) (w.1.0)),
  )
  | inr e ↦ rw e (
    λ p h. absurd (omega arith),
    λ p h. ground (arith, covers_below y.start p (y ∷ spans)),
    λ w. closed_at x (y ∷ spans) s.1 (ground arith) w.0,
  )
]

-- What the first `n` calls of the iterator give.
unfoldable pub gaps_taken : ℕ → GapsIter → List (Option Gap)
gaps_taken zero st = []
gaps_taken (suc n) st = let (g, st') = next_gap st in g ∷ gaps_taken n st'

abbrev pub same : ℕ → Option Gap → List (Option Gap)
same zero g = []
same (suc n) g = g ∷ same n g

next_gap_stuck :
    (x : Span) (spans : SpanVec)
    → x.start ≢ 0
    → next_gap (record { current = some x; iter = spans }) ≡ (
      some (record { start = 0; end = some (before x.start) }),
      record { current = some x; iter = spans },
    )
unfolding next_gap
next_gap_stuck x spans h = ground arith

-- If the first span does not start at byte 0 the iterator over the gaps does not end: every call
-- gives the gap in front of that span.
pub iter_gaps-repeats :
    (n : ℕ) (x : Span) (spans : SpanVec)
    → x.start ≢ 0
    → gaps_taken n (iter_gaps (x ∷ spans))
      ≡ same n (some (record { start = 0; end = some (before x.start) }))
unfolding gaps_taken iter_gaps
iter_gaps-repeats zero x spans h = refl
iter_gaps-repeats (suc n) x spans h = rw (next_gap_stuck x spans h) (
    ap (◌∷◌ (some (record { start = 0; end = some (before x.start) })))
      (iter_gaps-repeats n x spans h))
