-- ===== src/State/SpanVec/Contains.antt =====
-- `SpanVec::contains` on spans with free bytes between them.
use logdna_agent_v.Base.{
  ℕ, suc, ◌+◌, ◌≤◌, ◌<◌, ◌≡◌, ◌↔◌, refl, inl, inr, true, false, ◌||◌, not, [], ◌∷◌, arith,
  Bool-cases, ltb,
}
use logdna_agent_v.State.Span.{Span}
use logdna_agent_v.State.Span.Merge.{IsValid}
use logdna_agent_v.State.SpanVec.{SpanVec, contains}
use logdna_agent_v.State.SpanVec.Place.{Rising}
use logdna_agent_v.State.SpanVec.Spaced.{Spaced, Spaced-Rising}
use logdna_agent_v.State.SpanVec.Cover.{in_span, covers}

pub covers_below : (b p : ℕ) (xs : SpanVec) → Rising b xs → p < b → covers xs p ≡ false
covers_below b p [] s h = refl
covers_below b p (x ∷ xs) s h = ground (arith, covers_below (suc x.start) p xs s.2)

contains_sound :
    (spans : SpanVec) (other : Span)
    → contains spans other ≡ true
    → (p : ℕ) → other.start ≤ p
    → p ≤ other.end
    → covers spans p ≡ true
unfolding contains
contains_sound [] other h p lo hi = cc
contains_sound (x ∷ spans) other h p lo hi =
    ground (arith, λ (c : contains spans other ≡ true). contains_sound spans other c p lo hi)

contains_complete :
    (b : ℕ) (spans : SpanVec) (other : Span)
    → IsValid other
    → Spaced b spans
    → ((p : ℕ) → other.start ≤ p → p ≤ other.end → covers spans p ≡ true)
    → contains spans other ≡ true
unfolding contains
contains_complete b [] other v s h = cc (h other.start (omega arith) v.ordered)
contains_complete b (x ∷ spans) other v s h = elim (Bool-cases (ltb x.end other.start)) [
  | inl behind ↦
      let rest =
        contains_complete (x.end + 2) spans other v s.2 (λ p lo hi. ground (arith, h p lo hi)) in
      rw rest (ground arith)
  | inr meets ↦
      let r = Spaced-Rising (x.end + 2) (x.end + 2) spans s.2 (omega arith) in
      ground (
        arith,
        h other.start,
        h (x.end + 1),
        covers_below (x.end + 2) other.start spans r,
        covers_below (x.end + 2) (x.end + 1) spans r,
      )
]

-- For valid spans with free bytes between them, `contains` holds exactly of the valid spans whose
-- every byte is covered.
pub contains_iff :
    (spans : SpanVec) (other : Span)
    → IsValid other
    → Spaced 0 spans
    → (contains spans other ≡ true) ↔ ((p : ℕ) → (not (in_span other p) || covers spans p) ≡ true)
contains_iff spans other v s = (
  λ c p. ground (arith, contains_sound spans other c p),
  λ h. contains_complete 0 spans other v s (λ p lo hi. ground (arith, h p)),
)
