-- ===== src/State/SpanVec/Spacing.antt =====
-- Which insertions leave nothing to merge: a span that touches one in front of it takes in all that
-- it reaches, and any other is merged with one span behind it at most.
use logdna_agent_v.Base.{
  ℕ, ◌+◌, ◌≤◌, ◌<◌, ◌≡◌, ◌↔◌, sym, subst, inl, inr, some, [], ◌∷◌, arith, true, false, Bool-cases,
  ltb, ltb→lt, rev_append, if◌then◌else◌,
}
use logdna_agent_v.State.Span.{Span, span_eq}
use logdna_agent_v.State.Span.Merge.{IsValid, reaches, union, union-IsValid}
use logdna_agent_v.State.SpanVec.{SpanVec, insert}
use logdna_agent_v.State.SpanVec.Place.{Rising, Falling, place, walk}
use logdna_agent_v.State.SpanVec.Loop.{insert-walk}
use logdna_agent_v.State.SpanVec.Spaced.{
  SpacedBack, SpacedBack-mono, SpacedBack-Falling, rev_append-Spaced, Spaced-rest, apart,
  absorb-Spaced, no_reach, settle-Spaced, Spaced, Spaced-Rising,
}

-- `elem` reaches the first of these spans at most.
abbrev pub MeetsOne : Span → SpanVec → Type 0
MeetsOne e [] = Unit
MeetsOne e (r ∷ []) = Unit
MeetsOne e (r ∷ q ∷ post) = e.end + 1 < q.start

-- A span that starts before `elem` reaches it, or `elem` reaches one span behind it at most.
abbrev pub Tidy : Span → SpanVec → Type 0
Tidy e [] = Unit
Tidy e (x ∷ xs) =
    let rest = Tidy e xs in
    if ltb x.start e.start then (if reaches x e then Unit else rest) else MeetsOne e (x ∷ xs)

-- The same at the place of `elem`, behind the prefix.
abbrev TidyAt : SpanVec → Span → SpanVec → Type 0
TidyAt [] e ys = MeetsOne e ys
TidyAt (l ∷ rp) e ys = if reaches l e then Unit else MeetsOne e ys

union_apart :
    (e r : Span) (post : SpanVec)
    → MeetsOne e (r ∷ post)
    → Spaced (r.end + 2) post
    → Spaced ((union e r).end + 2) post
union_apart e r [] h s = tt
union_apart e r (q ∷ post) h s = (omega arith, s.1, s.2)

-- `elem` on its own, in front of `r`.
abbrev front : SpanVec → Span → Span → SpanVec → SpanVec
front rp e r post =
    if span_eq e r
    then rev_append rp (r ∷ post)
    else if reaches e r
    then rev_append rp (union e r ∷ post)
    else rev_append rp (e ∷ r ∷ post)

front-Spaced :
    (rp : SpanVec) (e r : Span) (post : SpanVec)
    → SpacedBack e.start rp
    → IsValid e
    → e.start ≤ r.start
    → IsValid r
    → Spaced (r.end + 2) post
    → MeetsOne e (r ∷ post)
    → Spaced 0 (front rp e r post)
front-Spaced rp e r post d v h w s t = elim (Bool-cases (span_eq e r)) [
  | inl same ↦ rw same (rev_append-Spaced rp r post (SpacedBack-mono rp d h) w s)
  | inr other ↦ elim (Bool-cases (reaches e r)) [
    | inl hit ↦
        rw (other, hit)
          (rev_append-Spaced rp (union e r) post d (union-IsValid v w) (union_apart e r post t s))
    | inr miss ↦ rw (other, miss) (rev_append-Spaced rp e (r ∷ post) d v (apart e r post miss w s))
  ]
]

front-MeetsOne :
    (rp : SpanVec) (e r : Span) (post : SpanVec)
    → Spaced 0 (front rp e r post)
    → MeetsOne e (r ∷ post)
front-MeetsOne rp e r [] = λ s. tt
front-MeetsOne rp e r (q ∷ post) = elim (Bool-cases (span_eq e r)) [
  | inl same ↦ rw same λ s. let (c, t) = Spaced-rest rp (r ∷ q ∷ post) 0 s in ground arith
  | inr other ↦ elim (Bool-cases (reaches e r)) [
    | inl hit ↦
        rw (other, hit) λ s. let (c, t) = Spaced-rest rp (union e r ∷ q ∷ post) 0 s in omega arith
    | inr miss ↦
        rw (other, miss) λ s. let (c, t) = Spaced-rest rp (e ∷ r ∷ q ∷ post) 0 s in omega arith
  ]
]

behind :
    (l e : Span) (rp : SpanVec)
    → reaches l e ≡ false
    → IsValid l
    → SpacedBack l.start rp
    → SpacedBack e.start (l ∷ rp)
behind l e rp h v d = (ground arith, v, d)

place_iff :
    (rp : SpanVec) (e : Span) (ys : SpanVec) (b : ℕ)
    → Falling e.start rp
    → SpacedBack b rp
    → IsValid e
    → Spaced b ys
    → Rising e.start ys
    → Spaced 0 (place rp e ys) ↔ TidyAt rp e ys
place_iff [] e [] b f d v s o = (λ h. tt, λ h. (omega arith, v, tt))
place_iff [] e (x ∷ ys) b f d v s o =
    (front-MeetsOne [] e x ys, front-Spaced [] e x ys tt v o.0 s.1 s.2)
place_iff (l ∷ rp) e [] b f d v s o = elim (Bool-cases (reaches l e)) [
  | inl hit ↦
      rw hit (λ h. tt, λ h. rev_append-Spaced rp (union l e) [] d.2 (union-IsValid d.1 v) tt)
  | inr miss ↦
      rw miss (λ h. tt, λ h. rev_append-Spaced (l ∷ rp) e [] (behind l e rp miss d.1 d.2) v tt)
]
place_iff (l ∷ rp) e (r ∷ post) b f d v s o = elim (Bool-cases (reaches l e)) [
  | inl hit ↦ elim (Bool-cases (reaches (union l e) r)) [
    | inl far ↦
        rw (hit, far)
          (
            λ h. tt,
            λ h.
                absorb-Spaced rp (union (union l e) r) post (r.end + 2) d.2
                  (union-IsValid (union-IsValid d.1 v) s.1) s.2,
          )
    | inr near ↦
        rw (hit, near)
          (
            λ h. tt,
            λ h.
                settle-Spaced rp (union l e) (r ∷ post) d.2 (union-IsValid d.1 v)
                  (apart (union l e) r post near s.1 s.2),
          )
  ]
  | inr miss ↦ rw miss (
    front-MeetsOne (l ∷ rp) e r post,
    front-Spaced (l ∷ rp) e r post (behind l e rp miss d.1 d.2) v o.0 s.1 s.2,
  )
]

abbrev TidyFrom : SpanVec → Span → SpanVec → Type 0
TidyFrom [] e ys = Tidy e ys
TidyFrom (l ∷ rp) e ys = if reaches l e then Unit else Tidy e ys

tidy_before :
    (rp : SpanVec) (e x : Span) (ys : SpanVec) (b : ℕ)
    → SpacedBack b rp
    → b ≤ x.start
    → ltb x.start e.start ≡ true
    → TidyFrom rp e (x ∷ ys) ≡ TidyFrom (x ∷ rp) e ys
tidy_before [] e x ys b d h before = rw before
tidy_before (l ∷ rp) e x ys b d h before =
    rw (no_reach l e (omega (arith, ltb→lt _ _ before))) (rw before)

tidy_late :
    (rp : SpanVec) (e x : Span) (ys : SpanVec)
    → ltb x.start e.start ≡ false
    → TidyFrom rp e (x ∷ ys) ≡ TidyAt rp e (x ∷ ys)
tidy_late [] e x ys late = rw late
tidy_late (l ∷ rp) e x ys late = rw late

walk_iff :
    (rp : SpanVec) (e : Span) (ys : SpanVec) (b : ℕ)
    → Falling e.start rp
    → SpacedBack b rp
    → IsValid e
    → Spaced b ys
    → Spaced 0 (walk rp e ys) ↔ TidyFrom rp e ys
walk_iff [] e [] b f d v s = place_iff [] e [] b f d v s tt
walk_iff (l ∷ rp) e [] b f d v s = place_iff (l ∷ rp) e [] b f d v s tt
walk_iff rp e (x ∷ ys) b f d v s = elim (Bool-cases (ltb x.start e.start)) [
  | inl before ↦
      subst (λ T. Spaced 0 (walk rp e (x ∷ ys)) ↔ T) (sym (tidy_before rp e x ys b d s.0 before))
        (rw before (
          walk_iff (x ∷ rp) e ys (x.end + 2)
            (ltb→lt _ _ before, s.1, SpacedBack-Falling x.start b rp d s.0)
            (omega arith, s.1, SpacedBack-mono rp d s.0) v s.2))
  | inr late ↦
      subst (λ T. Spaced 0 (walk rp e (x ∷ ys)) ↔ T) (sym (tidy_late rp e x ys late))
        (rw late (
          place_iff rp e (x ∷ ys) b f d v s
            (ground arith, s.1, Spaced-Rising _ _ ys s.2 (ground arith))))
]

-- On valid spans with free bytes between them, `insert` leaves free bytes between the spans exactly
-- if a span that starts before the new one touches it, or if the new one reaches one span behind it
-- at most. In any other case spans that overlap or touch stay in the vector.
pub insert-Spaced :
    (spans : SpanVec) (elem : Span)
    → IsValid elem
    → Spaced 0 spans
    → (out : SpanVec) × (insert spans elem ≡ some out) × (Spaced 0 out ↔ Tidy elem spans)
insert-Spaced spans elem v s = (
  walk [] elem spans,
  insert-walk spans elem v (Spaced-Rising 0 0 spans s (omega arith)),
  walk_iff [] elem spans 0 tt tt v s,
)
