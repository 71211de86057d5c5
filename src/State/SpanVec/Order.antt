-- ===== src/State/SpanVec/Order.antt =====
-- `SpanVec::insert` keeps the spans valid and in the order of their starts.
use logdna_agent_v.Base.{
  ℕ, suc, ◌≤◌, ◌≡◌, inl, inr, [], ◌∷◌, arith, false, Bool-cases, ltb, ltb→lt, rev_append,
}
use logdna_agent_v.State.Span.{Span, span_eq}
use logdna_agent_v.State.Span.Merge.{IsValid, reaches, union, union-IsValid}
use logdna_agent_v.State.SpanVec.{SpanVec}
use logdna_agent_v.State.SpanVec.Place.{
  Rising, Falling, Rising-mono, Falling-mono, absorb, settle, place, walk,
}

rev_append-Rising :
    (rp : SpanVec) (m : Span) (ys : SpanVec)
    → Falling m.start rp
    → IsValid m
    → Rising (suc m.start) ys
    → Rising 0 (rev_append rp (m ∷ ys))
rev_append-Rising [] m ys d v s = (omega arith, v, s)
rev_append-Rising (k ∷ rp) m ys d v s = rev_append-Rising rp k (m ∷ ys) d.2 d.1 (d.0, v, s)

absorb-Rising :
    (rp : SpanVec) (m : Span) (post : SpanVec)
    → Falling m.start rp
    → IsValid m
    → Rising (suc m.start) post
    → Rising 0 (rev_append rp (absorb m post))
absorb-Rising rp m [] d v s = rev_append-Rising rp m [] d v tt
absorb-Rising rp m (r ∷ post) d v s = elim (Bool-cases (reaches m r)) [
  | inl hit ↦ rw hit (
      absorb-Rising rp (union m r) post d (union-IsValid v s.1)
        (Rising-mono post s.2 (omega arith)))
  | inr miss ↦ rw miss (rev_append-Rising rp m (r ∷ post) d v s)
]

settle-Rising :
    (rp : SpanVec) (m : Span) (post : SpanVec)
    → Falling m.start rp
    → IsValid m
    → Rising (suc m.start) post
    → Rising 0 (settle rp m post)
settle-Rising [] m post d v s = (omega arith, v, s)
settle-Rising (k ∷ rp) m post d v s = elim (Bool-cases (reaches k m)) [
  | inl hit ↦ rw hit (
      absorb-Rising rp (union k m) post d.2 (union-IsValid d.1 v)
        (Rising-mono post s (omega arith)))
  | inr miss ↦ rw miss (rev_append-Rising rp k (m ∷ post) d.2 d.1 (d.0, v, s))
]

-- Two spans that start at one byte are equal, or the first reaches the second.
later : (e x : Span) → IsValid e → e.start ≤ x.start → reaches e x ≡ false → suc e.start ≤ x.start
later e x v h p = ground arith

place-Rising :
    (rp : SpanVec) (e : Span) (ys : SpanVec)
    → Falling e.start rp
    → IsValid e
    → Rising e.start ys
    → Rising 0 (place rp e ys)
place-Rising [] e [] d v s = (omega arith, v, tt)
place-Rising [] e (x ∷ ys) d v s = elim (Bool-cases (span_eq e x)) [
  | inl same ↦ rw same (omega arith, s.1, s.2)
  | inr other ↦ elim (Bool-cases (reaches e x)) [
    | inl hit ↦ rw (other, hit) (omega arith, union-IsValid v s.1, Rising-mono ys s.2 (omega arith))
    | inr apart ↦ rw (other, apart) (omega arith, v, (later e x v s.0 apart, s.1, s.2))
  ]
]
place-Rising (l ∷ rp) e [] d v s = elim (Bool-cases (reaches l e)) [
  | inl hit ↦ rw hit (rev_append-Rising rp (union l e) [] d.2 (union-IsValid d.1 v) tt)
  | inr miss ↦ rw miss (rev_append-Rising (l ∷ rp) e [] d v tt)
]
place-Rising (l ∷ rp) e (r ∷ post) d v s = elim (Bool-cases (reaches l e)) [
  | inl hit ↦ elim (Bool-cases (reaches (union l e) r)) [
    | inl far ↦
        rw (hit, far)
          (absorb-Rising rp (union (union l e) r) post d.2 (union-IsValid (union-IsValid d.1 v) s.1)
            (Rising-mono post s.2 (omega arith)))
    | inr near ↦
        rw (hit, near)
          (settle-Rising rp (union l e) (r ∷ post) d.2 (union-IsValid d.1 v)
            (omega arith, s.1, s.2))
  ]
  | inr miss ↦ elim (Bool-cases (span_eq e r)) [
    | inl same ↦ rw (miss, same) (rev_append-Rising (l ∷ rp) r post (omega arith, d.1, d.2) s.1 s.2)
    | inr other ↦ elim (Bool-cases (reaches e r)) [
      | inl hit ↦
          rw (miss, other, hit)
            (rev_append-Rising (l ∷ rp) (union e r) post d (union-IsValid v s.1)
              (Rising-mono post s.2 (omega arith)))
      | inr apart ↦
          rw (miss, other, apart)
            (rev_append-Rising (l ∷ rp) e (r ∷ post) d v (later e r v s.0 apart, s.1, s.2))
    ]
  ]
]

pub walk-Rising :
    (rp : SpanVec) (e : Span) (ys : SpanVec) (b : ℕ)
    → Falling e.start rp
    → Falling b rp
    → IsValid e
    → Rising b ys
    → Rising 0 (walk rp e ys)
walk-Rising rp e [] b d d' v s = place-Rising rp e [] d v tt
walk-Rising rp e (x ∷ ys) b d d' v s = elim (Bool-cases (ltb x.start e.start)) [
  | inl before ↦ rw before (
      walk-Rising (x ∷ rp) e ys (suc x.start) (ltb→lt _ _ before, s.1, Falling-mono rp d' s.0)
        (omega arith, s.1, Falling-mono rp d' s.0) v s.2)
  | inr behind ↦ rw behind (place-Rising rp e (x ∷ ys) d v (ground arith, s.1, s.2))
]
