-- ===== src/State/SpanVec/Cover.antt =====
-- The bytes that a vector of spans covers. A span covers the bytes from its start to its end, both
-- included.
use logdna_agent_v.Base.{
  ℕ, suc, ◌≤◌, ◌<◌, ◌≡◌, refl, ◌∙◌, inl, inr, Bool, true, false, ◌&&◌, ◌||◌, [], ◌∷◌, arith,
  Bool-cases, leb, ltb, ltb→lt, rev_append, if◌then◌else◌,
}
use logdna_agent_v.State.Span.{Span, span_eq}
use logdna_agent_v.State.Span.Merge.{IsValid, reaches, union, union-IsValid}
use logdna_agent_v.State.SpanVec.{SpanVec}
use logdna_agent_v.State.SpanVec.Place.{
  Rising, Falling, Rising-mono, Falling-mono, absorb, settle, place, walk,
}

abbrev pub in_span : Span → ℕ → Bool
in_span s p = leb s.start p && leb p s.end

abbrev pub covers : SpanVec → ℕ → Bool
covers [] p = false
covers (x ∷ xs) p = in_span x p || covers xs p

in_span-union :
    (a b : Span) (p : ℕ)
    → IsValid a
    → IsValid b
    → a.start ≤ b.start
    → reaches a b ≡ true
    → in_span (union a b) p ≡ (in_span a p || in_span b p)
in_span-union a b p v w h r = ground arith

covers-rev_append :
    (rp ys : SpanVec) (p : ℕ) → covers (rev_append rp ys) p ≡ (covers rp p || covers ys p)
covers-rev_append [] ys p = refl
covers-rev_append (x ∷ rp) ys p = covers-rev_append rp (x ∷ ys) p ∙ ground arith

covers-absorb :
    (m : Span) (post : SpanVec) (p : ℕ)
    → IsValid m
    → Rising (suc m.start) post
    → covers (absorb m post) p ≡ (in_span m p || covers post p)
covers-absorb m [] p v s = refl
covers-absorb m (r ∷ post) p v s = elim (Bool-cases (reaches m r)) [
  | inl hit ↦ rw hit (
      covers-absorb (union m r) post p (union-IsValid v s.1) (Rising-mono post s.2 (omega arith))
      ∙ rw (in_span-union m r p v s.1 (omega arith) hit) (ground arith))
  | inr miss ↦ rw miss refl
]

-- The prefix `rp`, the new span and the rest, each in its place.
abbrev Merges : SpanVec → Span → SpanVec → SpanVec → ℕ → Type 0
Merges rp e ys out p = covers out p ≡ (covers rp p || (in_span e p || covers ys p))

covers-settle :
    (rp : SpanVec) (m : Span) (post : SpanVec) (p : ℕ)
    → Falling m.start rp
    → IsValid m
    → Rising (suc m.start) post
    → Merges rp m post (settle rp m post) p
covers-settle [] m post p d v s = refl
covers-settle (k ∷ rp) m post p d v s = elim (Bool-cases (reaches k m)) [
  | inl hit ↦ rw hit (
      covers-rev_append rp (absorb (union k m) post) p
      ∙ rw
          (covers-absorb (union k m) post p (union-IsValid d.1 v)
            (Rising-mono post s (omega arith)))
          (rw (in_span-union k m p d.1 v (omega arith) hit) (ground arith)))
  | inr miss ↦ rw miss (covers-rev_append rp (k ∷ m ∷ post) p ∙ ground arith)
]

regroup : (a b c d : Bool) → ((a || b) || (c || d)) ≡ (b || (c || (a || d)))
regroup a b c d = ground arith

regroup_left : (a b c d e : Bool) → (a || (((b || c) || d) || e)) ≡ ((b || a) || (c || (d || e)))
regroup_left a b c d e = ground arith

regroup_near : (a b c d : Bool) → (a || ((b || c) || d)) ≡ ((b || a) || (c || d))
regroup_near a b c d = ground arith

regroup_right : (a b c d e : Bool) → (a || (b || ((c || d) || e))) ≡ ((b || a) || (c || (d || e)))
regroup_right a b c d e = ground arith

covers-left :
    (rp : SpanVec) (l e r : Span) (post : SpanVec) (p : ℕ)
    → Falling l.start rp
    → IsValid l
    → IsValid e
    → IsValid r
    → l.start < e.start
    → e.start ≤ r.start
    → Rising (suc r.start) post
    → reaches l e ≡ true
    → Merges
        (l ∷ rp)
        e
        (r ∷ post)
        (if reaches (union l e) r
          then rev_append rp (absorb (union (union l e) r) post)
          else settle rp (union l e) (r ∷ post))
        p
covers-left rp l e r post p d vl ve vr le er s hit =
    let joined : in_span (union l e) p ≡ (in_span l p || in_span e p) =
      in_span-union l e p vl ve (omega arith) hit in
    elim (Bool-cases (reaches (union l e) r)) [
      | inl far ↦ rw far (
          covers-rev_append rp (absorb (union (union l e) r) post) p
          ∙ rw
              (covers-absorb (union (union l e) r) post p (union-IsValid (union-IsValid vl ve) vr)
                (Rising-mono post s (omega arith)))
              (rw (in_span-union (union l e) r p (union-IsValid vl ve) vr (omega arith) far) (
                rw joined (
                  regroup_left (covers rp p) (in_span l p) (in_span e p) (in_span r p)
                    (covers post p)))))
      | inr near ↦ rw near (
          covers-settle rp (union l e) (r ∷ post) p d (union-IsValid vl ve) (omega arith, vr, s)
          ∙ rw joined
              (regroup_near (covers rp p) (in_span l p) (in_span e p) (covers (r ∷ post) p)))
    ]

covers-right :
    (rp : SpanVec) (l e r : Span) (post : SpanVec) (p : ℕ)
    → IsValid e
    → IsValid r
    → e.start ≤ r.start
    → Merges
        (l ∷ rp)
        e
        (r ∷ post)
        (if span_eq e r
          then rev_append rp (l ∷ r ∷ post)
          else if reaches e r
          then rev_append rp (l ∷ union e r ∷ post)
          else rev_append rp (l ∷ e ∷ r ∷ post))
        p
covers-right rp l e r post p ve vr er = elim (Bool-cases (span_eq e r)) [
  | inl same ↦ rw same (covers-rev_append rp (l ∷ r ∷ post) p ∙ ground arith)
  | inr other ↦ elim (Bool-cases (reaches e r)) [
    | inl hit ↦
        rw (other, hit)
          (covers-rev_append rp (l ∷ union e r ∷ post) p
            ∙ rw (in_span-union e r p ve vr er hit) (
                regroup_right (covers rp p) (in_span l p) (in_span e p) (in_span r p)
                  (covers post p)))
    | inr apart ↦ rw (other, apart) (covers-rev_append rp (l ∷ e ∷ r ∷ post) p ∙ ground arith)
  ]
]

covers-place :
    (rp : SpanVec) (e : Span) (ys : SpanVec) (p : ℕ)
    → Falling e.start rp
    → IsValid e
    → Rising e.start ys
    → Merges rp e ys (place rp e ys) p
covers-place [] e [] p d v s = refl
covers-place [] e (x ∷ ys) p d v s = ground (arith, in_span-union e x p v s.1 s.0)
covers-place (l ∷ rp) e [] p d v s = ground (
  arith,
  in_span-union l e p d.1 v,
  covers-rev_append rp (union l e ∷ []) p,
  covers-rev_append rp (l ∷ e ∷ []) p,
)
covers-place (l ∷ rp) e (r ∷ post) p d v s = elim (Bool-cases (reaches l e)) [
  | inl hit ↦ rw hit (covers-left rp l e r post p d.2 d.1 v s.1 d.0 s.0 s.2 hit)
  | inr miss ↦ rw miss (covers-right rp l e r post p v s.1 s.0)
]

pub covers-walk :
    (rp : SpanVec) (e : Span) (ys : SpanVec) (b p : ℕ)
    → Falling e.start rp
    → Falling b rp
    → IsValid e
    → Rising b ys
    → Merges rp e ys (walk rp e ys) p
covers-walk rp e [] b p d d' v s = covers-place rp e [] p d v tt
covers-walk rp e (x ∷ ys) b p d d' v s = elim (Bool-cases (ltb x.start e.start)) [
  | inl before ↦ rw before (
      covers-walk (x ∷ rp) e ys (suc x.start) p (ltb→lt _ _ before, s.1, Falling-mono rp d' s.0)
        (omega arith, s.1, Falling-mono rp d' s.0) v s.2
      ∙ regroup (in_span x p) (covers rp p) (in_span e p) (covers ys p))
  | inr behind ↦ rw behind (covers-place rp e (x ∷ ys) p d v (ground arith, s.1, s.2))
]
