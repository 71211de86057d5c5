-- ===== src/State/SpanVec/Spaced.antt =====
-- Valid spans with free bytes between them: nothing is left to merge.
use logdna_agent_v.Base.{
  ℕ, suc, ◌+◌, ◌≤◌, ◌<◌, ◌≡◌, inl, inr, [], ◌∷◌, arith, false, Bool-cases, rev_append,
}
use logdna_agent_v.State.Span.{Span}
use logdna_agent_v.State.Span.Merge.{IsValid, reaches, union, union-IsValid}
use logdna_agent_v.State.SpanVec.{SpanVec}
use logdna_agent_v.State.SpanVec.Place.{Rising, Falling, absorb, settle}

-- Spans with at least one byte free between two of them, from `b` on: nothing is left to merge.
abbrev pub Spaced : ℕ → SpanVec → Type 0
Spaced b [] = Unit
Spaced b (x ∷ xs) = (b ≤ x.start) × IsValid x × Spaced (x.end + 2) xs

pub Spaced-Rising : (a b : ℕ) (xs : SpanVec) → Spaced b xs → a ≤ b → Rising a xs
Spaced-Rising a b [] s h = tt
Spaced-Rising a b (x ∷ xs) s h =
    let v = s.1 in (omega arith, s.1, Spaced-Rising (suc x.start) (x.end + 2) xs s.2 (omega arith))

-- A prefix in reverse order, with free bytes between its spans and below `b`.
abbrev pub SpacedBack : ℕ → SpanVec → Type 0
SpacedBack b [] = Unit
SpacedBack b (x ∷ rp) = (x.end + 1 < b) × IsValid x × SpacedBack x.start rp

pub SpacedBack-mono : {a b : ℕ} (rp : SpanVec) → SpacedBack a rp → a ≤ b → SpacedBack b rp
SpacedBack-mono [] d h = tt
SpacedBack-mono (x ∷ rp) d h = (omega arith, d.1, d.2)

pub SpacedBack-Falling : (a b : ℕ) (rp : SpanVec) → SpacedBack b rp → b ≤ a → Falling a rp
SpacedBack-Falling a b [] d h = tt
SpacedBack-Falling a b (x ∷ rp) d h =
    let v = d.1 in (omega arith, d.1, SpacedBack-Falling x.start x.start rp d.2 (omega arith))

pub rev_append-Spaced :
    (rp : SpanVec) (m : Span) (ys : SpanVec)
    → SpacedBack m.start rp
    → IsValid m
    → Spaced (m.end + 2) ys
    → Spaced 0 (rev_append rp (m ∷ ys))
rev_append-Spaced [] m ys d v s = (omega arith, v, s)
rev_append-Spaced (k ∷ rp) m ys d v s = rev_append-Spaced rp k (m ∷ ys) d.2 d.1 (omega arith, v, s)

pub Spaced-rest : (rp ys : SpanVec) (b : ℕ) → Spaced b (rev_append rp ys) → (c : ℕ) × Spaced c ys
Spaced-rest [] ys b s = (b, s)
Spaced-rest (k ∷ rp) ys b s = let (c, t) = Spaced-rest rp (k ∷ ys) b s in (k.end + 2, t.2)

pub apart :
    (m r : Span) (post : SpanVec)
    → reaches m r ≡ false
    → IsValid r
    → Spaced (r.end + 2) post
    → Spaced (m.end + 2) (r ∷ post)
apart m r post h v s = (ground arith, v, s)

pub absorb-Spaced :
    (rp : SpanVec) (m : Span) (post : SpanVec) (b : ℕ)
    → SpacedBack m.start rp
    → IsValid m
    → Spaced b post
    → Spaced 0 (rev_append rp (absorb m post))
absorb-Spaced rp m [] b d v s = rev_append-Spaced rp m [] d v tt
absorb-Spaced rp m (r ∷ post) b d v s = elim (Bool-cases (reaches m r)) [
  | inl hit ↦ rw hit (absorb-Spaced rp (union m r) post (r.end + 2) d (union-IsValid v s.1) s.2)
  | inr miss ↦ rw miss (rev_append-Spaced rp m (r ∷ post) d v (apart m r post miss s.1 s.2))
]

pub no_reach : (k m : Span) → k.end + 1 < m.start → reaches k m ≡ false
no_reach k m h = ground arith

pub settle-Spaced :
    (rp : SpanVec) (m : Span) (post : SpanVec)
    → SpacedBack m.start rp
    → IsValid m
    → Spaced (m.end + 2) post
    → Spaced 0 (settle rp m post)
settle-Spaced [] m post d v s = (omega arith, v, s)
settle-Spaced (k ∷ rp) m post d v s =
    rw (no_reach k m d.0) (rev_append-Spaced (k ∷ rp) m post d v s)
