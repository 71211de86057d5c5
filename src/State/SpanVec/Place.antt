-- ===== src/State/SpanVec/Place.antt =====
-- What `SpanVec::insert` computes, as a recursion on the list: walk to the place of the new span,
-- merge it with its neighbours, and absorb what the merged span reaches.
use logdna_agent_v.Base.{ℕ, suc, ◌<◌, ◌≤◌, [], ◌∷◌, arith, ltb, if◌then◌else◌, rev_append}
use logdna_agent_v.State.Span.{Span, span_eq}
use logdna_agent_v.State.Span.Merge.{IsValid, reaches, union}
use logdna_agent_v.State.SpanVec.{SpanVec}

-- Valid spans whose starts rise from `b` on.
abbrev pub Rising : ℕ → SpanVec → Type 0
Rising b [] = Unit
Rising b (x ∷ xs) = (b ≤ x.start) × IsValid x × Rising (suc x.start) xs

-- Valid spans whose starts fall from below `b` on: a prefix in reverse order.
abbrev pub Falling : ℕ → SpanVec → Type 0
Falling b [] = Unit
Falling b (x ∷ rp) = (x.start < b) × IsValid x × Falling x.start rp

pub Rising-mono : {a b : ℕ} (xs : SpanVec) → Rising b xs → a ≤ b → Rising a xs
Rising-mono [] s h = tt
Rising-mono (x ∷ xs) s h = (omega arith, s.1, s.2)

pub Falling-mono : {a b : ℕ} (rp : SpanVec) → Falling a rp → a ≤ b → Falling b rp
Falling-mono [] d h = tt
Falling-mono (x ∷ rp) d h = (omega arith, d.1, d.2)

-- `m` takes in the spans behind it that it reaches.
abbrev pub absorb : Span → SpanVec → SpanVec
absorb m [] = m ∷ []
absorb m (r ∷ post) =
    let rest = absorb (union m r) post in if reaches m r then rest else m ∷ r ∷ post

-- The prefixes `rp` are in reverse order. A span that has grown at its end may be taken in by
-- the one in front of it.
abbrev pub settle : SpanVec → Span → SpanVec → SpanVec
settle [] m post = m ∷ post
settle (k ∷ rp) m post =
    if reaches k m then rev_append rp (absorb (union k m) post) else rev_append (k ∷ rp) (m ∷ post)

abbrev pub place : SpanVec → Span → SpanVec → SpanVec
place [] e [] = e ∷ []
place [] e (x ∷ ys) =
    if span_eq e x then x ∷ ys else if reaches e x then union e x ∷ ys else e ∷ x ∷ ys
place (l ∷ rp) e [] =
    if reaches l e then rev_append rp (union l e ∷ []) else rev_append (l ∷ rp) (e ∷ [])
place (l ∷ rp) e (r ∷ post) =
    if reaches l e
    then (if reaches (union l e) r
        then rev_append rp (absorb (union (union l e) r) post)
        else settle rp (union l e) (r ∷ post))
    else if span_eq e r
    then rev_append (l ∷ rp) (r ∷ post)
    else if reaches e r
    then rev_append (l ∷ rp) (union e r ∷ post)
    else rev_append (l ∷ rp) (e ∷ r ∷ post)

abbrev pub walk : SpanVec → Span → SpanVec → SpanVec
walk rp e [] = place rp e []
walk rp e (x ∷ ys) =
    let rest = walk (x ∷ rp) e ys in if ltb x.start e.start then rest else place rp e (x ∷ ys)
