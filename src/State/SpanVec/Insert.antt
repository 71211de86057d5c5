-- ===== src/State/SpanVec/Insert.antt =====
-- What `SpanVec::insert` and a series of insertions promise.
use logdna_agent_v.Base.{ℕ, ◌≡◌, refl, ◌∙◌, ◌||◌, some, List, [], ◌∷◌, arith}
use logdna_agent_v.State.Span.{Span}
use logdna_agent_v.State.Span.Merge.{IsValid}
use logdna_agent_v.State.SpanVec.{SpanVec, insert, from_iter}
use logdna_agent_v.State.SpanVec.Place.{Rising, walk}
use logdna_agent_v.State.SpanVec.Loop.{insert-walk}
use logdna_agent_v.State.SpanVec.Cover.{in_span, covers, covers-walk}
use logdna_agent_v.State.SpanVec.Order.{walk-Rising}

-- On valid spans in the order of their starts `insert` ends within its fuel and does not panic. The
-- result is again valid and in order, and covers the bytes that the vector or the new span covers,
-- and no others.
pub insert-covers :
    (spans : SpanVec) (elem : Span)
    → IsValid elem
    → Rising 0 spans
    → (out : SpanVec) × (insert spans elem ≡ some out)
      × Rising 0 out
      × ((p : ℕ) → covers out p ≡ (covers spans p || in_span elem p))
insert-covers spans elem v s = (
  walk [] elem spans,
  insert-walk spans elem v s,
  walk-Rising [] elem spans 0 tt tt v s,
  λ p. covers-walk [] elem spans 0 p tt tt v s ∙ ground arith,
)

abbrev pub AllValid : SpanVec → Type 0
AllValid [] = Unit
AllValid (x ∷ xs) = IsValid x × AllValid xs

pub from_iter-grows :
    (ret : SpanVec) (items : List Span)
    → Rising 0 ret
    → AllValid items
    → (out : SpanVec) × (from_iter ret items ≡ some out)
      × Rising 0 out
      × ((p : ℕ) → covers out p ≡ (covers ret p || covers items p))
unfolding from_iter
from_iter-grows ret [] s v = (ret, refl, s, λ p. ground arith)
from_iter-grows ret (x ∷ items) s v =
    let (mid, e, s', c) = insert-covers ret x v.0 s in
    let (out, e', s'', c') = from_iter-grows mid items s' v.1 in
    (out, rw e e', s'', λ p. c' p ∙ rw (c p) (ground arith))

-- Collecting valid spans, in any order, ends with a vector in order that covers the bytes of these
-- spans, and no others.
pub from_iter-covers :
    (items : List Span)
    → AllValid items
    → (out : SpanVec) × (from_iter [] items ≡ some out)
      × Rising 0 out
      × ((p : ℕ) → covers out p ≡ covers items p)
from_iter-covers items v = let (out, e, s, c) = from_iter-grows [] items tt v in (out, e, s, c)
