-- ===== src/State/SpanVec.antt =====
-- common/state/src/span.rs: vectors of spans. A vector is a list; a write or a read out of range
-- panics. The loop of `insert` runs on fuel.
pub mod Place
pub mod Cover
pub mod Order
pub mod Insert
pub mod Contains
pub mod Spaced
pub mod Spacing
pub mod Gaps
pub mod Step
pub mod Loop
use mathlib.Core.Option
use logdna_agent_v.Base.{
  ℕ, zero, suc, ◌+◌, ◌-◌, ◌%◌, u64_mod, Bool, ◌&&◌, ◌||◌, true, false, Option, none, some, List, [],
  ◌∷◌, ◌≡◌, refl, ◌>>=◌, ltb, leb, ◌==◌, if◌then◌else◌, length, get_elem?, set, insert_at,
  remove_at,
}
use logdna_agent_v.State.Span.{Span, Gap, MergeResult, SpanCoalesced, merge, coalesce}

abbrev pub SpanVec : Type 0
SpanVec = List Span

pub pop_first : SpanVec → Option Span × SpanVec
pop_first [] = (none, [])
pop_first (s ∷ spans) = (some s, spans)

-- `start - 1`, which wraps at 0.
abbrev pub before : ℕ → ℕ
before start = (start + u64_mod - 1) % u64_mod

next_start : SpanVec → Option ℕ
next_start [] = none
next_start (next ∷ more) = some (before next.start)

unfoldable pub first_gap : SpanVec → Gap
unfolding next_start
first_gap [] = record { start = 0; end = none }
first_gap (first ∷ rest) =
    if first.start == 0
    then record { start = first.end; end = next_start rest }
    else record { start = 0; end = some (before first.start) }

-- The state that the closure of `iter_gaps` keeps: the current span, and those behind it.
pub record GapsIter : Type 0 where
  pub current : Option Span
  pub iter : SpanVec

iter_of : SpanVec → GapsIter
iter_of [] = record { current = none; iter = [] }
iter_of (s ∷ rest) = record { current = some s; iter = rest }

unfoldable pub iter_gaps : SpanVec → GapsIter
unfolding iter_of
iter_gaps spans = iter_of spans

gap_after : Span → GapsIter → Option Gap × GapsIter
gap_after first st = (
  some (record {
    start = first.end;
    end = elim st.current [ none ↦ none | some next ↦ some (before next.start) ];
  }),
  st,
)

unfoldable pub next_gap : GapsIter → Option Gap × GapsIter
unfolding gap_after iter_of
next_gap st = elim st.current [
  | none ↦ (none, st)
  | some first ↦
      if first.start == 0
      then gap_after first (iter_of st.iter)
      else (some (record { start = 0; end = some (before first.start) }), st)
]

unfoldable pub contains : SpanVec → Span → Bool
contains [] other = false
contains (span ∷ spans) other =
    (leb span.start other.start && leb other.end span.end) || contains spans other

-- The number of leading items that pass the test: what the binary search of the standard library
-- returns where the items that pass all stand first.
unfoldable pub partition_point {ℓ} : {A : Type ℓ} → (A → Bool) → List A → ℕ
partition_point test [] = 0
partition_point test (x ∷ xs) = elim (test x) [ true ↦ suc (partition_point test xs) | false ↦ 0 ]

pub data Window : Type 0 where
  pair : ℕ → Window
  triple : ℕ → Window

partition_to_window : ℕ → ℕ → Option Window
partition_to_window zero idx = none
partition_to_window (suc len) zero = some (pair 0)
partition_to_window (suc len) (suc i) = if i == len then some (pair i) else some (triple i)

-- The new vector, and the index and the span to go on with.
abbrev pub Change : Type 0
Change = SpanVec × Option (ℕ × Span)

abbrev pub unchanged : SpanVec → Change
unchanged spans = (spans, none)

abbrev pub changed : ℕ → Span → SpanVec → Change
changed i s spans = (spans, some (i, s))

apply_pair : SpanVec → Span → ℕ → ℕ → MergeResult → Option Change
apply_pair spans elem insert_idx l_idx (MergeResult.identity s) = some (unchanged spans)
apply_pair spans elem insert_idx l_idx (MergeResult.merged s) =
    Option.map unchanged (set spans l_idx s)
apply_pair spans elem insert_idx l_idx (MergeResult.un_merged a b) =
    Option.map unchanged (insert_at spans insert_idx elem)

apply_triple : SpanVec → ℕ → SpanCoalesced → Option Change
apply_triple spans l_idx (SpanCoalesced.overlap s) = do
  fewer ← remove_at spans (l_idx + 1)
  Option.map (changed (l_idx + 1) s) (set fewer l_idx s)
apply_triple spans l_idx (SpanCoalesced.left_overlap s r) =
    Option.map (changed l_idx s) (set spans l_idx s)
apply_triple spans l_idx (SpanCoalesced.right_overlap l s) =
    Option.map (changed (l_idx + 1) s) (set spans (l_idx + 1) s)
apply_triple spans l_idx (SpanCoalesced.disjoint l elem r) =
    Option.map unchanged (insert_at spans (l_idx + 1) elem)
apply_triple spans l_idx (SpanCoalesced.identity_overlap s) = do
  fewer ← remove_at spans (l_idx + 1)
  Option.map (changed (l_idx + 2) s) (remove_at fewer (l_idx + 2))
apply_triple spans l_idx (SpanCoalesced.left_identity_overlap l s) = do
  written ← set spans l_idx s
  Option.map (changed (l_idx + 1) s) (remove_at written (l_idx + 1))
apply_triple spans l_idx (SpanCoalesced.right_identity_overlap s r) = do
  written ← set spans l_idx s
  Option.map (changed (l_idx + 1) s) (remove_at written (l_idx + 1))
apply_triple spans l_idx (SpanCoalesced.left_identity l r) = some (unchanged spans)
apply_triple spans l_idx (SpanCoalesced.right_identity l r) = some (unchanged spans)

in_window : SpanVec → Span → ℕ → Option Window → Option Change
unfolding apply_pair apply_triple
in_window spans elem insert_idx none = Option.map unchanged (insert_at spans insert_idx elem)
in_window spans elem insert_idx (some (pair l_idx)) = do
  left_elem ← get_elem? spans l_idx
  res ← merge left_elem elem
  apply_pair spans elem insert_idx l_idx res
in_window spans elem insert_idx (some (triple l_idx)) = do
  left ← get_elem? spans l_idx
  right ← get_elem? spans (l_idx + 1)
  res ← coalesce elem left right
  apply_triple spans l_idx res

unfoldable pub merge_in_span : SpanVec → Span → ℕ → Option Change
unfolding partition_to_window in_window
merge_in_span spans elem insert_idx =
    in_window spans elem insert_idx (partition_to_window (length spans) insert_idx)

-- `none` is a panic, or the end of the fuel.
unfoldable pub insert_loop : ℕ → SpanVec → Span → ℕ → Option SpanVec
insert_loop zero spans elem insert_idx = none
insert_loop (suc fuel) spans elem insert_idx = elim (merge_in_span spans elem insert_idx) [
  | none ↦ none
  | some (spans', none) ↦ some spans'
  | some (spans', some (merge_idx, merge_elem)) ↦ insert_loop fuel spans' merge_elem merge_idx
]

unfoldable pub insert : SpanVec → Span → Option SpanVec
insert spans elem =
    insert_loop (length spans + 4) spans elem (partition_point (λ x. ltb x.start elem.start) spans)

-- `SpanVec::from_iter`, from the vector that is filled so far.
unfoldable pub from_iter : SpanVec → List Span → Option SpanVec
from_iter ret [] = some ret
from_iter ret (s ∷ rest) = do ret' ← insert ret s; from_iter ret' rest
