-- ===== src/State/Events/Kept.antt =====
-- Tables of span vectors: one entry for a file, with valid spans in order.
use logdna_agent_v.Base.{
  ℕ, ◌<◌, ◌≡◌, Bool, false, ◌||◌, none, [], ◌∷◌, arith, u64_mod, Bool-cases, inl, inr, ◌==◌,
  if◌then◌else◌,
}
use logdna_agent_v.State.SpanVec.{SpanVec}
use logdna_agent_v.State.SpanVec.Place.{Rising}
use logdna_agent_v.State.SpanVec.Cover.{covers}
use logdna_agent_v.State.SpanVec.Insert.{AllValid}
use logdna_agent_v.State.Table.{lookup, erase, put, retain, lookup-erase, lookup-retain}
use logdna_agent_v.State.Events.Interface.{OffsetMap}
use logdna_agent_v.State.Events.{SpanTable, or_empty}

abbrev pub WellKept : SpanTable → Type 0
WellKept [] = Unit
WellKept (e ∷ t) = (e.0 < u64_mod) × Rising 0 e.1 × (lookup e.0 t ≡ none) × WellKept t

-- The bytes of a file that a table covers.
abbrev pub covered : SpanTable → ℕ → ℕ → Bool
covered t f p = covers (or_empty (lookup f t)) p

abbrev pub BatchValid : OffsetMap → Type 0
BatchValid [] = Unit
BatchValid (e ∷ batch) = (e.0 < u64_mod) × AllValid e.1 × BatchValid batch

-- The bytes of a file that a batch brings.
abbrev pub brings : OffsetMap → ℕ → ℕ → Bool
brings [] f p = false
brings (e ∷ batch) f p =
    let rest = brings batch f p in (if e.0 == f then covers e.1 p else false) || rest

pub lookup-Rising : (t : SpanTable) (f : ℕ) → WellKept t → Rising 0 (or_empty (lookup f t))
lookup-Rising [] f w = tt
lookup-Rising (e ∷ t) f w =
    let rest = lookup-Rising t f w.3 in
    elim (Bool-cases (e.0 == f)) [ inl same ↦ rw same w.1 | inr other ↦ rw other rest ]

absent : (k j : ℕ) (t : SpanTable) → lookup j t ≡ none → lookup j (erase k t) ≡ none
absent k j t h = rw (lookup-erase k j t) (ground arith)

pub erase-WellKept : (k : ℕ) (t : SpanTable) → WellKept t → WellKept (erase k t)
erase-WellKept k [] w = tt
erase-WellKept k (e ∷ t) w =
    let rest = erase-WellKept k t w.3 in
    elim (Bool-cases (e.0 == k)) [
      | inl same ↦ rw same rest
      | inr other ↦ rw other (w.0, w.1, absent k e.0 t w.2, rest)
    ]

pub put-WellKept :
    (k : ℕ) (v : SpanVec) (t : SpanTable)
    → k < u64_mod
    → Rising 0 v
    → WellKept t
    → WellKept (put k v t)
put-WellKept k v t h r w = (h, r, rw (lookup-erase k k t) (ground arith), erase-WellKept k t w)

not_kept :
    (test : ℕ → Bool) (j : ℕ) (t : SpanTable) → lookup j t ≡ none → lookup j (retain test t) ≡ none
not_kept test j t h = rw (lookup-retain test j t) (ground arith)

pub retain-WellKept : (test : ℕ → Bool) (t : SpanTable) → WellKept t → WellKept (retain test t)
retain-WellKept test [] w = tt
retain-WellKept test (e ∷ t) w =
    let rest = retain-WellKept test t w.3 in
    elim (Bool-cases (test e.0)) [
      | inl on ↦ rw on (w.0, w.1, not_kept test e.0 t w.2, rest)
      | inr off ↦ rw off rest
    ]
