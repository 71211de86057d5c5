-- ===== src/Middleware/Redact/Order.antt =====
-- The order in which the matches are recorded.
use logdna_agent_v.Base.{
  ℕ, suc, ◌≤◌, ◌≡◌, ◌↔◌, refl, ap, ◌∙◌, inl, inr, min, max, some, List, [], ◌∷◌, arith, Bool-cases,
  ltb, if◌then◌else◌, cons_some,
}
use logdna_agent_v.Middleware.Redact.{
  Match, overlaps, Found, overlapping, insert_index, neither, find_place, record_at, record_match,
}

-- Where a match goes, as a recursion on the list.
abbrev pub place : Match → List Match → List Match
place m [] = m ∷ []
place m (e ∷ matches) =
    let rest = place m matches in
    if overlaps m e
    then (min e.0 m.0, max e.1 m.1) ∷ matches
    else if ltb m.0 e.0
    then m ∷ e ∷ matches
    else e ∷ rest

shifted : Match → List Match → Found → Found
shifted m matches (overlapping i a b) = overlapping (suc i) a b
shifted m matches (insert_index i) = insert_index (suc i)
shifted m matches neither = neither

find_place-suc :
    (i : ℕ) (m : Match) (matches : List Match)
    → find_place (suc i) m matches ≡ shifted m matches (find_place i m matches)
unfolding find_place shifted
find_place-suc i m [] = refl
find_place-suc i m (e ∷ matches) = ground (arith, find_place-suc (suc i) m matches)

record_at-shifted :
    (e m : Match) (matches : List Match) (f : Found)
    → record_at (e ∷ matches) m (shifted m matches f) ≡ cons_some e (record_at matches m f)
unfolding record_at shifted
record_at-shifted e m matches (overlapping i a b) = refl
record_at-shifted e m matches (insert_index i) = refl
record_at-shifted e m matches neither = refl

pub record_match-place :
    (m : Match) (matches : List Match) → record_match matches m ≡ some (place m matches)
unfolding record_match
record_match-place m [] = refl
record_match-place m (e ∷ matches) = elim (Bool-cases (overlaps m e)) [
  | inl hit ↦ rw (hit, find_place)
  | inr miss ↦ elim (Bool-cases (ltb m.0 e.0)) [
    | inl before ↦ rw (miss, before, find_place)
    | inr behind ↦
        rw (miss, behind, find_place)
          (rw (find_place-suc 0 m matches) (
            record_at-shifted e m matches (find_place 0 m matches)
            ∙ ap (cons_some e) (record_match-place m matches)))
  ]
]

-- Matches in the order of the line, none of which begins before the one in front of it ends.
abbrev pub Ordered : ℕ → List Match → Type 0
Ordered b [] = Unit
Ordered b (m ∷ matches) = (b ≤ m.0) × (m.0 ≤ m.1) × Ordered m.1 matches

abbrev pub EndsBefore : Match → List Match → Type 0
EndsBefore m [] = Unit
EndsBefore m (n ∷ later) = m.1 ≤ n.0

-- The new match does not reach beyond the start of the one that follows the match which it overlaps.
abbrev pub NoBridge : Match → List Match → Type 0
NoBridge m [] = Unit
NoBridge m (e ∷ matches) =
    let rest = NoBridge m matches in
    if overlaps m e then EndsBefore m matches else if ltb m.0 e.0 then Unit else rest

hit_iff :
    (b : ℕ) (m e : Match) (matches : List Match)
    → b ≤ m.0
    → m.0 ≤ m.1
    → Ordered b (e ∷ matches)
    → Ordered b ((min e.0 m.0, max e.1 m.1) ∷ matches) ↔ EndsBefore m matches
hit_iff b m e [] h k (p, q, o) = (λ x. tt, λ x. (omega arith, omega arith, tt))
hit_iff b m e (n ∷ matches) h k (p, q, o) =
    (λ x. omega arith, λ x. (omega arith, omega arith, (omega arith, o.1, o.2)))

pub place_iff :
    (b : ℕ) (m : Match) (matches : List Match)
    → b ≤ m.0
    → m.0 ≤ m.1
    → Ordered b matches
    → Ordered b (place m matches) ↔ NoBridge m matches
place_iff b m [] h k o = (λ x. tt, λ x. (h, k, tt))
place_iff b m (e ∷ matches) h k o = elim (Bool-cases (overlaps m e)) [
  | inl hit ↦ rw hit (hit_iff b m e matches h k o)
  | inr miss ↦ elim (Bool-cases (ltb m.0 e.0)) [
    | inl before ↦ rw (miss, before) (λ x. tt, λ x. (h, k, (ground arith, o.1, o.2)))
    | inr behind ↦
        let rest = place_iff e.1 m matches (ground arith) k o.2 in
        rw (miss, behind) (λ x. rest.0 x.2, λ x. (o.0, o.1, rest.1 x))
  ]
]
