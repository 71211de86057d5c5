-- ===== src/Middleware/Redact/Recorded.antt =====
-- The recorded matches cover the bytes that the found ones cover, and those of one expression are
-- recorded in order.
use logdna_agent_v.Base.{
  ℕ, suc, ◌≤◌, ◌≡◌, refl, ap, ◌∙◌, inl, inr, Bool, true, false, ◌&&◌, ◌||◌, min, max, some, List,
  [], ◌∷◌, ◌++◌, arith, Bool-cases, ltb, leb,
}
use logdna_agent_v.Middleware.Redact.{Match, overlaps, record_all}
use logdna_agent_v.Middleware.Redact.Order.{Ordered, place, record_match-place}
use logdna_agent_v.Middleware.Redact.Render.{Proper}
use logdna_agent_v.Middleware.Redact.Kept.{inside, outside}

abbrev pub place_all : List Match → List Match → List Match
place_all matches [] = matches
place_all matches (m ∷ found) = place_all (place m matches) found

-- Recording never reads or writes out of range.
pub record_all-place_all :
    (matches found : List Match) → record_all matches found ≡ some (place_all matches found)
unfolding record_all
record_all-place_all matches [] = refl
record_all-place_all matches (m ∷ found) =
    rw (record_match-place m matches) (record_all-place_all (place m matches) found)

abbrev in_match : Match → ℕ → Bool
in_match m i = leb m.0 i && ltb i m.1

-- The hull of two matches that overlap or touch is their union.
hull :
    (m e : Match) (i : ℕ)
    → m.0 ≤ m.1
    → e.0 ≤ e.1
    → overlaps m e ≡ true
    → in_match (min e.0 m.0, max e.1 m.1) i ≡ (in_match m i || in_match e i)
hull m e i h k o = ground arith

inside-place :
    (n i : ℕ) (m : Match) (matches : List Match)
    → m.0 ≤ m.1
    → Proper n matches
    → inside (place m matches) i ≡ (inside (m ∷ []) i || inside matches i)
inside-place n i m [] h p = ground arith
inside-place n i m (e ∷ matches) h p = elim (Bool-cases (overlaps m e)) [
  | inl hit ↦ rw hit (ap (λ b. b || inside matches i) (hull m e i h p.0 hit) ∙ ground arith)
  | inr miss ↦ elim (Bool-cases (ltb m.0 e.0)) [
    | inl before ↦ rw (miss, before) (ground arith)
    | inr behind ↦ rw (miss, behind) (rw (inside-place n i m matches h p.2) (ground arith))
  ]
]

place-Proper :
    (n : ℕ) (m : Match) (matches : List Match)
    → m.0 ≤ m.1
    → m.1 ≤ n
    → Proper n matches
    → Proper n (place m matches)
place-Proper n m [] h k p = (h, k, tt)
place-Proper n m (e ∷ matches) h k (p, q, r) = elim (Bool-cases (overlaps m e)) [
  | inl hit ↦ rw hit (omega arith, omega arith, r)
  | inr miss ↦ elim (Bool-cases (ltb m.0 e.0)) [
    | inl before ↦ rw (miss, before) (h, k, (p, q, r))
    | inr behind ↦ rw (miss, behind) (p, q, place-Proper n m matches h k r)
  ]
]

-- Matches with a byte between them.
abbrev Gapped : ℕ → List Match → Type 0
Gapped b [] = Unit
Gapped b (m ∷ matches) = (b ≤ m.0) × (m.0 ≤ m.1) × Gapped (suc m.1) matches

abbrev EndBy : ℕ → List Match → Type 0
EndBy n [] = Unit
EndBy n (m ∷ matches) = (m.1 ≤ n) × EndBy n matches

touch :
    (b : ℕ) (m x : Match) (matches : List Match)
    → overlaps m x ≡ true
    → m.0 ≤ m.1
    → b ≤ x.0
    → x.0 ≤ x.1
    → x.1 ≤ m.0
    → Gapped (suc x.1) matches
    → EndBy m.0 matches
    → Gapped b ((min x.0 m.0, max x.1 m.1) ∷ matches)
      × EndBy m.1 ((min x.0 m.0, max x.1 m.1) ∷ matches)
touch b m x [] hit h p q e g es = ((omega arith, omega arith, tt), (omega arith, tt))
touch b m x (y ∷ matches) hit h p q e (g0, g1, g) (e0, es) =
    let one : x.1 ≡ m.0 = ground arith in absurd (omega arith)

place_last :
    (b : ℕ) (m : Match) (matches : List Match)
    → m.0 ≤ m.1
    → b ≤ m.0
    → Gapped b matches
    → EndBy m.0 matches
    → Gapped b (place m matches) × EndBy m.1 (place m matches)
place_last b m [] h k g e = ((k, h, tt), (omega arith, tt))
place_last b m (x ∷ matches) h k (p, q, g) (e, es) = elim (Bool-cases (overlaps m x)) [
  | inl hit ↦ rw hit (touch b m x matches hit h p q e g es)
  | inr miss ↦
      let rest = place_last (suc x.1) m matches h (ground arith) g es in
      let after : ltb m.0 x.0 ≡ false = ground arith in
      rw (miss, after) ((p, q, rest.0), (omega arith, rest.1))
]

place_all-Gapped :
    (b : ℕ) (matches found : List Match)
    → Ordered b found
    → Gapped 0 matches
    → EndBy b matches
    → Gapped 0 (place_all matches found)
place_all-Gapped b matches [] o g e = g
place_all-Gapped b matches (m ∷ found) (p, q, o) g e =
    let (g', e') = place_last 0 m matches q (omega arith) g (EndBy-mono matches p e) in
    place_all-Gapped m.1 (place m matches) found o g' e'
  where
    EndBy-mono : {c : ℕ} (matches : List Match) → b ≤ c → EndBy b matches → EndBy c matches
    EndBy-mono [] h e = tt
    EndBy-mono (x ∷ matches) h e = (omega arith, EndBy-mono matches h e.1)

Gapped-Ordered : (a b : ℕ) (matches : List Match) → a ≤ b → Gapped b matches → Ordered a matches
Gapped-Ordered a b [] h g = tt
Gapped-Ordered a b (m ∷ matches) h (p, q, g) =
    (omega arith, q, Gapped-Ordered m.1 (suc m.1) matches (omega arith) g)

-- What one expression finds, one match behind the other, is recorded in order.
pub place_all-Ordered : (found : List Match) → Ordered 0 found → Ordered 0 (place_all [] found)
place_all-Ordered found o =
    Gapped-Ordered 0 0 (place_all [] found) (omega arith) (place_all-Gapped 0 [] found o tt tt)

pub place_all-Proper :
    (n : ℕ) (matches found : List Match)
    → Proper n matches
    → Proper n found
    → Proper n (place_all matches found)
place_all-Proper n matches [] p q = p
place_all-Proper n matches (m ∷ found) p (h, k, q) =
    place_all-Proper n (place m matches) found (place-Proper n m matches h k p) q

inside-place_all :
    (n i : ℕ) (matches found : List Match)
    → Proper n matches
    → Proper n found
    → inside (place_all matches found) i ≡ (inside matches i || inside found i)
inside-place_all n i matches [] p q = ground arith
inside-place_all n i matches (m ∷ found) p (h, k, q) =
    inside-place_all n i (place m matches) found (place-Proper n m matches h k p) q
    ∙ rw (inside-place n i m matches h p) (ground arith)

outside_cong :
    (xs ys : List Match)
    → ((i : ℕ) → inside xs i ≡ inside ys i)
    → (i : ℕ) (v : List ℕ) → outside xs i v ≡ outside ys i v
outside_cong xs ys h i [] = refl
outside_cong xs ys h i (b ∷ v) = rw (h i, outside_cong xs ys h (suc i) v)

-- The recorded matches leave the same bytes as the found ones.
pub outside-place_all :
    (n : ℕ) (found : List Match) (v : List ℕ)
    → Proper n found
    → outside (place_all [] found) 0 v ≡ outside found 0 v
outside-place_all n found v p = outside_cong _ found (λ i. inside-place_all n i [] found tt p) 0 v

pub place_all-append :
    (matches xs ys : List Match)
    → place_all matches (xs ++ ys) ≡ place_all (place_all matches xs) ys
place_all-append matches [] ys = refl
place_all-append matches (m ∷ xs) ys = place_all-append (place m matches) xs ys

pub Proper-append : (n : ℕ) (xs ys : List Match) → Proper n xs → Proper n ys → Proper n (xs ++ ys)
Proper-append n [] ys p q = q
Proper-append n (m ∷ xs) ys (h, k, p) q = (h, k, Proper-append n xs ys p q)
