-- ===== src/State/Table.antt =====
-- `HashMap` by file: a list of entries. A new entry replaces the old one of its key.
use logdna_agent_v.Base.{
  ℕ, ◌≡◌, refl, ap, ◌∙◌, Bool, Option, none, some, List, [], ◌∷◌, arith, ◌==◌, if◌then◌else◌,
  Bool-cases, inl, inr,
}

module _ {ℓ} {V : Type ℓ} where
  abbrev pub lookup : ℕ → List (ℕ × V) → Option V
  lookup k [] = none
  lookup k (e ∷ t) = let rest = lookup k t in if e.0 == k then some e.1 else rest

  abbrev pub erase : ℕ → List (ℕ × V) → List (ℕ × V)
  erase k [] = []
  erase k (e ∷ t) = let rest = erase k t in if e.0 == k then rest else e ∷ rest

  abbrev pub put : ℕ → V → List (ℕ × V) → List (ℕ × V)
  put k v t = (k, v) ∷ erase k t

  -- `retain`, with a test of the key.
  abbrev pub retain : (ℕ → Bool) → List (ℕ × V) → List (ℕ × V)
  retain test [] = []
  retain test (e ∷ t) = let rest = retain test t in if test e.0 then e ∷ rest else rest

  pub lookup-erase :
      (k j : ℕ) (t : List (ℕ × V)) → lookup j (erase k t) ≡ (if k == j then none else lookup j t)
  lookup-erase k j [] = ground arith
  lookup-erase k j (e ∷ t) =
      let rest = lookup-erase k j t in
      elim (Bool-cases (e.0 == k)) [
        | inl same ↦ rw same (ground arith)
        | inr other ↦ rw other (ground arith)
      ]

  pub lookup-put :
      (k j : ℕ) (v : V) (t : List (ℕ × V))
      → lookup j (put k v t) ≡ (if k == j then some v else lookup j t)
  lookup-put k j v t = ground (arith, lookup-erase k j t)

  pub lookup-retain :
      (test : ℕ → Bool) (j : ℕ) (t : List (ℕ × V))
      → lookup j (retain test t) ≡ (if test j then lookup j t else none)
  lookup-retain test j [] = ground arith
  lookup-retain test j (e ∷ t) =
      let rest = lookup-retain test j t in
      elim (Bool-cases (e.0 == j)) [
        | inl same ↦
            let eq : e.0 ≡ j = ground arith in
            let tests : test e.0 ≡ test j = ap test eq in
            elim (Bool-cases (test j)) [
              | inl on ↦ rw (tests, on) (rw same refl)
              | inr off ↦ rw (tests, off) (rest ∙ rw off refl)
            ]
        | inr other ↦ rw other (elim (Bool-cases (test e.0)) [
          | inl on ↦ rw on (rw other rest)
          | inr off ↦ rw off rest
        ])
      ]
