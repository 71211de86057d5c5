-- ===== src/Examples/Derivatives.antt =====
-- A matcher for the expressions, by derivatives, and that it is right where it accepts.
use logdna_agent_v.Base.{
  ℕ, ◌≡◌, refl, sym, subst, ap, inl, inr, Bool, true, false, Bool-cases, ◌&&◌, ◌||◌, List, [], ◌∷◌,
  arith, if◌then◌else◌,
}
use logdna_agent_v.Middleware.K8sLineRules.Expressions.{
  Regex, nothing, one, seq, alt, star, in_ranges, Star, star_nil, star_cons, Matches,
}

abbrev pub nullable : Regex → Bool
nullable nothing = true
nullable (one ranges) = false
nullable (alt a b) = let more = nullable b in nullable a || more
nullable (seq a b) = let more = nullable b in nullable a && more
nullable (star a) = true

-- What is left of an expression behind a character.
abbrev pub derivative : ℕ → Regex → Regex
derivative c nothing = one []
derivative c (one ranges) = if in_ranges c ranges then nothing else one []
derivative c (alt a b) = alt (derivative c a) (derivative c b)
derivative c (seq a b) =
    let behind = derivative c b in
    let front = seq (derivative c a) b in if nullable a then alt front behind else front
derivative c (star a) = seq (derivative c a) (star a)

abbrev pub accepts : Regex → List ℕ → Bool
accepts r [] = nullable r
accepts r (c ∷ s) = accepts (derivative c r) s

nullable-Matches : (r : Regex) → nullable r ≡ true → Matches r []
nullable-Matches nothing h = refl
nullable-Matches (one ranges) h = absurd (cc)
nullable-Matches (alt a b) h = elim (Bool-cases (nullable a)) [
  | inl e ↦ inl (nullable-Matches a e)
  | inr e ↦ inr (nullable-Matches b (ground arith))
]
nullable-Matches (seq a b) h =
    ([], [], refl, nullable-Matches a (ground arith), nullable-Matches b (ground arith))
nullable-Matches (star a) h = star_nil

front-Matches :
    (a b : Regex) (c : ℕ) (s : List ℕ)
    → ((p : List ℕ) → Matches (derivative c a) p → Matches a (c ∷ p))
    → Matches (seq (derivative c a) b) s
    → Matches (seq a b) (c ∷ s)
front-Matches a b c s h (p, q, e, m, n) = (c ∷ p, q, ap (◌∷◌ c) e, h p m, n)

derivative-Matches :
    (r : Regex) (c : ℕ) (s : List ℕ) → Matches (derivative c r) s → Matches r (c ∷ s)
derivative-Matches nothing c s (d, e, h) = absurd (cc)
derivative-Matches (one ranges) c s m = elim (Bool-cases (in_ranges c ranges)) [
  | inl e ↦ let empty : s ≡ [] = rw e at m in (c, ap (◌∷◌ c) empty, e)
  | inr e ↦ let (d, _, h) : Matches (one []) s = rw e at m in absurd (cc)
]
derivative-Matches (alt a b) c s (inl m) = inl (derivative-Matches a c s m)
derivative-Matches (alt a b) c s (inr m) = inr (derivative-Matches b c s m)
derivative-Matches (seq a b) c s m = elim (Bool-cases (nullable a)) [
  | inr e ↦ front-Matches a b c s (derivative-Matches a c) (rw e at m)
  | inl e ↦
      let both : Matches (alt (seq (derivative c a) b) (derivative c b)) s = rw e at m in
      elim both [
        | inl f ↦ front-Matches a b c s (derivative-Matches a c) f
        | inr g ↦ ([], c ∷ s, refl, nullable-Matches a e, derivative-Matches b c s g)
      ]
]
derivative-Matches (star a) c s (p, q, e, m, n) =
    subst (Star (Matches a)) (ap (◌∷◌ c) (sym e))
      (star_cons (c ∷ p) q (derivative-Matches a c p m) n)

pub accepts-Matches : (r : Regex) (s : List ℕ) → accepts r s ≡ true → Matches r s
accepts-Matches r [] h = nullable-Matches r h
accepts-Matches r (c ∷ s) h = derivative-Matches r c s (accepts-Matches (derivative c r) s h)
