-- ===== src/Middleware/K8sLineRules/Listed.antt =====
-- What single rules of the Kubernetes filter ask of a line.
use Prim.Native.String.{String}
use text.Mathlib.Text.{◌==◌ as text_eq}
use logdna_agent_v.Base.{
  ◌≡◌, ◌↔◌, refl, subst, ◌⊎◌, inl, inr, true, false, Option, none, some, List, [], ◌∷◌, Bool-cases,
  Option-cases, arith,
}
use logdna_agent_v.Middleware.K8sLineRules.{
  KeyValueMap, Rules, contains, misses, hits, set_misses, set_hits, map_misses, map_hits,
}

module _ (rules : Rules) where
  open rules use {
    Line, RegexSet, MultiMap, get_file, get_line_buffer, get_labels, get_annotations, is_match,
    get_vec,
  }

  -- The value is one of those that a rule lists.
  abbrev pub Listed : String → List String → Type 0
  Listed v [] = ⊥
  Listed v (x ∷ xs) = (text_eq x v ≡ true) ⊎ Listed v xs

  contains-Listed : (xs : List String) (v : String) → contains rules xs v ≡ true → Listed v xs
  contains-Listed [] v h = absurd (cc)
  contains-Listed (x ∷ xs) v h = elim (Bool-cases (text_eq x v)) [
    | inl e ↦ inl e
    | inr e ↦ inr (contains-Listed xs v (ground arith))
  ]

  contains-not_Listed :
      (xs : List String) (v : String) → contains rules xs v ≡ false → ¬ Listed v xs
  contains-not_Listed [] v h l = l
  contains-not_Listed (x ∷ xs) v h (inl e) = absurd (ground arith)
  contains-not_Listed (x ∷ xs) v h (inr l) = contains-not_Listed xs v (ground arith) l

  -- Every value of the line whose key the rule names is one of those that the rule lists.
  abbrev pub AllListed : MultiMap → KeyValueMap → Type 0
  AllListed m [] = Unit
  AllListed m (e ∷ values) =
      ((listed : List String) → get_vec m e.0 ≡ some listed → Listed e.1 listed)
      × AllListed m values

  -- No value of the line is listed under its key.
  abbrev pub NoneListed : MultiMap → KeyValueMap → Type 0
  NoneListed m [] = Unit
  NoneListed m (e ∷ values) =
      ((listed : List String) → get_vec m e.0 ≡ some listed → ¬ Listed e.1 listed)
      × NoneListed m values

  misses_iff :
      (m : MultiMap) (values : KeyValueMap) → (misses rules m values ≡ false) ↔ AllListed m values
  unfolding misses
  misses_iff m [] = (λ e. tt, λ a. refl)
  misses_iff m ((k, v) ∷ values) =
      let rest = misses_iff m values in
      elim (Option-cases (get_vec m k)) [
        | inl absent ↦
            rw (absent, misses) (λ e. (λ listed g. absurd (cc), rest.0 e), λ a. rest.1 a.1)
        | inr (there, e) ↦ elim (Bool-cases (contains rules there v)) [
          | inl listed ↦
              rw (e, misses)
                (rw listed (
                  λ h. (
                    λ l g.
                        let eq : there ≡ l = cc in
                        subst (λ x. Listed v x) eq (contains-Listed there v listed),
                    rest.0 h,
                  ),
                  λ a. rest.1 a.1,
                ))
          | inr missing ↦
              rw (e, misses)
                (rw missing (
                  λ h. absurd (cc),
                  λ a. absurd (contains-not_Listed there v missing (a.0 there refl)),
                ))
        ]
      ]

  hits_iff :
      (m : MultiMap) (values : KeyValueMap) → (hits rules m values ≡ false) ↔ NoneListed m values
  unfolding hits
  hits_iff m [] = (λ e. tt, λ a. refl)
  hits_iff m ((k, v) ∷ values) =
      let rest = hits_iff m values in
      elim (Option-cases (get_vec m k)) [
        | inl absent ↦ rw (absent, hits) (λ e. (λ listed g. absurd (cc), rest.0 e), λ a. rest.1 a.1)
        | inr (there, e) ↦ elim (Bool-cases (contains rules there v)) [
          | inr missing ↦
              rw (e, hits)
                (rw missing (
                  λ h. (
                    λ l g.
                        let eq : there ≡ l = cc in
                        subst (λ x. ¬ Listed v x) eq (contains-not_Listed there v missing),
                    rest.0 h,
                  ),
                  λ a. rest.1 a.1,
                ))
          | inl listed ↦
              rw (e, hits)
                (rw listed
                  (λ h. absurd (cc), λ a. absurd (a.0 there refl (contains-Listed there v listed))))
        ]
      ]

  abbrev pub IncludedBy : Option MultiMap → KeyValueMap → Type 0
  IncludedBy none values = Unit
  IncludedBy (some m) values = AllListed m values

  abbrev pub NotExcludedBy : Option MultiMap → KeyValueMap → Type 0
  NotExcludedBy none values = Unit
  NotExcludedBy (some m) values = NoneListed m values

  pub map_misses_iff :
      (o : Option MultiMap) (values : KeyValueMap)
      → (map_misses rules o values ≡ false) ↔ IncludedBy o values
  map_misses_iff none values = (λ e. tt, λ a. refl)
  map_misses_iff (some m) values = misses_iff m values

  pub map_hits_iff :
      (o : Option MultiMap) (values : KeyValueMap)
      → (map_hits rules o values ≡ false) ↔ NotExcludedBy o values
  map_hits_iff none values = (λ e. tt, λ a. refl)
  map_hits_iff (some m) values = hits_iff m values

  -- The expressions on the file, if there are any, match it; or none of them does.
  abbrev pub Matching : Option RegexSet → String → Type 0
  Matching none file_value = Unit
  Matching (some set) file_value = is_match set file_value ≡ true

  abbrev pub NotMatching : Option RegexSet → String → Type 0
  NotMatching none file_value = Unit
  NotMatching (some set) file_value = is_match set file_value ≡ false

  pub set_misses_iff :
      (o : Option RegexSet) (file_value : String)
      → (set_misses rules o file_value ≡ false) ↔ Matching o file_value
  set_misses_iff none file_value = (λ e. tt, λ a. refl)
  set_misses_iff (some set) file_value = (λ e. ground arith, λ a. ground arith)

  pub set_hits_iff :
      (o : Option RegexSet) (file_value : String)
      → (set_hits rules o file_value ≡ false) ↔ NotMatching o file_value
  set_hits_iff none file_value = (λ e. tt, λ a. refl)
  set_hits_iff (some set) file_value = (λ e. e, λ a. a)
