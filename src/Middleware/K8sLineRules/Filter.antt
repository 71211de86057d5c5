-- ===== src/Middleware/K8sLineRules/Filter.antt =====
-- Which lines the Kubernetes filter lets pass.
use Prim.Native.String.{String}
use logdna_agent_v.Base.{
  ℕ, ◌≡◌, ◌↔◌, refl, sym, inl, inr, Bool, true, false, ◌&&◌, Option, none, some, List, Bool-cases,
  Option-cases, arith, if◌then◌else◌,
}
use logdna_agent_v.Middleware.Interface.{Status}
use logdna_agent_v.Middleware.K8sLineRules.Listed.{
  IncludedBy, NotExcludedBy, Matching, NotMatching, map_misses_iff, map_hits_iff, set_misses_iff,
  set_hits_iff,
}
use logdna_agent_v.Middleware.K8sLineRules.{
  Rules, is_none, or_empty_map, K8sLineRules, K8sLineFilter, process_file, process_line, process,
  no_rules,
}

module _ (rules : Rules) where
  open rules use {
    Line, RegexSet, MultiMap, get_file, get_line_buffer, get_labels, get_annotations, is_match,
    get_vec,
  }

  -- What the rules ask of a line and of the name of its file.
  abbrev pub Kept : K8sLineFilter rules → Line → String → Type 0
  Kept filter line file_value =
      Matching rules filter.inclusion.namespace file_value
      × (Matching rules filter.inclusion.name file_value
          × (IncludedBy rules filter.inclusion.labels (or_empty_map (get_labels line))
              × (IncludedBy rules filter.inclusion.annotations (or_empty_map (get_annotations line))
                  × (NotMatching rules filter.exclusion.namespace file_value
                      × (NotMatching rules filter.exclusion.name file_value
                          × (NotExcludedBy rules filter.exclusion.labels
                                (or_empty_map (get_labels line))
                              × NotExcludedBy rules filter.exclusion.annotations
                                  (or_empty_map (get_annotations line))))))))

  -- One test of the chain.
  test_iff :
      {K Q : Type 0} (b : Bool) (s : Status Line) (line : Line)
      → (b ≡ false) ↔ K
      → (s ≡ Status.ok line) ↔ Q
      → ((if b then Status.skip else s) ≡ Status.ok line) ↔ (K × Q)
  test_iff true s line k q =
      (λ e. absurd (cc), λ h. let bad : true ≡ false = k.1 h.0 in absurd (cc))
  test_iff false s line k q = (λ e. (k.0 refl, q.0 e), λ h. q.1 h.1)

  last_iff :
      {K : Type 0} (b : Bool) (line : Line)
      → (b ≡ false) ↔ K
      → ((if b then Status.skip else Status.ok line) ≡ Status.ok line) ↔ K
  last_iff true line k = (λ e. absurd (cc), λ h. let bad : true ≡ false = k.1 h in absurd (cc))
  last_iff false line k = (λ e. k.0 refl, λ h. refl)

  process_file_iff :
      (filter : K8sLineFilter rules) (line : Line) (file_value : String)
      → (process_file rules filter line file_value ≡ Status.ok line) ↔ Kept filter line file_value
  unfolding process_file
  process_file_iff filter line file_value =
      let labels = or_empty_map (get_labels line) in
      let annotations = or_empty_map (get_annotations line) in
      test_iff _ _ line (set_misses_iff rules filter.inclusion.namespace file_value) (
        test_iff _ _ line (set_misses_iff rules filter.inclusion.name file_value) (
          test_iff _ _ line (map_misses_iff rules filter.inclusion.labels labels) (
            test_iff _ _ line (map_misses_iff rules filter.inclusion.annotations annotations) (
              test_iff _ _ line (set_hits_iff rules filter.exclusion.namespace file_value) (
                test_iff _ _ line (set_hits_iff rules filter.exclusion.name file_value) (
                  test_iff _ _ line (map_hits_iff rules filter.exclusion.labels labels) (
                    last_iff _ line
                      (map_hits_iff rules filter.exclusion.annotations annotations))))))))

  -- `process_line` returns a line with a file exactly if the inclusion rules on the file match, every
  -- value of a label or an annotation whose key an inclusion rule names is listed by it, the
  -- exclusion rules on the file do not match, and no value of a label or an annotation is listed by
  -- an exclusion rule. A label or an annotation that the line lacks is not asked for.
  pub process_line_iff :
      (filter : K8sLineFilter rules) (line : Line) (file_value : String)
      → get_file line ≡ some file_value
      → (process_line rules filter line ≡ Status.ok line) ↔ Kept filter line file_value
  unfolding process_line
  process_line_iff filter line file_value g =
      rw (g, process_line) (process_file_iff filter line file_value)

  is_none-true {ℓ} : {A : Type ℓ} (o : Option A) → is_none o ≡ true → o ≡ none
  is_none-true none h = refl
  is_none-true (some a) h = absurd (cc)

  record NoRules (r : K8sLineRules rules) : Type 0 where
    namespace : r.namespace ≡ none
    name : r.name ≡ none
    labels : r.labels ≡ none
    annotations : r.annotations ≡ none

  no_rules-NoRules : (r : K8sLineRules rules) → no_rules rules r ≡ true → NoRules r
  no_rules-NoRules r h = record {
    namespace = is_none-true r.namespace (ground arith);
    name = is_none-true r.name (ground arith);
    labels = is_none-true r.labels (ground arith);
    annotations = is_none-true r.annotations (ground arith);
  }

  passes_all :
      (filter : K8sLineFilter rules) (line : Line)
      → NoRules filter.exclusion
      → NoRules filter.inclusion
      → process_line rules filter line ≡ Status.ok line
  unfolding process_line process_file
  passes_all filter line e i = elim (Option-cases (get_file line)) [
    | inl missing ↦ rw (missing, process_line) refl
    | inr (file_value, there) ↦
        rw (there, process_line)
          (rw
            (
              i.namespace, i.name, i.labels, i.annotations, e.namespace, e.name, e.labels,
              e.annotations,
            )
            refl)
  ]

  -- A line with text goes through `process_line`, whether there are rules or not: the short cut for
  -- no rules changes nothing. A line without text is skipped, unless there are no rules.
  pub process_cases :
      (filter : K8sLineFilter rules) (line : Line)
      → ((bytes : List ℕ)
          → get_line_buffer line ≡ some bytes
          → process rules filter line ≡ process_line rules filter line)
        × (get_line_buffer line ≡ none
            → process rules filter line ≡ (
                if no_rules rules filter.exclusion && no_rules rules filter.inclusion
                then Status.ok line
                else Status.skip))
  unfolding process
  process_cases filter line =
      elim (Bool-cases (no_rules rules filter.exclusion && no_rules rules filter.inclusion)) [
        | inl empty ↦
            rw (empty, process)
              (
                λ bytes g. sym (
                    passes_all filter line (no_rules-NoRules filter.exclusion (ground arith))
                      (no_rules-NoRules filter.inclusion (ground arith))),
                λ g. refl,
              )
        | inr rules_given ↦ rw (rules_given, process) (λ bytes g. rw g refl, λ g. rw g refl)
      ]
