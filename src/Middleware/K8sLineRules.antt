-- ===== src/Middleware/K8sLineRules.antt =====
-- common/middleware/src/k8s_line_rules.rs: lines are dropped by the name of their file, which tells
-- the namespace and the name of a pod, and by their labels and annotations.
pub mod Listed
pub mod Filter
pub mod Expressions
pub mod Parse
pub mod Found
pub mod Read
use Prim.Native.String.{String}
use text.Mathlib.Text.{◌==◌ as text_eq}
use logdna_agent_v.Base.{
  ℕ, Bool, true, false, not, ◌&&◌, ◌||◌, Option, none, some, List, [], ◌∷◌, if◌then◌else◌,
}
use logdna_agent_v.Middleware.Interface.{Status}

-- The keys and values of a line, and those of a rule: `MultiMap::get_vec` gives all values of a key.
abbrev pub KeyValueMap : Type 0
KeyValueMap = List (String × String)

pub record Rules : Type 1 where
  pub Line : Type 0
  pub RegexSet : Type 0
  pub MultiMap : Type 0
  pub get_file : Line → Option String
  pub get_line_buffer : Line → Option (List ℕ)
  pub get_labels : Line → Option KeyValueMap
  pub get_annotations : Line → Option KeyValueMap
  pub is_match : RegexSet → String → Bool
  pub get_vec : MultiMap → String → Option (List String)

abbrev pub is_none {ℓ} : {A : Type ℓ} → Option A → Bool
is_none none = true
is_none (some a) = false

abbrev pub or_empty_map : Option KeyValueMap → KeyValueMap
or_empty_map none = []
or_empty_map (some m) = m

module _ (rules : Rules) where
  open rules use {
    Line, RegexSet, MultiMap, get_file, get_line_buffer, get_labels, get_annotations, is_match,
    get_vec,
  }

  pub record K8sLineRules : Type 0 where
    pub namespace : Option RegexSet
    pub name : Option RegexSet
    pub labels : Option MultiMap
    pub annotations : Option MultiMap

  pub record K8sLineFilter : Type 0 where
    pub exclusion : K8sLineRules
    pub inclusion : K8sLineRules

  -- `value.contains(v)`
  abbrev pub contains : List String → String → Bool
  contains [] v = false
  contains (x ∷ xs) v = let rest = contains xs v in text_eq x v || rest

  -- The loops over the labels or annotations of the line. `true` is the return of `Status::Skip`.
  unfoldable pub misses : MultiMap → KeyValueMap → Bool
  misses wanted [] = false
  misses wanted ((k, v) ∷ values) =
      let rest = misses wanted values in
      elim (get_vec wanted k) [
        | none ↦ rest
        | some value ↦ if not (contains value v) then true else rest
      ]

  unfoldable pub hits : MultiMap → KeyValueMap → Bool
  hits unwanted [] = false
  hits unwanted ((k, v) ∷ values) =
      let rest = hits unwanted values in
      elim (get_vec unwanted k) [
        | none ↦ rest
        | some value ↦ if contains value v then true else rest
      ]

  abbrev pub set_misses : Option RegexSet → String → Bool
  set_misses none file_value = false
  set_misses (some s) file_value = not (is_match s file_value)

  abbrev pub set_hits : Option RegexSet → String → Bool
  set_hits none file_value = false
  set_hits (some s) file_value = is_match s file_value

  abbrev pub map_misses : Option MultiMap → KeyValueMap → Bool
  map_misses none values = false
  map_misses (some m) values = misses m values

  abbrev pub map_hits : Option MultiMap → KeyValueMap → Bool
  map_hits none values = false
  map_hits (some m) values = hits m values

  unfoldable pub process_file : K8sLineFilter → Line → String → Status Line
  process_file filter line file_value =
      let label_value = or_empty_map (get_labels line) in
      let annotation_value = or_empty_map (get_annotations line) in
      if set_misses filter.inclusion.namespace file_value
      then Status.skip
      else if set_misses filter.inclusion.name file_value
      then Status.skip
      else if map_misses filter.inclusion.labels label_value
      then Status.skip
      else if map_misses filter.inclusion.annotations annotation_value
      then Status.skip
      else if set_hits filter.exclusion.namespace file_value
      then Status.skip
      else if set_hits filter.exclusion.name file_value
      then Status.skip
      else if map_hits filter.exclusion.labels label_value
      then Status.skip
      else if map_hits filter.exclusion.annotations annotation_value
      then Status.skip
      else Status.ok line

  unfoldable pub process_line : K8sLineFilter → Line → Status Line
  process_line filter line = elim (get_file line) [
    | none ↦ Status.ok line
    | some file_value ↦ process_file filter line file_value
  ]

  abbrev pub no_rules : K8sLineRules → Bool
  no_rules r =
      is_none r.namespace && (is_none r.name && (is_none r.labels && is_none r.annotations))

  unfoldable pub process : K8sLineFilter → Line → Status Line
  process filter line =
      if no_rules filter.exclusion && no_rules filter.inclusion
      then Status.ok line
      else elim (get_line_buffer line) [
        | none ↦ Status.skip
        | some bytes ↦ process_line filter line
      ]
