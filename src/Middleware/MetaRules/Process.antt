-- ===== src/Middleware/MetaRules/Process.antt =====
-- `process_line` of common/middleware/src/meta_rules.rs: the fields that it overrides, in turn.
use Prim.Native.String.{String}
use logdna_agent_v.Base.{
  ℕ, Bool, true, false, ◌||◌, Option, none, some, List, ok, err, if◌then◌else◌,
}
use logdna_agent_v.Middleware.MetaRules.{
  TextMap, has, LineFields, MetaRules, substitute, entries_of, meta_map_of, copy_all, merge_over,
}

unfoldable pub is_active : MetaRules → Bool
is_active r =
    has r.over_app
    || has r.over_host
    || has r.over_env
    || has r.over_file
    || has r.over_k8s_file
    || has r.over_meta
    || has r.over_annotations
    || has r.over_labels

module _ (fs : LineFields) where
  abbrev pub text_or_empty : Option String → String
  text_or_empty none = ""
  text_or_empty (some t) = t

  unfoldable pub is_k8s_line : fs.Line → Bool
  is_k8s_line line =
      has (fs.get_annotations line)
      || has (fs.get_labels line)
      || fs.starts_with (text_or_empty (fs.get_file line)) "/var/log/containers/"

  -- The fields and the map that the steps of `process_line` hand on.
  abbrev pub override_values :
      String
      → (fs.Line → Option fs.KeyValueMap)
      → (fs.KeyValueMap → fs.Line → fs.Line)
      → Option TextMap
      → Bool
      → TextMap × fs.Line
      → TextMap × fs.Line
  unfolding copy_all merge_over
  override_values prefix get set none k8s (vars, line) = (vars, line)
  override_values prefix get set (some over) false (vars, line) = (vars, line)
  override_values prefix get set (some over) true (vars, line) =
      let (vars', values) =
        merge_over fs prefix over vars (copy_all fs (entries_of fs (get line)) fs.no_values) in
      (vars', set values line)

  abbrev pub override_field :
      (String → fs.Line → fs.Line) → Option String → TextMap → fs.Line → fs.Line
  unfolding substitute
  override_field set none vars line = line
  override_field set (some template) vars line = set (substitute fs template vars) line

  abbrev pub cut_prefix : Option (List ℕ) → fs.Line → fs.Line
  cut_prefix none line = line
  cut_prefix (some text) line = fs.set_line_buffer text line

  abbrev pub crio_of : Option (List ℕ) → Option (List ℕ)
  crio_of none = none
  crio_of (some text) = fs.crio_line text

  -- The file of a Kubernetes line, whose own prefix of time and stream is cut off then.
  abbrev pub override_k8s_file : Option String → Bool → TextMap → fs.Line → fs.Line
  unfolding substitute
  override_k8s_file none k8s vars line = line
  override_k8s_file (some template) false vars line = line
  override_k8s_file (some template) true vars line =
      let named = fs.set_file (substitute fs template vars) line in
      cut_prefix (crio_of (fs.get_line_buffer named)) named

  -- Text that is no JSON is a panic.
  abbrev pub override_meta : Option String → TextMap → fs.Line → Option fs.Line
  unfolding substitute
  override_meta none vars line = some line
  override_meta (some template) vars line = elim (fs.json_from_str (substitute fs template vars)) [
    | ok meta ↦ some (fs.set_meta meta line)
    | err e ↦ none
  ]

  abbrev pub override_all : MetaRules → Bool → TextMap × fs.Line → Option fs.Line
  unfolding substitute
  override_all r k8s (vars, line) = override_meta r.over_meta vars (
      override_k8s_file r.over_k8s_file k8s vars (
        override_field fs.set_file r.over_file vars (
          override_field fs.set_env r.over_env vars (
            override_field fs.set_host r.over_host vars
              (override_field fs.set_app r.over_app vars line)))))

  unfoldable pub process_line : MetaRules → fs.Line → Option fs.Line
  unfolding is_active meta_map_of is_k8s_line substitute copy_all merge_over
  process_line r line =
      let k8s = is_k8s_line line in
      let annotated =
        override_values "annot." fs.get_annotations fs.set_annotations r.over_annotations k8s
          (meta_map_of fs r line, line) in
      let labelled =
        override_values "label." fs.get_labels fs.set_labels r.over_labels k8s annotated in
      if is_active r then override_all r k8s labelled else some line
