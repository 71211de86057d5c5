-- ===== src/Examples/Kubernetes.antt =====
-- The Kubernetes filter. A set of expressions is a list of file names, a map of rules is a list of
-- keys with their values, and a line is a file name with labels.
use Prim.Native.String.{String}
use text.Mathlib.Text.{◌==◌ as text_eq}
use logdna_agent_v.Base.{
  ℕ, ◌≡◌, ◌↔◌, refl, Bool, false, ◌||◌, Option, none, some, List, [], ◌∷◌, if◌then◌else◌,
}
use logdna_agent_v.Middleware.Interface.{Status}
use logdna_agent_v.Middleware.K8sLineRules.{
  KeyValueMap, Rules, K8sLineFilter, process_line, process, process_file, misses,
}
use logdna_agent_v.Middleware.K8sLineRules.Filter.{Kept, process_line_iff, process_cases}

abbrev listed : List String → String → Bool
listed [] v = false
listed (x ∷ xs) v = let rest = listed xs v in text_eq x v || rest

abbrev values_of : List (String × List String) → String → Option (List String)
values_of [] k = none
values_of (e ∷ rest) k = let later = values_of rest k in if text_eq e.0 k then some e.1 else later

abbrev lists : Rules
lists = record {
  Line = String × KeyValueMap;
  RegexSet = List String;
  MultiMap = List (String × List String);
  get_file = λ l. some l.0;
  get_line_buffer = λ l. some [];
  get_labels = λ l. some l.1;
  get_annotations = λ l. none;
  is_match = listed;
  get_vec = values_of;
}

abbrev by_label : K8sLineFilter lists
by_label = record {
  inclusion = record {
    namespace = none;
    name = some ("web.log" ∷ []);
    labels = some (("app", "shop" ∷ []) ∷ []);
    annotations = none;
  };
  exclusion = record { namespace = none; name = none; labels = none; annotations = none };
}

-- A line without the label that the rule asks for is not skipped.
unlabelled_kept : process_line lists by_label ("web.log", []) ≡ Status.ok ("web.log", [])
unfolding process_line process_file misses
unlabelled_kept = refl

process_line_iff_example :
    (process_line lists by_label ("web.log", ("app", "shop") ∷ [])
      ≡ Status.ok ("web.log", ("app", "shop") ∷ []))
    ↔ Kept lists by_label ("web.log", ("app", "shop") ∷ []) "web.log"
process_line_iff_example =
    process_line_iff lists by_label ("web.log", ("app", "shop") ∷ []) "web.log" refl

process_cases_example :
    ((bytes : List ℕ)
      → some [] ≡ some bytes
      → process lists by_label ("web.log", []) ≡ process_line lists by_label ("web.log", []))
    × (◌≡◌ {A = Option (List ℕ)} (some []) none
        → process lists by_label ("web.log", []) ≡ Status.skip)
process_cases_example = process_cases lists by_label ("web.log", [])
