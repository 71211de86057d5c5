-- ===== src/Examples/MetaRules.antt =====
-- The overrides of a line: a map of values is a list of entries, of which the first one of a key
-- counts; a template is a text or one variable.
use Prim.Native.String.{String}
use text.Mathlib.Text.{◌==◌ as text_eq}
use logdna_agent_v.Base.{◌≡◌, refl, false, Option, none, some, List, [], ◌∷◌, err, if◌then◌else◌}
use logdna_agent_v.Middleware.MetaRules.{TextMap, LineFields, MetaRules, substitute, merge_over}
use logdna_agent_v.Middleware.MetaRules.Process.{process_line}
use logdna_agent_v.Middleware.MetaRules.Merged.{
  MapLaws, settled, last_get, filled, merge_over-value,
}

abbrev Values : Type 0
Values = List (String × Option String)

abbrev first_of : Values → String → Option String
first_of [] j = none
first_of ((k, v) ∷ m) j = let rest = first_of m j in if text_eq k j then v else rest

abbrev listed : Values → TextMap
listed [] = []
listed ((k, none) ∷ m) = listed m
listed ((k, some v) ∷ m) = (k, v) ∷ listed m

-- The line is its application and its labels.
abbrev fields : LineFields
fields = record {
  Line = String × Values;
  KeyValueMap = Values;
  Json = Unit {0};
  JsonError = Unit {0};
  no_values = [];
  entries = listed;
  put_value = λ m k v. (k, some v) ∷ m;
  drop_value = λ m k. (k, none) ∷ m;
  value_of = first_of;
  get_annotations = λ l. none;
  get_labels = λ l. some l.1;
  get_app = λ l. some l.0;
  get_host = λ l. none;
  get_env = λ l. none;
  get_file = λ l. none;
  get_line_buffer = λ l. none;
  set_annotations = λ m l. l;
  set_labels = λ m l. (l.0, m);
  set_app = λ a l. (a, l.1);
  set_host = λ a l. l;
  set_env = λ a l. l;
  set_file = λ a l. l;
  set_meta = λ j l. l;
  set_line_buffer = λ b l. l;
  captures_var = λ t. if text_eq t "${line.app}" then ("line.app", t) ∷ [] else [];
  captures_default = λ t. [];
  crio_line = λ b. none;
  replace = λ t from to. if text_eq t from then to else t;
  concat = λ a b. b;
  starts_with = λ a b. false;
  json_from_str = λ t. err tt;
  map_from_str = λ t. err tt;
}

abbrev over : TextMap
over = ("owner", "${line.app}") ∷ ("tier", "") ∷ []

abbrev labels : Values
labels = ("tier", some "web") ∷ ("zone", some "a") ∷ []

abbrev vars : TextMap
vars = ("line.app", "shop") ∷ []

map_laws : MapLaws fields
map_laws = record { value_of-put = λ m k v j. refl; value_of-drop = λ m k j. refl }

merge_over-value_example :
    first_of (merge_over fields "label." over vars labels).1 "tier"
    ≡ settled (last_get (filled fields "label." over vars) "tier") (first_of labels "tier")
merge_over-value_example = merge_over-value fields map_laws "label." over vars labels "tier"

abbrev rules : MetaRules
rules = record {
  env_map = [];
  over_app = none;
  over_host = none;
  over_env = none;
  over_file = none;
  over_k8s_file = none;
  over_meta = none;
  over_annotations = none;
  over_labels = some over;
}

-- The owner is added, the tier is taken away, and the zone stays.
abbrev labelled : Option (String × Values) → List (Option String)
labelled none = []
labelled (some line) =
    first_of line.1 "owner" ∷ first_of line.1 "tier" ∷ first_of line.1 "zone" ∷ []

labels_merged :
    labelled (process_line fields rules ("shop", labels)) ≡ some "shop" ∷ none ∷ some "a" ∷ []
unfolding process_line
labels_merged = refl

app_filled_in : substitute fields "${line.app}" vars ≡ "shop"
unfolding substitute
app_filled_in = refl

unknown_stays : substitute fields "${line.app}" [] ≡ "${line.app}"
unfolding substitute
unknown_stays = refl
