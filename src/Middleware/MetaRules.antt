-- ===== src/Middleware/MetaRules.antt =====
-- common/middleware/src/meta_rules.rs, with `substitute` of common/config/src/lib.rs: the fields of a
-- line are overridden by templates. This file has the rules, the substitution map and the loop over the
-- overrides of a map of values. The maps of a line, regular expressions, text replacement and JSON
-- are a parameter. A hash map of texts is a list of entries, in the order in which it gives them.
pub mod Merged
pub mod Process
pub mod Substitute
use Prim.Native.String.{String}
use text.Mathlib.Text.{◌==◌ as text_eq}
use logdna_agent_v.Base.{
  ℕ, Bool, true, false, ◌&&◌, ◌||◌, Option, none, some, List, [], ◌∷◌, Result, ok, err,
  if◌then◌else◌,
}

abbrev pub TextMap : Type 0
TextMap = List (String × String)

-- `HashMap::get` and `HashMap::insert`
abbrev pub text_get : TextMap → String → Option String
text_get [] k = none
text_get ((j, v) ∷ m) k = let rest = text_get m k in if text_eq j k then some v else rest

abbrev pub text_put : String → String → TextMap → TextMap
text_put k v m = (k, v) ∷ m

abbrev pub has {ℓ} : {A : Type ℓ} → Option A → Bool
has none = false
has (some a) = true

-- What the stage uses of other code. A setter that fails leaves the line as it is. `captures_var` gives
-- for each match of a variable its key and the whole of it, `captures_default` the default too;
-- `crio_line` is the group `line` of the first match.
pub record LineFields : Type 1 where
  pub Line : Type 0
  pub KeyValueMap : Type 0
  pub Json : Type 0
  pub JsonError : Type 0
  pub no_values : KeyValueMap
  pub entries : KeyValueMap → TextMap
  pub put_value : KeyValueMap → String → String → KeyValueMap
  pub drop_value : KeyValueMap → String → KeyValueMap
  pub value_of : KeyValueMap → String → Option String
  pub get_annotations : Line → Option KeyValueMap
  pub get_labels : Line → Option KeyValueMap
  pub get_app : Line → Option String
  pub get_host : Line → Option String
  pub get_env : Line → Option String
  pub get_file : Line → Option String
  pub get_line_buffer : Line → Option (List ℕ)
  pub set_annotations : KeyValueMap → Line → Line
  pub set_labels : KeyValueMap → Line → Line
  pub set_app : String → Line → Line
  pub set_host : String → Line → Line
  pub set_env : String → Line → Line
  pub set_file : String → Line → Line
  pub set_meta : Json → Line → Line
  pub set_line_buffer : List ℕ → Line → Line
  pub captures_var : String → List (String × String)
  pub captures_default : String → List (String × String × String)
  pub crio_line : List ℕ → Option (List ℕ)
  pub replace : String → String → String → String
  pub concat : String → String → String
  pub starts_with : String → String → Bool
  pub json_from_str : String → Result JsonError Json
  pub map_from_str : String → Result JsonError TextMap

pub record MetaRulesConfig : Type 0 where
  pub app : Option String
  pub host : Option String
  pub env : Option String
  pub file : Option String
  pub k8s_file : Option String
  pub meta : Option String
  pub annotations : Option String
  pub labels : Option String

pub record MetaRules : Type 0 where
  pub env_map : TextMap
  pub over_app : Option String
  pub over_host : Option String
  pub over_env : Option String
  pub over_file : Option String
  pub over_k8s_file : Option String
  pub over_meta : Option String
  pub over_annotations : Option TextMap
  pub over_labels : Option TextMap

module _ (fs : LineFields) where
  pub data MetaRulesError : Type 0 where
    invalid_annotations invalid_labels : String → fs.JsonError → MetaRulesError

  abbrev parse_map :
      (String → fs.JsonError → MetaRulesError)
      → Option String
      → Result MetaRulesError (Option TextMap)
  parse_map invalid none = ok none
  parse_map invalid (some text) = elim (fs.map_from_str text) [
    | ok m ↦ ok (some m)
    | err e ↦ err (invalid text e)
  ]

  unfoldable pub new_rules : TextMap → MetaRulesConfig → Result MetaRulesError MetaRules
  new_rules vars cfg = elim (parse_map invalid_annotations cfg.annotations) [
    | err e ↦ err e
    | ok annotations ↦ elim (parse_map invalid_labels cfg.labels) [
      | err e ↦ err e
      | ok labels ↦ ok (record {
        env_map = vars;
        over_app = cfg.app;
        over_host = cfg.host;
        over_env = cfg.env;
        over_file = cfg.file;
        over_k8s_file = cfg.k8s_file;
        over_meta = cfg.meta;
        over_annotations = annotations;
        over_labels = labels;
      })
    ]
  ]

  -- The first loop of `substitute`: variables that are known.
  abbrev pub replace_known : Option String → String → String → String
  replace_known none whole output = output
  replace_known (some v) whole output = fs.replace output whole v

  unfoldable pub fill_known : List (String × String) → TextMap → String → String
  fill_known [] vars output = output
  fill_known ((key, whole) ∷ caps) vars output =
      fill_known caps vars (replace_known (text_get vars key) whole output)

  abbrev pub value_or : Option String → String → String
  value_or none default = default
  value_or (some v) default = v

  -- The second loop: variables with a default.
  unfoldable pub fill_default : List (String × String × String) → TextMap → String → String
  fill_default [] vars output = output
  fill_default ((key, whole, default) ∷ caps) vars output =
      fill_default caps vars (fs.replace output whole (value_or (text_get vars key) default))

  unfoldable pub substitute : String → TextMap → String
  unfolding fill_known fill_default
  substitute template vars =
      fill_default (fs.captures_default template) vars
        (fill_known (fs.captures_var template) vars template)

  -- The entries under a prefix, put into the map.
  unfoldable pub put_all : String → TextMap → TextMap → TextMap
  put_all prefix [] m = m
  put_all prefix ((k, v) ∷ kvs) m = put_all prefix kvs (text_put (fs.concat prefix k) v m)

  abbrev pub entries_of : Option fs.KeyValueMap → TextMap
  entries_of none = []
  entries_of (some kvs) = fs.entries kvs

  abbrev pub put_field : String → Option String → TextMap → TextMap
  put_field name none m = m
  put_field name (some v) m = text_put name v m

  unfoldable pub meta_map_of : MetaRules → fs.Line → TextMap
  unfolding put_all
  meta_map_of r line = put_field "line.file" (fs.get_file line) (
      put_field "line.env" (fs.get_env line) (
        put_field "line.host" (fs.get_host line) (
          put_field "line.app" (fs.get_app line) (
            put_all "label." (entries_of (fs.get_labels line)) (
              put_all "annot." (entries_of (fs.get_annotations line))
                (put_all "env." r.env_map []))))))

  unfoldable pub copy_all : TextMap → fs.KeyValueMap → fs.KeyValueMap
  copy_all [] m = m
  copy_all ((k, v) ∷ kvs) m = copy_all kvs (fs.put_value m k v)

  -- An empty value takes the key away.
  abbrev pub put_or_drop : String → String → fs.KeyValueMap → fs.KeyValueMap
  put_or_drop k v m = if text_eq v "" then fs.drop_value m k else fs.put_value m k v

  -- The loop over the overrides: the substitution map, and the new values of the line.
  unfoldable pub merge_over : String → TextMap → TextMap → fs.KeyValueMap → TextMap × fs.KeyValueMap
  unfolding substitute
  merge_over prefix [] vars m = (vars, m)
  merge_over prefix ((k, template) ∷ over) vars m =
      merge_over prefix over (text_put (fs.concat prefix k) (substitute template vars) vars)
        (put_or_drop k (substitute template vars) m)
