-- ===== src/Middleware/K8sLineRules/Parse.antt =====
-- `set_k8s_line_rule` and `get_rule_object` of common/middleware/src/k8s_line_rules.rs: the rules of
-- the filter are read from texts. What expressions capture and the maps of the multimap crate are parameters.
use Prim.Native.String.{String}
use logdna_agent_v.Base.{Option, none, some, List, [], ◌∷◌, map, Result, ok, err, ◌>>=◌, unwrap}
use logdna_agent_v.Middleware.K8sLineRules.Expressions.{
  Regex, seq, codes, literal, dot, colon, key_regex, value_regex, key_value_regex,
}
use logdna_agent_v.Middleware.K8sLineRules.{Rules, K8sLineRules, K8sLineFilter}

-- What the source uses of the regex and multimap crates. `captured front group` is what an expression
-- that is `front` and then `group`, as its first group, captures at the beginning of a text, and
-- `captured_pair` what one captures that is a group, a separator and another group.
pub record RuleTexts (rules : Rules) : Type 1 where
  pub RegexError : Type 0
  pub new_set : List String → Result RegexError rules.RegexSet
  pub escape : String → String
  pub concat : String → String → String
  pub captured : Regex → Regex → String → Option String
  pub captured_pair : Regex → Regex → Regex → String → Option (String × String)
  pub new_map : rules.MultiMap
  pub insert : rules.MultiMap → String → String → rules.MultiMap

abbrev pub values_or_empty : Option (List String) → List String
values_or_empty none = []
values_or_empty (some vs) = vs

module _ (rules : Rules) (texts : RuleTexts rules) where
  -- REG_NAMESPACE, REG_NAME, REG_LABEL, REG_ANNOTATION and REG_KEYVAL
  abbrev pub namespace_of : String → Option String
  namespace_of rule = texts.captured (literal (codes "namespace:")) value_regex rule

  abbrev pub name_of : String → Option String
  name_of rule = texts.captured (literal (codes "name:")) value_regex rule

  abbrev pub label_of : String → Option String
  label_of rule = texts.captured (seq (literal (codes "label")) dot) key_value_regex rule

  abbrev pub annotation_of : String → Option String
  annotation_of rule = texts.captured (seq (literal (codes "annotation")) dot) key_value_regex rule

  abbrev pub keyval_of : String → Option (String × String)
  keyval_of text = texts.captured_pair key_regex colon value_regex text

  abbrev pub insert_some : String → Option String → rules.MultiMap → rules.MultiMap
  insert_some key none m = m
  insert_some key (some v) m = texts.insert m key v

  abbrev pub insert_rule : String → rules.MultiMap → rules.MultiMap
  insert_rule rule m = insert_some "annotation" (annotation_of rule) (
      insert_some "label" (label_of rule)
        (insert_some "name" (name_of rule) (insert_some "namespace" (namespace_of rule) m)))

  unfoldable pub insert_rules : List String → rules.MultiMap → rules.MultiMap
  insert_rules [] m = m
  insert_rules (rule ∷ rest) m = insert_rules rest (insert_rule rule m)

  unfoldable pub get_rule_object : List String → rules.MultiMap
  unfolding insert_rules
  get_rule_object list = insert_rules list texts.new_map

  abbrev pub namespace_pattern : String → String
  namespace_pattern ns =
      texts.concat "/([a-z0-9A-Z\\-.]+)_"
        (texts.concat (texts.escape ns) "_([a-z0-9A-Z\\-.]+)-([a-z0-9]{64}).log$")

  abbrev pub name_pattern : String → String
  name_pattern n =
      texts.concat "/"
        (texts.concat (texts.escape n) "_([a-z0-9A-Z\\-.]+)_([a-z0-9A-Z\\-.]+)-([a-z0-9]{64}).log$")

  abbrev pub set_of :
      (String → String) → Option (List String) → Result texts.RegexError (Option rules.RegexSet)
  set_of pattern none = ok none
  set_of pattern (some values) = elim (texts.new_set (map pattern values)) [
    | ok set ↦ ok (some set)
    | err e ↦ err e
  ]

  -- The loops over labels and annotations; text that is no key and value is a panic.
  unfoldable pub insert_keyvals : List String → rules.MultiMap → Option rules.MultiMap
  insert_keyvals [] m = some m
  insert_keyvals (text ∷ rest) m =
      keyval_of text >>= λ kv. insert_keyvals rest (texts.insert m kv.0 kv.1)

  abbrev pub map_of : Option (List String) → Option (Option rules.MultiMap)
  unfolding insert_keyvals
  map_of none = some none
  map_of (some values) = insert_keyvals values texts.new_map >>= λ m. some (some m)

  -- An expression that does not compile is returned before what follows it is read.
  abbrev pub assembled :
      Result texts.RegexError (Option rules.RegexSet)
      → Result texts.RegexError (Option rules.RegexSet)
      → Option (Option rules.MultiMap)
      → Option (Option rules.MultiMap)
      → Option (Result texts.RegexError (K8sLineRules rules))
  assembled (err e) name labels annotations = some (err e)
  assembled (ok namespace) (err e) labels annotations = some (err e)
  assembled (ok namespace) (ok name) labels annotations = labels >>= λ ls. annotations >>= λ ans.
      some (ok (record { namespace = namespace; name = name; labels = ls; annotations = ans }))

  abbrev pub read_rules : rules.MultiMap → Option (Result texts.RegexError (K8sLineRules rules))
  unfolding insert_keyvals
  read_rules object =
      assembled (set_of namespace_pattern (rules.get_vec object "namespace"))
        (set_of name_pattern (rules.get_vec object "name")) (map_of (rules.get_vec object "label"))
        (map_of (rules.get_vec object "annotation"))

  unfoldable pub set_k8s_line_rule :
      List String → Option (Result texts.RegexError (K8sLineRules rules))
  unfolding get_rule_object insert_keyvals
  set_k8s_line_rule [] =
      some (ok (record { namespace = none; name = none; labels = none; annotations = none }))
  set_k8s_line_rule (rule ∷ rest) = read_rules (get_rule_object (rule ∷ rest))

  -- Both results are unwrapped: an error is a panic.
  unfoldable pub new_filter : List String → List String → Option (K8sLineFilter rules)
  unfolding set_k8s_line_rule
  new_filter exclusion inclusion = set_k8s_line_rule exclusion >>= λ ex.
      set_k8s_line_rule inclusion >>= λ inc. unwrap ex >>= λ ex'.
      unwrap inc >>= λ inc'. some (record { exclusion = ex'; inclusion = inc' })
