-- ===== src/Middleware/K8sLineRules/Read.antt =====
-- What the rules are that `set_k8s_line_rule` reads from texts.
use Prim.Native.String.{String}
use text.Mathlib.Text.{◌==◌ as text_eq}
use logdna_agent_v.Base.{
  ◌≡◌, refl, sym, ap, ◌∙◌, Option, none, some, List, [], ◌∷◌, ◌++◌, Result, ok, err, if◌then◌else◌,
}
use logdna_agent_v.Middleware.K8sLineRules.{Rules, K8sLineRules}
use logdna_agent_v.Middleware.K8sLineRules.Expressions.{
  key_regex, colon, value_regex, key_value_regex,
}
use logdna_agent_v.Middleware.K8sLineRules.Parse.{
  namespace_of, name_of, label_of, annotation_of, keyval_of, RuleTexts, get_rule_object,
  namespace_pattern, name_pattern, set_of, insert_keyvals, map_of, read_rules, set_k8s_line_rule,
}
use logdna_agent_v.Middleware.K8sLineRules.Found.{
  TextLaws, appended, listed, one, found, appended-append, appended-none, insert-appended,
  object-namespace, object-name, object-label, object-annotation,
}

abbrev pub value_at : String → Option (String × String) → List String
value_at j none = []
value_at j (some (k, v)) = if text_eq k j then v ∷ [] else []

abbrev pub from_ok {ℓ κ} : {E : Type κ} {A : Type ℓ} → Result E (Option A) → Option A
from_ok (ok o) = o
from_ok (err e) = none

module _ (rules : Rules) (texts : RuleTexts rules) where
  abbrev pub get_at : Option rules.MultiMap → String → Option (List String)
  get_at none j = none
  get_at (some m) j = rules.get_vec m j

  -- The values of a key among texts.
  abbrev pub keyed : String → List String → List String
  keyed j [] = []
  keyed j (text ∷ rest) = value_at j (keyval_of rules texts text) ++ keyed j rest

  data Keyed : List String → Type 0 where
    keyed_nil : Keyed []
    keyed_cons :
        {text : String} {rest : List String} (kv : String × String)
        → keyval_of rules texts text ≡ some kv
        → Keyed rest
        → Keyed (text ∷ rest)

  module _ (laws : TextLaws rules texts) where
    label-keyval :
        (rule text : String)
        → label_of rules texts rule ≡ some text
        → (kv : String × String) × keyval_of rules texts text ≡ some kv
    label-keyval rule text e =
        laws.captured_pair-finds key_regex colon value_regex text
          (laws.captured-matches _ key_value_regex rule text e)

    annotation-keyval :
        (rule text : String)
        → annotation_of rules texts rule ≡ some text
        → (kv : String × String) × keyval_of rules texts text ≡ some kv
    annotation-keyval rule text e =
        laws.captured_pair-finds key_regex colon value_regex text
          (laws.captured-matches _ key_value_regex rule text e)

    one-Keyed :
        (o : Option String) {ts : List String}
        → ((text : String)
            → o ≡ some text
            → (kv : String × String) × keyval_of rules texts text ≡ some kv)
        → Keyed ts
        → Keyed (one o ++ ts)
    one-Keyed none h k = k
    one-Keyed (some text) h k = let (kv, e) = h text refl in keyed_cons kv e k

    found-Keyed :
        (group : String → Option String)
        → ((rule text : String)
            → group rule ≡ some text
            → (kv : String × String) × keyval_of rules texts text ≡ some kv)
        → (list : List String) → Keyed (found group list)
    found-Keyed group h [] = keyed_nil
    found-Keyed group h (rule ∷ rest) = one-Keyed (group rule) (h rule) (found-Keyed group h rest)

    insert_keyvals-keyed :
        {ts : List String}
        → Keyed ts
        → (m : rules.MultiMap)
        → (m' : rules.MultiMap) × insert_keyvals rules texts ts m ≡ some m'
          × ((j : String) → rules.get_vec m' j ≡ appended (rules.get_vec m j) (keyed j ts))
    unfolding insert_keyvals
    insert_keyvals-keyed keyed_nil m = (m, refl, λ j. refl)
    insert_keyvals-keyed (keyed_cons {text} {rest} kv e k) m =
        let (m', returns, gets) = insert_keyvals-keyed k (texts.insert m kv.0 kv.1) in
        (
          m',
          rw e returns,
          λ j.
              gets j
              ∙ ap (λ g. appended g (keyed j rest)) (insert-appended rules texts laws m kv.0 kv.1 j)
              ∙ appended-append (rules.get_vec m j) (value_at j (some kv)) (keyed j rest)
              ∙ ap (λ o. appended (rules.get_vec m j) (value_at j o ++ keyed j rest)) (sym e),
        )

    map_of-keyed :
        {ts : List String}
        → Keyed ts
        → (o : Option rules.MultiMap) × map_of rules texts (listed ts) ≡ some o
          × ((j : String) → get_at o j ≡ listed (keyed j ts))
    unfolding insert_keyvals
    map_of-keyed keyed_nil = (none, refl, λ j. refl)
    map_of-keyed (keyed_cons {text} {rest} kv e k) =
        let (m, returns, gets) = insert_keyvals-keyed (keyed_cons kv e k) texts.new_map in
        (
          some m,
          rw returns refl,
          λ j.
              gets j
              ∙ ap (λ g. appended g (keyed j (text ∷ rest))) (laws.get_vec-new j)
              ∙ appended-none (keyed j (text ∷ rest)),
        )

    read_rules-reads :
        (object : rules.MultiMap) {ns n : Option rules.RegexSet} {ls ans : Option rules.MultiMap}
        → set_of rules texts (namespace_pattern rules texts) (rules.get_vec object "namespace")
          ≡ ok ns
        → set_of rules texts (name_pattern rules texts) (rules.get_vec object "name") ≡ ok n
        → map_of rules texts (rules.get_vec object "label") ≡ some ls
        → map_of rules texts (rules.get_vec object "annotation") ≡ some ans
        → read_rules rules texts object
          ≡ some (ok (record { namespace = ns; name = n; labels = ls; annotations = ans }))
    unfolding insert_keyvals
    read_rules-reads object e f g h = rw (e, f, g, h) refl

    -- Where the expressions of the namespaces and of the names compile, reading the rules ends without a
    -- panic or an error: what a label or an annotation rule captures is always a key and a value. The
    -- sets are those of the values of the namespace and of the name rules, in their order, and none
    -- without such rules; the values of a key are those that the label and the annotation rules with
    -- this key give, in their order.
    pub set_k8s_line_rule-reads :
        (list : List String) (ns n : Option rules.RegexSet)
        → set_of rules texts
            (namespace_pattern rules texts)
            (listed (found (namespace_of rules texts) list))
          ≡ ok ns
        → set_of rules texts (name_pattern rules texts) (listed (found (name_of rules texts) list))
          ≡ ok n
        → (r : K8sLineRules rules) × set_k8s_line_rule rules texts list ≡ some (ok r)
          × r.namespace ≡ ns
          × r.name ≡ n
          × ((j : String)
              → get_at r.labels j ≡ listed (keyed j (found (label_of rules texts) list))
                × get_at r.annotations j
                  ≡ listed (keyed j (found (annotation_of rules texts) list)))
    unfolding set_k8s_line_rule insert_keyvals
    set_k8s_line_rule-reads [] ns n e f = (
      record { namespace = none; name = none; labels = none; annotations = none },
      refl,
      ap from_ok e,
      ap from_ok f,
      λ j. (refl, refl),
    )
    set_k8s_line_rule-reads (rule ∷ rest) ns n e f =
        let list = rule ∷ rest in
        let (labels, of_labels, gets) =
          map_of-keyed (found-Keyed (label_of rules texts) label-keyval list) in
        let (annotations, of_annotations, gets') =
          map_of-keyed (found-Keyed (annotation_of rules texts) annotation-keyval list) in
        (
          record { namespace = ns; name = n; labels = labels; annotations = annotations },
          read_rules-reads (get_rule_object rules texts list)
              (ap (set_of rules texts (namespace_pattern rules texts))
                  (object-namespace rules texts laws list)
                ∙ e)
              (ap (set_of rules texts (name_pattern rules texts))
                  (object-name rules texts laws list)
                ∙ f)
              (ap (map_of rules texts) (object-label rules texts laws list) ∙ of_labels)
              (ap (map_of rules texts) (object-annotation rules texts laws list) ∙ of_annotations),
          refl,
          refl,
          λ j. (gets j, gets' j),
        )
