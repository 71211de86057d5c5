-- ===== src/Middleware/K8sLineRules/Found.antt =====
-- What `get_rule_object` finds in texts: the values of each kind of rule, in their order.
use Prim.Native.String.{String}
use text.Mathlib.Text.{◌==◌ as text_eq}
use mathlib.Core.List.{append-nil}
use logdna_agent_v.Base.{
  ◌≡◌, refl, sym, ap, ◌∙◌, inl, inr, Bool-cases, Option, none, some, List, [], ◌∷◌, ◌++◌,
  if◌then◌else◌, snoc_assoc,
}
use logdna_agent_v.Middleware.K8sLineRules.{Rules}
use logdna_agent_v.Middleware.K8sLineRules.Expressions.{Regex, seq, codes, Matches}
use logdna_agent_v.Middleware.K8sLineRules.Parse.{
  namespace_of, name_of, label_of, annotation_of, RuleTexts, values_or_empty, insert_some,
  insert_rule, insert_rules, get_rule_object,
}

-- The documented behaviour of the two crates: what a group captures matches the expression in the group,
-- and a text that matches an expression as a whole is captured by it.
pub record TextLaws (rules : Rules) (texts : RuleTexts rules) : Type 0 where
  pub get_vec-new : (j : String) → rules.get_vec texts.new_map j ≡ none
  pub get_vec-insert :
      (m : rules.MultiMap) (k v j : String)
      → rules.get_vec (texts.insert m k v) j ≡ (
          if text_eq k j
          then some (values_or_empty (rules.get_vec m j) ++ v ∷ [])
          else rules.get_vec m j)
  pub captured-matches :
      (front group : Regex) (text found : String)
      → texts.captured front group text ≡ some found
      → Matches group (codes found)
  pub captured_pair-finds :
      (first between second : Regex) (text : String)
      → Matches (seq first (seq between second)) (codes text)
      → (kv : String × String) × texts.captured_pair first between second text ≡ some kv

-- `insert` of several values for one key.
abbrev pub appended : Option (List String) → List String → Option (List String)
appended o [] = o
appended o (v ∷ vs) = appended (some (values_or_empty o ++ v ∷ [])) vs

abbrev pub listed : List String → Option (List String)
listed [] = none
listed (v ∷ vs) = some (v ∷ vs)

abbrev pub one : Option String → List String
one none = []
one (some v) = v ∷ []

-- What a group of one expression is in each of the texts that it matches.
abbrev pub found : (String → Option String) → List String → List String
found group [] = []
found group (rule ∷ rest) = one (group rule) ++ found group rest

pub appended-append :
    (o : Option (List String)) (xs ys : List String)
    → appended (appended o xs) ys ≡ appended o (xs ++ ys)
appended-append o [] ys = refl
appended-append o (x ∷ xs) ys = appended-append (some (values_or_empty o ++ x ∷ [])) xs ys

appended-some : (xs vs : List String) → appended (some xs) vs ≡ some (xs ++ vs)
appended-some xs [] = ap some (sym (append-nil xs))
appended-some xs (v ∷ vs) = appended-some (xs ++ v ∷ []) vs ∙ ap some (snoc_assoc xs v vs)

pub appended-none : (vs : List String) → appended none vs ≡ listed vs
appended-none [] = refl
appended-none (v ∷ vs) = appended-some (v ∷ []) vs

module _ (rules : Rules) (texts : RuleTexts rules) where
  abbrev picked : String → String → Option String → List String
  picked j key o = if text_eq key j then one o else []

  module _ (laws : TextLaws rules texts) where
    pub insert-appended :
        (m : rules.MultiMap) (k v j : String)
        → rules.get_vec (texts.insert m k v) j
          ≡ appended (rules.get_vec m j) (if text_eq k j then v ∷ [] else [])
    insert-appended m k v j = elim (Bool-cases (text_eq k j)) [
      | inl e ↦ laws.get_vec-insert m k v j ∙ rw e refl
      | inr e ↦ laws.get_vec-insert m k v j ∙ rw e refl
    ]

    insert_some-appended :
        (key : String) (o : Option String) (m : rules.MultiMap) (j : String)
        → rules.get_vec (insert_some rules texts key o m) j
          ≡ appended (rules.get_vec m j) (picked j key o)
    insert_some-appended key none m j = elim (Bool-cases (text_eq key j)) [
      | inl e ↦ rw e refl
      | inr e ↦ rw e refl
    ]
    insert_some-appended key (some v) m j = insert-appended m key v j

    insert_rule-appended :
        (rule : String) (m : rules.MultiMap) (j : String)
        → rules.get_vec (insert_rule rules texts rule m) j
          ≡ appended
              (appended
                (appended
                  (appended
                    (rules.get_vec m j)
                    (picked j "namespace" (namespace_of rules texts rule)))
                  (picked j "name" (name_of rules texts rule)))
                (picked j "label" (label_of rules texts rule)))
              (picked j "annotation" (annotation_of rules texts rule))
    insert_rule-appended rule m j =
        rw
          (insert_some-appended "annotation" (annotation_of rules texts rule)
            (insert_some rules texts "label" (label_of rules texts rule) (
              insert_some rules texts "name" (name_of rules texts rule)
                (insert_some rules texts "namespace" (namespace_of rules texts rule) m)))
            j)
          (rw
            (insert_some-appended "label" (label_of rules texts rule)
              (insert_some rules texts "name" (name_of rules texts rule)
                (insert_some rules texts "namespace" (namespace_of rules texts rule) m))
              j)
            (rw
              (insert_some-appended "name" (name_of rules texts rule)
                (insert_some rules texts "namespace" (namespace_of rules texts rule) m) j)
              (rw (insert_some-appended "namespace" (namespace_of rules texts rule) m j) refl)))

    insert_rules-found :
        (j : String) (group : String → Option String)
        → ((rule : String) (m : rules.MultiMap)
            → rules.get_vec (insert_rule rules texts rule m) j
              ≡ appended (rules.get_vec m j) (one (group rule)))
        → (list : List String) (m : rules.MultiMap)
        → rules.get_vec (insert_rules rules texts list m) j
          ≡ appended (rules.get_vec m j) (found group list)
    unfolding insert_rules
    insert_rules-found j group h [] m = refl
    insert_rules-found j group h (rule ∷ rest) m =
        insert_rules-found j group h rest (insert_rule rules texts rule m)
        ∙ ap (λ g. appended g (found group rest)) (h rule m)
        ∙ appended-append (rules.get_vec m j) (one (group rule)) (found group rest)

    get_rule_object-found :
        (j : String) (group : String → Option String)
        → ((rule : String) (m : rules.MultiMap)
            → rules.get_vec (insert_rule rules texts rule m) j
              ≡ appended (rules.get_vec m j) (one (group rule)))
        → (list : List String)
        → rules.get_vec (get_rule_object rules texts list) j ≡ listed (found group list)
    unfolding get_rule_object
    get_rule_object-found j group h list =
        insert_rules-found j group h list texts.new_map
        ∙ ap (λ g. appended g (found group list)) (laws.get_vec-new j)
        ∙ appended-none (found group list)

    pub object-namespace :
        (list : List String)
        → rules.get_vec (get_rule_object rules texts list) "namespace"
          ≡ listed (found (namespace_of rules texts) list)
    object-namespace =
        get_rule_object-found "namespace" (namespace_of rules texts)
          (λ rule m. insert_rule-appended rule m "namespace")

    pub object-name :
        (list : List String)
        → rules.get_vec (get_rule_object rules texts list) "name"
          ≡ listed (found (name_of rules texts) list)
    object-name =
        get_rule_object-found "name" (name_of rules texts)
          (λ rule m. insert_rule-appended rule m "name")

    pub object-label :
        (list : List String)
        → rules.get_vec (get_rule_object rules texts list) "label"
          ≡ listed (found (label_of rules texts) list)
    object-label =
        get_rule_object-found "label" (label_of rules texts)
          (λ rule m. insert_rule-appended rule m "label")

    pub object-annotation :
        (list : List String)
        → rules.get_vec (get_rule_object rules texts list) "annotation"
          ≡ listed (found (annotation_of rules texts) list)
    object-annotation =
        get_rule_object-found "annotation" (annotation_of rules texts)
          (λ rule m. insert_rule-appended rule m "annotation")
