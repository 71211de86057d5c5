-- ===== src/Examples/K8sRules.antt =====
-- Rules of the Kubernetes filter that are read from texts: a multimap is a function, a set of
-- expressions is the list of them, and the expressions are tables of a few texts.
use Prim.Native.String.{String}
use text.Mathlib.Text.{◌==◌ as text_eq}
use logdna_agent_v.Base.{
  ◌≡◌, refl, inl, inr, subst, Bool, ◌&&◌, arith, false, Bool-cases, Option, none, some, List, [],
  ◌∷◌, ◌++◌, ok, if◌then◌else◌,
}
use logdna_agent_v.Middleware.K8sLineRules.{Rules, K8sLineRules}
use logdna_agent_v.Middleware.K8sLineRules.Parse.{
  RuleTexts, label_of, annotation_of, values_or_empty, namespace_pattern, set_k8s_line_rule,
}
use logdna_agent_v.Middleware.K8sLineRules.Expressions.{Regex, codes, Matches}
use logdna_agent_v.Examples.Derivatives.{accepts, accepts-Matches}
use logdna_agent_v.Middleware.K8sLineRules.Found.{TextLaws, listed, found}
use logdna_agent_v.Middleware.K8sLineRules.Read.{get_at, keyed, set_k8s_line_rule-reads}

abbrev maps : Rules
maps = record {
  Line = String;
  RegexSet = List String;
  MultiMap = String → Option (List String);
  get_file = λ l. some l;
  get_line_buffer = λ l. some [];
  get_labels = λ l. none;
  get_annotations = λ l. none;
  is_match = λ set file. false;
  get_vec = λ m j. m j;
}

-- Texts, each as the front of an expression and what its group captures.
abbrev Known : Type 0
Known = List (String × String × String)

abbrev known : Known
known =
    ("namespace:shop", "namespace:", "shop")
    ∷ ("name:web", "name:", "web")
    ∷ ("label.app:web", "label.", "app:web")
    ∷ []

abbrev fits : Regex → Regex → String → String × String × String → Bool
fits front group text (whole, first, rest) =
    text_eq text whole && (accepts front (codes first) && accepts group (codes rest))

abbrev look_up : Known → Regex → Regex → String → Option String
look_up [] front group text = none
look_up (k ∷ ks) front group text =
    let rest = look_up ks front group text in if fits front group text k then some k.2 else rest

look_up-Matches :
    (ks : Known) (front group : Regex) (text found : String)
    → look_up ks front group text ≡ some found
    → Matches group (codes found)
look_up-Matches [] front group text found h = absurd (cc)
look_up-Matches (k ∷ ks) front group text found h = elim (Bool-cases (fits front group text k)) [
  | inl e ↦
      let first : ◌≡◌ {A = Option String} (some k.2) (some found) = rw e at h in
      let same : k.2 ≡ found = cc in
      subst (λ t. Matches group (codes t)) same (accepts-Matches group (codes k.2) (ground arith))
  | inr e ↦ look_up-Matches ks front group text found (rw e at h)
]

abbrev tables : RuleTexts maps
tables = record {
  RegexError = String;
  new_set = λ expressions. ok expressions;
  escape = λ text. text;
  concat = λ front back. if text_eq front "/" then back else front;
  captured = look_up known;
  captured_pair =
      λ a between b text. if text_eq text "app:web" then some ("app", "web") else some (text, "");
  new_map = λ j. none;
  insert = λ m k v j. if text_eq k j then some (values_or_empty (m j) ++ v ∷ []) else m j;
}

tables_pair :
    (a between b : Regex) (text : String)
    → (kv : String × String) × tables.captured_pair a between b text ≡ some kv
tables_pair a between b text = elim (Bool-cases (text_eq text "app:web")) [
  | inl e ↦ (("app", "web"), rw e refl)
  | inr e ↦ ((text, ""), rw e refl)
]

tables-TextLaws : TextLaws maps tables
tables-TextLaws = record {
  get_vec-new = λ j. refl;
  get_vec-insert = λ m k v j. refl;
  captured-matches = look_up-Matches known;
  captured_pair-finds = λ a between b text m. tables_pair a between b text;
}

-- The label rule is read, the text without a rule is not.
labels_found :
    found (label_of maps tables) ("label.app:web" ∷ "name:web" ∷ "other" ∷ []) ≡ "app:web" ∷ []
labels_found = refl

abbrev some_texts : List String
some_texts = "namespace:shop" ∷ "label.app:web" ∷ "label.app:web" ∷ "other" ∷ []

abbrev shop_set : List String
shop_set = namespace_pattern maps tables "shop" ∷ []

set_k8s_line_rule-reads_example :
    (r : K8sLineRules maps) × set_k8s_line_rule maps tables some_texts ≡ some (ok r)
    × r.namespace ≡ some shop_set
    × r.name ≡ none
    × ((j : String)
        → get_at maps tables r.labels j
            ≡ listed (keyed maps tables j (found (label_of maps tables) some_texts))
          × get_at maps tables r.annotations j
            ≡ listed (keyed maps tables j (found (annotation_of maps tables) some_texts)))
set_k8s_line_rule-reads_example =
    set_k8s_line_rule-reads maps tables tables-TextLaws some_texts (some shop_set) none refl refl

-- Both rules for one key are kept.
two_labels :
    listed (keyed maps tables "app" ("app:web" ∷ "app:web" ∷ [])) ≡ some ("web" ∷ "web" ∷ [])
two_labels = refl
