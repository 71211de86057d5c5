-- ===== src/Middleware/LineRules.antt =====
-- common/middleware/src/line_rules.rs: lines are dropped by regular expressions and parts of them are
-- redacted. `none` is a panic.
pub mod Filter
pub mod Redacted
use logdna_agent_v.Base.{
  ℕ, ◌≡◌, refl, Bool, true, false, not, ◌&&◌, Option, none, some, List, [], ◌∷◌, ◌>>=◌,
  if◌then◌else◌,
}
use logdna_agent_v.Middleware.Interface.{LineBuffer, Engine, Status}
use logdna_agent_v.Middleware.Redact.{Match, record_all, render}

abbrev pub no_items {ℓ} : {A : Type ℓ} → List A → Bool
no_items [] = true
no_items (x ∷ xs) = false

pub no_items-true {ℓ} : {A : Type ℓ} (xs : List A) → no_items xs ≡ true → xs ≡ []
no_items-true [] h = refl
no_items-true (x ∷ xs) h = absurd (cc)

module _ (buf : LineBuffer) (engine : Engine) where
  open buf use {Line, get_line_buffer, set_line_buffer}
  open engine use {Regex, RegexSet, find_iter, is_empty, is_match}

  pub record LineRules : Type 0 where
    pub exclusion : RegexSet
    pub inclusion : RegexSet
    pub redactions : List Regex

  -- The loop over the expressions.
  unfoldable pub find_all : List ℕ → List Match → List Regex → Option (List Match)
  find_all value matches [] = some matches
  find_all value matches (r ∷ rest) = do
    matches' ← record_all matches (find_iter r value)
    find_all value matches' rest

  unfoldable pub write : Line → Option Line → Status Line
  write line none = Status.skip
  write line (some line') = Status.ok line'

  unfoldable pub redact : LineRules → List ℕ → Line → Option (Status Line)
  unfolding write
  redact rules value line = do
    matches ← find_all value [] rules.redactions
    if no_items matches then some (Status.ok line) else (do
      redacted ← render value 0 matches
      some (write line (set_line_buffer line redacted)))

  unfoldable pub process_line : LineRules → Line → Option (Status Line)
  process_line rules line = do
    value ← get_line_buffer line
    if not (is_empty rules.inclusion) && not (is_match rules.inclusion value)
        then some Status.skip
        else if is_match rules.exclusion value
        then some Status.skip
        else if not (no_items rules.redactions)
        then redact rules value line
        else some (Status.ok line)

  unfoldable pub process : LineRules → Line → Option (Status Line)
  process rules line =
      if is_empty rules.exclusion && (is_empty rules.inclusion && no_items rules.redactions)
      then some (Status.ok line)
      else elim (get_line_buffer line) [
        | none ↦ some Status.skip
        | some value ↦ process_line rules line
      ]
