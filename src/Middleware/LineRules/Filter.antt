-- ===== src/Middleware/LineRules/Filter.antt =====
-- Which lines `LineRules` lets pass.
use logdna_agent_v.Base.{
  ℕ, ◌≡◌, Bool, not, ◌&&◌, ◌||◌, true, false, refl, sym, ◌∙◌, ◌↔◌, ◌⊎◌, inl, inr, Option, none,
  some, List, if◌then◌else◌, arith,
}
use logdna_agent_v.Middleware.Interface.{LineBuffer, Engine, Status}
use logdna_agent_v.Middleware.LineRules.{LineRules, no_items, redact, process_line, process}

module _ (buf : LineBuffer) (engine : Engine) where
  open buf use {Line, get_line_buffer}
  open engine use {is_empty, is_match, empty-no_match}

  -- The inclusion rules, if there are any, match, and no exclusion rule does.
  abbrev pub passes : LineRules buf engine → List ℕ → Bool
  passes rules value =
      (is_empty rules.inclusion || is_match rules.inclusion value)
      && not (is_match rules.exclusion value)

  process_outcome :
      (rules : LineRules buf engine) (line : Line) (value : List ℕ)
      → get_line_buffer line ≡ some value
      → process buf engine rules line ≡ (
          if passes rules value
          then (if no_items rules.redactions
              then some (Status.ok line)
              else redact buf engine rules value line)
          else some Status.skip)
  unfolding process process_line
  process_outcome rules line value g =
      rw (g, process, process_line)
        (ground (arith, empty-no_match rules.inclusion value, empty-no_match rules.exclusion value))

  -- The line passes, and has redactions, which skip it.
  abbrev pub SkippedByRedaction : LineRules buf engine → List ℕ → Line → Type 0
  SkippedByRedaction rules value line =
      (passes rules value ≡ true)
      × (no_items rules.redactions ≡ false)
      × (redact buf engine rules value line ≡ some Status.skip)

  outcome-skip_iff :
      (passed none_given : Bool) (line : Line) (r : Option (Status Line))
      → ((if passed then (if none_given then some (Status.ok line) else r) else some Status.skip)
          ≡ some Status.skip)
        ↔ ((passed ≡ false) ⊎ ((passed ≡ true) × (none_given ≡ false) × (r ≡ some Status.skip)))
  outcome-skip_iff false n line r = (λ e. inl refl, λ h. refl)
  outcome-skip_iff true true line r =
      (λ e. absurd (cc), λ h. elim h [ inl f ↦ absurd (cc) | inr (_, f, _) ↦ absurd (cc) ])
  outcome-skip_iff true false line r =
      (λ e. inr (refl, refl, e), λ h. elim h [ inl f ↦ absurd (cc) | inr (_, _, e) ↦ e ])

  -- What becomes of a line with text, whether there are rules or not: if it does not pass the rules it is
  -- skipped. If it passes them, the outcome is that of its redaction where there are expressions for
  -- that, and else the line as it is. So it is skipped exactly if it does not pass, or if it passes and
  -- its redaction skips it.
  pub process-passes :
      (rules : LineRules buf engine) (line : Line) (value : List ℕ)
      → get_line_buffer line ≡ some value
      → (process buf engine rules line ≡ (
          if passes rules value
          then (if no_items rules.redactions
              then some (Status.ok line)
              else redact buf engine rules value line)
          else some Status.skip))
        × ((process buf engine rules line ≡ some Status.skip)
            ↔ ((passes rules value ≡ false) ⊎ SkippedByRedaction rules value line))
  process-passes rules line value g =
      let outcome = process_outcome rules line value g in
      let skipped =
        outcome-skip_iff (passes rules value) (no_items rules.redactions) line
          (redact buf engine rules value line) in
      (outcome, (λ e. skipped.0 (sym outcome ∙ e), λ h. outcome ∙ skipped.1 h))

  -- A line without text is skipped as soon as there is any rule, and is otherwise returned as it is.
  pub process-no_text :
      (rules : LineRules buf engine) (line : Line)
      → get_line_buffer line ≡ none
      → process buf engine rules line ≡ (
          if is_empty rules.exclusion && (is_empty rules.inclusion && no_items rules.redactions)
          then some (Status.ok line)
          else some Status.skip)
  unfolding process
  process-no_text rules line g = rw (g, process)
