-- ===== src/Middleware/LineRules/Redacted.antt =====
-- What redaction keeps of a line, and when it panics.
use logdna_agent_v.Base.{
  ℕ, ◌≡◌, ◌↔◌, ◌⊎◌, refl, ap, sym, ◌∙◌, true, Bool-cases, Option-cases, inl, inr, Option, none,
  some, List, [], ◌∷◌, ◌++◌, arith, length,
}
use logdna_agent_v.Middleware.Interface.{LineBuffer, Engine, Status}
use logdna_agent_v.Middleware.Redact.{Match, render}
use logdna_agent_v.Middleware.Redact.Order.{Ordered, NoBridge, place_iff}
use logdna_agent_v.Middleware.Redact.Render.{
  Proper, tagged, written, kept, marks, render-tagged, render_iff, written-map,
}
use logdna_agent_v.Middleware.Redact.Kept.{outside, kept-tagged, marks-tagged}
use logdna_agent_v.Middleware.Redact.Recorded.{
  place_all, record_all-place_all, place_all-Ordered, place_all-Proper, outside-place_all,
  place_all-append, Proper-append,
}
use logdna_agent_v.Middleware.LineRules.{
  LineRules, no_items, no_items-true, find_all, redact, write,
}

module _ (buf : LineBuffer) (engine : Engine) where
  open buf use {Line, get_line_buffer, set_line_buffer, get-set}
  open engine use {Regex, RegexSet, find_iter, found-Ordered, found-Proper}

  -- What `[REDACTED]` is written over leaves the bytes that lie in no match, and there is one mark
  -- for each recorded match.
  abbrev pub RedactedTo : List ℕ → List Match → List ℕ → Type 0
  RedactedTo value found out =
      (ts : List (Option ℕ)) × (out ≡ written ts)
      × (kept ts ≡ outside found 0 value)
      × (marks ts ≡ length (place_all [] found))

  -- All that the expressions find, in the order in which it is recorded.
  abbrev pub found_all : List ℕ → List Regex → List Match
  found_all value [] = []
  found_all value (r ∷ rest) = find_iter r value ++ found_all value rest

  find_all-place_all :
      (value : List ℕ) (matches : List Match) (rs : List Regex)
      → find_all buf engine value matches rs ≡ some (place_all matches (found_all value rs))
  unfolding find_all
  find_all-place_all value matches [] = refl
  find_all-place_all value matches (r ∷ rs) =
      rw (record_all-place_all matches (find_iter r value)) (
        find_all-place_all value (place_all matches (find_iter r value)) rs
        ∙ ap some (sym (place_all-append matches (find_iter r value) (found_all value rs))))

  found_all-Proper : (value : List ℕ) (rs : List Regex) → Proper (length value) (found_all value rs)
  found_all-Proper value [] = tt
  found_all-Proper value (r ∷ rs) =
      Proper-append (length value) (find_iter r value) (found_all value rs) (found-Proper r value)
        (found_all-Proper value rs)

  pub recorded : List ℕ → List Regex → List Match
  recorded value rs = place_all [] (found_all value rs)

  recorded-Proper : (value : List ℕ) (rs : List Regex) → Proper (length value) (recorded value rs)
  unfolding recorded
  recorded-Proper value rs = place_all-Proper (length value) [] _ tt (found_all-Proper value rs)

  rendered :
      (value : List ℕ) (rs : List Regex)
      → Ordered 0 (recorded value rs)
      → (out : List ℕ) × (render value 0 (recorded value rs) ≡ some out)
        × RedactedTo value (found_all value rs) out
  unfolding recorded
  rendered value rs o =
      let found = found_all value rs in
      (
        written (tagged value 0 (place_all [] found)),
        render-tagged value 0 (place_all [] found) (recorded-Proper value rs) o,
        (
          tagged value 0 (place_all [] found),
          refl,
          kept-tagged value 0 (place_all [] found) o
              ∙ outside-place_all (length value) found value (found_all-Proper value rs),
          marks-tagged value 0 (place_all [] found),
        ),
      )

  -- Redaction returns: a line that keeps the bytes that lie in no match and holds a mark for each
  -- recorded match, or nothing where the line refuses the new text.
  abbrev pub Redacts : LineRules buf engine → List ℕ → Line → Type 0
  Redacts rules value line =
      (redact buf engine rules value line ≡ some Status.skip)
      ⊎ ((line' : Line) × (out : List ℕ) × (redact buf engine rules value line
            ≡ some (Status.ok line'))
          × (get_line_buffer line' ≡ some out)
          × RedactedTo value (found_all value rules.redactions) out)

  written_back :
      (line : Line) (out : List ℕ) (o : Option Line)
      → set_line_buffer line out ≡ o
      → (write buf engine line o ≡ Status.skip)
        ⊎ ((line' : Line) × (write buf engine line o ≡ Status.ok line')
            × (get_line_buffer line' ≡ some out))
  unfolding write
  written_back line out none e = inl refl
  written_back line out (some line') e = inr (line', refl, get-set line out line' e)

  nothing_found :
      (value : List ℕ) (rs : List Regex)
      → no_items (recorded value rs) ≡ true
      → written (tagged value 0 (recorded value rs)) ≡ value
  unfolding tagged
  nothing_found value rs e = rw (no_items-true (recorded value rs) e) (written-map value)

  redact-Redacts :
      (rules : LineRules buf engine) (value : List ℕ) (line : Line)
      → get_line_buffer line ≡ some value
      → Ordered 0 (recorded value rules.redactions)
      → Redacts rules value line
  unfolding redact recorded rendered
  redact-Redacts rules value line g o =
      let rs = rules.redactions in
      let (out, e, r) = rendered value rs o in
      elim (Bool-cases (no_items (recorded value rs))) [
        | inl none_found ↦ inr (
          line,
          out,
          rw (find_all-place_all value [] rs) (rw none_found),
          g ∙ ap some (sym (nothing_found value rs none_found)),
          r,
        )
        | inr found ↦
            let result : redact buf engine rules value line
                ≡ some (write buf engine line (set_line_buffer line out)) =
              rw (find_all-place_all value [] rs) (rw found (rw e)) in
            elim (written_back line out (set_line_buffer line out) refl) [
              | inl refused ↦ inl (result ∙ ap some refused)
              | inr (line', w, h) ↦ inr (line', out, result ∙ ap some w, h, r)
            ]
      ]

  redact-Ordered :
      (rules : LineRules buf engine) (value : List ℕ) (line : Line) (res : Status Line)
      → redact buf engine rules value line ≡ some res
      → Ordered 0 (recorded value rules.redactions)
  unfolding redact recorded
  redact-Ordered rules value line res e =
      let rs = rules.redactions in
      let e' = (rw (find_all-place_all value [] rs) at e) in
      elim (Bool-cases (no_items (recorded value rs))) [
        | inl none_found ↦ rw (no_items-true (recorded value rs) none_found) tt
        | inr found ↦ elim (Option-cases (render value 0 (recorded value rs))) [
          | inl panics ↦
              let broken : ◌≡◌ {A = Option (Status Line)} none (some res) =
                rw panics at (rw found at e') in
              absurd (cc)
          | inr returns ↦
              (render_iff value 0 (recorded value rs) (recorded-Proper value rs)).0 returns
        ]
      ]

  Redacts-returns :
      (rules : LineRules buf engine) (value : List ℕ) (line : Line)
      → Redacts rules value line
      → (res : Status Line) × (redact buf engine rules value line ≡ some res)
  Redacts-returns rules value line (inl e) = (Status.skip, e)
  Redacts-returns rules value line (inr (line', out, e, _, _)) = (Status.ok line', e)

  module _ (rules : LineRules buf engine) (r s : Regex) (value : List ℕ) (line : Line) (m : Match)
      (two : rules.redactions ≡ r ∷ s ∷ []) (once : find_iter s value ≡ m ∷ [])
      (g : get_line_buffer line ≡ some value) where
    fits_iff :
        Ordered 0 (recorded value rules.redactions) ↔ NoBridge m (place_all [] (find_iter r value))
    unfolding recorded
    fits_iff =
        let o = rw once at (found-Ordered s value) in
        rw (two, once, place_all-append [] (find_iter r value) (m ∷ []))
          (place_iff 0 m (place_all [] (find_iter r value)) (omega arith) o.1
            (place_all-Ordered (find_iter r value) (found-Ordered r value)))

    -- With two expressions, the second of which matches once, redaction panics exactly if that
    -- match overlaps or touches a recorded match of the first one and reaches beyond the start of
    -- the recorded match behind it.
    pub redact_two_iff :
        (redact buf engine rules value line ≡ none)
        ↔ (¬ NoBridge m (place_all [] (find_iter r value)))
    redact_two_iff = (
      λ panics fits.
          let (res, e) =
            Redacts-returns rules value line
              (redact-Redacts rules value line g (fits_iff.1 fits)) in
          let broken : ◌≡◌ {A = Option (Status Line)} none (some res) = sym panics ∙ e in
          absurd (cc),
      λ bridge. elim (Option-cases (redact buf engine rules value line)) [
        | inl e ↦ e
        | inr (res, e) ↦ absurd (bridge (fits_iff.0 (redact-Ordered rules value line res e)))
      ],
    )
