-- ===== src/Middleware/Executor/Order.antt =====
-- What the executor's verdict on a line says of its stages.
use Prim.Native.String.{String}
use logdna_agent_v.Base.{
  ◌≡◌, ◌⊎◌, ◌↔◌, refl, sym, subst, ap, ◌∙◌, inl, inr, List, [], ◌∷◌, ◌++◌, Result, ok, err,
}
use logdna_agent_v.Middleware.Interface.{Status}
use logdna_agent_v.Middleware.Executor.{
  MiddlewareError, skip, Middleware, Executor, process_from, process, validate_from, validate,
  Passes, done, stage, SkippedBy,
}

Status-cases {ℓ} : {A : Type ℓ} (s : Status A) → (s ≡ Status.skip) ⊎ ((a : A) × (s ≡ Status.ok a))
Status-cases Status.skip = inl refl
Status-cases (Status.ok a) = inr (a, refl)

Result-cases {ℓ κ} :
    {E : Type κ} {A : Type ℓ} (r : Result E A) → ((a : A) × (r ≡ ok a)) ⊎ ((e : E) × (r ≡ err e))
Result-cases (ok a) = inl (a, refl)
Result-cases (err e) = inr (e, refl)

module _ (Line : Type 0) where
  step_ok :
      (line l : Line) (m : Middleware Line) (rest : List (Middleware Line))
      → m.process_line line ≡ Status.ok l
      → process_from Line line (m ∷ rest) ≡ process_from Line l rest
  unfolding process_from
  step_ok line l m rest e = rw (e, process_from)

  step_skip :
      (line : Line) (m : Middleware Line) (rest : List (Middleware Line))
      → m.process_line line ≡ Status.skip
      → process_from Line line (m ∷ rest) ≡ err (skip m.name)
  unfolding process_from
  step_skip line m rest e = rw (e, process_from)

  Passes-of :
      (line line' : Line) (ms : List (Middleware Line))
      → process_from Line line ms ≡ ok line'
      → Passes Line line ms line'
  unfolding process_from
  Passes-of line line' [] e =
      let same : line ≡ line' = cc in subst (λ l. Passes Line line [] l) same (done line)
  Passes-of line line' (m ∷ rest) e = elim (Status-cases (m.process_line line)) [
    | inl s ↦
        let bad : ◌≡◌ {A = Result MiddlewareError Line} (err (skip m.name)) (ok line') =
          sym (step_skip line m rest s) ∙ e in
        absurd (cc)
    | inr (l, s) ↦
        stage line l line' m rest s (Passes-of l line' rest (sym (step_ok line l m rest s) ∙ e))
  ]

  of-Passes :
      (line line' : Line) (ms : List (Middleware Line))
      → Passes Line line ms line'
      → process_from Line line ms ≡ ok line'
  unfolding process_from
  of-Passes line line' ms (done l) = refl
  of-Passes line line' ms (stage a l b m rest s p) = step_ok a l m rest s ∙ of-Passes l b rest p

  -- The executor returns a line exactly if the stages make that line of the given one, each of what
  -- the one in front of it made, and none of them skips.
  pub process_iff :
      (ex : Executor Line) (line line' : Line)
      → (process Line ex line ≡ ok line') ↔ Passes Line line ex.middlewares line'
  unfolding process
  process_iff ex line line' =
      (Passes-of line line' ex.middlewares, of-Passes line line' ex.middlewares)

  SkippedBy-of :
      (line : Line) (n : String) (ms : List (Middleware Line))
      → process_from Line line ms ≡ err (skip n)
      → SkippedBy Line line ms n
  unfolding process_from
  SkippedBy-of line n [] e = absurd (cc)
  SkippedBy-of line n (m ∷ rest) e = elim (Status-cases (m.process_line line)) [
    | inl s ↦
        let named : ◌≡◌ {A = Result MiddlewareError Line} (err (skip m.name)) (err (skip n)) =
          sym (step_skip line m rest s) ∙ e in
        record {
          front = [];
          culprit = m;
          back = rest;
          seen = line;
          parts = refl;
          passed = done line;
          skips = s;
          named = cc;
        }
    | inr (l, s) ↦
        let later = SkippedBy-of l n rest (sym (step_ok line l m rest s) ∙ e) in
        record {
          front = m ∷ later.front;
          culprit = later.culprit;
          back = later.back;
          seen = later.seen;
          parts = ap (◌∷◌ m) later.parts;
          passed = stage line l later.seen m later.front s later.passed;
          skips = later.skips;
          named = later.named;
        }
  ]

  skipped :
      (line seen : Line) (front back : List (Middleware Line)) (m : Middleware Line)
      → Passes Line line front seen
      → m.process_line seen ≡ Status.skip
      → process_from Line line (front ++ m ∷ back) ≡ err (skip m.name)
  skipped line seen front back m (done l) s = step_skip l m back s
  skipped line seen front back m (stage a l b x rest e p) s =
      step_ok a l x (rest ++ m ∷ back) e ∙ skipped l b rest back m p s

  -- The executor reports the name `n` exactly if the first stage that skips bears it, and all stages
  -- in front of that one pass the line on.
  pub process-skip_iff :
      (ex : Executor Line) (line : Line) (n : String)
      → (process Line ex line ≡ err (skip n)) ↔ SkippedBy Line line ex.middlewares n
  unfolding process
  process-skip_iff ex line n = (
    SkippedBy-of line n ex.middlewares,
    λ s. rw s.parts (
        skipped line s.seen s.front s.back s.culprit s.passed s.skips
        ∙ ap (λ t. err (skip t)) s.named),
  )

  -- All stages accept the line.
  abbrev pub Accepted : Line → List (Middleware Line) → Type 0
  Accepted line [] = Unit
  Accepted line (m ∷ rest) = ((l : Line) × (m.validate_line line ≡ ok l)) × Accepted line rest

  Accepted-of :
      (line l : Line) (ms : List (Middleware Line))
      → validate_from Line line ms ≡ ok l
      → (l ≡ line) × Accepted line ms
  unfolding validate_from
  Accepted-of line l [] e = (cc, tt)
  Accepted-of line l (m ∷ rest) e = elim (Result-cases (m.validate_line line)) [
    | inl (a, s) ↦
        let e' : validate_from Line line rest ≡ ok l = rw s at e in
        let r = Accepted-of line l rest e' in (r.0, ((a, s), r.1))
    | inr (x, s) ↦
        let bad : ◌≡◌ {A = Result MiddlewareError Line} (err x) (ok l) = rw s at e in absurd (cc)
  ]

  of-Accepted :
      (line : Line) (ms : List (Middleware Line))
      → Accepted line ms
      → validate_from Line line ms ≡ ok line
  unfolding validate_from
  of-Accepted line [] a = refl
  of-Accepted line (m ∷ rest) ((l, s), a) = rw (s, validate_from) (of-Accepted line rest a)

  -- Validation returns the very line that it was given, and does so exactly if every stage accepts
  -- that line: no stage sees what another one returns.
  pub validate_iff :
      (ex : Executor Line) (line l : Line)
      → (validate Line ex line ≡ ok l) ↔ ((l ≡ line) × Accepted line ex.middlewares)
  unfolding validate
  validate_iff ex line l = (
    Accepted-of line l ex.middlewares,
    λ (same, a). of-Accepted line ex.middlewares a ∙ ap ok (sym same),
  )
