-- ===== src/Http/Batch/Lines.antt =====
-- The lines and the offsets of a batch.
use logdna_agent_v.Base.{
  ℕ, ◌≡◌, refl, ap, sym, ◌∙◌, subst, inl, inr, ◌⊎◌, false, ◌&&◌, Bool-cases, some, List, [], ◌∷◌,
  ◌++◌, Result, ok, err, length, ltb, leb, arith, snoc_assoc,
}
use mathlib.Core.List.{append-nil}
use logdna_agent_v.Http.Batch.{
  Serializer, Selected, item, done, timeout, Yield, batch, failed, finished,
  TimedRequestBatcherError, add_offset, finish, collect, next_batch,
}

no_items : {A : Type 0} (xs : List A) → ltb 0 (length xs) ≡ false → xs ≡ []
no_items [] h = refl
no_items (x ∷ xs) h = absurd (ground arith)

module _ (s : Serializer) where
  open s use {
    Line, Buffer, Body, Error, Offsets, no_offsets, write_line, count, bytes_len, lines_of,
    body_lines, written, counts, ended,
  }

  -- The lines that the stream still gives.
  abbrev pub items : List (Selected s) → List Line
  items [] = []
  items (item l ∷ rest) = l ∷ items rest
  items (done ∷ rest) = []
  items (timeout ∷ rest) = items rest

  abbrev pub add_all : Offsets → List Line → Offsets
  add_all offsets [] = offsets
  add_all offsets (l ∷ ls) = add_all (add_offset s offsets l) ls

  -- The stream ends.
  abbrev pub HasEnd : List (Selected s) → Type 0
  HasEnd [] = ⊥
  HasEnd (item l ∷ rest) = HasEnd rest
  HasEnd (done ∷ rest) = Unit
  HasEnd (timeout ∷ rest) = HasEnd rest

  -- A batch holds the lines of the buffer and the next ones of the stream, and their offsets. The
  -- stream of batches is finished only if no line is left. A failure loses some of the lines.
  abbrev pub Verdict :
      List Line → Offsets → List (Selected s) → List (Selected s) → Yield s → Type 0
  Verdict held offsets selected rest (batch body offsets') =
      (taken : List Line) × (items selected ≡ taken ++ items rest)
      × (body_lines body ≡ held ++ taken)
      × (offsets' ≡ add_all offsets taken)
  Verdict held offsets selected rest finished = held ++ items selected ≡ []
  Verdict held offsets selected rest (failed e) =
      (lost : List Line) × (items selected ≡ lost ++ items rest)

  finish-Verdict :
      (current : Buffer) (offsets : Offsets) (selected rest : List (Selected s))
      → items selected ≡ items rest
      → Verdict (lines_of current) offsets selected rest (finish s current offsets)
  unfolding finish
  finish-Verdict current offsets selected rest e = go (s.end current) refl
    where
      go :
          (r : Result Error Body)
          → s.end current ≡ r
          → Verdict (lines_of current) offsets selected rest (elim r [
            | ok body ↦ batch body offsets
            | err x ↦ failed (TimedRequestBatcherError.buffer_error x)
          ])
      go (ok body) g = ([], e, ended current body g ∙ sym (append-nil (lines_of current)), refl)
      go (err x) g = ([], e)

  -- A line that was written is the first that is taken.
  taken_first :
      (held held' : List Line) (offsets : Offsets) (l : Line) (selected rest : List (Selected s))
      (y : Yield s)
      → held' ≡ held ++ l ∷ []
      → Verdict held' (add_offset s offsets l) selected rest y
      → Verdict held offsets (item l ∷ selected) rest y
  taken_first held held' offsets l selected rest (batch body offsets') w (taken, e, b, o) =
      (l ∷ taken, ap (◌∷◌ l) e, b ∙ rw w (snoc_assoc held l taken), o)
  taken_first held held' offsets l selected rest finished w v =
      sym (snoc_assoc held l (items selected)) ∙ ap (λ ls. ls ++ items selected) (sym w) ∙ v
  taken_first held held' offsets l selected rest (failed x) w (lost, e) = (l ∷ lost, ap (◌∷◌ l) e)

  nothing_held : (current : Buffer) → ltb 0 (count current) ≡ false → lines_of current ≡ []
  nothing_held current h = no_items (lines_of current) (sym (ap (ltb 0) (counts current)) ∙ h)

  -- What the loop returns for a buffer that already holds lines.
  Collects : ℕ → Buffer → Offsets → List (Selected s) → Type 0
  Collects cap current offsets selected =
      (y : Yield s) × (rest : List (Selected s)) × (collect s cap current offsets selected
        ≡ some (y, rest))
      × Verdict (lines_of current) offsets selected rest y

  Result-cases : {A B : Type 0} (r : Result A B) → ((b : B) × (r ≡ ok b)) ⊎ ((a : A) × (r ≡ err a))
  Result-cases (ok b) = inl (b, refl)
  Result-cases (err a) = inr (a, refl)

  collect-Verdict :
      (cap : ℕ) (current : Buffer) (offsets : Offsets) (selected : List (Selected s))
      → HasEnd selected
      → Collects cap current offsets selected
  unfolding collect Collects
  collect-Verdict cap current offsets [] h = absurd h
  collect-Verdict cap current offsets (done ∷ rest) h = elim (Bool-cases (ltb 0 (count current))) [
    | inl some_held ↦ (
      finish s current offsets,
      done ∷ rest,
      rw some_held refl,
      finish-Verdict current offsets (done ∷ rest) (done ∷ rest) refl,
    )
    | inr none_held ↦ (
      finished,
      done ∷ rest,
      rw none_held refl,
      ap (λ ls. ls ++ []) (nothing_held current none_held),
    )
  ]
  collect-Verdict cap current offsets (timeout ∷ rest) h =
      elim (Bool-cases (ltb 0 (count current))) [
        | inl some_held ↦ (
          finish s current offsets,
          rest,
          rw some_held refl,
          finish-Verdict current offsets (timeout ∷ rest) rest refl,
        )
        | inr none_held ↦
            let (y, rest', e, v) = collect-Verdict cap current offsets rest h in
            (y, rest', rw none_held e, waited current offsets rest rest' y v)
      ]
    where
      waited :
          (current : Buffer) (offsets : Offsets) (rest rest' : List (Selected s)) (y : Yield s)
          → Verdict (lines_of current) offsets rest rest' y
          → Verdict (lines_of current) offsets (timeout ∷ rest) rest' y
      waited current offsets rest rest' (batch body offsets') v = v
      waited current offsets rest rest' finished v = v
      waited current offsets rest rest' (failed x) v = v
  collect-Verdict cap current offsets (item l ∷ rest) h =
      elim (Result-cases (write_line current l)) [
        | inr (x, e) ↦ (
          failed (TimedRequestBatcherError.buffer_error x),
          rest,
          rw (e, collect) refl,
          (l ∷ [], refl),
        )
        | inl (current', e) ↦
            let w = written current current' l e in
            let offsets' = add_offset s offsets l in
            elim (Bool-cases (ltb 0 (count current') && leb cap (bytes_len current'))) [
              | inl full ↦ (
                finish s current' offsets',
                rest,
                rw (e, collect) (rw full refl),
                taken_first (lines_of current) (lines_of current') offsets l rest rest _ w
                    (finish-Verdict current' offsets' rest rest refl),
              )
              | inr room ↦
                  let (y, rest', g, v) = collect-Verdict cap current' offsets' rest h in
                  (
                    y,
                    rest',
                    rw (e, collect) (rw room g),
                    taken_first (lines_of current) (lines_of current') offsets l rest rest' y w v,
                  )
            ]
      ]

  -- From an empty buffer the loop returns as soon as the stream ends, if not before. A batch that it
  -- returns holds the next lines of the stream, in their order and none left out, with their offsets;
  -- the lines behind them are left to the next batch. It finishes only if no line is left, and a
  -- failure loses lines that were taken.
  pub next_batch-Verdict :
      (cap : ℕ) (current : Buffer) (selected : List (Selected s))
      → lines_of current ≡ []
      → HasEnd selected
      → (y : Yield s) × (rest : List (Selected s)) × (next_batch s cap (some (ok current)) selected
          ≡ some (y, rest))
        × Verdict [] no_offsets selected rest y
  unfolding next_batch Collects
  next_batch-Verdict cap current selected e h =
      let (y, rest, g, v) = collect-Verdict cap current no_offsets selected h in
      (y, rest, g, subst (λ ls. Verdict ls no_offsets selected rest y) e v)
