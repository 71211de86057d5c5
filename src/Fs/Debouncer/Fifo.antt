-- ===== src/Fs/Debouncer/Fifo.antt =====
-- The order in which the events of a path leave its queue.
use logdna_agent_v.Base.{
  ℕ, zero, suc, ◌≡◌, refl, ap, ◌∙◌, min, none, some, List, [], ◌∷◌, ◌++◌, length, arith, rev_append,
  ◌+◌,
}
use native.Mathlib.Nat.{zero-add}
use logdna_agent_v.Fs.Debouncer.{
  remove, create, write, rename, rescan, error, Timed, write_from_back, update_events_from_back,
  pop_last, pop_event, last_ts,
}

module _ (PathId Error : Type 0) where
  -- The queue behind these arrivals.
  abbrev pub arrive :
      List (Timed PathId Error) → List (Timed PathId Error) → List (Timed PathId Error)
  arrive events [] = events
  arrive events (e ∷ es) = arrive (update_events_from_back PathId Error events e).0 es

  -- The next `n` events that leave the queue.
  abbrev pub leave : ℕ → List (Timed PathId Error) → List (Timed PathId Error)
  leave zero events = []
  leave (suc n) events = elim (pop_event PathId Error events) [
    | none ↦ []
    | some (popped, rest) ↦ popped.0 ∷ leave n rest
  ]

  -- What should leave: each run of writes as its first write, at the earliest of its times, and all
  -- other events that are about a path. Events that are about no path neither leave nor end a run.
  unfoldable mutual
    pub debounced : List (Timed PathId Error) → List (Timed PathId Error)
    debounced [] = []
    debounced ((write path, ts) ∷ es) = run_of path ts es
    debounced ((rescan, ts) ∷ es) = debounced es
    debounced ((error e path, ts) ∷ es) = debounced es
    debounced ((remove path, ts) ∷ es) = (remove path, ts) ∷ debounced es
    debounced ((create path, ts) ∷ es) = (create path, ts) ∷ debounced es
    debounced ((rename from to, ts) ∷ es) = (rename from to, ts) ∷ debounced es

    pub run_of : PathId → ℕ → List (Timed PathId Error) → List (Timed PathId Error)
    run_of first prev_ts [] = (write first, prev_ts) ∷ []
    run_of first prev_ts ((write path, ts) ∷ es) = run_of first (min prev_ts ts) es
    run_of first prev_ts ((rescan, ts) ∷ es) = run_of first prev_ts es
    run_of first prev_ts ((error e path, ts) ∷ es) = run_of first prev_ts es
    run_of first prev_ts ((remove path, ts) ∷ es) =
        (write first, prev_ts) ∷ (remove path, ts) ∷ debounced es
    run_of first prev_ts ((create path, ts) ∷ es) =
        (write first, prev_ts) ∷ (create path, ts) ∷ debounced es
    run_of first prev_ts ((rename from to, ts) ∷ es) =
        (write first, prev_ts) ∷ (rename from to, ts) ∷ debounced es

  abbrev NoWriteFirst : List (Timed PathId Error) → Type 0
  NoWriteFirst ((write path, ts) ∷ events) = ⊥
  NoWriteFirst events = Unit

  starts_run :
      (path : PathId) (ts : ℕ) (events : List (Timed PathId Error))
      → NoWriteFirst events
      → (write_from_back PathId Error path ts events).0 ≡ (write path, ts) ∷ events
  unfolding write_from_back
  starts_run path ts [] h = refl
  starts_run path ts ((remove p, t) ∷ events) h = refl
  starts_run path ts ((create p, t) ∷ events) h = refl
  starts_run path ts ((write p, t) ∷ events) h = absurd h
  starts_run path ts ((rename p q, t) ∷ events) h = refl
  starts_run path ts ((rescan, t) ∷ events) h = refl
  starts_run path ts ((error e p, t) ∷ events) h = refl

  mutual
    unfolding debounced run_of update_events_from_back write_from_back

    arrive-debounced :
        (events es : List (Timed PathId Error))
        → NoWriteFirst events
        → arrive events es ≡ rev_append (debounced es) events
    arrive-debounced events [] h = refl
    arrive-debounced events ((write path, ts) ∷ es) h =
        ap (λ q. arrive q es) (starts_run path ts events h) ∙ arrive-run_of path ts events es
    arrive-debounced events ((rescan, ts) ∷ es) h = arrive-debounced events es h
    arrive-debounced events ((error e path, ts) ∷ es) h = arrive-debounced events es h
    arrive-debounced events ((remove path, ts) ∷ es) h =
        arrive-debounced ((remove path, ts) ∷ events) es tt
    arrive-debounced events ((create path, ts) ∷ es) h =
        arrive-debounced ((create path, ts) ∷ events) es tt
    arrive-debounced events ((rename from to, ts) ∷ es) h =
        arrive-debounced ((rename from to, ts) ∷ events) es tt

    arrive-run_of :
        (first : PathId) (prev_ts : ℕ) (events es : List (Timed PathId Error))
        → arrive ((write first, prev_ts) ∷ events) es ≡ rev_append (run_of first prev_ts es) events
    arrive-run_of first prev_ts events [] = refl
    arrive-run_of first prev_ts events ((write path, ts) ∷ es) =
        arrive-run_of first (min prev_ts ts) events es
    arrive-run_of first prev_ts events ((rescan, ts) ∷ es) = arrive-run_of first prev_ts events es
    arrive-run_of first prev_ts events ((error e path, ts) ∷ es) =
        arrive-run_of first prev_ts events es
    arrive-run_of first prev_ts events ((remove path, ts) ∷ es) =
        arrive-debounced ((remove path, ts) ∷ (write first, prev_ts) ∷ events) es tt
    arrive-run_of first prev_ts events ((create path, ts) ∷ es) =
        arrive-debounced ((create path, ts) ∷ (write first, prev_ts) ∷ events) es tt
    arrive-run_of first prev_ts events ((rename from to, ts) ∷ es) =
        arrive-debounced ((rename from to, ts) ∷ (write first, prev_ts) ∷ events) es tt

  pop_last-append :
      (ys : List (Timed PathId Error)) (a : Timed PathId Error)
      → pop_last PathId Error (ys ++ a ∷ []) ≡ some (a, ys)
  unfolding pop_last
  pop_last-append [] a = refl
  pop_last-append (y ∷ []) a = refl
  pop_last-append (y ∷ z ∷ ys) a = rw (pop_last-append (z ∷ ys) a) refl

  pop_last-rev_append :
      (xs ys : List (Timed PathId Error)) (a : Timed PathId Error)
      → pop_last PathId Error (rev_append xs (ys ++ a ∷ [])) ≡ some (a, rev_append xs ys)
  pop_last-rev_append [] ys a = pop_last-append ys a
  pop_last-rev_append (x ∷ xs) ys a = pop_last-rev_append xs (x ∷ ys) a

  pops_first :
      (x : Timed PathId Error) (xs : List (Timed PathId Error))
      → pop_event PathId Error (rev_append xs (x ∷ []))
        ≡ some ((x, last_ts PathId Error (rev_append xs [])), rev_append xs [])
  unfolding pop_event
  pops_first x xs = rw (pop_last-rev_append xs [] x, pop_event) refl

  nothing_leaves : (n : ℕ) → leave n [] ≡ []
  unfolding pop_event pop_last
  nothing_leaves zero = refl
  nothing_leaves (suc n) = refl

  leave-rev_append :
      (xs : List (Timed PathId Error)) (k : ℕ) → leave (length xs + k) (rev_append xs []) ≡ xs
  unfolding pop_event
  leave-rev_append [] k = ap (λ n. leave n []) (zero-add k) ∙ nothing_leaves k
  leave-rev_append (x ∷ xs) k =
      let more : suc (length xs) + k ≡ suc (length xs + k) = omega arith in
      ap (λ n. leave n (rev_append xs (x ∷ []))) more
      ∙ rw (pops_first x xs, leave) (ap (◌∷◌ x) (leave-rev_append xs k))

  -- The events that arrive for a path leave its queue in the order of their arrival, with each run of
  -- writes as its first write, at the earliest of its times; a removal, a creation or a renaming ends
  -- a run. No other events leave, however often the queue is asked. Errors and rescans do not leave.
  pub leave-arrive :
      (es : List (Timed PathId Error)) (k : ℕ)
      → leave (length (debounced es) + k) (arrive [] es) ≡ debounced es
  leave-arrive es k =
      ap (leave (length (debounced es) + k)) (arrive-debounced [] es tt)
      ∙ leave-rev_append (debounced es) k
