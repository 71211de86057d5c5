-- ===== src/State/Events/Run.antt =====
-- The state and the rows of the database behind the events that `run` folds over.
use logdna_agent_v.Base.{
  ℕ, ◌<◌, ◌≡◌, refl, ap, sym, ◌∙◌, true, false, Option, none, some, List, [], ◌∷◌, u64_mod, inl,
  inr, ◌⊎◌, Result, ok, Bool-cases, Option-cases,
}
use logdna_agent_v.State.SpanVec.{SpanVec}
use logdna_agent_v.State.Codec.{to_be_bytes, encode_row}
use logdna_agent_v.State.Table.{lookup}
use logdna_agent_v.State.Events.Interface.{OffsetMap, SlotMap, Database}
use logdna_agent_v.State.Events.{
  or_default, OffsetStreamState, handle_file_offset_flush, handle_file_offset_event, remove_pending,
  apply, run, FileOffsetEvent, update, delete, clear, flush, garbage_collect, EventAction, write,
}
use logdna_agent_v.State.Events.Kept.{WellKept}
use logdna_agent_v.State.Events.Flush.{flush-Flushed}
use logdna_agent_v.State.Events.Synced.{
  EventValid, EventsValid, Synced, after_update, after_delete, after_clear, after_collection,
}

module _ (slots : SlotMap) (db : Database) where
  open slots use {Key, get_mut, get-remove}
  open db use {Db, Batch, last, row, last-new, row-untouched, row-written}

  -- What a flush leaves for the write.
  record Staged (st st' : OffsetStreamState slots db) : Type 0 where
    state_kept : WellKept st'.state
    wb_kept : (wb : Batch) × (st'.wb ≡ some wb)
    pending_kept :
        (k : Key) (b : OffsetMap) → get_mut k st'.pending ≡ some b → get_mut k st.pending ≡ some b
    staged_rows :
        (f : ℕ) (v : SpanVec)
        → f < u64_mod
        → lookup f st'.state ≡ some v
        → (last (or_default slots db st'.wb) (to_be_bytes f) ≡ some (encode_row v))
          ⊎ ((lookup f st.state ≡ some v)
              × (last (or_default slots db st'.wb) (to_be_bytes f)
                  ≡ last (or_default slots db st.wb) (to_be_bytes f)))

  flush-Staged :
      (key : Option Key) (d : Db) (st : OffsetStreamState slots db)
      → Synced slots db d st
      → (st' : OffsetStreamState slots db) × (handle_file_offset_flush slots db key st ≡ some st')
        × Staged st st'
  unfolding handle_file_offset_flush or_default remove_pending
  flush-Staged none d st s = (
    record st { wb = some (or_default slots db st.wb) },
    refl,
    record {
      state_kept = s.state_kept;
      wb_kept = (_, refl);
      pending_kept = λ k b e. e;
      staged_rows = λ f v h e. inr (e, refl);
    },
  )
  flush-Staged (some key) d st s = elim (Option-cases (get_mut key st.pending)) [
    | inl missing ↦ (
      remove_pending slots db key (record st { wb = some (or_default slots db st.wb) }),
      rw (missing, handle_file_offset_flush) refl,
      record {
        state_kept = s.state_kept;
        wb_kept = (_, refl);
        pending_kept = λ k b e. get-remove st.pending key k b e;
        staged_rows = λ f v h e. inr (e, refl);
      },
    )
    | inr (batch, there) ↦
        let (st', e, p, _, fl) =
          flush-Flushed slots db key batch st there (s.pending_valid key batch there)
            s.state_kept in
        (
          st',
          e,
          record {
            state_kept = fl.state_kept;
            wb_kept = fl.batch_kept;
            pending_kept = λ k b q. get-remove st.pending key k b (sym (ap (get_mut k) p) ∙ q);
            staged_rows = fl.rows;
          },
        )
  ]

  row_follows :
      (d d' : Db) (st st' : OffsetStreamState slots db) (wb : Batch) (f : ℕ) (v : SpanVec)
      → Synced slots db d st
      → f < u64_mod
      → st'.wb ≡ some wb
      → db.write d wb ≡ ok d'
      → (last (or_default slots db st'.wb) (to_be_bytes f) ≡ some (encode_row v))
        ⊎ ((lookup f st.state ≡ some v)
            × (last (or_default slots db st'.wb) (to_be_bytes f)
                ≡ last (or_default slots db st.wb) (to_be_bytes f)))
      → row d' (to_be_bytes f) ≡ encode_row v
  unfolding or_default
  row_follows d d' st st' wb f v s h w e (inl new) =
      row-written d d' wb (to_be_bytes f) (encode_row v) e
        (sym (ap (λ o. last (or_default slots db o) (to_be_bytes f)) w) ∙ new)
  row_follows d d' st st' wb f v s h w e (inr (old, same)) =
      let (r, l) = s.rows f v h old in
      row-untouched d d' wb (to_be_bytes f) e
        (sym (ap (λ o. last (or_default slots db o) (to_be_bytes f)) w) ∙ same ∙ l)
      ∙ r

  after_write :
      (d d' : Db) (st st' : OffsetStreamState slots db) (wb : Batch)
      → Synced slots db d st
      → Staged st st'
      → st'.wb ≡ some wb
      → db.write d wb ≡ ok d'
      → Synced slots db d' (record st' { wb = none })
  unfolding or_default
  after_write d d' st st' wb s g w e = record {
    state_kept = g.state_kept;
    pending_valid = λ k b q. s.pending_valid k b (g.pending_kept k b q);
    rows = λ f v h q.
        (row_follows d d' st st' wb f v s h w e (g.staged_rows f v h q), last-new (to_be_bytes f));
  }

  module _ (writes : (d : Db) (wb : Batch) → (d' : Db) × (db.write d wb ≡ ok d')) where
    apply_write-Synced :
        (d : Db) (st st' : OffsetStreamState slots db)
        → Synced slots db d st
        → Staged st st'
        → Synced slots db
            (apply slots db d (ok (write st'))).0
            (apply slots db d (ok (write st'))).1
    unfolding apply
    apply_write-Synced d st st' s g =
        let (wb, w) = g.wb_kept in
        let (d', e) = writes d wb in rw (w, apply) (rw e (after_write d d' st st' wb s g w e))

    event-Synced :
        (event : FileOffsetEvent slots db) (d : Db) (st : OffsetStreamState slots db)
        → EventValid slots db event
        → Synced slots db d st
        → (action : Result (OffsetStreamState slots db) (EventAction slots db))
          × (handle_file_offset_event slots db event st ≡ some action)
          × Synced slots db (apply slots db d action).0 (apply slots db d action).1
    unfolding handle_file_offset_event apply
    event-Synced (update offsets true) d st v s = (_, refl, after_update slots db d st offsets v s)
    event-Synced (update offsets false) d st v s = (_, refl, after_update slots db d st offsets v s)
    event-Synced (delete key) d st v s = (_, refl, after_delete slots db d st key v s)
    event-Synced clear d st v s = (_, refl, after_clear slots db d st s)
    event-Synced (flush key) d st v s =
        let (st', e, g) = flush-Staged key d st s in
        (ok (write st'), rw e refl, apply_write-Synced d st st' s g)
    event-Synced (garbage_collect files) d st v s =
        (_, refl, after_collection slots db d st files s)

    -- As long as the writes of the database succeed, no sequence of events with valid spans panics,
    -- and behind it the row of each file in the state is the encoding of the file's spans, which are
    -- valid and in order, and no other write to that row is ahead.
    pub run-Synced :
        (events : List (FileOffsetEvent slots db)) (d : Db) (st : OffsetStreamState slots db)
        → EventsValid slots db events
        → Synced slots db d st
        → (d' : Db) × (st' : OffsetStreamState slots db) × (run slots db events d st
            ≡ some (d', st'))
          × Synced slots db d' st'
    unfolding run
    run-Synced [] d st v s = (d, st, refl, s)
    run-Synced (event ∷ events) d st v s = elim (Bool-cases (db.cf_handle d)) [
      | inr no_column ↦
          let (d', st', e, s') = run-Synced events d st v.1 s in
          (d', st', rw (no_column, run) e, s')
      | inl column ↦
          let (action, e, s1) = event-Synced event d st v.0 s in
          let (d', st', e', s') = run-Synced events _ _ v.1 s1 in
          (d', st', rw (column, run) (rw e e'), s')
    ]
