-- ===== src/State/Events/Synced.antt =====
-- What it means that the rows of the database follow the state, and the events that write nothing.
use logdna_agent_v.Base.{
  ℕ, ◌<◌, ◌≡◌, sym, ◌∙◌, subst, Option, none, some, List, [], ◌∷◌, arith, u64_mod, inl, inr,
  Bool-cases, ◌==◌,
}
use logdna_agent_v.State.SpanVec.{SpanVec}
use logdna_agent_v.State.Codec.{to_be_bytes, encode_row}
use logdna_agent_v.State.Table.{lookup, erase, retain, lookup-erase, lookup-retain}
use logdna_agent_v.State.Events.Interface.{OffsetMap, SlotMap, Database}
use logdna_agent_v.State.Events.{
  or_default, OffsetStreamState, start, FileOffsetEvent, update, delete, clear, flush,
  garbage_collect, retained,
}
use logdna_agent_v.State.Events.Kept.{WellKept, BatchValid, erase-WellKept, retain-WellKept}
use logdna_agent_v.State.Events.Rows.{to_be_bytes_apart}

module _ (slots : SlotMap) (db : Database) where
  open slots use {Key, get_mut, get-new, get-insert, get-remove, get-clear}
  open db use {Db, Batch, last, row, last-new, last-delete_other, row-untouched, row-written}

  -- The ids fit into a word, and the spans of updates are valid.
  abbrev pub EventValid : FileOffsetEvent slots db → Type 0
  EventValid (update offsets waits) = BatchValid offsets
  EventValid (delete key) = key < u64_mod
  EventValid clear = Unit
  EventValid (flush key) = Unit
  EventValid (garbage_collect files) = Unit

  abbrev pub EventsValid : List (FileOffsetEvent slots db) → Type 0
  EventsValid [] = Unit
  EventsValid (e ∷ events) = EventValid e × EventsValid events

  -- The spans of the state are in order, pending updates are valid, and the row of each file in the
  -- state is the encoding of its spans, with no other write to it ahead.
  pub record Synced (d : Db) (st : OffsetStreamState slots db) : Type 0 where
    pub state_kept : WellKept st.state
    pub pending_valid : (k : Key) (b : OffsetMap) → get_mut k st.pending ≡ some b → BatchValid b
    pub rows :
        (f : ℕ) (v : SpanVec)
        → f < u64_mod
        → lookup f st.state ≡ some v
        → (row d (to_be_bytes f) ≡ encode_row v)
          × (last (or_default slots db st.wb) (to_be_bytes f) ≡ none)

  pub start-Synced : (d : Db) → Synced d (start slots db)
  unfolding start
  start-Synced d = record {
    state_kept = tt;
    pending_valid = λ k b e.
        let bad : ◌≡◌ {A = Option OffsetMap} none (some b) = sym (get-new k) ∙ e in absurd (cc);
    rows = λ f v h e. absurd (cc);
  }

  nothing_pending :
      (s : slots.Slots) (k : Key) (b : OffsetMap)
      → get_mut k (slots.clear s) ≡ some b
      → BatchValid b
  nothing_pending s k b e =
      let bad : ◌≡◌ {A = Option OffsetMap} none (some b) = sym (get-clear s k) ∙ e in absurd (cc)

  pub after_update :
      (d : Db) (st : OffsetStreamState slots db) (offsets : OffsetMap)
      → BatchValid offsets
      → Synced d st
      → Synced d (record st { pending = (slots.insert offsets st.pending).1 })
  after_update d st offsets b s = record {
    state_kept = s.state_kept;
    pending_valid = λ k c e. elim (get-insert offsets c st.pending k e) [
      | inl new ↦ subst BatchValid (sym new) b
      | inr old ↦ s.pending_valid k c old
    ];
    rows = s.rows;
  }

  pub after_delete :
      (d : Db) (st : OffsetStreamState slots db) (key : ℕ)
      → key < u64_mod
      → Synced d st
      → Synced d (record st {
        wb = some (db.delete_cf (or_default slots db st.wb) (to_be_bytes key));
        state = erase key st.state;
      })
  unfolding or_default
  after_delete d st key h s = record {
    state_kept = erase-WellKept key st.state s.state_kept;
    pending_valid = s.pending_valid;
    rows = λ f v g e.
        let e' = sym (lookup-erase key f st.state) ∙ e in
        elim (Bool-cases (key == f)) [
          | inl same ↦
              let bad : ◌≡◌ {A = Option SpanVec} none (some v) = rw same at e' in absurd (cc)
          | inr other ↦
              let (r, l) = s.rows f v g (rw other at e') in
              (
                r,
                last-delete_other (or_default slots db st.wb) (to_be_bytes key) (to_be_bytes f)
                      (to_be_bytes_apart key f h g (λ q. ground arith))
                    ∙ l,
              )
        ];
  }

  pub after_clear :
      (d : Db) (st : OffsetStreamState slots db)
      → Synced d st
      → Synced d (record st { wb = none; pending = slots.clear st.pending })
  unfolding or_default
  after_clear d st s = record {
    state_kept = s.state_kept;
    pending_valid = nothing_pending st.pending;
    rows = λ f v h e. ((s.rows f v h e).0, last-new (to_be_bytes f));
  }

  pub after_collection :
      (d : Db) (st : OffsetStreamState slots db) (files : List ℕ)
      → Synced d st
      → Synced d (record st {
        wb = none;
        pending = slots.clear st.pending;
        state = retain (retained slots db files) st.state;
      })
  unfolding or_default
  after_collection d st files s = record {
    state_kept = retain-WellKept (retained slots db files) st.state s.state_kept;
    pending_valid = nothing_pending st.pending;
    rows = λ f v h e.
        let e' = sym (lookup-retain (retained slots db files) f st.state) ∙ e in
        elim (Bool-cases (retained slots db files f)) [
          | inl on ↦ ((s.rows f v h (rw on at e')).0, last-new (to_be_bytes f))
          | inr off ↦ let bad : ◌≡◌ {A = Option SpanVec} none (some v) = rw off at e' in absurd (cc)
        ];
  }
