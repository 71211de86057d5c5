-- ===== src/State/Events/Flush.antt =====
-- What a flush does to the offsets of the files, and what it puts for the database.
use logdna_agent_v.Base.{
  ℕ, ◌<◌, ◌≡◌, refl, ap, sym, ◌∙◌, ◌||◌, Option, none, some, [], ◌∷◌, arith, u64_mod, inl, inr, ◌⊎◌,
}
use logdna_agent_v.State.SpanVec.{SpanVec}
use logdna_agent_v.State.SpanVec.Cover.{covers}
use logdna_agent_v.State.Codec.{Bytes, to_be_bytes, encode_row}
use logdna_agent_v.State.Table.{lookup}
use logdna_agent_v.State.Events.Interface.{OffsetMap, SlotMap, Database}
use logdna_agent_v.State.Events.{
  or_empty, or_default, OffsetStreamState, flush_batch, handle_file_offset_flush, remove_pending,
}
use logdna_agent_v.State.Events.Kept.{WellKept, covered, BatchValid, brings}
use logdna_agent_v.State.Events.Merge.{Apart, merge_batch-Merged}
use logdna_agent_v.State.Events.Rows.{state_of, last_of, write_rows-Written}

covers-state_of :
    (o s : Option SpanVec) (p : ℕ)
    → (o ≡ none) ⊎ (s ≡ none)
    → covers (or_empty (state_of o s)) p ≡ (covers (or_empty o) p || covers (or_empty s) p)
covers-state_of none s p h = refl
covers-state_of (some []) s p h = refl
covers-state_of (some (x ∷ v)) none p h = ground arith
covers-state_of (some (x ∷ v)) (some u) p (inl e) = absurd (cc)
covers-state_of (some (x ∷ v)) (some u) p (inr e) = absurd (cc)

row_of :
    (o s : Option SpanVec) (r : Option (Option Bytes)) (v : SpanVec)
    → state_of o s ≡ some v
    → (last_of o r ≡ some (encode_row v)) ⊎ ((s ≡ some v) × (last_of o r ≡ r))
row_of none s r v e = inr (e, refl)
row_of (some []) s r v e = inr (e, refl)
row_of (some (x ∷ u)) s r v e =
    let same : x ∷ u ≡ v = cc in inl (ap (λ w. some (encode_row w)) same)

module _ (slots : SlotMap) (db : Database) where
  open slots use {Key, get_mut}
  open db use {Batch, last}

  pub record Flushed (batch : OffsetMap) (st st' : OffsetStreamState slots db) : Type 0 where
    pub state_kept : WellKept st'.state
    pub covers_more : (f p : ℕ) → covered st'.state f p ≡ (covered st.state f p || brings batch f p)
    pub batch_kept : (wb : Batch) × (st'.wb ≡ some wb)
    pub rows :
        (f : ℕ) (v : SpanVec)
        → f < u64_mod
        → lookup f st'.state ≡ some v
        → (last (or_default slots db st'.wb) (to_be_bytes f) ≡ some (encode_row v))
          ⊎ ((lookup f st.state ≡ some v)
              × (last (or_default slots db st'.wb) (to_be_bytes f)
                  ≡ last (or_default slots db st.wb) (to_be_bytes f)))

  pub flush_batch-Flushed :
      (batch : OffsetMap) (st : OffsetStreamState slots db)
      → BatchValid batch
      → WellKept st.state
      → (st' : OffsetStreamState slots db) × (flush_batch slots db batch
            (or_default slots db st.wb)
            st
          ≡ some st')
        × (st'.pending ≡ st.pending)
        × Flushed batch st st'
  unfolding flush_batch or_default
  flush_batch-Flushed batch st b k =
      let start : Apart st.state [] = record {
        state_kept = k;
        buf_kept = tt;
        apart = λ f. inl refl;
      } in
      let (state1, buf1, m) = merge_batch-Merged batch st.state [] b start in
      let (wb', state', bytes', e, w) =
        write_rows-Written slots db buf1 (or_default slots db st.wb) state1 st.bytes_buf
          m.apart.buf_kept m.apart.state_kept in
      (
        record st { wb = some wb'; state = state'; span_buf = []; bytes_buf = bytes' },
        rw m.merges (rw e refl),
        refl,
        record {
          state_kept = w.state_kept;
          covers_more = λ f p.
              ap (λ o. covers (or_empty o) p) (w.state_after f)
              ∙ covers-state_of (lookup f buf1) (lookup f state1) p (m.apart.apart f)
              ∙ m.covers_more f p;
          batch_kept = (wb', refl);
          rows = λ f v h g.
              elim (row_of (lookup f buf1) (lookup f state1)
                (last (or_default slots db st.wb) (to_be_bytes f)) v (sym (w.state_after f) ∙ g)) [
                  | inl new ↦ inl (w.last_after f h ∙ new)
                  | inr (old, same) ↦ inr (m.no_new f v old, w.last_after f h ∙ same)
                ];
        },
      )

  -- A flush of a pending update of valid spans does not panic. Behind it the state covers, of each
  -- file, the bytes that it covered before and those that the update brings, and no others; its
  -- spans are valid and in order; the update is removed from the pending ones, and is
  -- no longer found there; and for each file in the state the write batch ends with a put of the
  -- file's row, unless the file's spans are as they were and the batch does to its row what it did
  -- before.
  pub flush-Flushed :
      (key : Key) (batch : OffsetMap) (st : OffsetStreamState slots db)
      → get_mut key st.pending ≡ some batch
      → BatchValid batch
      → WellKept st.state
      → (st' : OffsetStreamState slots db) × (handle_file_offset_flush slots db (some key) st
          ≡ some st')
        × (st'.pending ≡ slots.remove key st.pending)
        × (get_mut key st'.pending ≡ none)
        × Flushed batch st st'
  unfolding handle_file_offset_flush remove_pending
  flush-Flushed key batch st g b k =
      let (st', e, same, fl) = flush_batch-Flushed batch st b k in
      (
        remove_pending slots db key st',
        rw (g, handle_file_offset_flush) (rw e refl),
        ap (slots.remove key) same,
        slots.get-removed st'.pending key,
        record {
          state_kept = fl.state_kept;
          covers_more = fl.covers_more;
          batch_kept = fl.batch_kept;
          rows = fl.rows;
        },
      )
