-- ===== src/State/Events.antt =====
-- common/state/src/state.rs: the events of the offset state, one after the other. `none` is a panic.
pub mod Interface
pub mod Kept
pub mod Merge
pub mod Rows
pub mod Flush
pub mod Synced
pub mod Run
use logdna_agent_v.Base.{
  ℕ, Bool, true, false, not, ◌||◌, Option, none, some, List, [], ◌∷◌, Result, ok, err, ◌>>=◌, ◌==◌,
  if◌then◌else◌,
}
use logdna_agent_v.State.SpanVec.{SpanVec, from_iter}
use logdna_agent_v.State.Codec.{Bytes, to_be_bytes, encode_row}
use logdna_agent_v.State.Table.{lookup, erase, put, retain}
use logdna_agent_v.State.Events.Interface.{OffsetMap, SlotMap, Database}

-- The span vectors in `state` and in `span_buf`.
abbrev pub SpanTable : Type 0
SpanTable = List (ℕ × SpanVec)

abbrev pub or_empty : Option SpanVec → SpanVec
or_empty none = []
or_empty (some v) = v

-- The working vector of a file, taken out of the two tables.
unfoldable pub take_working : ℕ → SpanTable → SpanTable → SpanVec × (SpanTable × SpanTable)
take_working file_id state span_buf = elim (lookup file_id span_buf) [
  | some v ↦ (v, (state, erase file_id span_buf))
  | none ↦ (or_empty (lookup file_id state), (erase file_id state, span_buf))
]

-- The loop over the files of a batch. `from_iter` goes on from the working vector with the same loop
-- of insertions.
unfoldable pub merge_batch : OffsetMap → SpanTable → SpanTable → Option (SpanTable × SpanTable)
unfolding take_working
merge_batch [] state span_buf = some (state, span_buf)
merge_batch ((file_id, offsets) ∷ batch) state span_buf =
    let (span_v, (state', span_buf')) = take_working file_id state span_buf in
    do span_v' ← from_iter span_v offsets; merge_batch batch state' (put file_id span_v' span_buf')

module _ (slots : SlotMap) (db : Database) where
  open slots use {Slots, Key}
  open db use {Batch, Db}

  pub data FileOffsetEvent : Type 0 where
    -- The flag says whether the one who sent the update still waits for its key.
    update : OffsetMap → Bool → FileOffsetEvent
    delete : ℕ → FileOffsetEvent
    clear : FileOffsetEvent
    flush : Option Key → FileOffsetEvent
    garbage_collect : List ℕ → FileOffsetEvent

  pub record OffsetStreamState : Type 0 where
    pub wb : Option Batch
    pub state : SpanTable
    pub pending : Slots
    pub span_buf : SpanTable
    pub bytes_buf : Bytes

  unfoldable pub or_default : Option Batch → Batch
  or_default none = db.new_batch
  or_default (some wb) = wb

  -- The loop that drains `span_buf`.
  unfoldable pub write_rows : SpanTable → Batch → SpanTable → Bytes → Batch × (SpanTable × Bytes)
  write_rows [] wb state bytes_buf = (wb, (state, bytes_buf))
  write_rows ((file_id, span_v) ∷ rest) wb state bytes_buf = elim (encode_row span_v) [
    | none ↦ write_rows rest wb state bytes_buf
    | some row ↦
        write_rows rest (db.put_cf wb (to_be_bytes file_id) row) (put file_id span_v state) row
  ]

  unfoldable pub flush_batch : OffsetMap → Batch → OffsetStreamState → Option OffsetStreamState
  flush_batch batch wb st = do
    (state, span_buf) ← merge_batch batch st.state []
    let (wb', (state', bytes_buf)) = write_rows span_buf wb state st.bytes_buf in
        some (record st { wb = some wb'; state = state'; span_buf = []; bytes_buf = bytes_buf })

  unfoldable pub remove_pending : Key → OffsetStreamState → OffsetStreamState
  remove_pending key st = record st { pending = slots.remove key st.pending }

  unfoldable pub handle_file_offset_flush :
      Option Key → OffsetStreamState → Option OffsetStreamState
  handle_file_offset_flush none st = some (record st { wb = some (or_default st.wb) })
  handle_file_offset_flush (some key) st = elim (slots.get_mut key st.pending) [
    | none ↦ some (remove_pending key (record st { wb = some (or_default st.wb) }))
    | some batch ↦ do st' ← flush_batch batch (or_default st.wb) st; some (remove_pending key st')
  ]

  pub data EventAction : Type 0 where
    write nop : OffsetStreamState → EventAction

  -- `retained_files.contains`
  abbrev pub retained : List ℕ → ℕ → Bool
  retained [] file = false
  retained (f ∷ files) file = let rest = retained files file in (f == file) || rest

  -- An error is `StageUpdateFail`, with the state.
  unfoldable pub handle_file_offset_event :
      FileOffsetEvent → OffsetStreamState → Option (Result OffsetStreamState EventAction)
  handle_file_offset_event (flush key) st = do
    st' ← handle_file_offset_flush key st
    some (ok (write st'))
  handle_file_offset_event (update offsets waits) st =
      let st' = record st { pending = (slots.insert offsets st.pending).1 } in
      if waits then some (ok (nop st')) else some (err st')
  handle_file_offset_event (delete key) st = some (
      ok (
        nop (record st {
          wb = some (db.delete_cf (or_default st.wb) (to_be_bytes key));
          state = erase key st.state;
        })))
  handle_file_offset_event clear st =
      some (ok (nop (record st { wb = none; pending = slots.clear st.pending })))
  handle_file_offset_event (garbage_collect files) st = some (
      ok (
        nop (record st {
          wb = none;
          pending = slots.clear st.pending;
          state = retain (retained files) st.state;
        })))

  -- What the fold does with an action: a write batch that is written is gone, and so is one that
  -- could not be written. An error is logged.
  unfoldable pub apply : Db → Result OffsetStreamState EventAction → Db × OffsetStreamState
  apply d (err st) = (d, st)
  apply d (ok (nop st)) = (d, st)
  apply d (ok (write st)) = elim st.wb [
    | none ↦ (d, record st { wb = none })
    | some wb ↦ elim (db.write d wb) [
      | ok d' ↦ (d', record st { wb = none })
      | err e ↦ (d, record st { wb = none })
    ]
  ]

  -- The fold of `run` over the events. Without the column family an event is dropped.
  unfoldable pub run :
      List FileOffsetEvent → Db → OffsetStreamState → Option (Db × OffsetStreamState)
  run [] d st = some (d, st)
  run (event ∷ events) d st = elim (db.cf_handle d) [
    | false ↦ run events d st
    | true ↦ do
      action ← handle_file_offset_event event st
      let (d', st') = apply d action in run events d' st'
  ]

  -- `FileOffsetState::run` starts with an empty batch, and with nothing in its tables.
  unfoldable pub start : OffsetStreamState
  start = record {
    wb = some db.new_batch;
    state = [];
    pending = slots.new;
    span_buf = [];
    bytes_buf = [];
  }
