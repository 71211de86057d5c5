-- ===== src/Http/Batch.antt =====
-- common/http/src/batch.rs: lines are collected until a batch is large enough, its time is over, or
-- no more lines come. What the loop selects, one after the other, is a list.
pub mod Lines
use logdna_agent_v.Base.{
  ℕ, ◌≡◌, Bool, ◌&&◌, Option, none, some, List, [], ◌∷◌, ◌++◌, Result, ok, err, length, ltb, leb,
  if◌then◌else◌,
}
use logdna_agent_v.State.Span.{Span}

-- What the batches use of the `logdna_client` crate: a buffer holds the lines that were written to
-- it, and so does the body that is made of it. An insertion into the offsets that fails changes
-- nothing.
pub record Serializer : Type 1 where
  pub Line : Type 0
  pub Buffer : Type 0
  pub Body : Type 0
  pub Error : Type 0
  pub Offsets : Type 0
  pub no_offsets : Offsets
  pub insert : Offsets → ℕ → Span → Offsets
  pub get_key : Line → Option ℕ
  pub get_offset : Line → Option Span
  pub write_line : Buffer → Line → Result Error Buffer
  pub count : Buffer → ℕ
  pub bytes_len : Buffer → ℕ
  pub end : Buffer → Result Error Body
  pub lines_of : Buffer → List Line
  pub body_lines : Body → List Line
  pub written :
      (b b' : Buffer) (l : Line) → write_line b l ≡ ok b' → lines_of b' ≡ lines_of b ++ l ∷ []
  pub counts : (b : Buffer) → count b ≡ length (lines_of b)
  pub ended : (b : Buffer) (body : Body) → end b ≡ ok body → body_lines body ≡ lines_of b

module _ (s : Serializer) where
  open s use {
    Line, Buffer, Body, Error, Offsets, no_offsets, insert, get_key, get_offset, write_line, count,
    bytes_len,
  }

  -- What the loop selects: an item of the stream, the end of the stream, or the end of the time.
  pub data Selected : Type 0 where
    item : Line → Selected
    done timeout : Selected

  pub data TimedRequestBatcherError : Type 0 where
    buffer_error : Error → TimedRequestBatcherError
    buffer_stream_error : TimedRequestBatcherError

  pub data Yield : Type 0 where
    batch : Body → Offsets → Yield
    failed : TimedRequestBatcherError → Yield
    finished : Yield

  abbrev pub add_offset : Offsets → Line → Offsets
  add_offset offsets l = elim (get_key l) [
    | none ↦ offsets
    | some key ↦ elim (get_offset l) [ none ↦ offsets | some offset ↦ insert offsets key offset ]
  ]

  unfoldable pub finish : Buffer → Offsets → Yield
  finish current offsets = elim (s.end current) [
    | ok body ↦ batch body offsets
    | err e ↦ failed (buffer_error e)
  ]

  -- The loop. `none` if it waits behind what is given.
  unfoldable pub collect : ℕ → Buffer → Offsets → List Selected → Option (Yield × List Selected)
  collect cap current offsets [] = none
  collect cap current offsets (item l ∷ rest) = elim (write_line current l) [
    | err e ↦ some (failed (buffer_error e), rest)
    | ok current' ↦
        let later = collect cap current' (add_offset offsets l) rest in
        if ltb 0 (count current') && leb cap (bytes_len current')
        then some (finish current' (add_offset offsets l), rest)
        else later
  ]
  collect cap current offsets (done ∷ rest) =
      some (if ltb 0 (count current) then finish current offsets else finished, done ∷ rest)
  collect cap current offsets (timeout ∷ rest) =
      let later = collect cap current offsets rest in
      if ltb 0 (count current) then some (finish current offsets, rest) else later

  -- One item of the stream of batches, with what the source of buffers gives.
  unfoldable pub next_batch :
      ℕ → Option (Result Error Buffer) → List Selected → Option (Yield × List Selected)
  next_batch cap none selected = some (failed buffer_stream_error, selected)
  next_batch cap (some (err e)) selected = some (failed (buffer_error e), selected)
  next_batch cap (some (ok current)) selected = collect cap current no_offsets selected
