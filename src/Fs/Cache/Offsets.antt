-- ===== src/Fs/Cache/Offsets.antt =====
-- common/fs/src/cache/mod.rs: where a new file is read from. `none` is a panic.
use logdna_agent_v.Base.{
  ℕ, Bool, true, false, Option, none, some, List, [], ◌∷◌, Result, ok, err, ◌>>=◌, unwrap, ltb,
  if◌then◌else◌,
}
pub mod Initial
use logdna_agent_v.State.Span.{Span, new}
use logdna_agent_v.State.SpanVec.{SpanVec, insert, from_iter}
use logdna_agent_v.Shared.FilePath.{FilePath}
use logdna_agent_v.Shared.Lookback
use logdna_agent_v.Shared.Lookback.{Lookback}
use logdna_agent_v.Fs.Cache.Data.{World, Metadata, FileSystem}

-- A saved vector of one span is completed by the bytes in front of it.
unfoldable pub with_front : SpanVec → Option SpanVec
with_front [] = some []
with_front (s ∷ []) = do front ← unwrap (new 0 s.start); insert (s ∷ []) front
with_front (s ∷ next ∷ spans) = some (s ∷ next ∷ spans)

abbrev pub completed : Option SpanVec → Option (Option SpanVec)
completed none = some none
completed (some offset) = do full ← with_front offset; some (some full)

unfoldable pub lookup_offset : (ℕ → Option SpanVec) → ℕ → Option (Option SpanVec)
lookup_offset initial_offsets inode = completed (initial_offsets inode)

-- The span from 0 to the length of the file, collected into a vector.
unfoldable pub whole_file : ℕ → Option SpanVec
whole_file len = do span ← unwrap (new 0 len); from_iter [] (span ∷ [])

module _ (w : World) where
  abbrev pub len_or_zero : Result w.IoError Metadata → ℕ
  len_or_zero (ok m) = m.len
  len_or_zero (err e) = 0

  abbrev pub created_after : ℕ → Result w.IoError Metadata → Bool
  created_after start_time (err e) = false
  created_after start_time (ok m) = elim m.created [ none ↦ false | some t ↦ ltb start_time t ]

  abbrev pub whole_if_known : Result w.IoError Metadata → Option SpanVec
  whole_if_known (ok m) = whole_file m.len
  whole_if_known (err e) = some []

  unfoldable pub default_offset : Lookback → ℕ → Result w.IoError Metadata → Option SpanVec
  unfolding whole_file
  default_offset Lookback.start start_time meta = some []
  default_offset Lookback.small_files start_time meta =
      if ltb (len_or_zero meta) 8192 then some [] else whole_file (len_or_zero meta)
  default_offset Lookback.none start_time meta = whole_if_known meta
  default_offset Lookback.tail start_time meta =
      if created_after start_time meta then some [] else whole_file (len_or_zero meta)

  -- `saved_offset[0]` panics at an empty vector.
  abbrev pub saved_or : SpanVec → ℕ → Option SpanVec → Option SpanVec
  saved_or [] file_len default = none
  saved_or (s ∷ spans) file_len default = if ltb file_len s.end then default else some (s ∷ spans)

  abbrev pub choose_offset : Option SpanVec → ℕ → SpanVec → Option SpanVec
  choose_offset none file_len default = some default
  choose_offset (some saved) file_len default = saved_or saved file_len (some default)

  unfoldable pub get_initial_offset : FileSystem w → FilePath → ℕ → Option SpanVec
  unfolding lookup_offset default_offset
  get_initial_offset c path inode = do
    default ← default_offset c.lookback_config c.fs_start_time (w.metadata path)
    found ← lookup_offset c.initial_offsets inode
    choose_offset found (len_or_zero (w.metadata path)) default
