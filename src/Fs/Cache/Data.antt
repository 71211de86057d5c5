-- ===== src/Fs/Cache/Data.antt =====
-- common/fs/src/cache/entry.rs, event.rs, and the types of cache/mod.rs and of TailedFile in
-- cache/tailed_file.rs. The slot map, the regular expressions and globs, and the answers of the
-- operating system during one call are a parameter.
use logdna_agent_v.Base.{
  ℕ, Bool, false, Option, none, some, List, [], Result, ok, err, ◌==◌, if◌then◌else◌,
}
use logdna_agent_v.State.Span.{Span}
use logdna_agent_v.State.SpanVec.{SpanVec}
use logdna_agent_v.Shared.FilePath.{FilePath, same_path}
use logdna_agent_v.Shared.Rule.{Patterns, Rules}
use logdna_agent_v.Shared.Lookback.{Lookback}
use logdna_agent_v.Shared.DirPath.{DirPathBuf}
use logdna_agent_v.Fs.Cache.Guarded.{GuardedOption}
use logdna_agent_v.Fs.Cache.Symlinks.{PathMap, Symlinks}

-- The names of children: a file name, or a whole path, which has a separator and so is no file name.
pub data OsString : Type 0 where
  component : ℕ → OsString
  whole : FilePath → OsString

abbrev pub same_name : OsString → OsString → Bool
same_name (component a) (component b) = a == b
same_name (component a) (whole q) = false
same_name (whole p) (component b) = false
same_name (whole p) (whole q) = same_path p q

-- What is kept of a tailed file: the handle of the reader and the channels are left out.
pub record TailedFile : Type 0 where
  pub buf : List ℕ
  pub offsets : SpanVec
  pub offset : ℕ
  pub inode : ℕ
  pub path : FilePath

-- The values of a hash map are listed in some order.
abbrev pub Children : Type 0 → Type 0
Children Key = List (OsString × Key)

pub data EntryKind (Key : Type 0) : Type 0 where
  file : TailedFile → EntryKind Key
  dir : Children Key → List FilePath → EntryKind Key
  symlink : GuardedOption FilePath → EntryKind Key

pub record Entry (Key : Type 0) : Type 0 where
  pub path : FilePath
  pub kind : EntryKind Key

pub data FileType : Type 0 where
  is_symlink is_directory is_file is_other : FileType

pub record Metadata : Type 0 where
  pub is_dir : Bool
  pub len : ℕ
  pub created : Option ℕ

pub data FsEntry : Type 0 where
  file : FilePath → ℕ → FsEntry
  dir : FilePath → FsEntry
  symlink : FilePath → Option FilePath → FsEntry
  other : FilePath → FsEntry

-- What other crates and the operating system answer. A slot map gives a new key for each entry that is
-- inserted, and no entry is ever taken out of it. `resolve_link` is `path_abs::PathInfo::read_link`,
-- which fails at a target that does not exist; `fuel` bounds the depth of recursive calls.
pub record World : Type 1 where
  pub Key : Type 0
  pub same_key : Key → Key → Bool
  pub EntryMap : Type 0
  pub get : EntryMap → Key → Option (Entry Key)
  pub insert : EntryMap → Entry Key → EntryMap × Key
  pub set : EntryMap → Key → Entry Key → EntryMap
  pub no_entries : EntryMap
  pub values : EntryMap → List (Entry Key)
  pub patterns : Patterns
  pub below_glob : FilePath → patterns.Glob
  pub path_glob : FilePath → patterns.Glob
  pub IoError : Type 0
  pub is_not_found : IoError → Bool
  pub is_os_error_24 : IoError → Bool
  pub WatchError : Type 0
  pub symlink_metadata : FilePath → Result IoError FileType
  pub metadata : FilePath → Result IoError Metadata
  pub get_inode : FilePath → Result IoError ℕ
  pub resolve_link : FilePath → Result IoError FilePath
  pub read_link : FilePath → Result IoError FilePath
  pub read_dir : FilePath → Result IoError (List (Result IoError FilePath))
  pub is_file : FilePath → Bool
  pub is_dir : FilePath → Bool
  pub canonicalizes : FilePath → Bool
  pub walk_follow : FilePath → List (Result IoError FilePath)
  pub walk_dir : FilePath → List (Result IoError FilePath)
  pub open_file : FilePath → Result IoError (Unit {0})
  pub watch : FilePath → Result WatchError (Unit {0})
  pub unwatch : FilePath → Result WatchError (Unit {0})
  pub takes_deletion_ack : FilePath → Bool
  pub fuel : ℕ

module _ (w : World) where
  pub data Event : Type 0 where
    initialize new write : w.Key → Event
    retry_write : w.Key → Span → Event
    delete : w.Key → Event

  unfoldable pub key : Event → w.Key
  key (initialize k) = k
  key (new k) = k
  key (write k) = k
  key (retry_write k span) = k
  key (delete k) = k

  pub data Error : Type 0 where
    watch : Option FilePath → w.WatchError → Error
    rescan : Error
    watch_event : FilePath → Error
    existing lookup parent_lookup parent_not_valid : Error
    path_not_valid : FilePath → Error
    directory_list_not_valid : w.IoError → FilePath → Error
    file : w.IoError → Error

  -- How a call ends that gives no value.
  pub data Stop : Type 0 where
    failed : Error → Stop
    panicked exited out_of_fuel : Stop

  -- `watched` are the paths that the watcher holds; `acks` are the paths in the channel of deletions.
  -- `events` and `cuts` are the vectors that the calls hand down by reference.
  pub record FileSystem : Type 0 where
    pub entries : w.EntryMap
    pub symlinks : Symlinks
    pub watch_descriptors : PathMap (List w.Key)
    pub watched : FilePath → Bool
    pub wd_by_inode : ℕ → Option FilePath
    pub master_rules : Rules w.patterns
    pub initial_dirs : List DirPathBuf
    pub initial_dir_rules : Rules w.patterns
    pub missing_dirs : List FilePath
    pub initial_events : List Event
    pub fs_start_time : ℕ
    pub lookback_config : Lookback
    pub initial_offsets : ℕ → Option SpanVec
    pub ignored_dirs : FilePath → Bool
    pub acks : List FilePath
    pub events : List Event
    pub cuts : List FilePath

  -- `FsEntry::try_from`
  abbrev pub link_target : Result w.IoError FilePath → Result w.IoError (Option FilePath)
  link_target (ok p) = ok (some p)
  link_target (err e) = if w.is_not_found e then ok none else err e

  abbrev pub link_entry : FilePath → Result w.IoError (Option FilePath) → Result w.IoError FsEntry
  link_entry path (ok target) = ok (FsEntry.symlink path target)
  link_entry path (err e) = err e

  abbrev pub file_entry : FilePath → Result w.IoError ℕ → Result w.IoError FsEntry
  file_entry path (ok inode) = ok (FsEntry.file path inode)
  file_entry path (err e) = err e

  abbrev pub entry_of : FilePath → Result w.IoError FileType → Result w.IoError FsEntry
  entry_of path (err e) = err e
  entry_of path (ok is_symlink) = link_entry path (link_target (w.resolve_link path))
  entry_of path (ok is_directory) = ok (FsEntry.dir path)
  entry_of path (ok is_file) = file_entry path (w.get_inode path)
  entry_of path (ok is_other) = ok (other path)

  unfoldable pub try_from : FilePath → Result w.IoError FsEntry
  try_from path = entry_of path (w.symlink_metadata path)

  -- `TailedFile::new`
  abbrev pub tailed_of :
      FilePath
      → SpanVec
      → Result w.IoError (Unit {0})
      → Result w.IoError ℕ
      → Result w.IoError TailedFile
  tailed_of path offsets (err e) inode = err e
  tailed_of path offsets (ok _) (err e) = err e
  tailed_of path offsets (ok _) (ok inode) =
      ok (record { buf = []; offsets = offsets; offset = 0; inode = inode; path = path })

  unfoldable pub tail_file : FilePath → SpanVec → Result w.IoError TailedFile
  tail_file path offsets = tailed_of path offsets (w.open_file path) (w.get_inode path)

  -- `Entry::children` and `Entry::dependencies`
  abbrev pub children : EntryKind w.Key → Option (Children w.Key)
  children (EntryKind.dir cs ds) = some cs
  children (EntryKind.file f) = none
  children (EntryKind.symlink t) = none

  abbrev pub dependencies : EntryKind w.Key → Option (List FilePath)
  dependencies (EntryKind.dir cs ds) = some ds
  dependencies (EntryKind.file f) = none
  dependencies (EntryKind.symlink t) = none
