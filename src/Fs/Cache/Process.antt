-- ===== src/Fs/Cache/Process.antt =====
-- common/fs/src/cache/mod.rs: the handling of one event of the watcher. The events are those of the
-- debouncer, whose paths are file paths here.
pub mod Frame
pub mod Rename
use logdna_agent_v.Base.{
  ℕ, Bool, true, false, ◌&&◌, Option, none, some, List, [], ◌∷◌, ◌++◌, map, Result, ok, err,
  if◌then◌else◌,
}
use logdna_agent_v.State.Span.{Span}
use logdna_agent_v.Shared.FilePath.{FilePath, file_name}
use logdna_agent_v.Fs.Debouncer.{WatchEvent, remove, create, write, rename, rescan, error}
use logdna_agent_v.Fs.Cache.Symlinks.{write_at}
use logdna_agent_v.Fs.Cache.Data.{
  World, OsString, component, Entry, FileSystem, Event, retry_write, key, Error, Stop, failed,
  exited, lookup, parent_lookup, watch_event, path_not_valid,
}
use logdna_agent_v.Fs.Cache.Data as Data
use logdna_agent_v.Fs.Cache.Effect.{
  M, ◌>>=◌, ◌>>◌, return, stop, fail, ok_or, attempt, state, modify, get_entry,
}
use logdna_agent_v.Fs.Cache.Passes.{
  lookup_path, lookup_parent, get_first_entry, path_passes, entry_path_passes,
}
use logdna_agent_v.Fs.Cache.Register.{insert_child, remove_child, change_children, push_descriptor}
use logdna_agent_v.Fs.Cache.Insert.{insert}
use logdna_agent_v.Fs.Cache.Remove.{is_initial_dir, remove_path}

module _ (w : World) where
  abbrev pub Events : Type 0
  Events = List (Event w)

  abbrev pub clear : M w (Unit {0})
  clear = modify (λ c. record c { events = [] })

  abbrev pub gather : {A : Type 0} → M w A → M w Events
  gather m = do _ ← m; c ← state; return c.events

  -- A call with a vector of events of its own, which it returns.
  abbrev pub collect : {A : Type 0} → M w A → M w Events
  collect m = clear >> gather m

  unfoldable pub process_create : FilePath → M w Events
  unfolding insert
  process_create path = collect (insert w path)

  abbrev pub writes : FilePath → Option (List w.Key) → M w Events
  writes path none = fail (watch_event path)
  writes path (some ks) = return (map (λ k. Event.write k) ks)

  unfoldable pub process_modify : FilePath → M w Events
  process_modify path = do c ← state; writes path (c.watch_descriptors path)

  abbrev pub delete_entry : Option w.Key → M w (Unit {0})
  delete_entry none = return tt
  delete_entry (some k) = do
    found ← get_entry k
    entry ← ok_or lookup found
    c ← state
    let removal = remove_path w w.fuel entry.path
    if is_initial_dir c.initial_dirs entry.path then fail Error.rescan else removal

  unfoldable pub process_delete : FilePath → M w Events
  unfolding get_first_entry remove_path
  process_delete path = collect (do c ← state; delete_entry (get_first_entry w c path))

  abbrev pub leave_dir : OsString → Option w.Key → M w (Unit {0})
  leave_dir name none = return tt
  leave_dir name (some parent) = change_children w parent parent_lookup (remove_child name)

  abbrev pub enter_dir : OsString → w.Key → Option w.Key → M w (Unit {0})
  enter_dir name k none = return tt
  enter_dir name k (some parent) = change_children w parent parent_lookup (insert_child name k)

  -- `set_path`, and the new descriptor in place of those of the target.
  abbrev pub move_to : FilePath → w.Key → M w (Unit {0})
  move_to to k = do
    found ← get_entry k
    entry ← ok_or lookup found
    modify (λ c. record c { entries = w.set c.entries k (record entry { path = to }) })
    modify (λ c. record c { watch_descriptors = write_at to none c.watch_descriptors })
    push_descriptor w to k

  abbrev pub rename_entry : FilePath → FilePath → Option w.Key → Option w.Key → M w (Unit {0})
  rename_entry from to new_parent none = do _ ← insert w to; return tt
  rename_entry from to new_parent (some k) = do
    found ← get_entry k
    entry ← ok_or lookup found
    new_name ← ok_or (path_not_valid to) (file_name to)
    old_name ← ok_or (path_not_valid entry.path) (file_name entry.path)
    old_parent ← lookup_parent w from
    leave_dir (component old_name) old_parent
    move_to to k
    enter_dir (component new_name) k new_parent

  unfoldable pub process_rename : FilePath → FilePath → M w Events
  unfolding lookup_path change_children insert
  process_rename from to = collect (do
    new_parent ← lookup_parent w to
    found ← lookup_path w from
    rename_entry from to new_parent found)

  -- Where only one of the paths is tracked, a rename is a creation or a deletion.
  abbrev pub rename_case : Bool → Bool → FilePath → FilePath → M w Events
  rename_case true true from to = process_rename from to
  rename_case true false from to = process_create to
  rename_case false true from to = process_delete from
  rename_case false false from to = return []

  abbrev pub source_passes : Option w.Key → M w Bool
  source_passes none = return false
  source_passes (some k) = entry_path_passes w k

  abbrev pub retry_writes : Option Span → Events → Events
  retry_writes none es = es
  retry_writes (some span) es = map (λ e. retry_write (key w e) span) es

  -- A write to an untracked path is a creation with a write behind it.
  abbrev pub after_modify : FilePath → Option Span → Result (Error w) Events → M w Events
  after_modify path retry_offset (ok es) = return (retry_writes retry_offset es)
  after_modify path retry_offset (err (watch_event p)) = do
    created ← process_create path
    written ← process_modify path
    return (created ++ written)
  after_modify path retry_offset (err e) = fail e

  -- The number of an error of the watcher is the wrapper's own error.
  unfoldable pub handle : WatchEvent FilePath w.WatchError → Option Span → M w Events
  unfolding process_create process_modify process_delete process_rename entry_path_passes
      path_passes
  handle (create path) retry_offset = process_create path
  handle (write path) retry_offset = do
    written ← attempt (process_modify path)
    after_modify path retry_offset written
  handle (remove path) retry_offset = process_delete path
  handle (rename from to) retry_offset = do
    c ← state
    from_ok ← source_passes (get_first_entry w c from)
    to_ok ← path_passes w to
    rename_case to_ok from_ok from to
  handle (error e path) retry_offset = fail (Error.watch path e)
  handle rescan retry_offset = fail Error.rescan

  -- At too many open files the process exits.
  abbrev pub exit_or_fail : Error w → M w Events
  exit_or_fail (Error.file e) = if w.is_os_error_24 e then stop exited else fail (Error.file e)
  exit_or_fail e = fail e

  abbrev pub end_process : Result (Error w) Events → M w Events
  end_process (ok es) = return es
  end_process (err e) = exit_or_fail e

  unfoldable pub process : WatchEvent FilePath w.WatchError → Option Span → M w Events
  unfolding handle
  process event retry_offset = do result ← attempt (handle event retry_offset); end_process result
