-- ===== src/Examples/Cache.antt =====
-- The cache on a small disk.
use logdna_agent_v.Base.{
  ℕ, ◌-◌, ◌≡◌, ◌↔◌, refl, false, ◌&&◌, ◌||◌, none, some, List, [], ◌∷◌, Result, ok, err, arith, leb,
  length, if◌then◌else◌,
}
use logdna_agent_v.State.SpanVec.{SpanVec}
use logdna_agent_v.Shared.FilePath.{FilePath, same_path}
use logdna_agent_v.Shared.Lookback
use logdna_agent_v.Shared.DirPath.{DirPathBuf}
use logdna_agent_v.Fs.Debouncer.{create, write, remove}
use logdna_agent_v.Fs.Cache.Symlinks as Links
use logdna_agent_v.Fs.Cache.Data.{Error, Event, EntryKind, TailedFile, FileSystem, Stop}
use logdna_agent_v.Fs.Cache.Passes.{
  get_first_entry, is_initial_dir_target, passes_rules, path_passes,
}
use logdna_agent_v.Fs.Cache.Register.{unregister}
use logdna_agent_v.Fs.Cache.Process.{process, process_rename}
use logdna_agent_v.Fs.Cache.Start.{fresh, scan, new_file_system}
use logdna_agent_v.Fs.Cache.Stream.{Item}
use logdna_agent_v.Fs.Cache.Offsets.{get_initial_offset}
use logdna_agent_v.Fs.Cache.Tidy.{Tidy, After}
use logdna_agent_v.Fs.Cache.Tidy.Process.{process-Tidy}
use logdna_agent_v.Fs.Cache.Tidy.History.{Answers, at, Handled, history, new_file_system-Tidy}
use logdna_agent_v.Fs.Cache.Offsets.Initial.{
  Covering, read_before, initial-covers, initial_offset-panics,
}
use logdna_agent_v.Fs.Cache.Stream.Retries.{rounds, tried, all_retried, rounds_lem}
use logdna_agent_v.Fs.Cache.Passes.Unlinked.{any_above, path_passes-unlinked}
use logdna_agent_v.Fs.Cache.Register.Stale.{taken, unregister-symlinks}
use logdna_agent_v.Fs.Cache.Symlinks.Count.{linked}
use logdna_agent_v.Fs.Cache.Process.Rename.{Moved, process_rename-Moved}
use logdna_agent_v.Fs.Cache.Symlinks.Undo.{remove-add}
use logdna_agent_v.Examples.Disk.{
  disk, slot_laws, below_one, empty_cache, dir_path, file_path, link_path, target_path, file_data,
}

process-Tidy_example : After disk empty_cache (process disk (create dir_path) none empty_cache).0
process-Tidy_example = process-Tidy disk slot_laws (create dir_path) none empty_cache (λ p. tt)

abbrev dirs : List DirPathBuf
dirs = record { inner = dir_path; postfix = none } ∷ []

-- The answers of the disk, and what they are once it is gone: nothing is found any more.
abbrev answers : Answers disk
answers = record {
  symlink_metadata = disk.symlink_metadata;
  metadata = disk.metadata;
  get_inode = disk.get_inode;
  resolve_link = disk.resolve_link;
  read_link = disk.read_link;
  read_dir = disk.read_dir;
  is_file = disk.is_file;
  is_dir = disk.is_dir;
  canonicalizes = disk.canonicalizes;
  walk_follow = disk.walk_follow;
  walk_dir = disk.walk_dir;
  open_file = disk.open_file;
  watch = disk.watch;
  unwatch = disk.unwatch;
  takes_deletion_ack = disk.takes_deletion_ack;
}

abbrev gone : Answers disk
gone = record answers {
  symlink_metadata = λ p. err 2;
  metadata = λ p. err 2;
  get_inode = λ p. err 2;
  is_file = λ p. false;
  is_dir = λ p. false;
}

abbrev built : FileSystem (at disk answers) × Result (Stop (at disk answers)) (List ℕ)
built =
    scan (at disk answers) dirs
      (fresh (at disk answers) dirs Lookback.start (λ i. none) below_one 9 (below_one, []))

-- The file is written, the disk goes away, and the file is removed.
abbrev handled : List (Handled disk)
handled =
    (answers, record { event = write file_path; event_time = 4; retries = 0; retry_offset = none })
    ∷ (gone, record { event = remove file_path; event_time = 5; retries = 0; retry_offset = none })
    ∷ []

new_file_system-Tidy_example :
    Tidy (at disk (history disk answers handled built.0).0) (history disk answers handled built.0).1
unfolding new_file_system
new_file_system-Tidy_example =
    new_file_system-Tidy disk slot_laws Lookback.start (λ i. none) below_one 9 answers dirs built.0
      built.1 handled refl

abbrev saved_cache : FileSystem disk
saved_cache = record empty_cache {
  initial_offsets = λ i. some (record { start = 20; end = 60 } ∷ []);
}

initial-covers_example :
    Covering
      (read_before disk Lookback.start 9 file_data (some (record { start = 20; end = 60 })))
      (get_initial_offset disk saved_cache file_path 7)
initial-covers_example =
    initial-covers disk saved_cache file_path 7 file_data (some (record { start = 20; end = 60 }))
      refl refl (omega arith) (omega arith)

abbrev nothing_saved : FileSystem disk
nothing_saved = record empty_cache { initial_offsets = λ i. some [] }

initial_offset-panics_example :
    (get_initial_offset disk nothing_saved file_path 7 ≡ none) ↔ (◌≡◌ {A = SpanVec} [] [])
initial_offset-panics_example =
    initial_offset-panics disk nothing_saved file_path 7 file_data [] refl (omega arith) refl tt

abbrev outcomes : List (Item disk)
outcomes =
    err (Error.file 13) ∷ err (Error.directory_list_not_valid 5 dir_path) ∷ err (Error.file 13) ∷ []

rounds_lem_example : rounds disk (some (tried disk (create file_path) 3 0)) outcomes ≡ (
    if all_retried disk outcomes && leb (length outcomes) 6
    then some (tried disk (create file_path) 3 (length outcomes))
    else none)
rounds_lem_example = rounds_lem disk (create file_path) 3 outcomes

path_passes-unlinked_example :
    (path_passes disk file_path empty_cache).1
    ≡ ok (
        is_initial_dir_target disk empty_cache file_path
        || any_above (passes_rules disk empty_cache) file_path)
unfolding get_first_entry
path_passes-unlinked_example =
    path_passes-unlinked disk empty_cache file_path 7 refl refl (λ p. refl)

abbrev tailed : FilePath → TailedFile
tailed path = record { buf = []; offsets = []; offset = 0; inode = 7; path = path }

-- The link /1/3 is tracked, and is off.
abbrev one_link : FileSystem disk
one_link = record empty_cache {
  entries =
      record {
        path = link_path;
        kind = EntryKind.symlink (record { value = target_path; state = false });
      }
      ∷ [];
  watch_descriptors = λ p. if same_path link_path p then some (0 ∷ []) else none;
  symlinks = λ p. if same_path target_path p then some (link_path ∷ []) else none;
}

unregister-symlinks_example :
    linked (unregister disk 0 one_link).0.symlinks link_path target_path
    ≡ linked one_link.symlinks link_path target_path
      - taken disk link_path
          (EntryKind.symlink (record { value = target_path; state = false }))
          link_path
          target_path
unregister-symlinks_example =
    unregister-symlinks disk one_link 0 link_path
      (EntryKind.symlink (record { value = target_path; state = false })) (0 ∷ []) refl refl
      link_path target_path

abbrev renamed_path : FilePath
renamed_path = 5 ∷ 1 ∷ []

remove-add_example :
    Links.remove
      (Links.add one_link.symlinks file_path target_path)
      file_path
      target_path
      target_path
    ≡ one_link.symlinks target_path
remove-add_example = remove-add one_link.symlinks file_path target_path target_path refl (λ e. cc)

-- The file at /1/2 is tracked.
abbrev tracked : FileSystem disk
tracked = record empty_cache {
  entries = record { path = file_path; kind = EntryKind.file (tailed file_path) } ∷ [];
  watch_descriptors = λ p. if same_path file_path p then some (0 ∷ []) else none;
}

process_rename-Moved_example :
    Moved disk slot_laws
      (record tracked { events = [] })
      (process_rename disk file_path renamed_path tracked).0
      renamed_path
      0
    × (◌≡◌ {A = List (Event disk)} [] [])
unfolding process_rename
process_rename-Moved_example =
    process_rename-Moved disk slot_laws tracked
      (process_rename disk file_path renamed_path tracked).0 file_path renamed_path 0 [] [] refl
      refl
