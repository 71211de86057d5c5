-- ===== src/Fs/Cache/Start.antt =====
-- common/fs/src/cache/mod.rs: the construction of the cache. The offset state's garbage collection is
-- left out: the inodes that it is sent are returned.
use logdna_agent_v.Base.{
  ℕ, Bool, true, false, Option, none, some, List, [], ◌∷◌, ◌++◌, Result, ok, err, unwrap,
  if◌then◌else◌,
}
use logdna_agent_v.State.SpanVec.{SpanVec}
use logdna_agent_v.Shared.FilePath.{FilePath, join}
use logdna_agent_v.Shared.Rule.{Rules, glob_rule, add_inclusion}
use logdna_agent_v.Shared.Rule as Rule
use logdna_agent_v.Shared.Lookback.{Lookback}
use logdna_agent_v.Shared.DirPath.{DirPathBuf}
use logdna_agent_v.Shared.DirPath as DirPath
use logdna_agent_v.Fs.Cache.Data.{World, Entry, EntryKind, FileSystem, Event, new, initialize, Stop}
use logdna_agent_v.Fs.Cache.Effect.{M, ◌>>=◌, ◌>>◌, return, attempt, state, modify}
use logdna_agent_v.Fs.Cache.Passes.{is_initial_dir_target}
use logdna_agent_v.Fs.Cache.Insert.{unwrap_or_panic, insert}

abbrev pub is_ok_result : {E A : Type 0} → Result E A → Bool
is_ok_result (ok a) = true
is_ok_result (err e) = false

module _ (w : World) where
  -- `Path::exists`
  abbrev pub exists : FilePath → Bool
  exists path = is_ok_result (w.metadata path)

  -- A missing directory is looked for again.
  abbrev pub find_again : FilePath → Option DirPathBuf
  unfolding DirPath.try_from
  find_again full =
      if exists full
      then some (record { inner = full; postfix = none })
      else unwrap (DirPath.try_from w.canonicalizes full)

  abbrev pub look_again : DirPathBuf → Option FilePath → Option DirPathBuf
  unfolding DirPath.try_from
  look_again d none = some d
  look_again d (some postfix) = find_again (join d.inner postfix)

  abbrev pub dir_or_panic : Option DirPathBuf → Option DirPathBuf
  dir_or_panic none = none
  dir_or_panic (some d) = if w.is_dir d.inner then some d else none

  -- `none` is a panic.
  unfoldable pub check_dirs : List DirPathBuf → Option (List DirPathBuf)
  unfolding DirPath.try_from
  check_dirs [] = some []
  check_dirs (d ∷ ds) = elim (dir_or_panic (look_again d d.postfix)) [
    | none ↦ none
    | some d' ↦ elim (check_dirs ds) [ none ↦ none | some ds' ↦ some (d' ∷ ds') ]
  ]

  unfoldable pub add_initial_dir_rules : Rules w.patterns → FilePath → Rules w.patterns
  unfolding add_inclusion
  add_initial_dir_rules rules path =
      add_inclusion w.patterns (add_inclusion w.patterns rules (glob_rule (w.below_glob path)))
        (glob_rule (w.path_glob path))

  -- The rules of the initial directories, and the directories that are missing. `none` is the panic of
  -- the watcher for these.
  abbrev pub add_dir :
      Rules w.patterns
      → List FilePath
      → FilePath
      → Option FilePath
      → Option (Rules w.patterns × List FilePath)
  unfolding add_initial_dir_rules
  add_dir rules missing inner none = some (add_initial_dir_rules rules inner, missing)
  add_dir rules missing inner (some postfix) = elim (w.watch inner) [
    | ok _ ↦
        some (add_initial_dir_rules rules (join inner postfix), missing ++ join inner postfix ∷ [])
    | err e ↦ none
  ]

  unfoldable pub add_dirs :
      Rules w.patterns → List FilePath → List DirPathBuf → Option (Rules w.patterns × List FilePath)
  unfolding add_initial_dir_rules
  add_dirs rules missing [] = some (rules, missing)
  add_dirs rules missing (d ∷ ds) = elim (add_dir rules missing d.inner d.postfix) [
    | none ↦ none
    | some (rules', missing') ↦ add_dirs rules' missing' ds
  ]

  -- The first path upwards that exists is inserted; the root is not.
  unfoldable pub insert_upwards : FilePath → M w FilePath
  unfolding insert
  insert_upwards [] = return []
  insert_upwards (name ∷ parent) =
      let above = insert_upwards parent in
      let here = (do _ ← attempt (insert w (name ∷ parent)); return (name ∷ parent)) in
      if exists (name ∷ parent) then here else above

  abbrev pub files_of : List (Result w.IoError FilePath) → List FilePath
  files_of [] = []
  files_of (err e ∷ rest) = files_of rest
  files_of (ok path ∷ rest) =
      let more = files_of rest in if w.is_file path then path ∷ more else more

  abbrev pub with_files :
      FilePath → Result w.IoError (List (Result w.IoError FilePath)) → List FilePath
  with_files path (err e) = []
  with_files path (ok entries) = path ∷ files_of entries

  unfoldable pub found_paths : FileSystem w → List (Result w.IoError FilePath) → List FilePath
  found_paths c [] = []
  found_paths c (err e ∷ rest) = found_paths c rest
  found_paths c (ok path ∷ rest) =
      let more = found_paths c rest in
      if is_initial_dir_target w c path then with_files path (w.read_dir path) ++ more else more

  unfoldable pub insert_each : List FilePath → M w (Unit {0})
  unfolding insert
  insert_each [] = return tt
  insert_each (path ∷ paths) = do _ ← attempt (insert w path); insert_each paths

  abbrev pub scan_below : FilePath → FilePath → M w (Unit {0})
  scan_below dir [] = return tt
  scan_below dir (name ∷ above) = do c ← state; insert_each (found_paths c (w.walk_follow dir))

  unfoldable pub insert_dirs : List DirPathBuf → M w (Unit {0})
  unfolding insert_upwards insert_each found_paths
  insert_dirs [] = return tt
  insert_dirs (d ∷ ds) = do found ← insert_upwards d.inner; scan_below d.inner found; insert_dirs ds

  unfoldable pub initial_of : List (Event w) → Option (List (Event w))
  initial_of [] = some []
  initial_of (new k ∷ es) = elim (initial_of es) [
    | none ↦ none
    | some is ↦ some (initialize k ∷ is)
  ]
  initial_of (e ∷ es) = none

  abbrev pub inodes_of : List (Entry w.Key) → List ℕ
  inodes_of [] = []
  inodes_of (e ∷ es) = elim e.kind [
    | EntryKind.file f ↦ f.inode ∷ inodes_of es
    | EntryKind.dir cs ds ↦ inodes_of es
    | EntryKind.symlink link ↦ inodes_of es
  ]

  abbrev pub fresh :
      List DirPathBuf
      → Lookback
      → (ℕ → Option SpanVec)
      → Rules w.patterns
      → ℕ
      → Rules w.patterns × List FilePath
      → FileSystem w
  fresh dirs lookback offsets rules now (dir_rules, missing) = record {
    entries = w.no_entries;
    symlinks = λ p. none;
    watch_descriptors = λ p. none;
    watched = λ p. false;
    wd_by_inode = λ i. none;
    master_rules = rules;
    initial_dirs = dirs;
    initial_dir_rules = dir_rules;
    missing_dirs = missing;
    initial_events = [];
    fs_start_time = now;
    lookback_config = lookback;
    initial_offsets = offsets;
    ignored_dirs = λ p. false;
    acks = [];
    events = [];
    cuts = [];
  }

  -- The scan of the initial directories, whose events become the initial ones. The result are the
  -- inodes of the tracked files.
  unfoldable pub scan : List DirPathBuf → M w (List ℕ)
  unfolding insert_dirs initial_of
  scan dirs = do
    insert_dirs dirs
    c ← state
    events ← unwrap_or_panic w (initial_of c.events)
    modify (λ c. record c { initial_events = events })
    return (inodes_of (w.values c.entries))

  abbrev pub Built : Type 0
  Built = Option (FileSystem w × Result (Stop w) (List ℕ))

  module _ (lookback : Lookback) (offsets : ℕ → Option SpanVec) (rules : Rules w.patterns)
      (now : ℕ) where
    abbrev pub build_with : List DirPathBuf → Option (Rules w.patterns × List FilePath) → Built
    build_with checked none = none
    build_with checked (some added) =
        some (scan checked (fresh checked lookback offsets rules now added))

    abbrev pub build_checked : Option (List DirPathBuf) → Built
    build_checked none = none
    build_checked (some checked) = build_with checked (add_dirs (Rule.new w.patterns) [] checked)

    unfoldable pub new_file_system : List DirPathBuf → Built
    unfolding check_dirs add_dirs scan Rule.new
    new_file_system dirs = build_checked (check_dirs dirs)
