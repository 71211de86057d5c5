-- ===== src/Fs/Cache/Insert.antt =====
-- common/fs/src/cache/mod.rs: tracking a path, with the children of a directory and the target of a
-- link.
use logdna_agent_v.Base.{
  ℕ, zero, suc, Bool, true, false, Option, none, some, List, [], ◌∷◌, Result, ok, err, ◌==◌,
  if◌then◌else◌,
}
use logdna_agent_v.State.SpanVec.{SpanVec}
use logdna_agent_v.Shared.FilePath.{FilePath, same_path}
use logdna_agent_v.Fs.Cache.Data.{
  World, EntryKind, FsEntry, new, Error, directory_list_not_valid, panicked, exited, out_of_fuel,
  try_from, tail_file,
}
use logdna_agent_v.Fs.Cache.Effect.{
  M, ◌>>=◌, ◌>>◌, return, stop, try_or, attempt, state, modify, push, insert_entry,
}
use logdna_agent_v.Fs.Cache.Passes.{is_some, path_passes}
use logdna_agent_v.Fs.Cache.Offsets.{get_initial_offset}
use logdna_agent_v.Fs.Cache.Register.{register, register_as_child}

module _ (w : World) where
  abbrev pub Tracked : Type 0
  Tracked = M w (Option w.Key)

  abbrev pub unwrap_or_panic : {A : Type 0} → Option A → M w A
  unwrap_or_panic none = stop panicked
  unwrap_or_panic (some a) = return a

  abbrev pub ignore : FilePath → M w (Unit {0})
  ignore path =
      modify
        (λ c. record c { ignored_dirs = λ p. if same_path path p then true else c.ignored_dirs p })

  -- `insert`, with the call of `insert_helper`.
  unfoldable pub insert_with : (FilePath → Tracked) → FilePath → Tracked
  unfolding path_passes
  insert_with helper path = do
    passed ← path_passes w path
    let ignored = (do ignore path; return none)
    if passed then helper path else ignored

  abbrev pub note_inode : FilePath → ℕ → M w (Unit {0})
  note_inode path inode =
      modify
        (λ c. record c { wd_by_inode = λ i. if i == inode then some path else c.wd_by_inode i })

  -- The entry of a file that is read from these offsets on.
  abbrev pub insert_tailed : FilePath → Option SpanVec → Tracked
  insert_tailed path initial = do
    offsets ← unwrap_or_panic initial
    tailed ← try_or (λ e. Error.file e) (tail_file w path offsets)
    new_key ← register_as_child w (record { path = path; kind = EntryKind.file tailed })
    push (new new_key)
    return (some new_key)

  unfoldable pub insert_file : FilePath → ℕ → Tracked
  unfolding get_initial_offset tail_file register_as_child
  insert_file path inode = do
    note_inode path inode
    c ← state
    insert_tailed path (get_initial_offset w c path inode)

  -- The exit at too many open files; other errors of a child are logged.
  abbrev pub exit_at_limit : Result (Error w) (Option w.Key) → M w (Unit {0})
  exit_at_limit (ok k) = return tt
  exit_at_limit (err (Error.file e)) = if w.is_os_error_24 e then stop exited else return tt
  exit_at_limit (err other) = return tt

  -- The loop over the contents of a directory, without those that cannot be read.
  unfoldable pub insert_all :
      (FilePath → Tracked) → List (Result w.IoError FilePath) → M w (Unit {0})
  insert_all insert [] = return tt
  insert_all insert (err e ∷ rest) = insert_all insert rest
  insert_all insert (ok path ∷ rest) = do
    result ← attempt (insert path)
    exit_at_limit result
    insert_all insert rest

  unfoldable pub insert_dir : (FilePath → Tracked) → FilePath → Tracked
  unfolding register_as_child insert_all
  insert_dir insert path = do
    contents ← try_or (λ e. directory_list_not_valid e path) (w.read_dir path)
    new_key ← register_as_child w (record { path = path; kind = EntryKind.dir [] [] })
    push (new new_key)
    insert_all insert contents
    return (some new_key)

  abbrev pub register_dir : Bool → FilePath → M w (Unit {0})
  register_dir true path = return tt
  register_dir false path = do
    new_key ← insert_entry (record { path = path; kind = EntryKind.dir [] [] })
    register w new_key

  -- The directory of a path is registered if it is not yet tracked.
  unfoldable pub track_parent : FilePath → M w (Unit {0})
  unfolding register
  track_parent [] = return tt
  track_parent (name ∷ parent) = do
    c ← state
    register_dir (is_some (c.watch_descriptors parent)) parent

  -- The result of the insertion of a target is only logged.
  abbrev pub insert_kind : (FilePath → Tracked) → FilePath → FsEntry → M w (Unit {0})
  insert_kind helper target (FsEntry.other path) = return tt
  insert_kind helper target (FsEntry.file path inode) = do _ ← attempt (helper target); return tt
  insert_kind helper target (FsEntry.dir path) = do _ ← attempt (helper target); return tt
  insert_kind helper target (FsEntry.symlink path to) = do _ ← attempt (helper target); return tt

  unfoldable pub insert_target : (FilePath → Tracked) → Option FilePath → M w (Unit {0})
  unfolding track_parent try_from
  insert_target helper none = return tt
  insert_target helper (some target) = do
    track_parent target
    kind ← try_or (λ e. Error.file e) (try_from w target)
    insert_kind helper target kind

  unfoldable pub insert_symlink : (FilePath → Tracked) → FilePath → Option FilePath → Tracked
  unfolding track_parent register_as_child insert_target
  insert_symlink helper path target = do
    real_target ← try_or (λ e. Error.file e) (w.read_link path)
    track_parent path
    new_key ← register_as_child w (record {
      path = path;
      kind = EntryKind.symlink (record { value = real_target; state = is_some target });
    })
    push (new new_key)
    insert_target helper target
    return (some new_key)

  -- The match on the kind of the path.
  unfoldable pub insert_found :
      (FilePath → Tracked) → (FilePath → Tracked) → Result w.IoError FsEntry → Tracked
  unfolding insert_file insert_dir insert_symlink
  insert_found insert helper (ok (FsEntry.file path inode)) = insert_file path inode
  insert_found insert helper (ok (FsEntry.dir path)) = insert_dir insert path
  insert_found insert helper (ok (FsEntry.symlink path target)) = insert_symlink helper path target
  insert_found insert helper (ok (FsEntry.other path)) = return none
  insert_found insert helper (err e) = return none

  unfoldable pub insert_helper : ℕ → FilePath → Tracked
  unfolding insert_with insert_found try_from
  insert_helper zero path = stop out_of_fuel
  insert_helper (suc fuel) path = do
    c ← state
    let found =
        insert_found (insert_with (insert_helper fuel)) (insert_helper fuel) (try_from w path)
    if is_some (c.watch_descriptors path) then return none else found

  unfoldable pub insert : FilePath → Tracked
  unfolding insert_with insert_helper
  insert path = insert_with (insert_helper w.fuel) path
