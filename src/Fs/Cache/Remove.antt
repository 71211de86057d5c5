-- ===== src/Fs/Cache/Remove.antt =====
-- common/fs/src/cache/mod.rs: forgetting a path, with its children and with what only a link led to.
use logdna_agent_v.Base.{
  ℕ, zero, suc, Bool, true, false, ◌&&◌, not, Option, none, some, List, [], ◌∷◌, ◌++◌, Result, ok,
  err, ◌==◌, if◌then◌else◌,
}
use logdna_agent_v.Shared.FilePath.{FilePath, same_path}
use logdna_agent_v.Shared.DirPath.{DirPathBuf}
use logdna_agent_v.Fs.Cache.Guarded.{as_option}
use logdna_agent_v.Fs.Cache.Symlinks.{swap_remove}
use logdna_agent_v.Fs.Cache.Data.{
  World, whole, Children, Entry, EntryKind, FileSystem, delete, Error, lookup, parent_not_valid,
  out_of_fuel, children, dependencies,
}
use logdna_agent_v.Fs.Cache.Effect.{
  M, ◌>>=◌, ◌>>◌, return, stop, ok_or, attempt, state, modify, push, get_entry, put_kind,
}
use logdna_agent_v.Fs.Cache.Passes.{lookup_path, lookup_parent, is_reachable, path_passes}
use logdna_agent_v.Fs.Cache.Register.{remove_child, change_children, unregister}

abbrev pub values : {Key : Type 0} → Children Key → List Key
values [] = []
values ((n, k) ∷ cs) = k ∷ values cs

-- `option.iter().count()`
abbrev pub iter_count {ℓ} : {A : Type ℓ} → Option A → ℕ
iter_count none = 0
iter_count (some a) = 1

abbrev pub is_initial_dir : List DirPathBuf → FilePath → Bool
is_initial_dir [] path = false
is_initial_dir (d ∷ ds) path =
    let rest = is_initial_dir ds path in if same_path d.inner path then true else rest

-- The paths of the walk that can be read and are no initial directories.
abbrev pub not_initial : {E : Type 0} → List DirPathBuf → List (Result E FilePath) → List FilePath
not_initial dirs [] = []
not_initial dirs (err e ∷ rest) = not_initial dirs rest
not_initial dirs (ok path ∷ rest) =
    let more = not_initial dirs rest in if is_initial_dir dirs path then more else path ∷ more

module _ (w : World) where
  abbrev pub drop_each : (w.Key → M w (Unit {0})) → List w.Key → M w (Unit {0})
  drop_each drop [] = return tt
  drop_each drop (k ∷ ks) = do drop k; drop_each drop ks

  abbrev pub keys_of : Option (List w.Key) → List w.Key
  keys_of none = []
  keys_of (some ks) = ks

  -- The keys of a path that is known not to be reachable.
  abbrev pub cut_off : Result (Error w) Bool → Option (List w.Key) → List w.Key
  cut_off (ok true) ks = []
  cut_off (ok false) ks = keys_of ks
  cut_off (err e) ks = []

  unfoldable pub unreachable_keys : List FilePath → M w (List w.Key)
  unfolding is_reachable
  unreachable_keys [] = return []
  unreachable_keys (path ∷ paths) = do
    reached ← attempt (is_reachable w w.fuel path)
    c ← state
    more ← unreachable_keys paths
    return (cut_off reached (c.watch_descriptors path) ++ more)

  abbrev pub paths_under : FileSystem w → Option FilePath → List FilePath
  paths_under c none = []
  paths_under c (some target) = not_initial c.initial_dirs (w.walk_dir target)

  abbrev pub forget_key : w.Key → M w (Unit {0})
  forget_key k = do unregister w k; push (delete k)

  -- A vector with the path of the link alone.
  abbrev pub mark : FilePath → M w (Unit {0})
  mark path = modify (λ c. record c { cuts = path ∷ [] })

  -- The link, and what only the link leads to.
  abbrev pub drop_link : (w.Key → M w (Unit {0})) → w.Key → Option FilePath → M w (Unit {0})
  drop_link drop k target = do
    c ← state
    forget_key k
    unreachable ← unreachable_keys (paths_under c target)
    drop_each drop unreachable

  -- The kinds of `drop_entry`, with the call of `drop_entry` for the others.
  unfoldable pub drop_kind :
      (w.Key → M w (Unit {0})) → w.Key → FilePath → EntryKind w.Key → M w (Unit {0})
  unfolding unregister unreachable_keys
  drop_kind drop k path (EntryKind.dir cs ds) = do forget_key k; drop_each drop (values cs)
  drop_kind drop k path (EntryKind.file f) = forget_key k
  drop_kind drop k path (EntryKind.symlink link) = do mark path; drop_link drop k (as_option link)

  abbrev pub without_dependency : FilePath → EntryKind w.Key → EntryKind w.Key
  unfolding swap_remove
  without_dependency path (EntryKind.dir cs ds) = elim (swap_remove path ds) [
    | none ↦ EntryKind.dir cs ds
    | some rest ↦ EntryKind.dir cs rest
  ]
  without_dependency path (EntryKind.file f) = EntryKind.file f
  without_dependency path (EntryKind.symlink link) = EntryKind.symlink link

  abbrev pub both_zero : ℕ → ℕ → Bool
  both_zero a b = a == 0 && b == 0

  -- `parent` is the directory of the target of a link.
  abbrev pub release_entry :
      (FilePath → M w (Unit {0}))
      → FilePath
      → FilePath
      → w.Key
      → Option (Entry w.Key)
      → M w (Unit {0})
  release_entry remove parent path k none = return tt
  release_entry remove parent path k (some e) = do
    put_kind k e (without_dependency path e.kind)
    passed ← path_passes w parent
    let clean_up = (do _ ← attempt (remove parent); return tt)
    if not passed && both_zero (iter_count (children w e.kind)) (iter_count (dependencies w e.kind))
        then clean_up
        else return tt

  abbrev pub release_found :
      (FilePath → M w (Unit {0})) → FilePath → FilePath → Option w.Key → M w (Unit {0})
  release_found remove parent path none = return tt
  release_found remove parent path (some k) = do
    found ← get_entry k
    release_entry remove parent path k found

  abbrev pub release : (FilePath → M w (Unit {0})) → FilePath → Option FilePath → M w (Unit {0})
  release remove path none = return tt
  release remove path (some []) = return tt
  release remove path (some (name ∷ parent)) = do
    k ← lookup_path w parent
    release_found remove parent path k

  -- The target of a link that is on, before the link is forgotten.
  abbrev pub link_target : EntryKind w.Key → Option FilePath
  link_target (EntryKind.symlink link) = as_option link
  link_target (EntryKind.dir cs ds) = none
  link_target (EntryKind.file f) = none

  unfoldable pub drop_found :
      (w.Key → M w (Unit {0}))
      → (FilePath → M w (Unit {0}))
      → w.Key
      → Option (Entry w.Key)
      → M w (Unit {0})
  unfolding drop_kind path_passes lookup_path as_option
  drop_found drop remove k none = return tt
  drop_found drop remove k (some e) = do
    drop_kind drop k e.path e.kind
    release remove e.path (link_target e.kind)

  -- Whether the parent is removed instead of the path.
  abbrev pub only_child : Bool → ℕ → ℕ → Bool
  only_child parent_passes child_count dep_count =
      not parent_passes && child_count == 1 && dep_count == 0

  -- The child is looked for under the whole path.
  abbrev pub leave_parent :
      (FilePath → M w (Unit {0}))
      → M w (Unit {0})
      → FilePath
      → w.Key
      → Option (Entry w.Key)
      → M w (Unit {0})
  leave_parent remove drop path parent none = drop
  leave_parent remove drop path parent (some e) = do
    parent_passes ← path_passes w e.path
    let leave = (do change_children w parent parent_not_valid (remove_child (whole path)); drop)
    if only_child parent_passes (iter_count (children w e.kind))
          (iter_count (dependencies w e.kind))
        then remove e.path
        else leave

  abbrev pub leave_found :
      (FilePath → M w (Unit {0})) → M w (Unit {0}) → FilePath → Option w.Key → M w (Unit {0})
  leave_found remove drop path none = drop
  leave_found remove drop path (some parent) = do
    found ← get_entry parent
    leave_parent remove drop path parent found

  unfoldable pub remove_with :
      (w.Key → M w (Unit {0})) → (FilePath → M w (Unit {0})) → FilePath → M w (Unit {0})
  unfolding path_passes change_children lookup_path
  remove_with drop remove path = do
    found ← lookup_path w path
    k ← ok_or lookup found
    parent ← lookup_parent w path
    leave_found remove (drop k) path parent

  unfoldable mutual
    unfolding drop_found remove_with

    pub drop_entry : ℕ → w.Key → M w (Unit {0})
    drop_entry zero k = stop out_of_fuel
    drop_entry (suc fuel) k = do
      found ← get_entry k
      drop_found (drop_entry fuel) (remove_path fuel) k found

    pub remove_path : ℕ → FilePath → M w (Unit {0})
    remove_path zero path = stop out_of_fuel
    remove_path (suc fuel) path = remove_with (drop_entry fuel) (remove_path fuel) path
