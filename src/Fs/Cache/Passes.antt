-- ===== src/Fs/Cache/Passes.antt =====
-- common/fs/src/cache/mod.rs: the descriptors of a path, and whether a path is to be tracked.
pub mod Unlinked
use logdna_agent_v.Base.{
  Bool, true, false, ◌&&◌, ◌||◌, not, Option, none, some, List, [], ◌∷◌, ◌++◌, Result, ok, err, suc,
  zero, ℕ, if◌then◌else◌,
}
use logdna_agent_v.Shared.FilePath.{FilePath, same_path}
use logdna_agent_v.Shared.Rule.{passes, is_ok}
use logdna_agent_v.Fs.Cache.Guarded.{GuardedOption, as_option}
use logdna_agent_v.Fs.Cache.Symlinks.{get}
use logdna_agent_v.Fs.Cache.Data.{
  World, Metadata, Entry, EntryKind, FileSystem, Error, lookup, failed, panicked, out_of_fuel,
}
use logdna_agent_v.Fs.Cache.Effect.{
  M, ◌>>=◌, ◌>>◌, return, stop, fail, ok_or, attempt, state, modify, get_entry,
}

-- The path is in the vector.
abbrev pub holds_path : List FilePath → FilePath → Bool
holds_path [] path = false
holds_path (cut ∷ cuts) path = let rest = holds_path cuts path in same_path cut path || rest

abbrev pub is_some {ℓ} : {A : Type ℓ} → Option A → Bool
is_some none = false
is_some (some a) = true

abbrev pub parent_path : FilePath → Option FilePath
parent_path [] = none
parent_path (name ∷ parent) = some parent

module _ (w : World) where
  -- `entries[0]` panics at an empty vector.
  abbrev pub first_or_panic : Option (List w.Key) → M w (Option w.Key)
  first_or_panic none = return none
  first_or_panic (some []) = stop panicked
  first_or_panic (some (k ∷ ks)) = return (some k)

  unfoldable pub lookup_path : FilePath → M w (Option w.Key)
  lookup_path path c = first_or_panic (c.watch_descriptors path) c

  abbrev pub lookup_parent : FilePath → M w (Option w.Key)
  lookup_parent [] = return none
  lookup_parent (name ∷ parent) = lookup_path parent

  abbrev pub first_of : Option (List w.Key) → Option w.Key
  first_of none = none
  first_of (some []) = none
  first_of (some (k ∷ ks)) = some k

  unfoldable pub get_first_entry : FileSystem w → FilePath → Option w.Key
  get_first_entry c wd = first_of (c.watch_descriptors wd)

  unfoldable pub is_symlink_target : FileSystem w → FilePath → Bool
  is_symlink_target c path = is_some (get c.symlinks path)

  unfoldable pub passes_rules : FileSystem w → FilePath → Bool
  passes_rules c path =
      is_ok (passes w.patterns c.initial_dir_rules path)
      && is_ok (passes w.patterns c.master_rules path)

  abbrev pub dir_or_false : Result w.IoError Metadata → Bool
  dir_or_false (ok m) = m.is_dir
  dir_or_false (err e) = false

  unfoldable pub is_initial_dir_target : FileSystem w → FilePath → Bool
  is_initial_dir_target c path =
      is_ok (passes w.patterns c.initial_dir_rules path)
      && (is_ok (passes w.patterns c.master_rules path) || dir_or_false (w.metadata path))

  -- A live link is followed once, and marked as followed.
  abbrev pub follow_link : FilePath → Option FilePath → M w FilePath
  follow_link target none = return target
  follow_link target (some to) =
      modify (λ c. record c { cuts = c.cuts ++ target ∷ [] }) >> return to

  abbrev pub follow : FilePath → EntryKind w.Key → M w FilePath
  follow target (EntryKind.file f) = return target
  follow target (EntryKind.dir cs ds) = return target
  follow target (EntryKind.symlink link) = follow_link target (as_option link)

  abbrev pub entered : FilePath → Option w.Key → M w FilePath
  entered target none = return target
  entered target (some k) = do
    found ← get_entry k
    entry ← ok_or lookup found
    follow target entry.kind

  abbrev pub is_near : FileSystem w → FilePath → Bool
  is_near c target =
      not (holds_path c.cuts target)
      && (is_initial_dir_target c target || is_symlink_target c target)

  -- `try_fold`, which ends at the first error.
  abbrev pub any_reachable : (FilePath → M w Bool) → List FilePath → Bool → M w Bool
  any_reachable reach [] acc = return acc
  any_reachable reach (s ∷ ss) acc = do inner ← reach s; any_reachable reach ss (acc || inner)

  abbrev pub by_symlinks : (FilePath → M w Bool) → Option (List FilePath) → M w Bool
  by_symlinks reach none = return false
  by_symlinks reach (some ss) = any_reachable reach ss false

  -- The walk up the parents.
  unfoldable pub walk_up : (FilePath → M w Bool) → FilePath → Bool → M w Bool
  walk_up reach [] path_to_root = return path_to_root
  walk_up reach (name ∷ parent) path_to_root = do
    c ← state
    found ← by_symlinks reach (get c.symlinks parent)
    c' ← state
    let above = walk_up reach parent found
    if holds_path c'.cuts parent
        then return false
        else if passes_rules c' parent || is_symlink_target c' parent
        then return true
        else above

  unfoldable pub is_reachable : ℕ → FilePath → M w Bool
  unfolding walk_up
  is_reachable zero target = stop out_of_fuel
  is_reachable (suc fuel) target = do
    c ← state
    start ← entered target (get_first_entry c target)
    c' ← state
    let up = walk_up (is_reachable fuel) start false
    if is_near c' start then return true else up

  abbrev pub or_false : Result (Error w) Bool → Bool
  or_false (ok b) = b
  or_false (err e) = false

  -- The search with no path marked, where an error counts as a failure.
  abbrev pub search_up : FilePath → M w Bool
  search_up path = do
    modify (λ c. record c { cuts = [] })
    reached ← attempt (is_reachable w.fuel path)
    return (or_false reached)

  unfoldable pub path_passes : FilePath → M w Bool
  unfolding is_reachable
  path_passes path = do
    c ← state
    let search = search_up path
    if is_initial_dir_target c path then return true else search

  abbrev pub entry_passes : Option (Entry w.Key) → M w Bool
  entry_passes none = return false
  entry_passes (some e) = path_passes e.path

  unfoldable pub entry_path_passes : w.Key → M w Bool
  unfolding path_passes
  entry_path_passes k = do found ← get_entry k; entry_passes found
