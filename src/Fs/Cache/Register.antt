-- ===== src/Fs/Cache/Register.antt =====
-- common/fs/src/cache/mod.rs: the descriptors, links and watches of an entry.
pub mod Stale
use logdna_agent_v.Base.{
  Bool, true, false, not, Option, none, some, List, [], ◌∷◌, ◌++◌, Result, ok, err, if◌then◌else◌,
}
use logdna_agent_v.Shared.FilePath.{FilePath, same_path, file_name}
use logdna_agent_v.Fs.Cache.Guarded.{GuardedOption, toggle_on, toggle_off, as_value, as_option}
use logdna_agent_v.Fs.Cache.Symlinks as Links
use logdna_agent_v.Fs.Cache.Symlinks.{write_at, or_default}
use logdna_agent_v.Fs.Cache.Data.{
  World, OsString, component, same_name, Children, Entry, EntryKind, FileSystem, Error, lookup,
  parent_lookup, parent_not_valid, path_not_valid, failed, panicked, children,
}
use logdna_agent_v.Fs.Cache.Effect.{
  M, ◌>>=◌, ◌>>◌, return, stop, fail, try_or, ok_or, state, modify, get_entry, put_kind,
  insert_entry,
}
use logdna_agent_v.Fs.Cache.Passes.{lookup_path, is_some}

-- `HashMap::insert` and `HashMap::remove` on the children.
abbrev pub insert_child : {Key : Type 0} → OsString → Key → Children Key → Children Key
insert_child name k [] = (name, k) ∷ []
insert_child name k ((n, old) ∷ cs) =
    let rest = insert_child name k cs in
    if same_name n name then (name, k) ∷ cs else (n, old) ∷ rest

abbrev pub remove_child : {Key : Type 0} → OsString → Children Key → Children Key
remove_child name [] = []
remove_child name ((n, k) ∷ cs) =
    let rest = remove_child name cs in if same_name n name then cs else (n, k) ∷ rest

-- `GuardedOption::toggle_on` or `toggle_off`.
abbrev pub switch : Bool → GuardedOption FilePath → GuardedOption FilePath
unfolding toggle_on toggle_off
switch on link = if on then toggle_on link else toggle_off link

module _ (w : World) where
  abbrev pub toggle_kind : Bool → w.Key → Entry w.Key → EntryKind w.Key → M w (Unit {0})
  toggle_kind on k e (EntryKind.symlink link) = put_kind k e (EntryKind.symlink (switch on link))
  toggle_kind on k e (EntryKind.file f) = stop panicked
  toggle_kind on k e (EntryKind.dir cs ds) = stop panicked

  abbrev pub toggle_found : Bool → w.Key → Option (Entry w.Key) → M w (Unit {0})
  toggle_found on k none = return tt
  toggle_found on k (some e) = toggle_kind on k e e.kind

  abbrev pub toggle_entry : Bool → Option w.Key → M w (Unit {0})
  toggle_entry on none = return tt
  toggle_entry on (some k) = do found ← get_entry k; toggle_found on k found

  -- The loop over the links that point to a path. An entry that is no link is a panic.
  unfoldable pub toggle_links : Bool → List FilePath → M w (Unit {0})
  unfolding lookup_path
  toggle_links on [] = return tt
  toggle_links on (s ∷ ss) = do k ← lookup_path w s; toggle_entry on k; toggle_links on ss

  abbrev pub links_of : Option (List FilePath) → List FilePath
  links_of none = []
  links_of (some ss) = ss

  abbrev pub watch_path : FilePath → M w (Unit {0})
  watch_path path = do
    try_or (λ e. Error.watch (some path) e) (w.watch path)
    modify (λ c. record c { watched = λ p. if same_path path p then true else c.watched p })

  -- Links are registered but not watched.
  abbrev pub watch_kind : FilePath → EntryKind w.Key → M w (Unit {0})
  watch_kind path (EntryKind.symlink link) =
      modify (λ c. record c { symlinks = Links.add c.symlinks path (as_value link) })
  watch_kind path (EntryKind.file f) = watch_path path
  watch_kind path (EntryKind.dir cs ds) = watch_path path

  abbrev pub push_descriptor : FilePath → w.Key → M w (Unit {0})
  push_descriptor path k = modify (λ c. record c {
    watch_descriptors =
        write_at path (some (or_default (c.watch_descriptors path) ++ k ∷ [])) c.watch_descriptors;
  })

  unfoldable pub register : w.Key → M w (Unit {0})
  unfolding toggle_links
  register k = do
    found ← get_entry k
    entry ← ok_or lookup found
    watch_kind entry.path entry.kind
    c ← state
    toggle_links true (links_of (Links.get c.symlinks entry.path))
    push_descriptor entry.path k

  -- `retain`, and what is left if anything is.
  abbrev pub without_key : w.Key → List w.Key → List w.Key
  without_key k [] = []
  without_key k (other ∷ ks) =
      let rest = without_key k ks in if w.same_key other k then rest else other ∷ rest

  -- `unwatch_if_exists`, whose errors are logged.
  abbrev pub unwatch_if_ok : Result w.WatchError (Unit {0}) → FilePath → M w (Unit {0})
  unwatch_if_ok (ok _) path =
      modify (λ c. record c { watched = λ p. if same_path path p then false else c.watched p })
  unwatch_if_ok (err e) path = return tt

  abbrev pub put_descriptors : FilePath → Option (List w.Key) → M w (Unit {0})
  put_descriptors path ks =
      modify (λ c. record c { watch_descriptors = write_at path ks c.watch_descriptors })

  abbrev pub keep_descriptors : FilePath → List w.Key → M w (Unit {0})
  keep_descriptors path [] = put_descriptors path none >> unwatch_if_ok (w.unwatch path) path
  keep_descriptors path (k ∷ ks) = put_descriptors path (some (k ∷ ks))

  abbrev pub unlink_target : FilePath → Option FilePath → M w (Unit {0})
  unlink_target path none = return tt
  unlink_target path (some target) =
      modify (λ c. record c { symlinks = Links.remove c.symlinks path target })

  abbrev pub unlink : FilePath → EntryKind w.Key → M w (Unit {0})
  unlink path (EntryKind.symlink link) = unlink_target path (as_option link)
  unlink path (EntryKind.file f) = return tt
  unlink path (EntryKind.dir cs ds) = return tt

  abbrev pub ack_deletion : FilePath → M w (Unit {0})
  ack_deletion path =
      modify
        (λ c. record c { acks = if w.takes_deletion_ack path then c.acks ++ path ∷ [] else c.acks })

  abbrev pub forget : w.Key → Entry w.Key → Option (List w.Key) → M w (Unit {0})
  forget k entry none = return tt
  forget k entry (some ks) = do
    keep_descriptors entry.path (without_key k ks)
    unlink entry.path entry.kind
    c ← state
    toggle_links false (links_of (Links.get c.symlinks entry.path))
    ack_deletion entry.path

  abbrev pub forget_found : w.Key → Option (Entry w.Key) → M w (Unit {0})
  forget_found k none = return tt
  forget_found k (some entry) = do c ← state; forget k entry (c.watch_descriptors entry.path)

  unfoldable pub unregister : w.Key → M w (Unit {0})
  unfolding toggle_links
  unregister k = do found ← get_entry k; forget_found k found

  abbrev pub with_children : Children w.Key → EntryKind w.Key → EntryKind w.Key
  with_children cs (EntryKind.dir old ds) = EntryKind.dir cs ds
  with_children cs (EntryKind.file f) = EntryKind.file f
  with_children cs (EntryKind.symlink link) = EntryKind.symlink link

  -- The children of the entry, which must be a directory, with a change.
  unfoldable pub change_children :
      w.Key → Error w → (Children w.Key → Children w.Key) → M w (Unit {0})
  change_children k missing change = do
    found ← get_entry k
    entry ← ok_or missing found
    cs ← ok_or parent_not_valid (children w entry.kind)
    put_kind k entry (with_children (change cs) entry.kind)

  abbrev pub adopt : OsString → w.Key → Option (List w.Key) → M w w.Key
  adopt name new_key none = return new_key
  adopt name new_key (some []) = fail parent_lookup
  adopt name new_key (some (parent ∷ ks)) = do
    change_children parent parent_lookup (insert_child name new_key)
    return new_key

  abbrev pub adopt_from : FilePath → w.Key → M w w.Key
  adopt_from [] new_key = return new_key
  adopt_from (name ∷ parent) new_key = do
    c ← state
    adopt (component name) new_key (c.watch_descriptors parent)

  unfoldable pub register_as_child : Entry w.Key → M w w.Key
  unfolding register change_children
  register_as_child new_entry = do
    name ← ok_or (path_not_valid new_entry.path) (file_name new_entry.path)
    new_key ← insert_entry new_entry
    register new_key
    adopt_from new_entry.path new_key
