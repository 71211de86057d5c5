-- ===== src/Fs/Cache/Tidy/Register.antt =====
-- Registering and unregistering keep the descriptors in order.
use logdna_agent_v.Base.{
  Bool, true, false, Option, none, some, List, [], ◌∷◌, Result, ok, err, Bool-cases, inl, inr,
}
use logdna_agent_v.Shared.FilePath.{FilePath, file_name}
use logdna_agent_v.Fs.Cache.Guarded.{as_option}
use logdna_agent_v.Fs.Cache.Symlinks.{get}
use logdna_agent_v.Fs.Cache.Data.{
  World, OsString, component, Children, Entry, EntryKind, FileSystem, Error, lookup, parent_lookup,
  parent_not_valid, path_not_valid, children,
}
use logdna_agent_v.Fs.Cache.Effect.{◌>>=◌, ◌>>◌, after, ok_or, try_or, state, put_kind}
use logdna_agent_v.Fs.Cache.Register.{
  insert_child, toggle_kind, toggle_found, toggle_entry, toggle_links, links_of, watch_path,
  watch_kind, register, without_key, unwatch_if_ok, put_descriptors, keep_descriptors,
  unlink_target, unlink, forget, forget_found, unregister, with_children, change_children, adopt,
  adopt_from, register_as_child, push_descriptor,
}
use logdna_agent_v.Fs.Cache.Tidy.{
  SlotLaws, AllLive, InOrder, Tidy, After, KeepsFor, Keeps, same, return_keeps, bind, weaken, quiet,
}
use logdna_agent_v.Fs.Cache.Tidy.Basic.{
  push_descriptor-Keeps, write_at-Tidy, put_kind-Keeps, insert_entry-Keeps, with_entry,
}
use logdna_agent_v.Fs.Cache.Tidy.Passes.{lookup_path-Keeps}

module _ (w : World) where
  pub try_or_keeps :
      {A E : Type 0} {ks : List w.Key} (f : E → Error w) (r : Result E A)
      → KeepsFor w ks (try_or f r)
  try_or_keeps f (ok a) = return_keeps
  try_or_keeps f (err e) = return_keeps

  pub ok_or_keeps :
      {A : Type 0} {ks : List w.Key} (e : Error w) (o : Option A) → KeepsFor w ks (ok_or e o)
  ok_or_keeps e none = return_keeps
  ok_or_keeps e (some a) = return_keeps

  watch_path-Keeps : {ks : List w.Key} (path : FilePath) → KeepsFor w ks (watch_path w path)
  watch_path-Keeps path =
      bind (try_or_keeps _ (w.watch path)) λ _. quiet (λ c t. record { tidy = t; grown = λ k h. h })

  watch_kind-Keeps :
      {ks : List w.Key} (path : FilePath) (kind : EntryKind w.Key)
      → KeepsFor w ks (watch_kind w path kind)
  watch_kind-Keeps path (EntryKind.symlink link) =
      quiet (λ c t. record { tidy = t; grown = λ k h. h })
  watch_kind-Keeps path (EntryKind.file f) = watch_path-Keeps path
  watch_kind-Keeps path (EntryKind.dir cs ds) = watch_path-Keeps path

  unwatch-Keeps :
      {ks : List w.Key} (r : Result w.WatchError (Unit {0})) (path : FilePath)
      → KeepsFor w ks (unwatch_if_ok w r path)
  unwatch-Keeps (ok _) path = quiet (λ c t. record { tidy = t; grown = λ k h. h })
  unwatch-Keeps (err e) path = return_keeps

  put_descriptors-Keeps :
      {ks : List w.Key} (path : FilePath) → KeepsFor w ks (put_descriptors w path none)
  put_descriptors-Keeps path = record {
    run = λ c l t. record { tidy = write_at-Tidy w c path none tt t; grown = λ k h. h };
  }

  keep_descriptors-Keeps :
      (path : FilePath) (ks : List w.Key) → KeepsFor w ks (keep_descriptors w path ks)
  keep_descriptors-Keeps path [] =
      bind (put_descriptors-Keeps path) (λ _. unwatch-Keeps (w.unwatch path) path)
  keep_descriptors-Keeps path (k ∷ ks) = record {
    run = λ c l t. record { tidy = write_at-Tidy w c path (some (k ∷ ks)) l t; grown = λ k h. h };
  }

  unlink_target-Keeps :
      {ks : List w.Key} (path : FilePath) (o : Option FilePath)
      → KeepsFor w ks (unlink_target w path o)
  unlink_target-Keeps path none = return_keeps
  unlink_target-Keeps path (some target) = quiet (λ c t. record { tidy = t; grown = λ k h. h })

  unlink-Keeps :
      {ks : List w.Key} (path : FilePath) (kind : EntryKind w.Key)
      → KeepsFor w ks (unlink w path kind)
  unlink-Keeps path (EntryKind.symlink link) = unlink_target-Keeps path (as_option link)
  unlink-Keeps path (EntryKind.file f) = return_keeps
  unlink-Keeps path (EntryKind.dir cs ds) = return_keeps

  AllLive-without_key :
      (m : w.EntryMap) (k : w.Key) (ks : List w.Key)
      → AllLive w m ks
      → AllLive w m (without_key w k ks)
  AllLive-without_key m k [] l = tt
  AllLive-without_key m k (j ∷ ks) l = elim (Bool-cases (w.same_key j k)) [
    | inl e ↦ rw e (AllLive-without_key m k ks l.1)
    | inr e ↦ rw e (l.0, AllLive-without_key m k ks l.1)
  ]

  all_of : (m : w.EntryMap) (ks : List w.Key) → InOrder w m (some ks) → AllLive w m ks
  all_of m [] o = tt
  all_of m (k ∷ ks) o = o

  module _ (laws : SlotLaws w) where
    toggle_kind-Keeps :
        {ks : List w.Key} (on : Bool) (k : w.Key) (e : Entry w.Key) (kind : EntryKind w.Key)
        → KeepsFor w (k ∷ ks) (toggle_kind w on k e kind)
    toggle_kind-Keeps on k e (EntryKind.symlink link) = put_kind-Keeps w laws k e _
    toggle_kind-Keeps on k e (EntryKind.file f) = return_keeps
    toggle_kind-Keeps on k e (EntryKind.dir cs ds) = return_keeps

    toggle_entry-Keeps :
        {ks : List w.Key} (on : Bool) (o : Option w.Key) → KeepsFor w ks (toggle_entry w on o)
    toggle_entry-Keeps on none = return_keeps
    toggle_entry-Keeps on (some k) =
        with_entry w k (toggle_found w on k) return_keeps (λ e. toggle_kind-Keeps on k e e.kind)

    toggle_links-Keeps :
        {ks : List w.Key} (on : Bool) (ss : List FilePath) → KeepsFor w ks (toggle_links w on ss)
    unfolding toggle_links
    toggle_links-Keeps on [] = return_keeps
    toggle_links-Keeps on (s ∷ ss) =
        bind (lookup_path-Keeps w s)
          λ k. bind (toggle_entry-Keeps on k) (λ _. toggle_links-Keeps on ss)

    registered :
        (k : w.Key) (e : Entry w.Key)
        → KeepsFor w (k ∷ []) (do
          watch_kind w e.path e.kind
          c ← state
          toggle_links w true (links_of w (get c.symlinks e.path))
          push_descriptor w e.path k)
    registered k e = bind (watch_kind-Keeps e.path e.kind) (λ _. record {
      run = λ c.
          (bind (toggle_links-Keeps true (links_of w (get c.symlinks e.path)))
              λ _. push_descriptor-Keeps w e.path k).run
            c;
    })

    pub register-Keeps : {ks : List w.Key} (k : w.Key) → KeepsFor w ks (register w k)
    unfolding register
    register-Keeps k = weaken (
        with_entry w k
          (λ found c. after (ok_or lookup found c) (λ entry. do
            watch_kind w entry.path entry.kind
            c ← state
            toggle_links w true (links_of w (get c.symlinks entry.path))
            push_descriptor w entry.path k))
          return_keeps (registered k))

    forgotten :
        (c : FileSystem w) (k : w.Key) (e : Entry w.Key) (o : Option (List w.Key))
        → InOrder w c.entries o
        → Tidy w c
        → After w c (forget w k e o c).0
    forgotten c k e none i t = same c t
    forgotten c k e (some ks) i t =
        (bind (keep_descriptors-Keeps e.path (without_key w k ks)) λ _.
            bind (unlink-Keeps e.path e.kind) λ _. record {
              run = λ c.
                  (bind (toggle_links-Keeps false (links_of w (get c.symlinks e.path)))
                      λ _. quiet (λ c t. record { tidy = t; grown = λ k h. h })).run
                    c;
            }).run
          c (AllLive-without_key c.entries k ks (all_of c.entries ks i)) t

    forget_found-Keeps : (k : w.Key) (o : Option (Entry w.Key)) → Keeps w (forget_found w k o)
    forget_found-Keeps k none = return_keeps
    forget_found-Keeps k (some e) = record {
      run = λ c l t. forgotten c k e (c.watch_descriptors e.path) (t e.path) t;
    }

    pub unregister-Keeps : {ks : List w.Key} (k : w.Key) → KeepsFor w ks (unregister w k)
    unfolding unregister
    unregister-Keeps k =
        weaken (record { run = λ c. (forget_found-Keeps k (w.get c.entries k)).run c })

    pub change_children-Keeps :
        {ks : List w.Key} (k : w.Key) (missing : Error w) (change : Children w.Key → Children w.Key)
        → KeepsFor w ks (change_children w k missing change)
    unfolding change_children
    change_children-Keeps k missing change = weaken (
        with_entry w k
          (λ found c. after (ok_or missing found c) (λ entry. do
            cs ← ok_or parent_not_valid (children w entry.kind)
            put_kind k entry (with_children w (change cs) entry.kind)))
          return_keeps
          λ e.
            bind (ok_or_keeps parent_not_valid (children w e.kind))
              (λ cs. put_kind-Keeps w laws k e _))

    adopt-Keeps :
        {ks : List w.Key} (name : OsString) (k : w.Key) (o : Option (List w.Key))
        → KeepsFor w ks (adopt w name k o)
    adopt-Keeps name k none = return_keeps
    adopt-Keeps name k (some []) = return_keeps
    adopt-Keeps name k (some (parent ∷ ps)) =
        bind (change_children-Keeps parent parent_lookup (insert_child name k)) (λ _. return_keeps)

    adopt_from-Keeps :
        {ks : List w.Key} (path : FilePath) (k : w.Key) → KeepsFor w ks (adopt_from w path k)
    adopt_from-Keeps [] k = return_keeps
    adopt_from-Keeps (name ∷ parent) k = record {
      run = λ c. (adopt-Keeps (component name) k (c.watch_descriptors parent)).run c;
    }

    pub register_as_child-Keeps :
        {ks : List w.Key} (e : Entry w.Key) → KeepsFor w ks (register_as_child w e)
    unfolding register_as_child
    register_as_child-Keeps e =
        bind (ok_or_keeps (path_not_valid e.path) (file_name e.path)) λ name.
          bind (insert_entry-Keeps w laws e)
            λ k. bind (register-Keeps k) (λ _. adopt_from-Keeps e.path k)
