-- ===== src/Fs/Cache/Tidy/Remove.antt =====
-- Forgetting a path keeps the descriptors in order.
use logdna_agent_v.Base.{ℕ, zero, suc, ◌&&◌, ◌++◌, not, Option, none, some, List, [], ◌∷◌, ok}
use logdna_agent_v.Shared.FilePath.{FilePath}
use logdna_agent_v.Fs.Cache.Guarded.{as_option}
use logdna_agent_v.Fs.Cache.Data.{
  World, whole, Entry, EntryKind, delete, lookup, parent_not_valid, children, dependencies,
}
use logdna_agent_v.Fs.Cache.Effect.{M, ◌>>=◌, ◌>>◌, attempt, return}
use logdna_agent_v.Fs.Cache.Register.{remove_child, change_children}
use logdna_agent_v.Fs.Cache.Remove.{
  values, iter_count, drop_each, cut_off, unreachable_keys, paths_under, forget_key, mark,
  drop_link, drop_kind, both_zero, release_entry, release_found, release, link_target, drop_found,
  only_child, leave_parent, leave_found, remove_with, drop_entry, remove_path,
}
use logdna_agent_v.Fs.Cache.Tidy.{
  SlotLaws, KeepsFor, Keeps, return_keeps, bind, weaken, caught_keeps, quiet,
}
use logdna_agent_v.Fs.Cache.Tidy.Basic.{put_kind-Keeps, with_entry}
use logdna_agent_v.Fs.Cache.Tidy.Passes.{
  if_keeps, is_reachable-Keeps, path_passes-Keeps, lookup_path-Keeps, lookup_parent-Keeps,
}
use logdna_agent_v.Fs.Cache.Tidy.Register.{ok_or_keeps, unregister-Keeps, change_children-Keeps}
use logdna_agent_v.Fs.Cache.Tidy.Insert.{push-Keeps}

module _ (w : World) where
  unreachable_keys-Keeps : (paths : List FilePath) → Keeps w (unreachable_keys w paths)
  unfolding unreachable_keys
  unreachable_keys-Keeps [] = return_keeps
  unreachable_keys-Keeps (path ∷ paths) =
      bind (caught_keeps (is_reachable-Keeps w w.fuel path)) λ reached. record {
        run = λ c.
            (bind (unreachable_keys-Keeps paths) λ more.
                return_keeps {r = ok (cut_off w reached (c.watch_descriptors path) ++ more)}).run
              c;
      }

  mark-Keeps : (path : FilePath) → Keeps w (mark w path)
  mark-Keeps path = quiet (λ c t. record { tidy = t; grown = λ k h. h })

  module _ (laws : SlotLaws w) where
    forget_key-Keeps : (k : w.Key) → Keeps w (forget_key w k)
    forget_key-Keeps k = bind (unregister-Keeps w laws k) (λ _. push-Keeps w (delete k))

    module _ (drop : w.Key → M w (Unit {0})) (remove : FilePath → M w (Unit {0}))
        (drops : (k : w.Key) → Keeps w (drop k))
        (removes : (path : FilePath) → Keeps w (remove path)) where
      drop_each-Keeps : (ks : List w.Key) → Keeps w (drop_each w drop ks)
      drop_each-Keeps [] = return_keeps
      drop_each-Keeps (k ∷ ks) = bind (drops k) (λ _. drop_each-Keeps ks)

      drop_link-Keeps : (k : w.Key) (o : Option FilePath) → Keeps w (drop_link w drop k o)
      drop_link-Keeps k o = record {
        run = λ c.
            (bind (forget_key-Keeps k) λ _.
                bind (unreachable_keys-Keeps (paths_under w c o)) (λ ks. drop_each-Keeps ks)).run
              c;
      }

      drop_kind-Keeps :
          (k : w.Key) (path : FilePath) (kind : EntryKind w.Key)
          → Keeps w (drop_kind w drop k path kind)
      unfolding drop_kind
      drop_kind-Keeps k path (EntryKind.dir cs ds) =
          bind (forget_key-Keeps k) (λ _. drop_each-Keeps (values cs))
      drop_kind-Keeps k path (EntryKind.file f) = forget_key-Keeps k
      drop_kind-Keeps k path (EntryKind.symlink link) =
          bind {f = λ _. drop_link w drop k (as_option link)} (mark-Keeps path)
            (λ _. drop_link-Keeps k (as_option link))

      clean_up-Keeps : (parent : FilePath) → Keeps w (do _ ← attempt (remove parent); return tt)
      clean_up-Keeps parent = bind (caught_keeps (removes parent)) (λ _. return_keeps {r = ok tt})

      release_entry-Keeps :
          (parent path : FilePath) (k : w.Key) (e : Entry w.Key)
          → KeepsFor w (k ∷ []) (release_entry w remove parent path k (some e))
      release_entry-Keeps parent path k e = bind (put_kind-Keeps w laws k e _) λ _.
          bind (path_passes-Keeps w parent) λ passed.
            if_keeps w
              (not passed
                && both_zero w (iter_count (children w e.kind))
                    (iter_count (dependencies w e.kind)))
              (weaken (clean_up-Keeps parent)) (return_keeps {r = ok tt})

      release_found-Keeps :
          (parent path : FilePath) (o : Option w.Key)
          → Keeps w (release_found w remove parent path o)
      release_found-Keeps parent path none = return_keeps
      release_found-Keeps parent path (some k) =
          with_entry w k (release_entry w remove parent path k) return_keeps
            (release_entry-Keeps parent path k)

      release-Keeps : (path : FilePath) (o : Option FilePath) → Keeps w (release w remove path o)
      release-Keeps path none = return_keeps
      release-Keeps path (some []) = return_keeps
      release-Keeps path (some (name ∷ parent)) =
          bind (lookup_path-Keeps w parent) (λ k. release_found-Keeps parent path k)

      drop_found-Keeps :
          (k : w.Key) (o : Option (Entry w.Key)) → Keeps w (drop_found w drop remove k o)
      unfolding drop_found
      drop_found-Keeps k none = return_keeps
      drop_found-Keeps k (some e) =
          bind (drop_kind-Keeps k e.path e.kind) (λ _. release-Keeps e.path (link_target w e.kind))

      leave-Keeps :
          (path : FilePath) (k parent : w.Key)
          → Keeps w
              (do change_children w parent parent_not_valid (remove_child (whole path)); drop k)
      leave-Keeps path k parent =
          bind (change_children-Keeps w laws parent parent_not_valid (remove_child (whole path)))
            (λ _. drops k)

      leave_parent-Keeps :
          (path : FilePath) (k parent : w.Key) (o : Option (Entry w.Key))
          → Keeps w (leave_parent w remove (drop k) path parent o)
      leave_parent-Keeps path k parent none = drops k
      leave_parent-Keeps path k parent (some e) = bind (path_passes-Keeps w e.path) λ passed.
          if_keeps w
            (only_child w passed (iter_count (children w e.kind))
              (iter_count (dependencies w e.kind)))
            (removes e.path) (leave-Keeps path k parent)

      leave_found-Keeps :
          (path : FilePath) (k : w.Key) (o : Option w.Key)
          → Keeps w (leave_found w remove (drop k) path o)
      leave_found-Keeps path k none = drops k
      leave_found-Keeps path k (some parent) = record {
        run = λ c. (leave_parent-Keeps path k parent (w.get c.entries parent)).run c;
      }

      remove_with-Keeps : (path : FilePath) → Keeps w (remove_with w drop remove path)
      unfolding remove_with
      remove_with-Keeps path = bind (lookup_path-Keeps w path) λ found.
          bind (ok_or_keeps w lookup found)
            λ k. bind (lookup_parent-Keeps w path) (λ parent. leave_found-Keeps path k parent)

    mutual
      unfolding drop_entry remove_path

      pub drop_entry-Keeps : (fuel : ℕ) (k : w.Key) → Keeps w (drop_entry w fuel k)
      drop_entry-Keeps zero k = return_keeps
      drop_entry-Keeps (suc fuel) k = record {
        run = λ c.
            (drop_found-Keeps (drop_entry w fuel) (remove_path w fuel) (drop_entry-Keeps fuel)
                (remove_path-Keeps fuel) k (w.get c.entries k)).run
              c;
      }

      pub remove_path-Keeps : (fuel : ℕ) (path : FilePath) → Keeps w (remove_path w fuel path)
      remove_path-Keeps zero path = return_keeps
      remove_path-Keeps (suc fuel) path =
          remove_with-Keeps (drop_entry w fuel) (remove_path w fuel) (drop_entry-Keeps fuel)
            (remove_path-Keeps fuel) path
