-- ===== src/Fs/Cache/Tidy/Insert.antt =====
-- Insertion keeps the descriptors in order.
use logdna_agent_v.Base.{
  ℕ, zero, suc, Bool, true, false, Option, none, some, List, [], ◌∷◌, Result, ok, err,
}
use logdna_agent_v.State.SpanVec.{SpanVec}
use logdna_agent_v.Shared.FilePath.{FilePath}
use logdna_agent_v.Fs.Cache.Data.{
  World, EntryKind, FsEntry, Event, new, Error, watch, rescan, watch_event, existing, lookup,
  parent_lookup, parent_not_valid, path_not_valid, directory_list_not_valid, try_from, tail_file,
}
use logdna_agent_v.Fs.Cache.Effect.{◌>>=◌, ◌>>◌, push}
use logdna_agent_v.Fs.Cache.Passes.{is_some}
use logdna_agent_v.Fs.Cache.Offsets.{get_initial_offset}
use logdna_agent_v.Fs.Cache.Insert.{
  Tracked, unwrap_or_panic, ignore, insert_with, note_inode, insert_tailed, insert_file,
  exit_at_limit, insert_all, insert_dir, register_dir, track_parent, insert_kind, insert_target,
  insert_symlink, insert_found, insert_helper, insert,
}
use logdna_agent_v.Fs.Cache.Register.{register_as_child}
use logdna_agent_v.Fs.Cache.Tidy.{
  SlotLaws, KeepsFor, Keeps, return_keeps, bind, weaken, caught_keeps, quiet,
}
use logdna_agent_v.Fs.Cache.Tidy.Basic.{insert_entry-Keeps}
use logdna_agent_v.Fs.Cache.Tidy.Passes.{if_keeps, path_passes-Keeps}
use logdna_agent_v.Fs.Cache.Tidy.Register.{try_or_keeps, register-Keeps, register_as_child-Keeps}

module _ (w : World) where
  pub push-Keeps : {ks : List w.Key} (e : Event w) → KeepsFor w ks (push e)
  push-Keeps e = quiet (λ c t. record { tidy = t; grown = λ k h. h })

  pub unwrap-Keeps :
      {A : Type 0} {ks : List w.Key} (o : Option A) → KeepsFor w ks (unwrap_or_panic w o)
  unwrap-Keeps none = return_keeps
  unwrap-Keeps (some a) = return_keeps

  ignore-Keeps : {ks : List w.Key} (path : FilePath) → KeepsFor w ks (ignore w path)
  ignore-Keeps path = quiet (λ c t. record { tidy = t; grown = λ k h. h })

  exit_at_limit-Keeps : (r : Result (Error w) (Option w.Key)) → Keeps w (exit_at_limit w r)
  exit_at_limit-Keeps (ok k) = return_keeps
  exit_at_limit-Keeps (err (Error.file e)) =
      if_keeps w (w.is_os_error_24 e) return_keeps return_keeps
  exit_at_limit-Keeps (err (watch p e)) = return_keeps
  exit_at_limit-Keeps (err rescan) = return_keeps
  exit_at_limit-Keeps (err (watch_event p)) = return_keeps
  exit_at_limit-Keeps (err existing) = return_keeps
  exit_at_limit-Keeps (err lookup) = return_keeps
  exit_at_limit-Keeps (err parent_lookup) = return_keeps
  exit_at_limit-Keeps (err parent_not_valid) = return_keeps
  exit_at_limit-Keeps (err (path_not_valid p)) = return_keeps
  exit_at_limit-Keeps (err (directory_list_not_valid e p)) = return_keeps

  insert_with-Keeps :
      (helper : FilePath → Tracked w)
      → ((path : FilePath) → Keeps w (helper path))
      → (path : FilePath) → Keeps w (insert_with w helper path)
  unfolding insert_with
  insert_with-Keeps helper h path = bind (path_passes-Keeps w path) λ passed.
      if_keeps w passed (h path) (bind (ignore-Keeps path) λ _. return_keeps {r = ok none})

  insert_all-Keeps :
      (helper : FilePath → Tracked w)
      → ((path : FilePath) → Keeps w (helper path))
      → (rs : List (Result w.IoError FilePath)) → Keeps w (insert_all w helper rs)
  unfolding insert_all
  insert_all-Keeps helper h [] = return_keeps
  insert_all-Keeps helper h (err e ∷ rest) = insert_all-Keeps helper h rest
  insert_all-Keeps helper h (ok path ∷ rest) =
      bind (caught_keeps (h path))
        λ r. bind (exit_at_limit-Keeps r) (λ _. insert_all-Keeps helper h rest)

  insert_kind-Keeps :
      (helper : FilePath → Tracked w)
      → ((path : FilePath) → Keeps w (helper path))
      → (target : FilePath) (kind : FsEntry) → Keeps w (insert_kind w helper target kind)
  insert_kind-Keeps helper h target (FsEntry.other path) = return_keeps
  insert_kind-Keeps helper h target (FsEntry.file path inode) =
      bind (caught_keeps (h target)) (λ _. return_keeps)
  insert_kind-Keeps helper h target (FsEntry.dir path) =
      bind (caught_keeps (h target)) (λ _. return_keeps)
  insert_kind-Keeps helper h target (FsEntry.symlink path to) =
      bind (caught_keeps (h target)) (λ _. return_keeps)

  module _ (laws : SlotLaws w) where
    tracked_as :
        (path : FilePath) (kind : EntryKind w.Key) {m : w.Key → Tracked w}
        → ((k : w.Key) → Keeps w (m k))
        → Keeps w
            (do k ← register_as_child w (record { path = path; kind = kind }); push (new k); m k)
    tracked_as path kind p =
        bind (register_as_child-Keeps w laws _) λ k. bind (push-Keeps (new k)) (λ _. p k)

    insert_tailed-Keeps : (path : FilePath) (o : Option SpanVec) → Keeps w (insert_tailed w path o)
    insert_tailed-Keeps path o = bind (unwrap-Keeps o) λ offsets.
        bind (try_or_keeps w (λ e. Error.file e) (tail_file w path offsets))
          λ tailed. tracked_as path (EntryKind.file tailed) (λ k. return_keeps {r = ok (some k)})

    note_inode-Keeps : (path : FilePath) (inode : ℕ) → Keeps w (note_inode w path inode)
    note_inode-Keeps path inode = quiet (λ c t. record { tidy = t; grown = λ k h. h })

    insert_file-Keeps : (path : FilePath) (inode : ℕ) → Keeps w (insert_file w path inode)
    unfolding insert_file
    insert_file-Keeps path inode =
        bind {f = λ _ c. insert_tailed w path (get_initial_offset w c path inode) c}
          (note_inode-Keeps path inode)
          λ _. record {
            run = λ c. (insert_tailed-Keeps path (get_initial_offset w c path inode)).run c;
          }

    insert_dir-Keeps :
        (helper : FilePath → Tracked w)
        → ((path : FilePath) → Keeps w (helper path))
        → (path : FilePath) → Keeps w (insert_dir w helper path)
    unfolding insert_dir
    insert_dir-Keeps helper h path =
        bind (try_or_keeps w (λ e. directory_list_not_valid e path) (w.read_dir path)) λ contents.
          tracked_as path (EntryKind.dir [] [])
            λ k. bind (insert_all-Keeps helper h contents) (λ _. return_keeps {r = ok (some k)})

    register_dir-Keeps : (b : Bool) (path : FilePath) → Keeps w (register_dir w b path)
    register_dir-Keeps true path = return_keeps
    register_dir-Keeps false path =
        bind (insert_entry-Keeps w laws _) (λ k. register-Keeps w laws k)

    track_parent-Keeps : (path : FilePath) → Keeps w (track_parent w path)
    unfolding track_parent
    track_parent-Keeps [] = return_keeps
    track_parent-Keeps (name ∷ parent) = record {
      run = λ c. (register_dir-Keeps (is_some (c.watch_descriptors parent)) parent).run c;
    }

    insert_target-Keeps :
        (helper : FilePath → Tracked w)
        → ((path : FilePath) → Keeps w (helper path))
        → (target : Option FilePath) → Keeps w (insert_target w helper target)
    unfolding insert_target
    insert_target-Keeps helper h none = return_keeps
    insert_target-Keeps helper h (some target) = bind (track_parent-Keeps target) λ _.
        bind (try_or_keeps w (λ e. Error.file e) (try_from w target))
          (λ kind. insert_kind-Keeps helper h target kind)

    insert_symlink-Keeps :
        (helper : FilePath → Tracked w)
        → ((path : FilePath) → Keeps w (helper path))
        → (path : FilePath) (target : Option FilePath)
        → Keeps w (insert_symlink w helper path target)
    unfolding insert_symlink
    insert_symlink-Keeps helper h path target =
        bind (try_or_keeps w (λ e. Error.file e) (w.read_link path)) λ real.
          bind (track_parent-Keeps path) λ _.
            tracked_as path (EntryKind.symlink (record { value = real; state = is_some target }))
              λ k. bind (insert_target-Keeps helper h target) (λ _. return_keeps {r = ok (some k)})

    insert_found-Keeps :
        (inner helper : FilePath → Tracked w)
        → ((path : FilePath) → Keeps w (inner path))
        → ((path : FilePath) → Keeps w (helper path))
        → (r : Result w.IoError FsEntry) → Keeps w (insert_found w inner helper r)
    unfolding insert_found
    insert_found-Keeps inner helper i h (ok (FsEntry.file path inode)) =
        insert_file-Keeps path inode
    insert_found-Keeps inner helper i h (ok (FsEntry.dir path)) = insert_dir-Keeps inner i path
    insert_found-Keeps inner helper i h (ok (FsEntry.symlink path target)) =
        insert_symlink-Keeps helper h path target
    insert_found-Keeps inner helper i h (ok (FsEntry.other path)) = return_keeps
    insert_found-Keeps inner helper i h (err e) = return_keeps

    insert_helper-Keeps : (fuel : ℕ) (path : FilePath) → Keeps w (insert_helper w fuel path)
    unfolding insert_helper
    insert_helper-Keeps zero path = return_keeps
    insert_helper-Keeps (suc fuel) path =
        let helper = insert_helper-Keeps fuel in
        let inner = insert_with-Keeps (insert_helper w fuel) helper in
        record {
          run = λ c.
              (if_keeps w (is_some (c.watch_descriptors path)) return_keeps
                  (insert_found-Keeps _ (insert_helper w fuel) inner helper (try_from w path))).run
                c;
        }

    pub insert-Keeps : {ks : List w.Key} (path : FilePath) → KeepsFor w ks (insert w path)
    unfolding insert
    insert-Keeps path =
        weaken (insert_with-Keeps (insert_helper w w.fuel) (insert_helper-Keeps w.fuel) path)
