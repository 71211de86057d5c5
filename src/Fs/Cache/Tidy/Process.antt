-- ===== src/Fs/Cache/Tidy/Process.antt =====
-- Every event keeps the descriptors in order.
use logdna_agent_v.Base.{
  Bool, true, false, Option, none, some, List, [], ◌∷◌, ◌++◌, Result, ok, err, if◌then◌else◌,
}
use logdna_agent_v.State.Span.{Span}
use logdna_agent_v.Shared.FilePath.{FilePath, file_name}
use logdna_agent_v.Fs.Debouncer.{WatchEvent, remove, create, write, rename, rescan, error}
use logdna_agent_v.Fs.Cache.Symlinks.{write_at}
use logdna_agent_v.Fs.Cache.Data.{
  World, OsString, component, Entry, FileSystem, Error, watch, watch_event, existing, lookup,
  parent_lookup, parent_not_valid, path_not_valid, directory_list_not_valid,
}
use logdna_agent_v.Fs.Cache.Effect.{M, ◌>>=◌, ◌>>◌, after, ok_or, state, modify, fail}
use logdna_agent_v.Fs.Cache.Passes.{get_first_entry}
use logdna_agent_v.Fs.Cache.Register.{insert_child, remove_child, push_descriptor}
use logdna_agent_v.Fs.Cache.Remove.{is_initial_dir, remove_path}
use logdna_agent_v.Fs.Cache.Process.{
  Events, clear, gather, collect, process_create, writes, process_modify, delete_entry,
  process_delete, leave_dir, enter_dir, move_to, rename_entry, process_rename, rename_case,
  source_passes, after_modify, handle, exit_or_fail, end_process, process,
}
use logdna_agent_v.Fs.Cache.Tidy.{
  SlotLaws, Tidy, After, KeepsFor, Keeps, return_keeps, bind, weaken, caught_keeps, quiet,
}
use logdna_agent_v.Fs.Cache.Tidy.Basic.{write_at-Tidy, set-After, push_descriptor-Keeps, with_entry}
use logdna_agent_v.Fs.Cache.Tidy.Passes.{
  if_keeps, path_passes-Keeps, entry_path_passes-Keeps, lookup_path-Keeps, lookup_parent-Keeps,
}
use logdna_agent_v.Fs.Cache.Tidy.Register.{ok_or_keeps, change_children-Keeps}
use logdna_agent_v.Fs.Cache.Tidy.Insert.{insert-Keeps}
use logdna_agent_v.Fs.Cache.Tidy.Remove.{remove_path-Keeps}

module _ (w : World) where
  clear-Keeps : Keeps w (clear w)
  clear-Keeps = quiet (λ c t. record { tidy = t; grown = λ k h. h })

  gather-Keeps : {A : Type 0} {m : M w A} → Keeps w m → Keeps w (gather w m)
  gather-Keeps p = bind p (λ _. record { run = λ c l t. record { tidy = t; grown = λ k h. h } })

  collect-Keeps : {A : Type 0} {m : M w A} → Keeps w m → Keeps w (collect w m)
  collect-Keeps {m} p = bind {f = λ _. gather w m} clear-Keeps (λ _. gather-Keeps p)

  writes-Keeps : (path : FilePath) (o : Option (List w.Key)) → Keeps w (writes w path o)
  writes-Keeps path none = return_keeps
  writes-Keeps path (some ks) = return_keeps

  process_modify-Keeps : (path : FilePath) → Keeps w (process_modify w path)
  unfolding process_modify
  process_modify-Keeps path = record {
    run = λ c. (writes-Keeps path (c.watch_descriptors path)).run c;
  }

  source_passes-Keeps : (o : Option w.Key) → Keeps w (source_passes w o)
  source_passes-Keeps none = return_keeps
  source_passes-Keeps (some k) = entry_path_passes-Keeps w k

  exit_or_fail-Keeps : (e : Error w) → Keeps w (exit_or_fail w e)
  exit_or_fail-Keeps (Error.file e) = if_keeps w (w.is_os_error_24 e) return_keeps return_keeps
  exit_or_fail-Keeps (watch p e) = return_keeps
  exit_or_fail-Keeps Error.rescan = return_keeps
  exit_or_fail-Keeps (watch_event p) = return_keeps
  exit_or_fail-Keeps existing = return_keeps
  exit_or_fail-Keeps lookup = return_keeps
  exit_or_fail-Keeps parent_lookup = return_keeps
  exit_or_fail-Keeps parent_not_valid = return_keeps
  exit_or_fail-Keeps (path_not_valid p) = return_keeps
  exit_or_fail-Keeps (directory_list_not_valid e p) = return_keeps

  end_process-Keeps : (r : Result (Error w) (Events w)) → Keeps w (end_process w r)
  end_process-Keeps (ok es) = return_keeps
  end_process-Keeps (err e) = exit_or_fail-Keeps e

  module _ (laws : SlotLaws w) where
    process_create-Keeps : (path : FilePath) → Keeps w (process_create w path)
    unfolding process_create
    process_create-Keeps path = collect-Keeps (insert-Keeps w laws path)

    found_delete :
        (e : Entry w.Key)
        → Keeps w (do
          c ← state
          let removal = remove_path w w.fuel e.path
          if is_initial_dir c.initial_dirs e.path then fail Error.rescan else removal)
    found_delete e = record {
      run = λ c.
          (if_keeps w (is_initial_dir c.initial_dirs e.path) return_keeps
              (remove_path-Keeps w laws w.fuel e.path)).run
            c;
    }

    delete_entry-Keeps : (o : Option w.Key) → Keeps w (delete_entry w o)
    delete_entry-Keeps none = return_keeps
    delete_entry-Keeps (some k) =
        with_entry w k
          (λ found c. after (ok_or lookup found c) (λ entry. do
            c ← state
            let removal = remove_path w w.fuel entry.path
            if is_initial_dir c.initial_dirs entry.path then fail Error.rescan else removal))
          return_keeps (λ e. weaken (found_delete e))

    process_delete-Keeps : (path : FilePath) → Keeps w (process_delete w path)
    unfolding process_delete
    process_delete-Keeps path =
        collect-Keeps {m = λ c. delete_entry w (get_first_entry w c path) c}
          (record { run = λ c. (delete_entry-Keeps (get_first_entry w c path)).run c })

    leave_dir-Keeps :
        {ks : List w.Key} (name : OsString) (o : Option w.Key) → KeepsFor w ks (leave_dir w name o)
    leave_dir-Keeps name none = return_keeps
    leave_dir-Keeps name (some parent) =
        change_children-Keeps w laws parent parent_lookup (remove_child name)

    enter_dir-Keeps :
        {ks : List w.Key} (name : OsString) (k : w.Key) (o : Option w.Key)
        → KeepsFor w ks (enter_dir w name k o)
    enter_dir-Keeps name k none = return_keeps
    enter_dir-Keeps name k (some parent) =
        change_children-Keeps w laws parent parent_lookup (insert_child name k)

    set_path :
        (to : FilePath) (k : w.Key) (e : Entry w.Key)
        → KeepsFor w
            (k ∷ [])
            (modify (λ c. record c { entries = w.set c.entries k (record e { path = to }) }))
    set_path to k e = record { run = λ c l t. set-After w laws c k _ l.0 t }

    unset :
        (to : FilePath) (k : w.Key)
        → KeepsFor w
            (k ∷ [])
            (modify (λ c. record c { watch_descriptors = write_at to none c.watch_descriptors }))
    unset to k = record {
      run = λ c l t. record { tidy = write_at-Tidy w c to none tt t; grown = λ j h. h };
    }

    moved :
        (to : FilePath) (k : w.Key) (e : Entry w.Key)
        → KeepsFor w (k ∷ []) (do
          modify (λ c. record c { entries = w.set c.entries k (record e { path = to }) })
          modify (λ c. record c { watch_descriptors = write_at to none c.watch_descriptors })
          push_descriptor w to k)
    moved to k e =
        bind (set_path to k e) (λ _. bind (unset to k) (λ _. push_descriptor-Keeps w to k))

    move_to-Keeps : (to : FilePath) (k : w.Key) → Keeps w (move_to w to k)
    move_to-Keeps to k =
        with_entry w k
          (λ found c. after (ok_or lookup found c) (λ entry. do
            modify (λ c. record c { entries = w.set c.entries k (record entry { path = to }) })
            modify (λ c. record c { watch_descriptors = write_at to none c.watch_descriptors })
            push_descriptor w to k))
          return_keeps (moved to k)

    rename_entry-Keeps :
        (from to : FilePath) (new_parent o : Option w.Key)
        → Keeps w (rename_entry w from to new_parent o)
    rename_entry-Keeps from to new_parent none = bind (insert-Keeps w laws to) (λ _. return_keeps)
    rename_entry-Keeps from to new_parent (some k) = record {
      run = λ c.
          (bind (ok_or_keeps w lookup (w.get c.entries k)) λ entry.
              bind (ok_or_keeps w (path_not_valid to) (file_name to)) λ new_name.
                bind (ok_or_keeps w (path_not_valid entry.path) (file_name entry.path)) λ old_name.
                  bind (lookup_parent-Keeps w from) λ old_parent.
                    bind (leave_dir-Keeps (component old_name) old_parent) λ _.
                      bind (move_to-Keeps to k)
                        (λ _. enter_dir-Keeps (component new_name) k new_parent)).run
            c;
    }

    process_rename-Keeps : (from to : FilePath) → Keeps w (process_rename w from to)
    unfolding process_rename
    process_rename-Keeps from to = collect-Keeps (
        bind (lookup_parent-Keeps w to) λ new_parent.
          bind (lookup_path-Keeps w from) (λ o. rename_entry-Keeps from to new_parent o))

    rename_case-Keeps :
        (to_ok from_ok : Bool) (from to : FilePath) → Keeps w (rename_case w to_ok from_ok from to)
    rename_case-Keeps true true from to = process_rename-Keeps from to
    rename_case-Keeps true false from to = process_create-Keeps to
    rename_case-Keeps false true from to = process_delete-Keeps from
    rename_case-Keeps false false from to = return_keeps

    after_modify-Keeps :
        (path : FilePath) (span : Option Span) (r : Result (Error w) (Events w))
        → Keeps w (after_modify w path span r)
    after_modify-Keeps path span (ok es) = return_keeps
    after_modify-Keeps path span (err (watch_event p)) = bind (process_create-Keeps path) λ created.
        bind (process_modify-Keeps path) (λ written. return_keeps {r = ok (created ++ written)})
    after_modify-Keeps path span (err (watch p e)) = return_keeps
    after_modify-Keeps path span (err Error.rescan) = return_keeps
    after_modify-Keeps path span (err existing) = return_keeps
    after_modify-Keeps path span (err lookup) = return_keeps
    after_modify-Keeps path span (err parent_lookup) = return_keeps
    after_modify-Keeps path span (err parent_not_valid) = return_keeps
    after_modify-Keeps path span (err (path_not_valid p)) = return_keeps
    after_modify-Keeps path span (err (directory_list_not_valid e p)) = return_keeps
    after_modify-Keeps path span (err (Error.file e)) = return_keeps

    handle-Keeps :
        (event : WatchEvent FilePath w.WatchError) (span : Option Span)
        → Keeps w (handle w event span)
    unfolding handle
    handle-Keeps (create path) span = process_create-Keeps path
    handle-Keeps (write path) span =
        bind (caught_keeps (process_modify-Keeps path)) (λ r. after_modify-Keeps path span r)
    handle-Keeps (remove path) span = process_delete-Keeps path
    handle-Keeps (rename from to) span = record {
      run = λ c.
          (bind (source_passes-Keeps (get_first_entry w c from)) λ from_ok.
              bind (path_passes-Keeps w to) (λ to_ok. rename_case-Keeps to_ok from_ok from to)).run
            c;
    }
    handle-Keeps (error e path) span = return_keeps
    handle-Keeps rescan span = return_keeps

    pub process-Keeps :
        (event : WatchEvent FilePath w.WatchError) (span : Option Span)
        → Keeps w (process w event span)
    unfolding process
    process-Keeps event span =
        bind (caught_keeps (handle-Keeps event span)) (λ r. end_process-Keeps r)

-- Whatever the event and however its handling ends: if every path that has descriptors has at least
-- one, and all lead to entries, then this holds again, and no entry went away.
pub process-Tidy :
    (w : World) (laws : SlotLaws w) (event : WatchEvent FilePath w.WatchError) (span : Option Span)
    (c : FileSystem w)
    → Tidy w c
    → After w c (process w event span c).0
process-Tidy w laws event span c t = (process-Keeps w laws event span).run c tt t
