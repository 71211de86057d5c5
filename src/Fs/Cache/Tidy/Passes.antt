-- ===== src/Fs/Cache/Tidy/Passes.antt =====
-- Whether a path passes changes no entry and no descriptor.
use logdna_agent_v.Base.{
  ℕ, zero, suc, Bool, true, false, ◌||◌, Option, none, some, List, [], ◌∷◌, ok, if◌then◌else◌,
}
use logdna_agent_v.Shared.FilePath.{FilePath}
use logdna_agent_v.Fs.Cache.Guarded.{as_option}
use logdna_agent_v.Fs.Cache.Symlinks.{get}
use logdna_agent_v.Fs.Cache.Data.{World, Entry, EntryKind, lookup}
use logdna_agent_v.Fs.Cache.Effect.{M, after, ok_or}
use logdna_agent_v.Fs.Cache.Passes.{
  first_or_panic, lookup_path, lookup_parent, get_first_entry, is_symlink_target, passes_rules,
  is_initial_dir_target, holds_path, follow_link, follow, entered, is_near, any_reachable,
  by_symlinks, walk_up, is_reachable, search_up, or_false, path_passes, entry_passes,
  entry_path_passes,
}
use logdna_agent_v.Fs.Cache.Tidy.{KeepsFor, Keeps, return_keeps, bind, weaken, caught_keeps, quiet}
use logdna_agent_v.Fs.Cache.Tidy.Basic.{with_entry}

module _ (w : World) where
  first_or_panic-Keeps :
      {ks : List w.Key} (o : Option (List w.Key)) → KeepsFor w ks (first_or_panic w o)
  first_or_panic-Keeps none = return_keeps
  first_or_panic-Keeps (some []) = return_keeps
  first_or_panic-Keeps (some (k ∷ ks)) = return_keeps

  pub lookup_path-Keeps : {ks : List w.Key} (path : FilePath) → KeepsFor w ks (lookup_path w path)
  unfolding lookup_path
  lookup_path-Keeps path = record {
    run = λ c. (first_or_panic-Keeps (c.watch_descriptors path)).run c;
  }

  pub lookup_parent-Keeps :
      {ks : List w.Key} (path : FilePath) → KeepsFor w ks (lookup_parent w path)
  lookup_parent-Keeps [] = return_keeps
  lookup_parent-Keeps (name ∷ parent) = lookup_path-Keeps parent

  -- A test between two calls.
  pub if_keeps :
      {A : Type 0} {ks : List w.Key} {m n : M w A} (b : Bool)
      → KeepsFor w ks m
      → KeepsFor w ks n
      → KeepsFor w ks (if b then m else n)
  if_keeps true p q = p
  if_keeps false p q = q

  follow_link-Keeps : (target : FilePath) (o : Option FilePath) → Keeps w (follow_link w target o)
  follow_link-Keeps target none = return_keeps
  follow_link-Keeps target (some to) = record {
    run = λ c l t. record { tidy = t; grown = λ k h. h };
  }

  follow-Keeps : (target : FilePath) (kind : EntryKind w.Key) → Keeps w (follow w target kind)
  follow-Keeps target (EntryKind.file f) = return_keeps
  follow-Keeps target (EntryKind.dir cs ds) = return_keeps
  follow-Keeps target (EntryKind.symlink link) = follow_link-Keeps target (as_option link)

  entered-Keeps : (target : FilePath) (o : Option w.Key) → Keeps w (entered w target o)
  entered-Keeps target none = return_keeps
  entered-Keeps target (some k) =
      with_entry w k (λ found c. after (ok_or lookup found c) (λ entry. follow w target entry.kind))
        return_keeps λ e. weaken (follow-Keeps target e.kind)

  module _ (reach : FilePath → M w Bool) (each : (path : FilePath) → Keeps w (reach path)) where
    any_reachable-Keeps : (ss : List FilePath) (acc : Bool) → Keeps w (any_reachable w reach ss acc)
    any_reachable-Keeps [] acc = return_keeps
    any_reachable-Keeps (s ∷ ss) acc =
        bind (each s) (λ inner. any_reachable-Keeps ss (acc || inner))

    by_symlinks-Keeps : (o : Option (List FilePath)) → Keeps w (by_symlinks w reach o)
    by_symlinks-Keeps none = return_keeps
    by_symlinks-Keeps (some ss) = any_reachable-Keeps ss false

    walk_up-Keeps : (path : FilePath) (acc : Bool) → Keeps w (walk_up w reach path acc)
    unfolding walk_up
    walk_up-Keeps [] acc = return_keeps
    walk_up-Keeps (name ∷ parent) acc = record {
      run = λ c l t.
          (bind (by_symlinks-Keeps (get c.symlinks parent)) (λ found. record {
            run = λ c' l' t'.
                (if_keeps (holds_path c'.cuts parent) return_keeps (
                    if_keeps (passes_rules w c' parent || is_symlink_target w c' parent)
                      return_keeps (walk_up-Keeps parent found))).run
                  c' l' t';
          })).run
            c l t;
    }

  pub is_reachable-Keeps : (fuel : ℕ) (path : FilePath) → Keeps w (is_reachable w fuel path)
  unfolding is_reachable
  is_reachable-Keeps zero path = return_keeps
  is_reachable-Keeps (suc fuel) path = record {
    run = λ c l t.
        (bind (entered-Keeps path (get_first_entry w c path)) (λ start. record {
          run = λ c' l' t'.
              (if_keeps (is_near w c' start) return_keeps
                  (walk_up-Keeps (is_reachable w fuel) (is_reachable-Keeps fuel) start false)).run
                c' l' t';
        })).run
          c l t;
  }

  search_up-Keeps : (path : FilePath) → Keeps w (search_up w path)
  search_up-Keeps path = bind (quiet (λ c t. record { tidy = t; grown = λ k h. h })) λ _.
      bind (caught_keeps (is_reachable-Keeps w.fuel path))
        (λ r. return_keeps {r = ok (or_false w r)})

  pub path_passes-Keeps : {ks : List w.Key} (path : FilePath) → KeepsFor w ks (path_passes w path)
  unfolding path_passes
  path_passes-Keeps path = record {
    run = λ c.
        (if_keeps (is_initial_dir_target w c path) return_keeps (weaken (search_up-Keeps path))).run
          c;
  }

  entry_passes-Keeps :
      {ks : List w.Key} (o : Option (Entry w.Key)) → KeepsFor w ks (entry_passes w o)
  entry_passes-Keeps none = return_keeps
  entry_passes-Keeps (some e) = path_passes-Keeps e.path

  pub entry_path_passes-Keeps :
      {ks : List w.Key} (k : w.Key) → KeepsFor w ks (entry_path_passes w k)
  unfolding entry_path_passes
  entry_path_passes-Keeps k = record { run = λ c. (entry_passes-Keeps (w.get c.entries k)).run c }
