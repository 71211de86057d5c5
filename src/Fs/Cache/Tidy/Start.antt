-- ===== src/Fs/Cache/Tidy/Start.antt =====
-- The cache that is built, and the stream of its events, keep the descriptors in order.
use logdna_agent_v.Base.{ℕ, ◌≡◌, subst, Option, none, some, List, [], ◌∷◌, Result, ok}
use logdna_agent_v.State.SpanVec.{SpanVec}
use logdna_agent_v.Shared.FilePath.{FilePath}
use logdna_agent_v.Shared.Rule.{Rules}
use logdna_agent_v.Shared.Rule as Rule
use logdna_agent_v.Shared.Lookback.{Lookback}
use logdna_agent_v.Shared.DirPath.{DirPathBuf}
use logdna_agent_v.Fs.Cache.Data.{World, Event, FileSystem, Stop}
use logdna_agent_v.Fs.Cache.Effect.{◌>>=◌, ◌>>◌, attempt, return, modify}
use logdna_agent_v.Fs.Cache.Insert.{insert}
use logdna_agent_v.Fs.Cache.Start.{
  exists, check_dirs, add_dirs, insert_upwards, found_paths, insert_each, scan_below, insert_dirs,
  initial_of, inodes_of, scan, Built, build_with, build_checked, new_file_system,
}
use logdna_agent_v.Fs.Cache.Stream.{CacheEvent, as_event_stream}
use logdna_agent_v.Fs.Cache.Tidy.{SlotLaws, Tidy, Keeps, return_keeps, bind, caught_keeps}
use logdna_agent_v.Fs.Cache.Tidy.Passes.{if_keeps}
use logdna_agent_v.Fs.Cache.Tidy.Insert.{insert-Keeps, unwrap-Keeps}
use logdna_agent_v.Fs.Cache.Tidy.Process.{process-Keeps}

module _ (w : World) where
  module _ (laws : SlotLaws w) where
    insert_here-Keeps : (path : FilePath) → Keeps w (do _ ← attempt (insert w path); return path)
    insert_here-Keeps path =
        bind (caught_keeps (insert-Keeps w laws path)) (λ _. return_keeps {r = ok path})

    insert_upwards-Keeps : (path : FilePath) → Keeps w (insert_upwards w path)
    unfolding insert_upwards
    insert_upwards-Keeps [] = return_keeps
    insert_upwards-Keeps (name ∷ parent) =
        if_keeps w (exists w (name ∷ parent)) (insert_here-Keeps (name ∷ parent))
          (insert_upwards-Keeps parent)

    insert_each-Keeps : (paths : List FilePath) → Keeps w (insert_each w paths)
    unfolding insert_each
    insert_each-Keeps [] = return_keeps
    insert_each-Keeps (path ∷ paths) =
        bind (caught_keeps (insert-Keeps w laws path)) (λ _. insert_each-Keeps paths)

    scan_below-Keeps : (dir found : FilePath) → Keeps w (scan_below w dir found)
    scan_below-Keeps dir [] = return_keeps
    scan_below-Keeps dir (name ∷ above) = record {
      run = λ c. (insert_each-Keeps (found_paths w c (w.walk_follow dir))).run c;
    }

    insert_dirs-Keeps : (ds : List DirPathBuf) → Keeps w (insert_dirs w ds)
    unfolding insert_dirs
    insert_dirs-Keeps [] = return_keeps
    insert_dirs-Keeps (d ∷ ds) =
        bind (insert_upwards-Keeps d.inner)
          λ found. bind (scan_below-Keeps d.inner found) (λ _. insert_dirs-Keeps ds)

    noted :
        (events : List (Event w)) (inodes : List ℕ)
        → Keeps w (do modify (λ c. record c { initial_events = events }); return inodes)
    noted events inodes = record { run = λ c l t. record { tidy = t; grown = λ k h. h } }

    scan-Keeps : (ds : List DirPathBuf) → Keeps w (scan w ds)
    unfolding scan
    scan-Keeps ds = bind (insert_dirs-Keeps ds) λ _. record {
      run = λ c.
          (bind {ks = []} (unwrap-Keeps w (initial_of w c.events))
              (λ events. noted events (inodes_of w (w.values c.entries)))).run
            c;
    }

    pub as_event_stream-Keeps : (e : CacheEvent w) → Keeps w (as_event_stream w e)
    unfolding as_event_stream
    as_event_stream-Keeps e =
        bind (caught_keeps (process-Keeps w laws e.event e.retry_offset)) (λ r. return_keeps)

    module _ (lookback : Lookback) (offsets : ℕ → Option SpanVec) (rules : Rules w.patterns)
        (now : ℕ) where
      abbrev FromScan : Built w → Type 0
      FromScan none = Unit
      FromScan (some (c, r)) = Tidy w c

      built_with :
          (checked : List DirPathBuf) (o : Option (Rules w.patterns × List FilePath))
          → FromScan (build_with w lookback offsets rules now checked o)
      built_with checked none = tt
      built_with checked (some (dir_rules, missing)) =
          ((scan-Keeps checked).run _ tt (λ p. tt)).tidy

      built_checked :
          (o : Option (List DirPathBuf)) → FromScan (build_checked w lookback offsets rules now o)
      built_checked none = tt
      built_checked (some checked) =
          built_with checked (add_dirs w (Rule.new w.patterns) [] checked)

      pub built-Tidy :
          (dirs : List DirPathBuf) (c : FileSystem w) (r : Result (Stop w) (List ℕ))
          → new_file_system w lookback offsets rules now dirs ≡ some (c, r)
          → Tidy w c
      unfolding new_file_system
      built-Tidy dirs c r h = subst FromScan h (built_checked (check_dirs w dirs))
