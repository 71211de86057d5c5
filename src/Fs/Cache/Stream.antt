-- ===== src/Fs/Cache/Stream.antt =====
-- common/fs/src/cache/mod.rs: the streams of events around the cache. Timestamps are numbers that are
-- only passed on. Waiting, and the order in which the streams are polled, are left out.
pub mod Retries
use logdna_agent_v.Base.{
  ℕ, ◌+◌, Bool, true, false, not, ◌||◌, Option, none, some, List, [], ◌∷◌, map, Result, ok, err,
  leb, if◌then◌else◌,
}
use logdna_agent_v.State.Span.{Span}
use logdna_agent_v.Shared.FilePath.{FilePath, same_path}
use logdna_agent_v.Fs.Debouncer.{WatchEvent, create, write, rescan}
use logdna_agent_v.Fs.Cache.Data.{World, FileSystem, Event, Error, file, directory_list_not_valid}
use logdna_agent_v.Fs.Cache.Effect.{M, ◌>>=◌, ◌>>◌, return, attempt, state, modify}
use logdna_agent_v.Fs.Cache.Passes.{holds_path}
use logdna_agent_v.Fs.Cache.Process.{Events, process}
use logdna_agent_v.Fs.Cache.Start.{exists}

abbrev pub event_retry_count : ℕ
event_retry_count = 5

-- The path is the directory or one above it.
abbrev pub starts_with : FilePath → FilePath → Bool
starts_with [] path = same_path [] path
starts_with (name ∷ parent) path =
    let above = starts_with parent path in same_path (name ∷ parent) path || above

abbrev pub any_starts_with : List FilePath → FilePath → Bool
any_starts_with [] path = false
any_starts_with (m ∷ ms) path = let rest = any_starts_with ms path in starts_with m path || rest

module _ (w : World) where
  pub record CacheEvent : Type 0 where
    pub event : WatchEvent FilePath w.WatchError
    pub event_time : ℕ
    pub retries : ℕ
    pub retry_offset : Option Span

  abbrev pub Item : Type 0
  Item = Result (Error w) (Event w)

  abbrev pub items_of : Result (Error w) (Events w) → List Item
  items_of (ok es) = map (λ e. ok e) es
  items_of (err e) = err e ∷ []

  unfoldable pub as_event_stream : CacheEvent → M w (List (Item × ℕ))
  unfolding process
  as_event_stream e = do
    result ← attempt (process w e.event e.retry_offset)
    return (map (λ item. (item, e.event_time)) (items_of result))

  -- `mem::take`
  unfoldable pub get_initial_events : ℕ → M w (List (Item × ℕ))
  get_initial_events now = do
    c ← state
    modify (λ c. record c { initial_events = [] })
    return (map (λ e. (ok e, now)) c.initial_events)

  unfoldable pub resume_event : FileSystem w → ℕ → Option (WatchEvent FilePath w.WatchError)
  resume_event c inode = elim (c.wd_by_inode inode) [ none ↦ none | some wd ↦ some (write wd) ]

  -- The filter behind the delay.
  unfoldable pub retry_filter : ℕ → CacheEvent → Option CacheEvent
  retry_filter retry_limit e =
      if leb e.retries retry_limit then some (record e { retries = e.retries + 1 }) else none

  abbrev pub again : CacheEvent → CacheEvent
  again e = record e { retry_offset = none }

  -- What is passed on, and what is sent to be retried.
  unfoldable pub keep_or_retry : CacheEvent → Item → Option Item × Option CacheEvent
  keep_or_retry e (ok event) = (some (ok event), none)
  keep_or_retry e (err Error.rescan) = (some (err Error.rescan), none)
  keep_or_retry e (err (file io)) = (none, if w.is_not_found io then none else some (again e))
  keep_or_retry e (err (directory_list_not_valid io path)) =
      (none, if w.is_not_found io then none else some (again e))
  keep_or_retry e (err other) = (none, none)

  -- The loop over the missing directories. `none` is the panic of the watcher.
  abbrev pub look_for :
      FilePath → List FilePath → Option (Option (WatchEvent FilePath w.WatchError))
  look_for path [] = some none
  look_for path (dir ∷ dirs) =
      let rest = look_for path dirs in
      if exists w dir
      then some (some (create dir))
      else elim (w.watch path) [ ok _ ↦ rest | err e ↦ none ]

  -- The event that the watcher of the missing directories gives rise to.
  unfoldable pub missing_dir_event :
      List FilePath
      → WatchEvent FilePath w.WatchError
      → Option (Option (WatchEvent FilePath w.WatchError))
  missing_dir_event missing (create path) =
      if holds_path missing path
      then some (some rescan)
      else if any_starts_with missing path
      then look_for path missing
      else some none
  missing_dir_event missing event = some none
