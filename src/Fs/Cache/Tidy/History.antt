-- ===== src/Fs/Cache/Tidy/History.antt =====
-- Any series of events behind the construction of the cache, with an operating system that changes.
use logdna_agent_v.Base.{ℕ, Bool, map, ◌≡◌, Option, some, List, [], ◌∷◌, Result}
use logdna_agent_v.State.SpanVec.{SpanVec}
use logdna_agent_v.Shared.FilePath.{FilePath}
use logdna_agent_v.Shared.Rule.{Rules}
use logdna_agent_v.Shared.Lookback.{Lookback}
use logdna_agent_v.Shared.DirPath.{DirPathBuf}
use logdna_agent_v.Fs.Cache.Data.{
  World, Event, initialize, new, write, retry_write, delete, FileSystem, FileType, Metadata, Stop,
}
use logdna_agent_v.Fs.Cache.Start.{new_file_system}
use logdna_agent_v.Fs.Cache.Stream.{CacheEvent, as_event_stream}
use logdna_agent_v.Fs.Cache.Tidy.{SlotLaws, Tidy}
use logdna_agent_v.Fs.Cache.Tidy.Start.{as_event_stream-Keeps, built-Tidy}

-- The answers of the operating system during one call.
pub record Answers (w : World) : Type 0 where
  pub symlink_metadata : FilePath → Result w.IoError FileType
  pub metadata : FilePath → Result w.IoError Metadata
  pub get_inode : FilePath → Result w.IoError ℕ
  pub resolve_link : FilePath → Result w.IoError FilePath
  pub read_link : FilePath → Result w.IoError FilePath
  pub read_dir : FilePath → Result w.IoError (List (Result w.IoError FilePath))
  pub is_file : FilePath → Bool
  pub is_dir : FilePath → Bool
  pub canonicalizes : FilePath → Bool
  pub walk_follow : FilePath → List (Result w.IoError FilePath)
  pub walk_dir : FilePath → List (Result w.IoError FilePath)
  pub open_file : FilePath → Result w.IoError (Unit {0})
  pub watch : FilePath → Result w.WatchError (Unit {0})
  pub unwatch : FilePath → Result w.WatchError (Unit {0})
  pub takes_deletion_ack : FilePath → Bool

module _ (w : World) where
  -- The same crates, with other answers.
  abbrev pub at : Answers w → World
  at a = record w {
    symlink_metadata = a.symlink_metadata;
    metadata = a.metadata;
    get_inode = a.get_inode;
    resolve_link = a.resolve_link;
    read_link = a.read_link;
    read_dir = a.read_dir;
    is_file = a.is_file;
    is_dir = a.is_dir;
    canonicalizes = a.canonicalizes;
    walk_follow = a.walk_follow;
    walk_dir = a.walk_dir;
    open_file = a.open_file;
    watch = a.watch;
    unwatch = a.unwatch;
    takes_deletion_ack = a.takes_deletion_ack;
  }

  module _ (a b : Answers w) where
    abbrev pub same_event : Event (at a) → Event (at b)
    same_event (initialize k) = initialize k
    same_event (new k) = new k
    same_event (write k) = write k
    same_event (retry_write k span) = retry_write k span
    same_event (delete k) = delete k

    -- The state as it is, when the answers change.
    abbrev pub carried : FileSystem (at a) → FileSystem (at b)
    carried c = record {
      entries = c.entries;
      symlinks = c.symlinks;
      watch_descriptors = c.watch_descriptors;
      watched = c.watched;
      wd_by_inode = c.wd_by_inode;
      master_rules = c.master_rules;
      initial_dirs = c.initial_dirs;
      initial_dir_rules = c.initial_dir_rules;
      missing_dirs = c.missing_dirs;
      initial_events = map same_event c.initial_events;
      fs_start_time = c.fs_start_time;
      lookback_config = c.lookback_config;
      initial_offsets = c.initial_offsets;
      ignored_dirs = c.ignored_dirs;
      acks = c.acks;
      events = map same_event c.events;
      cuts = c.cuts;
    }

  -- An event, and the answers while it is handled.
  abbrev pub Handled : Type 0
  Handled = (b : Answers w) × CacheEvent (at b)

  -- The state behind the events, in turn.
  abbrev pub history :
      (a : Answers w) → List Handled → FileSystem (at a) → (b : Answers w) × FileSystem (at b)
  history a [] c = (a, c)
  history a ((b, e) ∷ es) c = history b es (as_event_stream (at b) e (carried a b c)).0

  at-SlotLaws : (a : Answers w) → SlotLaws w → SlotLaws (at a)
  at-SlotLaws a laws = record {
    same_iff = laws.same_iff;
    get-insert = laws.get-insert;
    get-insert_new = laws.get-insert_new;
    get-set = laws.get-set;
  }

  history-Tidy :
      (laws : SlotLaws w) (a : Answers w) (es : List Handled) (c : FileSystem (at a))
      → Tidy (at a) c
      → Tidy (at (history a es c).0) (history a es c).1
  history-Tidy laws a [] c t = t
  history-Tidy laws a ((b, e) ∷ es) c t =
      history-Tidy laws b es _
        ((as_event_stream-Keeps (at b) (at-SlotLaws b laws) e).run (carried a b c) tt t).tidy

  -- A cache that was built, after any series of events: a path that has descriptors has at least one,
  -- and all of them lead to entries. The operating system may answer in another way at each event.
  pub new_file_system-Tidy :
      (laws : SlotLaws w) (lookback : Lookback) (offsets : ℕ → Option SpanVec)
      (rules : Rules w.patterns) (now : ℕ) (a : Answers w) (dirs : List DirPathBuf)
      (c : FileSystem (at a)) (r : Result (Stop (at a)) (List ℕ)) (es : List Handled)
      → new_file_system (at a) lookback offsets rules now dirs ≡ some (c, r)
      → Tidy (at (history a es c).0) (history a es c).1
  new_file_system-Tidy laws lookback offsets rules now a dirs c r es h =
      history-Tidy laws a es c
        (built-Tidy (at a) (at-SlotLaws a laws) lookback offsets rules now dirs c r h)
