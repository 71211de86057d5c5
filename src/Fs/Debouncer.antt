-- ===== src/Fs/Debouncer.antt =====
-- common/fs/src/cache/event_debouncer.rs: the events of each path wait in a queue of their own, in
-- which writes that follow each other become one. The events are those of
-- common/notify_stream/src/lib.rs. A timestamp is a natural number that stands for the `i64` that is
-- 2 ^ 63 less, which has the same order.
pub mod Fifo
use logdna_agent_v.Base.{ℕ, ◌-◌, ◌≡◌, min, max, Option, none, some, List, [], ◌∷◌, u64_mod}

module _ (PathId Error : Type 0) where
  pub data WatchEvent : Type 0 where
    remove create write : PathId → WatchEvent
    rename : PathId → PathId → WatchEvent
    rescan : WatchEvent
    error : Error → Option PathId → WatchEvent

  unfoldable pub path_id : WatchEvent → Option PathId
  path_id (remove path) = some path
  path_id (create path) = some path
  path_id (write path) = some path
  path_id (rename from to) = some from
  path_id rescan = none
  path_id (error e path) = none

  abbrev pub Timed : Type 0
  Timed = WatchEvent × ℕ

  -- The new vector, and what is returned. The newest event stands first.
  unfoldable pub write_from_back : PathId → ℕ → List Timed → List Timed × Option ℕ
  write_from_back path ts ((write first, prev_ts) ∷ events) =
      ((write first, min prev_ts ts) ∷ events, some (min prev_ts ts))
  write_from_back path ts events = ((write path, ts) ∷ events, none)

  unfoldable pub update_events_from_back : List Timed → Timed → List Timed × Option ℕ
  update_events_from_back events (remove path, ts) = ((remove path, ts) ∷ events, none)
  update_events_from_back events (rename from to, ts) = ((rename from to, ts) ∷ events, none)
  update_events_from_back events (create path, ts) = ((create path, ts) ∷ events, none)
  update_events_from_back events (write path, ts) = write_from_back path ts events
  update_events_from_back events (rescan, ts) = (events, none)
  update_events_from_back events (error e path, ts) = (events, none)

  abbrev pub two_writes : Timed → Timed → Option Timed
  two_writes (write last, prev_ts) (write path, ts) = some (write last, min prev_ts ts)
  two_writes last event = none

  unfoldable pub update_events_from_front : List Timed → Timed → List Timed × Option ℕ
  update_events_from_front [] event = (event ∷ [], some event.1)
  update_events_from_front (last ∷ []) event = elim (two_writes last event) [
    | some merged ↦ (merged ∷ [], some merged.1)
    | none ↦ (last ∷ event ∷ [], some event.1)
  ]
  update_events_from_front (first ∷ next ∷ events) event =
      let (rest, ts) = update_events_from_front (next ∷ events) event in (first ∷ rest, ts)

  abbrev pub last_ts : List Timed → Option ℕ
  last_ts [] = none
  last_ts (e ∷ []) = some e.1
  last_ts (e ∷ next ∷ events) = last_ts (next ∷ events)

  -- `events.pop()`: the oldest event, and the others.
  unfoldable pub pop_last : List Timed → Option (Timed × List Timed)
  pop_last [] = none
  pop_last (e ∷ []) = some (e, [])
  pop_last (e ∷ next ∷ events) = elim (pop_last (next ∷ events)) [
    | none ↦ none
    | some (oldest, rest) ↦ some (oldest, e ∷ rest)
  ]

  -- `PrioritisedEvents::pop`: the event, the time of the one behind it, and the events that are left.
  unfoldable pub pop_event : List Timed → Option ((Timed × Option ℕ) × List Timed)
  pop_event events = elim (pop_last events) [
    | none ↦ none
    | some (oldest, rest) ↦ some ((oldest, last_ts rest), rest)
  ]
