-- ===== src/Fs/Cache/Stream/Retries.antt =====
-- How often an event is tried again.
use logdna_agent_v.Base.{
  ℕ, suc, ◌+◌, ◌≤◌, ◌≡◌, refl, ap, ◌∙◌, inl, inr, Bool, true, false, not, ◌&&◌, Option, none, some,
  List, [], ◌∷◌, ok, err, Bool-cases, arith, leb, length, if◌then◌else◌,
}
use logdna_agent_v.Shared.FilePath.{FilePath}
use logdna_agent_v.Fs.Debouncer.{WatchEvent}
use logdna_agent_v.Fs.Cache.Data.{
  World, watch, rescan, watch_event, existing, lookup, parent_lookup, parent_not_valid,
  path_not_valid, file, directory_list_not_valid,
}
use logdna_agent_v.Fs.Cache.Stream.{
  event_retry_count, CacheEvent, Item, retry_filter, keep_or_retry,
}

module _ (w : World) where
  -- The event as it comes back, from what is sent to be retried.
  abbrev pub through : Option (CacheEvent w) → Option (CacheEvent w)
  through none = none
  through (some e) = retry_filter w event_retry_count e

  -- The handling of an event that has these outcomes in turn.
  abbrev pub rounds : Option (CacheEvent w) → List (Item w) → Option (CacheEvent w)
  rounds none items = none
  rounds (some e) [] = some e
  rounds (some e) (item ∷ items) = rounds (through (keep_or_retry w e item).1) items

  -- An error of the file system that is not a missing file.
  abbrev pub is_retried : Item w → Bool
  is_retried (ok event) = false
  is_retried (err (file io)) = not (w.is_not_found io)
  is_retried (err (directory_list_not_valid io path)) = not (w.is_not_found io)
  is_retried (err (watch p e)) = false
  is_retried (err rescan) = false
  is_retried (err (watch_event p)) = false
  is_retried (err existing) = false
  is_retried (err lookup) = false
  is_retried (err parent_lookup) = false
  is_retried (err parent_not_valid) = false
  is_retried (err (path_not_valid p)) = false

  abbrev pub all_retried : List (Item w) → Bool
  all_retried [] = true
  all_retried (item ∷ items) = let rest = all_retried items in is_retried item && rest

  module _ (event : WatchEvent FilePath w.WatchError) (time : ℕ) where
    abbrev pub tried : ℕ → CacheEvent w
    tried n = record { event = event; event_time = time; retries = n; retry_offset = none }

    through_lem :
        (r : ℕ) (item : Item w)
        → through (keep_or_retry w (tried r) item).1
          ≡ (if is_retried item then (if leb r 5 then some (tried (r + 1)) else none) else none)
    unfolding keep_or_retry retry_filter
    through_lem r (ok event) = refl
    through_lem r (err (file io)) = ground arith
    through_lem r (err (directory_list_not_valid io path)) = ground arith
    through_lem r (err (watch p e)) = refl
    through_lem r (err rescan) = refl
    through_lem r (err (watch_event p)) = refl
    through_lem r (err existing) = refl
    through_lem r (err lookup) = refl
    through_lem r (err parent_lookup) = refl
    through_lem r (err parent_not_valid) = refl
    through_lem r (err (path_not_valid p)) = refl

    rounds_from :
        (r : ℕ) (items : List (Item w))
        → r ≤ 6
        → rounds (some (tried r)) items ≡ (
            if all_retried items && leb (r + length items) 6
            then some (tried (r + length items))
            else none)
    rounds_from r [] h = let n : r + 0 ≡ r = omega arith in rw n (ground arith)
    rounds_from r (item ∷ items) h =
        ap (λ (o : Option (CacheEvent w)). rounds o items) (through_lem r item)
        ∙ elim (Bool-cases (is_retried item)) [
          | inl again ↦ elim (Bool-cases (leb r 5)) [
            | inl more ↦
                let n : r + 1 + length items ≡ r + suc (length items) = omega arith in
                rw (again, more) (rw n at (rounds_from (r + 1) items (ground arith)))
            | inr last ↦ rw (again, last) (ground arith)
          ]
          | inr done ↦ rw done refl
        ]

    -- An event whose handling has these outcomes in turn comes back once more exactly if all of them are
    -- errors of the file system other than a missing file, and there are at most six of them: so it is
    -- handled at most seven times. It comes back with the number of its retries.
    pub rounds_lem :
        (items : List (Item w))
        → rounds (some (tried 0)) items ≡ (
            if all_retried items && leb (length items) 6 then some (tried (length items)) else none)
    rounds_lem items =
        let n : 0 + length items ≡ length items = omega arith in
        rw n at (rounds_from 0 items (omega arith))
