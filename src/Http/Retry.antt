-- ===== src/Http/Retry.antt =====
-- common/http/src/retry.rs: the count of the bytes that retry files take on disk. Other tasks change
-- the counter between two accesses, so each pass of the loop of `RetrySender::retry` is given the
-- value that it loads and the value that its exchange finds.
pub mod Account
use logdna_agent_v.Base.{
  ℕ, suc, ◌+◌, ◌%◌, Bool, true, false, Option, none, some, List, [], ◌∷◌, ◌++◌, u64_mod, ltb, ◌==◌,
  if◌then◌else◌,
}

-- An entry of the directory: whether its name ends in `.retry`, and its length if that can be read.
pub data DirEntry : Type 0 where
  unreadable : DirEntry
  entry : Bool → Option ℕ → DirEntry

abbrev pub or_zero : Option ℕ → ℕ
or_zero none = 0
or_zero (some len) = len

-- The fold of `RetrySender::new` over the entries.
unfoldable pub add_entries : ℕ → List DirEntry → ℕ
add_entries acc [] = acc
add_entries acc (entry true len ∷ entries) = add_entries ((acc + or_zero len) % u64_mod) entries
add_entries acc (entry false len ∷ entries) = add_entries acc entries
add_entries acc (unreadable ∷ entries) = add_entries acc entries

-- The counter of a new sender, from the directory, if that can be read.
unfoldable pub initial_used : Option (List DirEntry) → ℕ
initial_used none = 0
initial_used (some entries) = add_entries 0 entries

-- How the loop ends: the file is removed since the limit is reached, the counter has this new value,
-- or the file is removed and the caller gets an error.
pub data Outcome : Type 0 where
  over_limit : Outcome
  counted : ℕ → Outcome
  gave_up : Outcome

-- The passes of the loop, from the number of attempts so far. `none` if the loop goes on behind the
-- values that are given.
unfoldable pub account : ℕ → ℕ → ℕ → List (ℕ × ℕ) → Option Outcome
account disk_limit file_size attempts [] = none
account disk_limit file_size attempts ((cur_used, found) ∷ later) =
    let rest = account disk_limit file_size (suc attempts) later in
    let needed = (cur_used + file_size) % u64_mod in
    if ltb disk_limit needed
    then some over_limit
    else if found == cur_used
    then some (counted needed)
    else if ltb 10 attempts
    then some gave_up
    else rest
