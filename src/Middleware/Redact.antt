-- ===== src/Middleware/Redact.antt =====
-- common/middleware/src/line_rules.rs: the part of `LineRules::redact` that does not depend on the
-- regular expressions: where the matches are recorded, and what is written in their place.
pub mod Order
pub mod Render
pub mod Kept
pub mod Recorded
use logdna_agent_v.Base.{
  ℕ, suc, ◌+◌, ◌-◌, min, max, Bool, true, false, ◌&&◌, ◌||◌, Option, none, some, List, [], ◌∷◌,
  ◌++◌, ◌>>=◌, ltb, leb, if◌then◌else◌, length, set, insert_at, take, drop,
}

-- The first byte of a match, and the byte behind its last one.
abbrev pub Match : Type 0
Match = ℕ × ℕ

abbrev pub overlaps : Match → Match → Bool
overlaps m existing =
    (leb existing.0 m.0 && leb m.0 existing.1) || (leb m.0 existing.0 && leb existing.0 m.1)

-- How the loop over the recorded matches ends.
pub data Found : Type 0 where
  overlapping : ℕ → ℕ → ℕ → Found
  insert_index : ℕ → Found
  neither : Found

find_place : ℕ → Match → List Match → Found
find_place i m [] = neither
find_place i m (existing ∷ matches) =
    let rest = find_place (suc i) m matches in
    if overlaps m existing
    then overlapping i (min existing.0 m.0) (max existing.1 m.1)
    else if ltb m.0 existing.0
    then insert_index i
    else rest

-- `none` is an index out of range.
record_at : List Match → Match → Found → Option (List Match)
record_at matches m (overlapping i start end) = set matches i (start, end)
record_at matches m (insert_index i) = insert_at matches i m
record_at matches m neither = some (matches ++ m ∷ [])

unfoldable pub record_match : List Match → Match → Option (List Match)
unfolding find_place record_at
record_match matches m = record_at matches m (find_place 0 m matches)

-- The loop over the matches of one expression after the other.
unfoldable pub record_all : List Match → List Match → Option (List Match)
record_all matches [] = some matches
record_all matches (m ∷ found) = do matches' ← record_match matches m; record_all matches' found

-- "[REDACTED]"
abbrev pub redact_bytes : List ℕ
redact_bytes = b'[' ∷ b'R' ∷ b'E' ∷ b'D' ∷ b'A' ∷ b'C' ∷ b'T' ∷ b'E' ∷ b'D' ∷ b']' ∷ []

-- `&value[from..to]`, which panics unless `from <= to <= value.len()`.
abbrev pub slice : List ℕ → ℕ → ℕ → Option (List ℕ)
slice value from to =
    if leb from to && leb to (length value) then some (take (to - from) (drop from value)) else none

-- The loop that builds `redacted`, and the rest of the line behind the last match.
unfoldable pub render : List ℕ → ℕ → List Match → Option (List ℕ)
render value index [] =
    if ltb index (length value) then slice value index (length value) else some []
render value index (item ∷ matches) = do
  kept ← slice value index item.0
  rest ← render value item.1 matches
  some (kept ++ (redact_bytes ++ rest))
