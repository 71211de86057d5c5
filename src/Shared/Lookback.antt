-- ===== src/Shared/Lookback.antt =====
-- common/misc/shared_types/src/lookback.rs: where a file is read from. Text is a list of ASCII codes.
pub mod Names
use logdna_agent_v.Base.{
  ℕ, ◌+◌, Bool, true, false, ◌&&◌, ◌||◌, List, [], ◌∷◌, map, Result, ok, err, leb, ◌==◌,
  if◌then◌else◌,
}

pub data Lookback : Type 0 where
  start small_files tail none : Lookback

pub data ParseLookbackError : Type 0 where
  unknown : List ℕ → ParseLookbackError

-- `to_lowercase` of one character.
unfoldable pub to_lower : ℕ → ℕ
to_lower c = if leb b'A' c && leb c b'Z' then c + 32 else c

-- `char::is_whitespace`
abbrev pub is_whitespace : ℕ → Bool
is_whitespace c = c == 32 || (leb 9 c && leb c 13)

-- `split_whitespace`, whose parts are put together again.
unfoldable pub without_whitespace : List ℕ → List ℕ
without_whitespace [] = []
without_whitespace (c ∷ cs) =
    let rest = without_whitespace cs in if is_whitespace c then rest else c ∷ rest

abbrev pub same_text : List ℕ → List ℕ → Bool
same_text [] [] = true
same_text [] (b ∷ bs) = false
same_text (a ∷ more) [] = false
same_text (a ∷ more) (b ∷ bs) = let rest = same_text more bs in (a == b) && rest

abbrev pub start_text : List ℕ
start_text = b's' ∷ b't' ∷ b'a' ∷ b'r' ∷ b't' ∷ []

abbrev pub small_files_text : List ℕ
small_files_text = b's' ∷ b'm' ∷ b'a' ∷ b'l' ∷ b'l' ∷ b'f' ∷ b'i' ∷ b'l' ∷ b'e' ∷ b's' ∷ []

abbrev pub tail_text : List ℕ
tail_text = b't' ∷ b'a' ∷ b'i' ∷ b'l' ∷ []

abbrev pub none_text : List ℕ
none_text = b'n' ∷ b'o' ∷ b'n' ∷ b'e' ∷ []

-- The match on the text that is left; the error holds the text as it was given.
abbrev pub named : List ℕ → List ℕ → Result ParseLookbackError Lookback
named s text =
    if same_text text start_text
    then ok start
    else if same_text text small_files_text
    then ok small_files
    else if same_text text tail_text
    then ok tail
    else if same_text text none_text
    then ok none
    else err (unknown s)

unfoldable pub from_str : List ℕ → Result ParseLookbackError Lookback
unfolding to_lower without_whitespace
from_str s = named s (without_whitespace (map to_lower s))

-- `Display`
unfoldable pub to_text : Lookback → List ℕ
to_text start = start_text
to_text small_files = small_files_text
to_text none = none_text
to_text tail = tail_text
