-- ===== src/Examples/Shared.antt =====
-- Rules, lookback texts and missing directories.
use logdna_agent_v.Base.{
  ℕ, ◌≡◌, ◌↔◌, Bool, false, ◌||◌, none, some, refl, List, [], ◌∷◌, map, ok, err, if◌then◌else◌,
}
use logdna_agent_v.Shared.FilePath.{FilePath, same_path}
use logdna_agent_v.Shared.Rule.{Rules, passes, passed, excluded, not_included, add_all, glob_rule}
use logdna_agent_v.Shared.Rule.Verdicts.{any_matches, passes-add_all}
use logdna_agent_v.Shared.Lookback.{to_lower, without_whitespace, from_str, to_text, small_files}
use logdna_agent_v.Shared.Lookback.Names.{from_str_iff}
use logdna_agent_v.Shared.DirPath.{DirPathBuf, DirPathBufError, or_empty, find_valid_path}
use logdna_agent_v.Shared.DirPath.Deepest.{Deepest, NoneExists, find_valid_path-Deepest}
use logdna_agent_v.Examples.Disk.{globs, dir_path, file_path, link_path, below_one}

abbrev not_the_link : Rules globs
not_the_link = record { inclusion = []; exclusion = glob_rule (link_path, false) ∷ [] }

passes-add_all_example : passes globs (add_all globs below_one not_the_link) link_path ≡ (
    if any_matches globs below_one.inclusion link_path
      || any_matches globs not_the_link.inclusion link_path
    then (if any_matches globs below_one.exclusion link_path
          || any_matches globs not_the_link.exclusion link_path
        then excluded
        else passed)
    else not_included)
passes-add_all_example = passes-add_all globs below_one not_the_link link_path

-- " Small Files"
abbrev text : List ℕ
text = 32 ∷ b'S' ∷ b'm' ∷ b'a' ∷ b'l' ∷ b'l' ∷ 32 ∷ b'F' ∷ b'i' ∷ b'l' ∷ b'e' ∷ b's' ∷ []

reads_small_files : from_str text ≡ ok small_files
unfolding from_str
reads_small_files = refl

from_str_iff_example :
    (from_str text ≡ ok small_files)
    ↔ (without_whitespace (map to_lower text) ≡ to_text small_files)
from_str_iff_example = from_str_iff text small_files

abbrev only_the_directory : FilePath → Bool
only_the_directory path = same_path path dir_path

find_valid_path-Deepest_example :
    ((d : DirPathBuf)
      → find_valid_path only_the_directory (some file_path) none ≡ ok d
      → Deepest only_the_directory file_path (or_empty none) d)
    × ((e : DirPathBufError)
        → find_valid_path only_the_directory (some file_path) none ≡ err e
        → NoneExists only_the_directory file_path)
find_valid_path-Deepest_example = find_valid_path-Deepest only_the_directory file_path none
