-- ===== src/Shared/DirPath.antt =====
-- common/misc/shared_types/src/dir_path.rs: directories that may not exist yet. Whether a path can be
-- canonicalized, which a file can be as well as a directory, is a parameter. Paths are absolute, and
-- all names are valid text.
pub mod Deepest
use logdna_agent_v.Base.{
  ℕ, Bool, true, false, Option, none, some, List, [], ◌∷◌, ◌++◌, Result, ok, err, if◌then◌else◌,
}
use logdna_agent_v.Shared.FilePath.{FilePath, parent_of, join}

pub data DirPathBufError : Type 0 where
  not_a_dir_path : FilePath → DirPathBufError
  empty_dir_path : Option FilePath → DirPathBufError

pub record DirPathBuf : Type 0 where
  pub inner : FilePath
  pub postfix : Option FilePath

abbrev pub level_up : FilePath → Option FilePath
level_up path = parent_of path

abbrev pub or_empty : Option FilePath → FilePath
or_empty none = []
or_empty (some p) = p

module _ (canonicalizes : FilePath → Bool) where
  -- The recursion on a path that is there. The part of a path behind its parent is its last
  -- component.
  unfoldable pub find_from : FilePath → Option FilePath → Result DirPathBufError DirPathBuf
  find_from [] postfix =
      if canonicalizes []
      then ok (record { inner = []; postfix = postfix })
      else err (not_a_dir_path [])
  find_from (name ∷ parent) postfix =
      let rest = find_from parent (some (join (name ∷ []) (or_empty postfix))) in
      if canonicalizes (name ∷ parent)
      then ok (record { inner = name ∷ parent; postfix = postfix })
      else rest

  unfoldable pub find_valid_path :
      Option FilePath → Option FilePath → Result DirPathBufError DirPathBuf
  unfolding find_from
  find_valid_path none postfix = err (empty_dir_path none)
  find_valid_path (some path) postfix = find_from path postfix

  -- `DirPathBuf::try_from` of a path that is owned.
  abbrev pub or_not_a_dir :
      FilePath → Result DirPathBufError DirPathBuf → Result DirPathBufError DirPathBuf
  or_not_a_dir path (ok p) = ok p
  or_not_a_dir path (err e) = err (not_a_dir_path path)

  unfoldable pub try_from : FilePath → Result DirPathBufError DirPathBuf
  unfolding find_valid_path
  try_from path = or_not_a_dir path (find_valid_path (some path) none)
