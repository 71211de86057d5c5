-- ===== src/Fs/Cache/Symlinks.antt =====
-- common/fs/src/cache/symlinks.rs: the symbolic links that point to a path. A hash map is a function.
pub mod Undo
pub mod Count
use logdna_agent_v.Base.{Bool, true, false, Option, none, some, List, [], ◌∷◌, ◌++◌, if◌then◌else◌}
use logdna_agent_v.Shared.FilePath.{FilePath, same_path}

-- A map from paths, with its changes at one path.
abbrev pub PathMap : Type 0 → Type 0
PathMap V = FilePath → Option V

abbrev pub write_at : {V : Type 0} → FilePath → Option V → PathMap V → PathMap V
write_at path v m p = if same_path path p then v else m p

abbrev pub or_default : {V : Type 0} → Option (List V) → List V
or_default none = []
or_default (some vs) = vs

-- The last item takes the place of the one that is removed.
abbrev pub last_or : {V : Type 0} → V → List V → V
last_or v [] = v
last_or v (x ∷ xs) = last_or x xs

abbrev pub without_last : {V : Type 0} → List V → List V
without_last [] = []
without_last (x ∷ []) = []
without_last (x ∷ y ∷ xs) = x ∷ without_last (y ∷ xs)

-- `swap_remove` of the item found behind the head.
abbrev pub fill_head : {V : Type 0} → List V → List V
fill_head [] = []
fill_head (x ∷ xs) = last_or x xs ∷ without_last (x ∷ xs)

abbrev pub cons_found : FilePath → Option (List FilePath) → Option (List FilePath)
cons_found x none = none
cons_found x (some xs) = some (x ∷ xs)

-- `position(|s| s == symlink)` and `swap_remove` at that index.
unfoldable pub swap_remove : FilePath → List FilePath → Option (List FilePath)
swap_remove symlink [] = none
swap_remove symlink (s ∷ ss) =
    let rest = swap_remove symlink ss in
    if same_path s symlink then some (fill_head ss) else cons_found s rest

abbrev pub Symlinks : Type 0
Symlinks = PathMap (List FilePath)

abbrev pub get : Symlinks → FilePath → Option (List FilePath)
get links target = links target

unfoldable pub add : Symlinks → FilePath → FilePath → Symlinks
add links symlink target = write_at target (some (or_default (links target) ++ symlink ∷ [])) links

abbrev pub drop_empty : {V : Type 0} → List V → Option (List V)
drop_empty [] = none
drop_empty (x ∷ xs) = some (x ∷ xs)

abbrev pub put_rest : Symlinks → FilePath → Option (List FilePath) → Symlinks
put_rest links target none = links
put_rest links target (some rest) = write_at target (drop_empty rest) links

unfoldable pub remove : Symlinks → FilePath → FilePath → Symlinks
unfolding swap_remove
remove links symlink target =
    put_rest links target (elim (links target) [ none ↦ none | some ss ↦ swap_remove symlink ss ])
