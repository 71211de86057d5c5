-- ===== src/Fs/Cache/Symlinks/Undo.antt =====
-- Adding a link and removing it again.
use logdna_agent_v.Base.{
  ◌≡◌, ◌≢◌, refl, ap, ◌∙◌, inl, inr, Bool, false, Bool-cases, Option, none, some, List, [], ◌∷◌,
  ◌++◌, arith, ◌||◌,
}
use logdna_agent_v.Shared.FilePath.{FilePath, same_path, same_path_refl, same_path→≡}
use logdna_agent_v.Fs.Cache.Symlinks.{
  Symlinks, or_default, cons_found, drop_empty, swap_remove, add, remove,
}

-- The link is among these.
abbrev pub is_among : FilePath → List FilePath → Bool
is_among symlink [] = false
is_among symlink (s ∷ ss) = let rest = is_among symlink ss in same_path s symlink || rest

swap_remove-append :
    (symlink : FilePath) (ss : List FilePath)
    → is_among symlink ss ≡ false
    → swap_remove symlink (ss ++ symlink ∷ []) ≡ some ss
unfolding swap_remove
swap_remove-append symlink [] h = rw (same_path_refl symlink) refl
swap_remove-append symlink (s ∷ ss) h =
    let first : same_path s symlink ≡ false = ground arith in
    let rest : is_among symlink ss ≡ false = ground arith in
    rw first (ap (cons_found s) (swap_remove-append symlink ss rest))

kept : (o : Option (List FilePath)) → o ≢ some [] → drop_empty (or_default o) ≡ o
kept none h = refl
kept (some []) h = absurd (h refl)
kept (some (s ∷ ss)) h = refl

-- A link that was not among the links to a target is added, and then removed: each path has the links
-- that it had. No path has an empty vector of links before.
pub remove-add :
    (links : Symlinks) (symlink target p : FilePath)
    → is_among symlink (or_default (links target)) ≡ false
    → links target ≢ some []
    → remove (add links symlink target) symlink target p ≡ links p
unfolding add remove
remove-add links symlink target p fresh full = rw (same_path_refl target) (
    rw (swap_remove-append symlink (or_default (links target)) fresh)
      (elim (Bool-cases (same_path target p)) [
        | inl e ↦ rw e (kept (links target) full ∙ ap links (same_path→≡ target p e))
        | inr e ↦ rw e refl
      ]))
