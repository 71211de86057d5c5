-- ===== src/Shared/DirPath/Deepest.antt =====
-- The path that stands for one which may not exist.
use mathlib.Core.List.{append-nil}
use logdna_agent_v.Base.{
  subst, ℕ, ◌≡◌, refl, sym, ap, ◌∙◌, inl, inr, Bool, true, false, Bool-cases, Option, some, [], ◌∷◌,
  ◌++◌, Result, ok, err,
}
use logdna_agent_v.Shared.FilePath.{FilePath, join}
use logdna_agent_v.Shared.DirPath.{
  DirPathBufError, DirPathBuf, or_empty, find_from, find_valid_path,
}

snoc_assoc : (xs : FilePath) (x : ℕ) (ys : FilePath) → (xs ++ x ∷ []) ++ ys ≡ xs ++ x ∷ ys
snoc_assoc [] x ys = refl
snoc_assoc (z ∷ xs) x ys = ap (◌∷◌ z) (snoc_assoc xs x ys)

module _ (canonicalizes : FilePath → Bool) where
  -- No path from the given one up to the root exists.
  abbrev pub NoneExists : FilePath → Type 0
  NoneExists [] = canonicalizes [] ≡ false
  NoneExists (name ∷ parent) = (canonicalizes (name ∷ parent) ≡ false) × NoneExists parent

  -- Below `inner`, none of the paths that lead to the given one exists.
  abbrev pub NoneBelow : FilePath → FilePath → Type 0
  NoneBelow [] inner = Unit
  NoneBelow (name ∷ missing) inner =
      (canonicalizes (join inner (name ∷ missing)) ≡ false) × NoneBelow missing inner

  -- `inner` exists, be it a directory or not; it and what is missing make up the path, and nothing of
  -- what is missing exists. The new postfix is what is missing and, below that, the old one.
  pub record Deepest (path : FilePath) (postfix : FilePath) (d : DirPathBuf) : Type 0 where
    pub found : canonicalizes d.inner ≡ true
    pub missing : FilePath
    pub whole : join d.inner missing ≡ path
    pub carried : or_empty d.postfix ≡ join missing postfix
    pub none_below : NoneBelow missing d.inner

  abbrev Ends : FilePath → FilePath → Result DirPathBufError DirPathBuf → Type 0
  Ends path postfix (ok d) = Deepest path postfix d
  Ends path postfix (err e) = NoneExists path

  here :
      (path : FilePath) (postfix : Option FilePath)
      → canonicalizes path ≡ true
      → Deepest path (or_empty postfix) (record { inner = path; postfix = postfix })
  here path postfix e = record {
    found = e;
    missing = [];
    whole = refl;
    carried = sym (append-nil (or_empty postfix));
    none_below = tt;
  }

  step_up :
      (name : ℕ) (parent postfix : FilePath) (r : Result DirPathBufError DirPathBuf)
      → canonicalizes (name ∷ parent) ≡ false
      → Ends parent (postfix ++ name ∷ []) r
      → Ends (name ∷ parent) postfix r
  step_up name parent postfix (ok d) e f = record {
    found = f.found;
    missing = name ∷ f.missing;
    whole = ap (◌∷◌ name) f.whole;
    carried = f.carried ∙ snoc_assoc postfix name f.missing;
    none_below = (ap canonicalizes (ap (◌∷◌ name) f.whole) ∙ e, f.none_below);
  }
  step_up name parent postfix (err x) e f = (e, f)

  found_from :
      (path : FilePath) (postfix : Option FilePath)
      → Ends path (or_empty postfix) (find_from canonicalizes path postfix)
  unfolding find_from
  found_from [] postfix = elim (Bool-cases (canonicalizes [])) [
    | inl e ↦ rw e (here [] postfix e)
    | inr e ↦ rw e e
  ]
  found_from (name ∷ parent) postfix =
      let rest = step_up name parent (or_empty postfix) _ in
      let above = found_from parent (some (or_empty postfix ++ name ∷ [])) in
      elim (Bool-cases (canonicalizes (name ∷ parent))) [
        | inl e ↦ rw e (here (name ∷ parent) postfix e)
        | inr e ↦ rw e (rest e above)
      ]

  -- The search for an absolute path returns the deepest path on the way to it that can be canonicalized,
  -- which may be a file and no directory, and puts what is missing below that in front of the postfix.
  -- It fails only where no path on that way can be canonicalized.
  pub find_valid_path-Deepest :
      (path : FilePath) (postfix : Option FilePath)
      → ((d : DirPathBuf)
          → find_valid_path canonicalizes (some path) postfix ≡ ok d
          → Deepest path (or_empty postfix) d)
        × ((e : DirPathBufError)
            → find_valid_path canonicalizes (some path) postfix ≡ err e
            → NoneExists path)
  unfolding find_valid_path
  find_valid_path-Deepest path postfix =
      let found = found_from path postfix in
      (
        λ d e. subst (Ends path (or_empty postfix)) e found,
        λ x e. subst (Ends path (or_empty postfix)) e found,
      )
