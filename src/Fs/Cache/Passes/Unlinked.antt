-- ===== src/Fs/Cache/Passes/Unlinked.antt =====
-- What passes where no link is known.
use logdna_agent_v.Base.{
  ℕ, suc, ◌≡◌, refl, ap, ◌∙◌, inl, inr, Bool, false, ◌||◌, none, List, [], ◌∷◌, ok, Bool-cases,
}
use logdna_agent_v.Shared.FilePath.{FilePath}
use logdna_agent_v.Fs.Cache.Data.{World, FileSystem}
use logdna_agent_v.Fs.Cache.Effect.{M, after, caught, return}
use logdna_agent_v.Fs.Cache.Passes.{
  holds_path, is_some, walk_up, is_reachable, search_up, or_false, path_passes, passes_rules,
  is_initial_dir_target, is_symlink_target, get_first_entry,
}

-- Some path above passes the test.
abbrev pub any_above : (FilePath → Bool) → FilePath → Bool
any_above test [] = false
any_above test (name ∷ parent) = let rest = any_above test parent in test parent || rest

module _ (w : World) where
  untargeted :
      (c : FileSystem w) (p : FilePath) → c.symlinks p ≡ none → is_symlink_target w c p ≡ false
  unfolding is_symlink_target
  untargeted c p l = ap is_some l

  walk_up-unlinked :
      (reach : FilePath → M w Bool) (path : FilePath) (c : FileSystem w)
      → c.cuts ≡ []
      → ((p : FilePath) → c.symlinks p ≡ none)
      → walk_up w reach path false c ≡ (c, ok (any_above (passes_rules w c) path))
  unfolding walk_up
  walk_up-unlinked reach [] c e l = refl
  walk_up-unlinked reach (name ∷ parent) c e l =
      let no_cut : holds_path c.cuts parent ≡ false =
        ap (λ (cs : List FilePath). holds_path cs parent) e in
      let rest = walk_up-unlinked reach parent c e l in
      rw (l parent) (
        rw (no_cut, untargeted c parent (l parent))
          (elim (Bool-cases (passes_rules w c parent)) [ inl p ↦ rw p refl | inr p ↦ rw p rest ]))

  reachable-unlinked :
      (fuel : ℕ) (path : FilePath) (c : FileSystem w)
      → c.cuts ≡ []
      → get_first_entry w c path ≡ none
      → is_initial_dir_target w c path ≡ false
      → ((p : FilePath) → c.symlinks p ≡ none)
      → is_reachable w (suc fuel) path c ≡ (c, ok (any_above (passes_rules w c) path))
  unfolding is_reachable
  reachable-unlinked fuel path c e first out l = rw first (
      rw (ap (λ (cs : List FilePath). holds_path cs path) e, out, untargeted c path (l path))
        (walk_up-unlinked (is_reachable w fuel) path c e l))

  search_up-unlinked :
      (c : FileSystem w) (path : FilePath) (fuel : ℕ)
      → w.fuel ≡ suc fuel
      → get_first_entry w c path ≡ none
      → is_initial_dir_target w c path ≡ false
      → ((p : FilePath) → c.symlinks p ≡ none)
      → (search_up w path c).1 ≡ ok (any_above (passes_rules w c) path)
  unfolding passes_rules is_initial_dir_target get_first_entry
  search_up-unlinked c path fuel f first out l =
      let c' : FileSystem w = record c { cuts = [] } in
      let reached = reachable-unlinked fuel path c' refl first out l in
      ap (λ r. (after (caught r) (λ b. return (or_false w b))).1)
        (ap (λ (n : ℕ). is_reachable w n path c') f ∙ reached)

  -- While no link is known, an untracked path passes exactly if it is in an initial directory, with the
  -- rules of files met or as a directory, or if some directory above it meets both sets of rules. The
  -- search ends within any fuel but none.
  pub path_passes-unlinked :
      (c : FileSystem w) (path : FilePath) (fuel : ℕ)
      → w.fuel ≡ suc fuel
      → get_first_entry w c path ≡ none
      → ((p : FilePath) → c.symlinks p ≡ none)
      → (path_passes w path c).1
        ≡ ok (is_initial_dir_target w c path || any_above (passes_rules w c) path)
  unfolding path_passes
  path_passes-unlinked c path fuel f first l = elim (Bool-cases (is_initial_dir_target w c path)) [
    | inl inside ↦ rw inside refl
    | inr outside ↦ rw outside (search_up-unlinked c path fuel f first outside l)
  ]
