-- ===== src/Fs/Cache/Symlinks/Count.antt =====
-- How often a link is among the links to a target, when one is taken away.
use logdna_agent_v.Base.{
  ℕ, ◌+◌, ◌-◌, ◌≡◌, refl, sym, ap, ◌∙◌, inl, inr, Bool, false, ◌&&◌, Bool-cases, Option, none, some,
  List, [], ◌∷◌, arith, if◌then◌else◌,
}
use logdna_agent_v.Shared.FilePath.{FilePath, same_path, same_path→≡}
use logdna_agent_v.Fs.Cache.Symlinks.{
  Symlinks, or_default, last_or, without_last, fill_head, cons_found, drop_empty, put_rest,
  swap_remove, remove,
}

abbrev pub bit : Bool → ℕ
bit b = if b then 1 else 0

abbrev pub count : FilePath → List FilePath → ℕ
count q [] = 0
count q (s ∷ ss) = bit (same_path s q) + count q ss

-- How often the link is said to point to the target.
abbrev pub linked : Symlinks → FilePath → FilePath → ℕ
linked links q target = count q (or_default (links target))

count-last :
    (q x : FilePath) (xs : List FilePath)
    → bit (same_path (last_or x xs) q) + count q (without_last (x ∷ xs)) ≡ count q (x ∷ xs)
count-last q x [] = refl
count-last q x (y ∷ xs) = let rest = count-last q y xs in omega arith

count-fill_head : (q : FilePath) (ss : List FilePath) → count q (fill_head ss) ≡ count q ss
count-fill_head q [] = refl
count-fill_head q (x ∷ xs) = count-last q x xs

abbrev Taken : FilePath → FilePath → List FilePath → Option (List FilePath) → Type 0
Taken symlink q ss none = count symlink ss ≡ 0
Taken symlink q ss (some rest) = bit (same_path symlink q) + count q rest ≡ count q ss

behind-Taken :
    (symlink q s : FilePath) (ss : List FilePath) (o : Option (List FilePath))
    → same_path s symlink ≡ false
    → Taken symlink q ss o
    → Taken symlink q (s ∷ ss) (cons_found s o)
behind-Taken symlink q s ss none e t = rw e (omega arith)
behind-Taken symlink q s ss (some rest) e t = omega arith

swap_remove-count :
    (symlink q : FilePath) (ss : List FilePath) → Taken symlink q ss (swap_remove symlink ss)
unfolding swap_remove
swap_remove-count symlink q [] = refl
swap_remove-count symlink q (s ∷ ss) = elim (Bool-cases (same_path s symlink)) [
  | inl e ↦ rw e (
      ap (λ p. bit (same_path p q) + count q (fill_head ss)) (sym (same_path→≡ s symlink e))
      ∙ ap (λ n. bit (same_path s q) + n) (count-fill_head q ss))
  | inr e ↦ rw e (behind-Taken symlink q s ss _ e (swap_remove-count symlink q ss))
]

or_default-drop_empty : (ss : List FilePath) → or_default (drop_empty ss) ≡ ss
or_default-drop_empty [] = refl
or_default-drop_empty (s ∷ ss) = refl

put_none :
    (links : Symlinks) (symlink target q t : FilePath)
    → count symlink (or_default (links target)) ≡ 0
    → linked links q t ≡ linked links q t - bit (same_path target t && same_path symlink q)
put_none links symlink target q t h = elim (Bool-cases (same_path target t)) [
  | inr e ↦ rw e (omega arith)
  | inl e ↦ elim (Bool-cases (same_path symlink q)) [
    | inr f ↦ rw (e, f) (omega arith)
    | inl f ↦
        let here : linked links q t ≡ 0 =
          ap (λ p. linked links q p) (sym (same_path→≡ target t e))
          ∙ ap (λ p. linked links p target) (sym (same_path→≡ symlink q f))
          ∙ h in
        rw here (omega arith)
  ]
]

put_some :
    (links : Symlinks) (symlink target q t : FilePath) (rest : List FilePath)
    → bit (same_path symlink q) + count q rest ≡ linked links q target
    → linked (put_rest links target (some rest)) q t
      ≡ linked links q t - bit (same_path target t && same_path symlink q)
put_some links symlink target q t rest h = elim (Bool-cases (same_path target t)) [
  | inr e ↦ rw e (omega arith)
  | inl e ↦
      let there : linked links q target ≡ linked links q t =
        ap (λ p. linked links q p) (same_path→≡ target t e) in
      rw e (ap (count q) (or_default-drop_empty rest) ∙ omega arith)
]

put_rest-linked :
    (links : Symlinks) (symlink target q t : FilePath) (o : Option (List FilePath))
    → Taken symlink q (or_default (links target)) o
    → linked (put_rest links target o) q t
      ≡ linked links q t - bit (same_path target t && same_path symlink q)
put_rest-linked links symlink target q t none h = put_none links symlink target q t h
put_rest-linked links symlink target q t (some rest) h = put_some links symlink target q t rest h

found-Taken :
    (symlink q : FilePath) (o : Option (List FilePath))
    → Taken symlink q (or_default o) (elim o [ none ↦ none | some ss ↦ swap_remove symlink ss ])
found-Taken symlink q none = refl
found-Taken symlink q (some ss) = swap_remove-count symlink q ss

pub remove-linked :
    (links : Symlinks) (symlink target q t : FilePath)
    → linked (remove links symlink target) q t
      ≡ linked links q t - bit (same_path target t && same_path symlink q)
unfolding remove
remove-linked links symlink target q t =
    put_rest-linked links symlink target q t _ (found-Taken symlink q (links target))
