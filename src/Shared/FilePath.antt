-- ===== src/Shared/FilePath.antt =====
-- Absolute paths of the standard library: the components from the last one to the first. A component
-- is a number, since names are only compared. A relative path, such as the missing end of a path, is
-- a list of components in the same order.
use logdna_agent_v.Base.{
  ℕ, ◌≡◌, refl, Bool, true, false, ◌&&◌, Option, none, some, List, [], ◌∷◌, ◌++◌, arith, ◌==◌,
}

abbrev pub FilePath : Type 0
FilePath = List ℕ

-- The root has no parent and no file name.
abbrev pub parent_of : FilePath → Option FilePath
parent_of [] = none
parent_of (name ∷ above) = some above

abbrev pub file_name : FilePath → Option ℕ
file_name [] = none
file_name (name ∷ above) = some name

abbrev pub join : FilePath → FilePath → FilePath
join path postfix = postfix ++ path

abbrev pub same_path : FilePath → FilePath → Bool
same_path [] [] = true
same_path [] (b ∷ bs) = false
same_path (a ∷ p) [] = false
same_path (a ∷ p) (b ∷ bs) = let rest = same_path p bs in (a == b) && rest

pub same_path_refl : (p : FilePath) → same_path p p ≡ true
same_path_refl [] = refl
same_path_refl (a ∷ p) = let rest = same_path_refl p in ground arith

pub same_path→≡ : (p q : FilePath) → same_path p q ≡ true → p ≡ q
same_path→≡ [] [] e = refl
same_path→≡ [] (b ∷ bs) e = absurd (cc)
same_path→≡ (a ∷ p) [] e = absurd (cc)
same_path→≡ (a ∷ p) (b ∷ bs) e =
    let rest : p ≡ bs = same_path→≡ p bs (ground arith) in let first : a ≡ b = ground arith in cc
