-- ===== src/Shared/Lookback/Names.antt =====
-- Which texts name a lookback.
use logdna_agent_v.Base.{
  ℕ, ◌≡◌, ◌↔◌, refl, inl, inr, true, Bool-cases, List, [], ◌∷◌, map, ok, arith,
}
use logdna_agent_v.Shared.Lookback.{
  Lookback, start, small_files, tail, none, to_lower, without_whitespace, same_text, start_text,
  small_files_text, tail_text, none_text, named, from_str, to_text,
}

same_text→≡ : (p q : List ℕ) → same_text p q ≡ true → p ≡ q
same_text→≡ [] [] e = refl
same_text→≡ [] (b ∷ bs) e = absurd (cc)
same_text→≡ (a ∷ p) [] e = absurd (cc)
same_text→≡ (a ∷ p) (b ∷ bs) e =
    let rest : p ≡ bs = same_text→≡ p bs (ground arith) in let first : a ≡ b = ground arith in cc

named-ok : (s text : List ℕ) (l : Lookback) → named s text ≡ ok l → text ≡ to_text l
unfolding to_text
named-ok s text l e = elim (Bool-cases (same_text text start_text)) [
  | inl p ↦ let is : l ≡ start = ground arith in rw is (same_text→≡ _ _ p)
  | inr p ↦ elim (Bool-cases (same_text text small_files_text)) [
    | inl q ↦ let is : l ≡ small_files = ground arith in rw is (same_text→≡ _ _ q)
    | inr q ↦ elim (Bool-cases (same_text text tail_text)) [
      | inl r ↦ let is : l ≡ tail = ground arith in rw is (same_text→≡ _ _ r)
      | inr r ↦ elim (Bool-cases (same_text text none_text)) [
        | inl t ↦ let is : l ≡ none = ground arith in rw is (same_text→≡ _ _ t)
        | inr t ↦ ground arith
      ]
    ]
  ]
]

named-to_text : (s : List ℕ) (l : Lookback) → named s (to_text l) ≡ ok l
unfolding to_text
named-to_text s start = refl
named-to_text s small_files = refl
named-to_text s tail = refl
named-to_text s none = refl

-- A text names a lookback exactly if it is, in lower case and without its blanks, the name that is
-- displayed for it.
pub from_str_iff :
    (s : List ℕ) (l : Lookback)
    → (from_str s ≡ ok l) ↔ (without_whitespace (map to_lower s) ≡ to_text l)
unfolding from_str
from_str_iff s l = (named-ok s _ l, λ e. rw e (named-to_text s l))
