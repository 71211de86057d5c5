-- ===== src/Shared/Rule/Verdicts.antt =====
-- The verdict of a set of rules on a path.
use logdna_agent_v.Base.{
  ◌≡◌, refl, ◌∙◌, Bool, false, ◌||◌, List, [], ◌∷◌, ◌++◌, arith, if◌then◌else◌,
}
use logdna_agent_v.Shared.FilePath.{FilePath}
use logdna_agent_v.Shared.Rule.{
  Patterns, Status, not_included, excluded, passed, RuleDef, matches, Rules, include_by, exclude_by,
  passes, add_all,
}

module _ (ps : Patterns) where
  -- Some rule matches.
  abbrev pub any_matches : List (RuleDef ps) → FilePath → Bool
  any_matches [] value = false
  any_matches (rule ∷ rules) value =
      let rest = any_matches rules value in matches ps rule value || rest

  include_by_lem :
      (rules : List (RuleDef ps)) (value : FilePath)
      → include_by ps rules value ≡ (if any_matches rules value then passed else not_included)
  unfolding include_by
  include_by_lem [] value = refl
  include_by_lem (rule ∷ rules) value = ground (arith, include_by_lem rules value)

  exclude_by_lem :
      (rules : List (RuleDef ps)) (value : FilePath)
      → exclude_by ps rules value ≡ (if any_matches rules value then excluded else passed)
  unfolding exclude_by
  exclude_by_lem [] value = refl
  exclude_by_lem (rule ∷ rules) value = ground (arith, exclude_by_lem rules value)

  -- What a path is by these rules.
  abbrev pub verdict : Rules ps → FilePath → Status
  verdict r value =
      if any_matches r.inclusion value
      then (if any_matches r.exclusion value then excluded else passed)
      else not_included

  pub passes-verdict : (r : Rules ps) (value : FilePath) → passes ps r value ≡ verdict r value
  unfolding passes
  passes-verdict r value =
      ground (arith, include_by_lem r.inclusion value, exclude_by_lem r.exclusion value)

  any_matches-append :
      (xs ys : List (RuleDef ps)) (value : FilePath)
      → any_matches (xs ++ ys) value ≡ (any_matches xs value || any_matches ys value)
  any_matches-append [] ys value = refl
  any_matches-append (x ∷ xs) ys value = ground (arith, any_matches-append xs ys value)

  -- The rules of two sets that are joined pass a path exactly if a rule of either set includes it and
  -- no rule of either set excludes it. A path that no rule includes is not included, also where a rule
  -- excludes it; a path that is included and excluded is excluded.
  pub passes-add_all :
      (r others : Rules ps) (value : FilePath)
      → passes ps (add_all ps r others) value ≡ (
          if any_matches r.inclusion value || any_matches others.inclusion value
          then (if any_matches r.exclusion value || any_matches others.exclusion value
              then excluded
              else passed)
          else not_included)
  unfolding add_all
  passes-add_all r others value =
      passes-verdict (add_all ps r others) value
      ∙ rw
          (
            any_matches-append r.inclusion others.inclusion value,
            any_matches-append r.exclusion others.exclusion value,
          )
          refl
