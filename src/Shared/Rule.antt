-- ===== src/Shared/Rule.antt =====
-- common/misc/shared_types/src/rule.rs: the inclusion and exclusion rules of paths. The matching of
-- regular expressions (a `pcre2` that fails counts as no match) and of globs is a parameter.
pub mod Verdicts
use logdna_agent_v.Base.{Bool, true, false, Option, none, some, List, [], ◌∷◌, ◌++◌, if◌then◌else◌}
use logdna_agent_v.Shared.FilePath.{FilePath}

pub record Patterns : Type 1 where
  pub Regex : Type 0
  pub Glob : Type 0
  pub is_match : Regex → FilePath → Option Bool
  pub glob_matches : Glob → FilePath → Bool

pub data Status : Type 0 where
  not_included excluded passed : Status

pub is_ok : Status → Bool
is_ok not_included = false
is_ok excluded = false
is_ok passed = true

module _ (ps : Patterns) where
  pub data RuleDef : Type 0 where
    regex_rule : ps.Regex → RuleDef
    glob_rule : ps.Glob → RuleDef

  abbrev pub or_false : Option Bool → Bool
  or_false none = false
  or_false (some b) = b

  unfoldable pub matches : RuleDef → FilePath → Bool
  matches (regex_rule re) value = or_false (ps.is_match re value)
  matches (glob_rule p) value = ps.glob_matches p value

  pub record Rules : Type 0 where
    pub inclusion : List RuleDef
    pub exclusion : List RuleDef

  unfoldable pub new : Rules
  new = record { inclusion = []; exclusion = [] }

  -- The loops over the rules.
  include_by : List RuleDef → FilePath → Status
  include_by [] value = not_included
  include_by (rule ∷ rules) value =
      let rest = include_by rules value in if matches rule value then passed else rest

  exclude_by : List RuleDef → FilePath → Status
  exclude_by [] value = passed
  exclude_by (rule ∷ rules) value =
      let rest = exclude_by rules value in if matches rule value then excluded else rest

  unfoldable pub included : Rules → FilePath → Status
  unfolding include_by
  included r value = include_by r.inclusion value

  unfoldable pub excluded_by : Rules → FilePath → Status
  unfolding exclude_by
  excluded_by r value = exclude_by r.exclusion value

  -- `included == NotIncluded`, and the rest of `passes`.
  abbrev pub if_included : Status → Status → Status
  if_included not_included later = not_included
  if_included excluded later = later
  if_included passed later = later

  unfoldable pub passes : Rules → FilePath → Status
  unfolding included excluded_by
  passes r value = if_included (included r value) (excluded_by r value)

  unfoldable pub add_inclusion : Rules → RuleDef → Rules
  add_inclusion r rule = record r { inclusion = r.inclusion ++ rule ∷ [] }

  unfoldable pub add_exclusion : Rules → RuleDef → Rules
  add_exclusion r rule = record r { exclusion = r.exclusion ++ rule ∷ [] }

  unfoldable pub add_all : Rules → Rules → Rules
  add_all r others = record {
    inclusion = r.inclusion ++ others.inclusion;
    exclusion = r.exclusion ++ others.exclusion;
  }
