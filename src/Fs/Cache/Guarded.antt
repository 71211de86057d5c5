-- ===== src/Fs/Cache/Guarded.antt =====
-- common/fs/src/cache/guarded_option.rs: a value that can be switched off.
use logdna_agent_v.Base.{Bool, true, false, not, Option, none, some, if◌then◌else◌}

pub record GuardedOption (T : Type 0) : Type 0 where
  pub value : T
  pub state : Bool

module _ {T : Type 0} where
  unfoldable pub toggle_on : GuardedOption T → GuardedOption T
  toggle_on g = record g { state = true }

  unfoldable pub toggle_off : GuardedOption T → GuardedOption T
  toggle_off g = record g { state = false }

  -- `state ^= true`
  unfoldable pub toggle : GuardedOption T → GuardedOption T
  toggle g = record g { state = not g.state }

  abbrev pub as_value : GuardedOption T → T
  as_value g = g.value

  unfoldable pub as_option : GuardedOption T → Option T
  as_option g = if g.state then some g.value else none
