-- ===== src/Http/Limit.antt =====
-- common/http/src/limit.rs: the limiter of requests in flight. Every access to the counter is one
-- step; tasks interleave between them. A task that is refused sleeps and starts anew.
pub mod Safety
pub mod Snooze
use logdna_agent_v.Base.{
  ℕ, suc, ◌+◌, ◌-◌, ◌*◌, ◌%◌, ◌^◌, ◌≡◌, Bool, true, false, Option, none, some, List, [], ◌∷◌, ◌++◌,
  u64_mod, leb, ◌==◌, if◌then◌else◌,
}

pub record RateLimiter : Type 0 where
  pub slots : ℕ
  pub max : ℕ

unfoldable pub new : ℕ → RateLimiter
new max = record { slots = 0; max = max }

-- `slots.load`, and the test: `none` if no slot is free.
unfoldable pub load : RateLimiter → Option ℕ
load lim = if leb lim.max lim.slots then none else some lim.slots

-- `slots.compare_exchange(current, current + 1)`
unfoldable pub compare_exchange : RateLimiter → ℕ → RateLimiter × Bool
compare_exchange lim current =
    if lim.slots == current
    then (record lim { slots = (current + 1) % u64_mod }, true)
    else (lim, false)

-- The drop of the last reference to a slot: `fetch_sub(1)`.
unfoldable pub drop_slot : RateLimiter → RateLimiter
drop_slot lim = record lim { slots = (lim.slots + u64_mod - 1) % u64_mod }

-- Where a task stands in `get_slot`.
pub data Task : Type 0 where
  outside : Task
  loaded : ℕ → Task
  holds : ℕ → Task

unfoldable pub after_load : RateLimiter → Task
unfolding load
after_load lim = elim (load lim) [ none ↦ outside | some current ↦ loaded current ]

unfoldable pub after_exchange : RateLimiter → ℕ → Task
unfolding compare_exchange
after_exchange lim current =
    if (compare_exchange lim current).1 then holds (current + 1) else outside

pub record World : Type 0 where
  pub limiter : RateLimiter
  pub tasks : List Task

-- One task, anywhere among the others, makes one step.
pub data Step : World → World → Type 0 where
  loads :
      (lim : RateLimiter) (front back : List Task)
      → Step
          (record { limiter = lim; tasks = front ++ outside ∷ back })
          (record { limiter = lim; tasks = front ++ after_load lim ∷ back })
  exchanges :
      (lim : RateLimiter) (front back : List Task) (current : ℕ)
      → Step
          (record { limiter = lim; tasks = front ++ loaded current ∷ back })
          (record {
            limiter = (compare_exchange lim current).0;
            tasks = front ++ after_exchange lim current ∷ back;
          })
  drops :
      (lim : RateLimiter) (front back : List Task) (slot : ℕ)
      → Step
          (record { limiter = lim; tasks = front ++ holds slot ∷ back })
          (record { limiter = drop_slot lim; tasks = front ++ outside ∷ back })

pub data Reach (w : World) : World → Type 0 where
  here : Reach w w
  next : {u v : World} → Reach w u → Step u v → Reach w v

pub record Backoff : Type 0 where
  pub step : ℕ
  pub base : ℕ
  pub multipler : ℕ

unfoldable pub new_backoff : Backoff
new_backoff = record { step = 0; base = 2; multipler = 10 }

-- The milliseconds of a snooze, and the state behind it.
unfoldable pub snooze : Backoff → ℕ × Backoff
snooze b =
    (b.base ^ b.step % u64_mod * b.multipler % u64_mod, record b { step = (b.step + 1) % 2 ^ 32 })
