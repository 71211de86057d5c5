-- ===== src/Examples/Http.antt =====
-- The limiter.
use logdna_agent_v.Base.{◌*◌, ◌^◌, ◌≡◌, [], ◌∷◌, arith}
use logdna_agent_v.Http.Limit.{
  new, outside, loaded, holds, after_load, after_exchange, World, loads, exchanges, Reach, here,
  next, snooze, new_backoff,
}
use logdna_agent_v.Http.Limit.Safety.{Inv, all_outside, Reach-Inv}
use logdna_agent_v.Http.Limit.Snooze.{snoozes, snooze_doubles}

-- Two tasks load the one free slot, and one of them gets it.
abbrev raced : World
raced = record { limiter = record { slots = 1; max = 1 }; tasks = holds 1 ∷ outside ∷ [] }

race : Reach (record { limiter = new 1; tasks = all_outside 2 }) raced
unfolding new after_load after_exchange
race =
    next
      (next (next (next here (loads (new 1) [] (outside ∷ []))) (loads (new 1) (loaded 0 ∷ []) []))
        (exchanges (new 1) [] (loaded 0 ∷ []) 0))
      (exchanges (record { slots = 1; max = 1 }) (holds 1 ∷ []) [] 0)

Reach-Inv_example : Inv 1 raced
Reach-Inv_example = Reach-Inv 2 1 (omega arith) race

snooze_doubles_example : (snooze (snoozes 3 new_backoff)).0 ≡ 10 * 2 ^ 3
snooze_doubles_example = snooze_doubles 3 (omega arith)
