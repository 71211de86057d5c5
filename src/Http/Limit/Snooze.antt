-- ===== src/Http/Limit/Snooze.antt =====
-- The sleeps of the backoff, and a task that meets no other.
use native.Mathlib.Nat.{pow-suc}
use logdna_agent_v.Base.{ℕ, zero, suc, ◌*◌, ◌%◌, ◌^◌, ◌≤◌, ◌<◌, ◌≡◌, refl, arith, u64_mod}
use logdna_agent_v.Http.Limit.{Backoff, new_backoff, snooze}

-- The state of the backoff behind `n` sleeps.
abbrev pub snoozes : ℕ → Backoff → Backoff
snoozes zero b = b
snoozes (suc n) b = (snooze (snoozes n b)).1

after_sleeps :
    (n : ℕ) → n ≤ 60 → snoozes n new_backoff ≡ record { step = n; base = 2; multipler = 10 }
unfolding snooze new_backoff
after_sleeps zero h = refl
after_sleeps (suc n) h = rw (after_sleeps n (omega arith)) (ground arith)

pow_pos : (m : ℕ) → 0 < 2 ^ m
pow_pos zero = omega arith
pow_pos (suc m) = rw (pow-suc 2 m) (omega (arith, pow_pos m))

pow_mono : (n m : ℕ) → n ≤ m → 2 ^ n ≤ 2 ^ m
pow_mono zero m h = pow_pos m
pow_mono (suc n) zero h = absurd (omega arith)
pow_mono (suc n) (suc m) h =
    rw (pow-suc 2 n, pow-suc 2 m) (omega (arith, pow_mono n m (omega arith)))

sleep_fits : (x : ℕ) → x ≤ 2 ^ 60 → x % u64_mod * 10 % u64_mod ≡ 10 * x
sleep_fits x h = omega arith

-- The `n`-th sleep of a task, counted from 0, lasts `10 * 2 ^ n` milliseconds, as long as that fits
-- into a word: up to the sleep of number 60.
pub snooze_doubles : (n : ℕ) → n ≤ 60 → (snooze (snoozes n new_backoff)).0 ≡ 10 * 2 ^ n
unfolding snooze
snooze_doubles n h = rw (after_sleeps n h) (sleep_fits (2 ^ n) (pow_mono n 60 h))
