-- ===== src/Http/Retry/Account.antt =====
-- When the loop on the counter ends, and how.
use logdna_agent_v.Base.{
  ℕ, zero, suc, ◌+◌, ◌%◌, ◌≤◌, ◌<◌, ◌≡◌, ◌≢◌, refl, inl, inr, Bool-cases, some, List, [], ◌∷◌,
  length, u64_mod, ltb, ◌==◌, arith,
}
use logdna_agent_v.Http.Retry.{Outcome, over_limit, counted, gave_up, account}

-- In each of the first `n` passes the file fits, and the counter changes between load and exchange.
abbrev pub Disturbed : ℕ → ℕ → ℕ → List (ℕ × ℕ) → Type 0
Disturbed disk_limit file_size zero passes = Unit
Disturbed disk_limit file_size (suc n) [] = ⊥
Disturbed disk_limit file_size (suc n) ((cur_used, found) ∷ later) =
    ((cur_used + file_size) % u64_mod ≤ disk_limit)
    × (found ≢ cur_used)
    × Disturbed disk_limit file_size n later

-- What holds in the pass behind `n` disturbed ones.
abbrev pub PassAt : ℕ → List (ℕ × ℕ) → (ℕ → ℕ → Type 0) → Type 0
PassAt n [] P = ⊥
PassAt zero ((cur_used, found) ∷ later) P = P cur_used found
PassAt (suc n) ((cur_used, found) ∷ later) P = PassAt n later P

-- The three ways in which the loop ends, with what the tasks around it have done.
pub data Conclusion (disk_limit file_size : ℕ) (passes : List (ℕ × ℕ)) (tries : ℕ)
    : Outcome → Type 0 where
  ends_over :
      (n : ℕ)
      → n < tries
      → Disturbed disk_limit file_size n passes
      → PassAt n passes (λ cur_used found. disk_limit < (cur_used + file_size) % u64_mod)
      → Conclusion disk_limit file_size passes tries over_limit
  ends_counted :
      (n used : ℕ)
      → n < tries
      → Disturbed disk_limit file_size n passes
      → PassAt n passes
          (λ cur_used found. (found ≡ cur_used) × (used ≡ (cur_used + file_size) % u64_mod))
      → used ≤ disk_limit
      → Conclusion disk_limit file_size passes tries (counted used)
  ends_gave_up :
      Disturbed disk_limit file_size tries passes
      → Conclusion disk_limit file_size passes tries gave_up

one_more :
    (disk_limit file_size cur_used found tries : ℕ) (later : List (ℕ × ℕ)) (o : Outcome)
    → (cur_used + file_size) % u64_mod ≤ disk_limit
    → found ≢ cur_used
    → Conclusion disk_limit file_size later tries o
    → Conclusion disk_limit file_size ((cur_used, found) ∷ later) (suc tries) o
one_more disk_limit file_size cur_used found tries later o f d (ends_over n h s p) =
    ends_over (suc n) (omega arith) (f, d, s) p
one_more disk_limit file_size cur_used found tries later o f d (ends_counted n used h s p b) =
    ends_counted (suc n) used (omega arith) (f, d, s) p b
one_more disk_limit file_size cur_used found tries later o f d (ends_gave_up s) =
    ends_gave_up (f, d, s)

account-Conclusion :
    (disk_limit file_size attempts tries : ℕ) (passes : List (ℕ × ℕ))
    → attempts + tries ≡ 12
    → 0 < tries
    → tries ≤ length passes
    → (o : Outcome) × (account disk_limit file_size attempts passes ≡ some o)
      × Conclusion disk_limit file_size passes tries o
unfolding account
account-Conclusion disk_limit file_size attempts zero passes a t h = absurd (omega arith)
account-Conclusion disk_limit file_size attempts (suc tries) [] a t h = absurd (omega arith)
account-Conclusion disk_limit file_size attempts (suc tries) ((cur_used, found) ∷ later) a t h =
    elim (Bool-cases (ltb disk_limit ((cur_used + file_size) % u64_mod))) [
      | inl over ↦ (over_limit, rw over refl, ends_over 0 (omega arith) tt (ground arith))
      | inr fits ↦ elim (Bool-cases (found == cur_used)) [
        | inl same ↦ (
          counted ((cur_used + file_size) % u64_mod),
          rw (fits, same) refl,
          ends_counted 0 _ (omega arith) tt (ground arith, refl) (ground arith),
        )
        | inr differ ↦ elim (Bool-cases (ltb 10 attempts)) [
          | inl enough ↦
              let last : tries ≡ 0 = ground arith in
              (
                gave_up,
                rw (fits, differ, enough) refl,
                rw last (ends_gave_up (ground arith, ground arith, tt)),
              )
          | inr again ↦
              let (o, e, s) =
                account-Conclusion disk_limit file_size (suc attempts) tries later (omega arith)
                  (ground arith) (omega arith) in
              (
                o,
                rw (fits, differ, again) e,
                one_more disk_limit file_size cur_used found tries later o (ground arith)
                    (λ q. ground arith) s,
              )
        ]
      ]
    ]

-- From its first attempt the loop ends within eleven passes, whatever other tasks do to the counter.
-- It counts the file only if the new count is within the limit, and is the sum of a value that the
-- counter kept from load to exchange and of the size of the file; it finds the limit reached only if
-- that sum passes the limit; and it gives up only if all eleven passes were disturbed.
pub account_ends :
    (disk_limit file_size : ℕ) (passes : List (ℕ × ℕ))
    → 11 ≤ length passes
    → (o : Outcome) × (account disk_limit file_size 1 passes ≡ some o)
      × Conclusion disk_limit file_size passes 11 o
account_ends disk_limit file_size passes h =
    account-Conclusion disk_limit file_size 1 11 passes (omega arith) (omega arith) h
