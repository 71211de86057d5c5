-- ===== src/Examples/Retry.antt =====
-- The count of the bytes on disk.
use logdna_agent_v.Base.{ℕ, ◌≡◌, refl, some, none, List, [], ◌∷◌, arith, true, false}
use logdna_agent_v.Http.Retry.{
  Outcome, counted, account, entry, unreadable, initial_used, add_entries,
}
use logdna_agent_v.Http.Retry.Account.{Conclusion, account_ends}

-- Another task changes the counter from 5 to 6 in the first pass.
abbrev once_disturbed : List (ℕ × ℕ)
once_disturbed =
    (5, 6)
    ∷ (6, 6)
    ∷ (6, 6)
    ∷ (6, 6)
    ∷ (6, 6)
    ∷ (6, 6)
    ∷ (6, 6)
    ∷ (6, 6)
    ∷ (6, 6)
    ∷ (6, 6)
    ∷ (6, 6)
    ∷ []

counts_later : account 20 10 1 once_disturbed ≡ some (counted 16)
unfolding account
counts_later = refl

sums_retry_files :
    initial_used (
      some (
        entry true (some 3)
        ∷ unreadable
        ∷ entry false (some 9)
        ∷ entry true none
        ∷ entry true (some 4)
        ∷ []))
    ≡ 7
unfolding initial_used add_entries
sums_retry_files = refl

account_ends_example :
    (o : Outcome) × (account 20 10 1 once_disturbed ≡ some o) × Conclusion 20 10 once_disturbed 11 o
account_ends_example = account_ends 20 10 once_disturbed (omega arith)
