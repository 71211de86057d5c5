-- ===== src/Examples/Fs.antt =====
-- The events of one path.
use logdna_agent_v.Base.{ℕ, ◌+◌, ◌≡◌, refl, List, [], ◌∷◌, length}
use logdna_agent_v.Fs.Debouncer.{create, write, remove, rescan, Timed}
use logdna_agent_v.Fs.Debouncer.Fifo.{arrive, leave, debounced, run_of, leave-arrive}

abbrev arrivals : List (Timed ℕ ℕ)
arrivals =
    (create 1, 5) ∷ (write 1, 8) ∷ (rescan, 8) ∷ (write 1, 7) ∷ (remove 1, 9) ∷ (write 1, 10) ∷ []

writes_join :
    debounced ℕ ℕ arrivals ≡ (create 1, 5) ∷ (write 1, 7) ∷ (remove 1, 9) ∷ (write 1, 10) ∷ []
unfolding debounced run_of
writes_join = refl

leave-arrive_example :
    leave ℕ ℕ (length (debounced ℕ ℕ arrivals) + 3) (arrive ℕ ℕ [] arrivals)
    ≡ debounced ℕ ℕ arrivals
leave-arrive_example = leave-arrive ℕ ℕ arrivals 3
