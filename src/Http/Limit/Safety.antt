-- ===== src/Http/Limit/Safety.antt =====
-- The slots that tasks hold, over any interleaving of their steps.
use logdna_agent_v.Base.{
  ℕ, suc, ◌+◌, ◌≤◌, ◌<◌, ◌≡◌, refl, sym, subst, ◌∙◌, inl, inr, zero, max as larger, Bool-cases,
  List, [], ◌∷◌, ◌++◌, arith, u64_mod, leb, ◌==◌,
}
use logdna_agent_v.Http.Limit.{
  RateLimiter, new, load, compare_exchange, drop_slot, Task, outside, loaded, holds, after_load,
  after_exchange, World, Step, loads, exchanges, drops, Reach, here, next,
}

abbrev weight : Task → ℕ
weight outside = 0
weight (loaded n) = 0
weight (holds s) = 1

-- The slots that tasks hold.
abbrev pub held : List Task → ℕ
held [] = 0
held (t ∷ ts) = weight t + held ts

held-append : (xs ys : List Task) → held (xs ++ ys) ≡ held xs + held ys
held-append [] ys = omega arith
held-append (x ∷ xs) ys = omega (arith, held-append xs ys)

-- What a task may remember: a count below the limit, or a slot within it.
abbrev Sane : ℕ → Task → Type 0
Sane max outside = Unit
Sane max (loaded n) = n < max
Sane max (holds s) = (0 < s) × (s ≤ max)

abbrev pub AllSane : ℕ → List Task → Type 0
AllSane max [] = Unit
AllSane max (t ∷ ts) = Sane max t × AllSane max ts

AllSane-append :
    (max : ℕ) (xs ys : List Task) → AllSane max xs → AllSane max ys → AllSane max (xs ++ ys)
AllSane-append max [] ys p q = q
AllSane-append max (x ∷ xs) ys p q = (p.0, AllSane-append max xs ys p.1 q)

AllSane-split :
    (max : ℕ) (xs ys : List Task) → AllSane max (xs ++ ys) → AllSane max xs × AllSane max ys
AllSane-split max [] ys p = (tt, p)
AllSane-split max (x ∷ xs) ys p = let (a, b) = AllSane-split max xs ys p.1 in ((p.0, a), b)

pub record Inv (max : ℕ) (w : World) : Type 0 where
  pub same_max : w.limiter.max ≡ max
  pub counted : w.limiter.slots ≡ held w.tasks
  pub bounded : held w.tasks ≤ max
  pub sane : AllSane max w.tasks

swap_one :
    (max : ℕ) (front back : List Task) (t t' : Task)
    → AllSane max (front ++ t ∷ back)
    → Sane max t'
    → AllSane max (front ++ t' ∷ back)
swap_one max [] back t t' a s = (s, a.1)
swap_one max (x ∷ front) back t t' a s = (a.0, swap_one max front back t t' a.1 s)

at_one :
    (max : ℕ) (front back : List Task) (t : Task) → AllSane max (front ++ t ∷ back) → Sane max t
at_one max [] back t a = a.0
at_one max (x ∷ front) back t a = at_one max front back t a.1

held_swap :
    (front back : List Task) (t t' : Task)
    → held (front ++ t' ∷ back) + weight t ≡ held (front ++ t ∷ back) + weight t'
held_swap [] back t t' = omega arith
held_swap (x ∷ front) back t t' = omega (arith, held_swap front back t t')

load_local : (lim : RateLimiter) → Sane lim.max (after_load lim) × (weight (after_load lim) ≡ 0)
unfolding after_load
load_local lim = elim (Bool-cases (leb lim.max lim.slots)) [
  | inl full ↦ rw (full, after_load, load) (tt, refl)
  | inr free ↦ rw (free, after_load, load) (ground arith, refl)
]

exchange_local :
    (lim : RateLimiter) (current : ℕ)
    → current < lim.max
    → lim.max < u64_mod
    → Sane lim.max (after_exchange lim current)
      × ((compare_exchange lim current).0.slots ≡ lim.slots + weight (after_exchange lim current))
      × (lim.slots + weight (after_exchange lim current) ≤ larger lim.slots lim.max)
      × ((compare_exchange lim current).0.max ≡ lim.max)
unfolding after_exchange
exchange_local lim current h k = elim (Bool-cases (lim.slots == current)) [
  | inl same ↦
      rw (same, after_exchange, compare_exchange)
        ((omega arith, omega arith), ground arith, ground arith, refl)
  | inr other ↦ rw (other, after_exchange, compare_exchange) (tt, omega arith, omega arith, refl)
]

Step-Inv : (max : ℕ) {u v : World} → max < u64_mod → Step u v → Inv max u → Inv max v
Step-Inv max h (loads lim front back) i =
    let (s, w) = load_local lim in
    let swap = held_swap front back outside (after_load lim) in
    record {
      same_max = i.same_max;
      counted = omega (arith, i.counted);
      bounded = omega arith;
      sane =
          swap_one max front back outside (after_load lim) i.sane
            (subst (λ m. Sane m (after_load lim)) i.same_max s);
    }
Step-Inv max h (exchanges lim front back current) i =
    let (s, w, b, m) =
      exchange_local lim current (omega (arith, at_one max front back (loaded current) i.sane))
        (omega arith) in
    let swap = held_swap front back (loaded current) (after_exchange lim current) in
    record {
      same_max = m ∙ i.same_max;
      counted = omega arith;
      bounded = omega arith;
      sane =
          swap_one max front back (loaded current) (after_exchange lim current) i.sane
            (subst (λ m. Sane m (after_exchange lim current)) i.same_max s);
    }
Step-Inv max h (drops lim front back slot) i =
    let swap = held_swap front back (holds slot) outside in
    record {
      same_max = unfold drop_slot in i.same_max;
      counted = unfold drop_slot in omega arith;
      bounded = omega arith;
      sane = swap_one max front back (holds slot) outside i.sane tt;
    }

abbrev pub all_outside : ℕ → List Task
all_outside zero = []
all_outside (suc n) = outside ∷ all_outside n

start-Inv : (n max : ℕ) → Inv max (record { limiter = new max; tasks = all_outside n })
unfolding new
start-Inv n max = record {
  same_max = refl;
  counted = sym (none_held n);
  bounded = omega (arith, none_held n);
  sane = all_sane n;
}
  where
    none_held : (n : ℕ) → held (all_outside n) ≡ 0
    none_held zero = refl
    none_held (suc n) = omega (arith, none_held n)

    all_sane : (n : ℕ) → AllSane max (all_outside n)
    all_sane zero = tt
    all_sane (suc n) = (tt, all_sane n)

-- After any interleaving of any number of tasks the counter is the number of slots that the tasks
-- hold, and that is at most the limit, which is as it was; every count that a task remembers is below
-- the limit, and every slot that is held has a number from 1 to the limit. The limit fits into a word.
pub Reach-Inv :
    (n max : ℕ) {w : World}
    → max < u64_mod
    → Reach (record { limiter = new max; tasks = all_outside n }) w
    → Inv max w
Reach-Inv n max h here = start-Inv n max
Reach-Inv n max h (next r s) = Step-Inv max h s (Reach-Inv n max h r)
