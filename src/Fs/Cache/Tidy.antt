-- ===== src/Fs/Cache/Tidy.antt =====
-- Descriptors that are in order: a path that has descriptors has at least one, and each leads to an
-- entry. The rules for the calls that keep this, under the documented laws of a slot map.
pub mod Basic
pub mod Passes
pub mod Register
pub mod Insert
pub mod Remove
pub mod Process
pub mod Start
pub mod History
use logdna_agent_v.Base.{
  ◌≡◌, ◌≢◌, ◌↔◌, refl, ◌⊎◌, inl, inr, Bool, true, false, Option, none, some, List, [], ◌∷◌, ◌++◌,
  Result, ok, err, Option-cases, Bool-cases, arith, if◌then◌else◌,
}
use logdna_agent_v.Shared.FilePath.{FilePath}
use logdna_agent_v.Fs.Cache.Data.{
  World, Entry, FileSystem, Error, Stop, failed, panicked, exited, out_of_fuel,
}
use logdna_agent_v.Fs.Cache.Effect.{M, after, caught, modify}

-- Keys can be compared; an entry stays under its key, and is written through it.
pub record SlotLaws (w : World) : Type 0 where
  pub same_iff : (a b : w.Key) → (w.same_key a b ≡ true) ↔ (a ≡ b)
  pub get-insert :
      (m : w.EntryMap) (e : Entry w.Key) (j : w.Key)
      → w.get (w.insert m e).0 j ≡ (if w.same_key (w.insert m e).1 j then some e else w.get m j)
  pub get-insert_new : (m : w.EntryMap) (e : Entry w.Key) → w.get m (w.insert m e).1 ≡ none
  pub get-set :
      (m : w.EntryMap) (k : w.Key) (e old : Entry w.Key) (j : w.Key)
      → w.get m k ≡ some old
      → w.get (w.set m k e) j ≡ (if w.same_key k j then some e else w.get m j)

module _ (w : World) where
  abbrev pub Live : w.EntryMap → w.Key → Type 0
  Live m k = w.get m k ≢ none

  abbrev pub AllLive : w.EntryMap → List w.Key → Type 0
  AllLive m [] = Unit
  AllLive m (k ∷ ks) = Live m k × AllLive m ks

  abbrev pub InOrder : w.EntryMap → Option (List w.Key) → Type 0
  InOrder m none = Unit
  InOrder m (some []) = ⊥
  InOrder m (some (k ∷ ks)) = Live m k × AllLive m ks

  abbrev pub Tidy : FileSystem w → Type 0
  Tidy c = (p : FilePath) → InOrder c.entries (c.watch_descriptors p)

  -- The descriptors are in order, and no entry went away.
  pub record After (c c' : FileSystem w) : Type 0 where
    pub tidy : Tidy c'
    pub grown : (k : w.Key) → Live c.entries k → Live c'.entries k

  -- Where the keys lead to entries the call keeps the descriptors in order, however it ends.
  pub record KeepsFor {A : Type 0} (ks : List w.Key) (m : M w A) : Type 0 where
    pub run : (c : FileSystem w) → AllLive c.entries ks → Tidy c → After c (m c).0

  abbrev pub Keeps : {A : Type 0} → M w A → Type 0
  Keeps m = KeepsFor [] m

module _ (w : World) where
  pub AllLive-mono :
      (m m' : w.EntryMap) (ks : List w.Key)
      → ((k : w.Key) → Live w m k → Live w m' k)
      → AllLive w m ks
      → AllLive w m' ks
  AllLive-mono m m' [] g l = tt
  AllLive-mono m m' (k ∷ ks) g l = (g k l.0, AllLive-mono m m' ks g l.1)

  pub InOrder-mono :
      (m m' : w.EntryMap) (ks : Option (List w.Key))
      → ((k : w.Key) → Live w m k → Live w m' k)
      → InOrder w m ks
      → InOrder w m' ks
  InOrder-mono m m' none g l = tt
  InOrder-mono m m' (some []) g l = l
  InOrder-mono m m' (some (k ∷ ks)) g l = (g k l.0, AllLive-mono m m' ks g l.1)

module _ {w : World} where
  pub same : (c : FileSystem w) → Tidy w c → After w c c
  same c t = record { tidy = t; grown = λ k l. l }

  after_both : {a b c : FileSystem w} → After w a b → After w b c → After w a c
  after_both p q = record { tidy = q.tidy; grown = λ k l. q.grown k (p.grown k l) }

  pub return_keeps :
      {A : Type 0} {ks : List w.Key} {r : Result (Stop w) A} → KeepsFor w ks (λ c. (c, r))
  return_keeps = record { run = λ c l t. same c t }

  bind_at :
      {A B : Type 0} {ks : List w.Key} {c : FileSystem w} (r : FileSystem w × Result (Stop w) A)
      (f : A → M w B)
      → AllLive w c.entries ks
      → After w c r.0
      → ((a : A) → KeepsFor w ks (f a))
      → After w c (after r f).0
  bind_at {ks} {c} (c', ok a) f l p k =
      after_both p ((k a).run c' (AllLive-mono w c.entries c'.entries ks p.grown l) p.tidy)
  bind_at (c', err s) f l p k = p

  pub bind :
      {A B : Type 0} {ks : List w.Key} {m : M w A} {f : A → M w B}
      → KeepsFor w ks m
      → ((a : A) → KeepsFor w ks (f a))
      → KeepsFor w ks (λ c. after (m c) f)
  bind {m} {f} p k = record { run = λ c l t. bind_at (m c) f l (p.run c l t) k }

  pub weaken : {A : Type 0} {ks : List w.Key} {m : M w A} → Keeps w m → KeepsFor w ks m
  weaken p = record { run = λ c l t. p.run c tt t }

  caught_at :
      {A : Type 0} {c : FileSystem w} (r : FileSystem w × Result (Stop w) A)
      → After w c r.0
      → After w c (caught r).0
  caught_at (c', ok a) p = p
  caught_at (c', err (failed e)) p = p
  caught_at (c', err panicked) p = p
  caught_at (c', err exited) p = p
  caught_at (c', err out_of_fuel) p = p

  pub caught_keeps :
      {A : Type 0} {ks : List w.Key} {m : M w A}
      → KeepsFor w ks m
      → KeepsFor w ks (λ c. caught (m c))
  caught_keeps {m} p = record { run = λ c l t. caught_at (m c) (p.run c l t) }

  -- A change of other fields.
  pub quiet :
      {ks : List w.Key} {f : FileSystem w → FileSystem w}
      → ((c : FileSystem w) → Tidy w c → After w c (f c))
      → KeepsFor w ks (modify f)
  quiet p = record { run = λ c l t. p c t }
