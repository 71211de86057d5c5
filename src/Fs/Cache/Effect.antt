-- ===== src/Fs/Cache/Effect.antt =====
-- Calls on the cache: the new state, with a value or the way in which the call ends without one. What
-- a call changed before it failed stays changed.
use logdna_agent_v.Base.{Option, none, some, [], ◌∷◌, ◌++◌, Result, ok, err}
use logdna_agent_v.Fs.Cache.Data.{
  World, Entry, EntryKind, FileSystem, Event, Error, Stop, failed, panicked, exited, out_of_fuel,
}

abbrev pub M : World → Type 0 → Type 0
M w A = FileSystem w → FileSystem w × Result (Stop w) A

abbrev pub after :
    {w : World} {A B : Type 0}
    → FileSystem w × Result (Stop w) A
    → (A → M w B)
    → FileSystem w × Result (Stop w) B
after (c, ok a) f = f a c
after (c, err s) f = (c, err s)

infixl 5 ◌>>=◌ ◌>>◌
abbrev pub ◌>>=◌ : {w : World} {A B : Type 0} → M w A → (A → M w B) → M w B
◌>>=◌ m f c = after (m c) f

abbrev pub ◌>>◌ : {w : World} {A B : Type 0} → M w A → M w B → M w B
m >> k = m >>= λ _. k

module _ {w : World} where
  abbrev pub return : {A : Type 0} → A → M w A
  return a c = (c, ok a)

  abbrev pub stop : {A : Type 0} → Stop w → M w A
  stop s c = (c, err s)

  abbrev pub fail : {A : Type 0} → Error w → M w A
  fail e = stop (failed e)

  -- `m?` of a result that is at hand, with the error that the caller makes of it.
  abbrev pub try_or : {A E : Type 0} → (E → Error w) → Result E A → M w A
  try_or f (ok a) = return a
  try_or f (err e) = fail (f e)

  abbrev pub ok_or : {A : Type 0} → Error w → Option A → M w A
  ok_or e none = fail e
  ok_or e (some a) = return a

  -- The result of a call as a value. A panic, an exit and the end of the fuel are no results.
  abbrev pub caught :
      {A : Type 0}
      → FileSystem w × Result (Stop w) A
      → FileSystem w × Result (Stop w) (Result (Error w) A)
  caught (c, ok a) = (c, ok (ok a))
  caught (c, err (failed e)) = (c, ok (err e))
  caught (c, err panicked) = (c, err panicked)
  caught (c, err exited) = (c, err exited)
  caught (c, err out_of_fuel) = (c, err out_of_fuel)

  abbrev pub attempt : {A : Type 0} → M w A → M w (Result (Error w) A)
  attempt m c = caught (m c)

  abbrev pub state : M w (FileSystem w)
  state c = (c, ok c)

  abbrev pub modify : (FileSystem w → FileSystem w) → M w (Unit {0})
  modify f c = (f c, ok tt)

  abbrev pub push : Event w → M w (Unit {0})
  push e = modify (λ c. record c { events = c.events ++ e ∷ [] })

  -- `_entries.get(key)` and `_entries.get_mut(key)`
  abbrev pub get_entry : w.Key → M w (Option (Entry w.Key))
  get_entry k c = (c, ok (w.get c.entries k))

  abbrev pub put_kind : w.Key → Entry w.Key → EntryKind w.Key → M w (Unit {0})
  put_kind k e kind =
      modify (λ c. record c { entries = w.set c.entries k (record e { kind = kind }) })

  abbrev pub insert_entry : Entry w.Key → M w w.Key
  insert_entry e c =
      let (entries, k) = w.insert c.entries e in (record c { entries = entries }, ok k)
