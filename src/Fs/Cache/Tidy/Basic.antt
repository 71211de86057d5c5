-- ===== src/Fs/Cache/Tidy/Basic.antt =====
-- The changes of entries and descriptors that keep the descriptors in order.
use logdna_agent_v.Base.{
  ◌≡◌, sym, ◌∙◌, inl, inr, Option, none, some, List, [], ◌∷◌, ◌++◌, Bool-cases, Option-cases,
}
use logdna_agent_v.Shared.FilePath.{FilePath, same_path}
use logdna_agent_v.Fs.Cache.Symlinks.{write_at, or_default}
use logdna_agent_v.Fs.Cache.Data.{World, Entry, EntryKind, FileSystem}
use logdna_agent_v.Fs.Cache.Effect.{M, put_kind, insert_entry}
use logdna_agent_v.Fs.Cache.Register.{push_descriptor}
use logdna_agent_v.Fs.Cache.Tidy.{
  SlotLaws, Live, AllLive, InOrder, Tidy, After, KeepsFor, InOrder-mono,
}

module _ (w : World) where
  pub AllLive-snoc :
      (m : w.EntryMap) (ks : List w.Key) (k : w.Key)
      → AllLive w m ks
      → Live w m k
      → AllLive w m (ks ++ k ∷ [])
  AllLive-snoc m [] k a l = (l, tt)
  AllLive-snoc m (j ∷ ks) k a l = (a.0, AllLive-snoc m ks k a.1 l)

  pushed :
      (m : w.EntryMap) (ks : Option (List w.Key)) (k : w.Key)
      → InOrder w m ks
      → Live w m k
      → InOrder w m (some (or_default ks ++ k ∷ []))
  pushed m none k o l = (l, tt)
  pushed m (some []) k o l = absurd o
  pushed m (some (j ∷ ks)) k o l = (o.0, AllLive-snoc m ks k o.1 l)

  -- A write of descriptors that are in order.
  pub write_at-Tidy :
      (c : FileSystem w) (path : FilePath) (ks : Option (List w.Key))
      → InOrder w c.entries ks
      → Tidy w c
      → (p : FilePath) → InOrder w c.entries (write_at path ks c.watch_descriptors p)
  write_at-Tidy c path ks o t p = elim (Bool-cases (same_path path p)) [
    | inl e ↦ rw e o
    | inr e ↦ rw e (t p)
  ]

  pub push_descriptor-Keeps :
      (path : FilePath) (k : w.Key) → KeepsFor w (k ∷ []) (push_descriptor w path k)
  push_descriptor-Keeps path k = record {
    run = λ c l t. record {
      tidy = write_at-Tidy c path _ (pushed c.entries (c.watch_descriptors path) k (t path) l.0) t;
      grown = λ j h. h;
    };
  }

  module _ (laws : SlotLaws w) where
    set_grows :
        (m : w.EntryMap) (k : w.Key) (e old : Entry w.Key)
        → w.get m k ≡ some old
        → (j : w.Key) → Live w m j
        → Live w (w.set m k e) j
    set_grows m k e old is j l there = elim (Bool-cases (w.same_key k j)) [
      | inl q ↦
          let bad : some e ≡ none = sym (rw q at (laws.get-set m k e old j is)) ∙ there in
          absurd (cc)
      | inr q ↦ l (sym (rw q at (laws.get-set m k e old j is)) ∙ there)
    ]

    insert_grows :
        (m : w.EntryMap) (e : Entry w.Key) (j : w.Key) → Live w m j → Live w (w.insert m e).0 j
    insert_grows m e j l there = elim (Bool-cases (w.same_key (w.insert m e).1 j)) [
      | inl q ↦
          let bad : some e ≡ none = sym (rw q at (laws.get-insert m e j)) ∙ there in absurd (cc)
      | inr q ↦ l (sym (rw q at (laws.get-insert m e j)) ∙ there)
    ]

    -- An entry is written where there is one.
    pub set-After :
        (c : FileSystem w) (k : w.Key) (e : Entry w.Key)
        → Live w c.entries k
        → Tidy w c
        → After w c (record c { entries = w.set c.entries k e })
    set-After c k e l t = elim (Option-cases (w.get c.entries k)) [
      | inl q ↦ absurd (l q)
      | inr (old, q) ↦
          let g = set_grows c.entries k e old q in
          record {
            tidy = λ p. InOrder-mono w c.entries _ (c.watch_descriptors p) g (t p);
            grown = g;
          }
    ]

    pub put_kind-Keeps :
        (k : w.Key) (e : Entry w.Key) (kind : EntryKind w.Key) {ks : List w.Key}
        → KeepsFor w (k ∷ ks) (put_kind k e kind)
    put_kind-Keeps k e kind = record { run = λ c l t. set-After c k _ l.0 t }

    pub insert_entry-Keeps : (e : Entry w.Key) {ks : List w.Key} → KeepsFor w ks (insert_entry e)
    insert_entry-Keeps e = record {
      run = λ c l t. record {
        tidy = λ p.
            InOrder-mono w c.entries _ (c.watch_descriptors p) (insert_grows c.entries e) (t p);
        grown = insert_grows c.entries e;
      };
    }

  -- A call that goes on with the entry of a key, if there is one.
  pub with_entry :
      {B : Type 0} {ks : List w.Key} (k : w.Key) (f : Option (Entry w.Key) → M w B)
      → KeepsFor w ks (f none)
      → ((e : Entry w.Key) → KeepsFor w (k ∷ ks) (f (some e)))
      → KeepsFor w ks (λ c. f (w.get c.entries k) c)
  with_entry k f p q = record {
    run = λ c l t. elim (Option-cases (w.get c.entries k)) [
      | inl e ↦ rw e (p.run c l t)
      | inr (x, e) ↦ rw e ((q x).run c ((λ no. absurd (cc)), l) t)
    ];
  }
