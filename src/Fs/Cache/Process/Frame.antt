-- ===== src/Fs/Cache/Process/Frame.antt =====
-- What the calls around a rename leave as it was.
use logdna_agent_v.Base.{
  ◌≡◌, refl, sym, ap, subst, ◌∙◌, Option, none, some, List, [], ◌∷◌, Result, ok, err, inl, inr,
  Bool-cases, Option-cases,
}
use logdna_agent_v.Shared.FilePath.{FilePath}
use logdna_agent_v.Fs.Cache.Data.{
  World, OsString, Children, Entry, EntryKind, FileSystem, Error, Stop, parent_lookup, children,
}
use logdna_agent_v.Fs.Cache.Effect.{M, after, ok_or, put_kind}
use logdna_agent_v.Fs.Cache.Passes.{first_or_panic, lookup_path, lookup_parent}
use logdna_agent_v.Fs.Cache.Register.{insert_child, remove_child, with_children, change_children}
use logdna_agent_v.Fs.Cache.Process.{leave_dir, enter_dir}
use logdna_agent_v.Fs.Cache.Tidy.{SlotLaws}

-- A call that succeeds, taken apart.
pub after-ok :
    {w : World} {A B : Type 0} (r : FileSystem w × Result (Stop w) A) (f : A → M w B)
    (c' : FileSystem w) (b : B)
    → after r f ≡ (c', ok b)
    → (d : FileSystem w) × (a : A) × (r ≡ (d, ok a)) × (f a d ≡ (c', ok b))
after-ok (d, ok a) f c' b h = (d, a, refl, h)
after-ok (d, err s) f c' b h = absurd (cc)

module _ (w : World) (laws : SlotLaws w) where
  -- Descriptors and events are the same, and so is the path of each entry.
  pub record Keeps (c c' : FileSystem w) : Type 0 where
    pub descriptors : c'.watch_descriptors ≡ c.watch_descriptors
    pub events : c'.events ≡ c.events
    pub paths :
        (k : w.Key) (e : Entry w.Key)
        → w.get c.entries k ≡ some e
        → (e' : Entry w.Key) × (w.get c'.entries k ≡ some e') × (e'.path ≡ e.path)

  as_it_was : (c : FileSystem w) → Keeps c c
  as_it_was c = record { descriptors = refl; events = refl; paths = λ k e h. (e, h, refl) }

  put_kind-paths :
      (c : FileSystem w) (k : w.Key) (e : Entry w.Key) (kind : EntryKind w.Key)
      → w.get c.entries k ≡ some e
      → Keeps c (put_kind k e kind c).0
  put_kind-paths c k e kind is = record {
    descriptors = refl;
    events = refl;
    paths = λ j x h. elim (Bool-cases (w.same_key k j)) [
      | inl q ↦
          let at : w.get c.entries j ≡ some e = rw (← (laws.same_iff k j).0 q) is in
          let old : x ≡ e = cc in
          (
            record e { kind = kind },
            laws.get-set c.entries k _ e j is ∙ rw q refl,
            ap (λ (y : Entry w.Key). y.path) (sym old),
          )
      | inr q ↦ (x, laws.get-set c.entries k _ e j is ∙ rw q h, refl)
    ];
  }

  by_result :
      (c c' : FileSystem w) (r : FileSystem w × Result (Stop w) (Unit {0}))
      → Keeps c r.0
      → r ≡ (c', ok tt)
      → Keeps c c'
  by_result c c' r k h = subst (λ (q : FileSystem w × Result (Stop w) (Unit {0})). Keeps c q.0) h k

  pub change_children-Keeps :
      (c c' : FileSystem w) (k : w.Key) (missing : Error w)
      (change : Children w.Key → Children w.Key)
      → change_children w k missing change c ≡ (c', ok tt)
      → Keeps c c'
  unfolding change_children
  change_children-Keeps c c' k missing change h = elim (Option-cases (w.get c.entries k)) [
    | inl q ↦ let bad = rw q at h in absurd (cc)
    | inr (e, q) ↦ elim (Option-cases (children w e.kind)) [
      | inl n ↦ let bad = rw n at (rw q at h) in absurd (cc)
      | inr (cs, s) ↦
          by_result c c' _ (put_kind-paths c k e (with_children w (change cs) e.kind) q)
            (rw s at (rw q at h))
    ]
  ]

  pub leave_dir-Keeps :
      (c c' : FileSystem w) (name : OsString) (o : Option w.Key)
      → leave_dir w name o c ≡ (c', ok tt)
      → Keeps c c'
  leave_dir-Keeps c c' name none h = by_result c c' _ (as_it_was c) h
  leave_dir-Keeps c c' name (some parent) h =
      change_children-Keeps c c' parent parent_lookup (remove_child name) h

  pub enter_dir-Keeps :
      (c c' : FileSystem w) (name : OsString) (k : w.Key) (o : Option w.Key)
      → enter_dir w name k o c ≡ (c', ok tt)
      → Keeps c c'
  enter_dir-Keeps c c' name k none h = by_result c c' _ (as_it_was c) h
  enter_dir-Keeps c c' name k (some parent) h =
      change_children-Keeps c c' parent parent_lookup (insert_child name k) h

  pub found_state :
      (o : Option (List w.Key)) (c d : FileSystem w) (a : Option w.Key)
      → first_or_panic w o c ≡ (d, ok a)
      → d ≡ c
  found_state none c d a h = cc
  found_state (some []) c d a h = absurd (cc)
  found_state (some (k ∷ ks)) c d a h = cc

  pub lookup_parent_state :
      (path : FilePath) (c d : FileSystem w) (a : Option w.Key)
      → lookup_parent w path c ≡ (d, ok a)
      → d ≡ c
  unfolding lookup_path
  lookup_parent_state [] c d a h = cc
  lookup_parent_state (name ∷ parent) c d a h = found_state (c.watch_descriptors parent) c d a h

  pub ok_or_state :
      {A : Type 0} (e : Error w) (o : Option A) (c d : FileSystem w) (a : A)
      → ok_or e o c ≡ (d, ok a)
      → (d ≡ c) × (o ≡ some a)
  ok_or_state e none c d a h = absurd (cc)
  ok_or_state e (some b) c d a h = (cc, cc)
