-- ===== src/Fs/Cache/Process/Rename.antt =====
-- What a rename does to the descriptors.
use logdna_agent_v.Base.{◌≡◌, refl, ap, subst, ◌∙◌, false, Option, some, List, [], ◌∷◌, Result, ok}
use logdna_agent_v.Shared.FilePath.{FilePath, file_name, same_path, same_path_refl}
use logdna_agent_v.Fs.Cache.Data.{World, component, Entry, FileSystem, Stop, lookup, path_not_valid}
use logdna_agent_v.Fs.Cache.Effect.{ok_or}
use logdna_agent_v.Fs.Cache.Passes.{first_or_panic, lookup_path, lookup_parent}
use logdna_agent_v.Fs.Cache.Process.{Events, leave_dir, move_to, rename_entry, process_rename}
use logdna_agent_v.Fs.Cache.Tidy.{SlotLaws}
use logdna_agent_v.Fs.Cache.Process.Frame.{
  after-ok, Keeps, leave_dir-Keeps, enter_dir-Keeps, found_state, lookup_parent_state, ok_or_state,
}

module _ (w : World) (laws : SlotLaws w) where
  -- The descriptors after the move, and where the entry is said to be.
  pub record Moved (c c' : FileSystem w) (to : FilePath) (k : w.Key) : Type 0 where
    pub new_path : c'.watch_descriptors to ≡ some (k ∷ [])
    pub others :
        (p : FilePath) → same_path to p ≡ false → c'.watch_descriptors p ≡ c.watch_descriptors p
    pub events : c'.events ≡ c.events
    pub entry : Entry w.Key
    pub found : w.get c'.entries k ≡ some entry
    pub renamed : entry.path ≡ to

  moved :
      (c : FileSystem w) (to : FilePath) (k : w.Key) (e : Entry w.Key)
      → w.get c.entries k ≡ some e
      → Moved c (move_to w to k c).0 to k
  moved c to k e q = rw q (record {
    new_path = rw (same_path_refl to) refl;
    others = λ p no. rw no refl;
    events = refl;
    entry = record e { path = to };
    found = laws.get-set c.entries k _ e k q ∙ rw ((laws.same_iff k k).1 refl) refl;
    renamed = refl;
  })

  move_to-Moved :
      (c c' : FileSystem w) (to : FilePath) (k : w.Key)
      → move_to w to k c ≡ (c', ok tt)
      → Moved c c' to k
  move_to-Moved c c' to k h =
      let (d, e, e1, h1) = after-ok (ok_or lookup (w.get c.entries k) c) _ c' tt h in
      let is = (ok_or_state w laws lookup (w.get c.entries k) c d e e1).1 in
      subst (λ (r : FileSystem w × Result (Stop w) (Unit {0})). Moved c r.0 to k) h
        (moved c to k e is)

  join_moves :
      (c d d' c' : FileSystem w) (to : FilePath) (k : w.Key)
      → Keeps w laws c d
      → Moved d d' to k
      → Keeps w laws d' c'
      → Moved c c' to k
  join_moves c d d' c' to k before m behind =
      let (e, f, p) = behind.paths k m.entry m.found in
      record {
        new_path = ap (λ ds. ds to) behind.descriptors ∙ m.new_path;
        others = λ p no.
            ap (λ ds. ds p) behind.descriptors ∙ m.others p no ∙ ap (λ ds. ds p) before.descriptors;
        events = behind.events ∙ m.events ∙ before.events;
        entry = e;
        found = f;
        renamed = p ∙ m.renamed;
      }

  renamed_entry :
      (c c' : FileSystem w) (from to : FilePath) (new_parent : Option w.Key) (k : w.Key)
      → rename_entry w from to new_parent (some k) c ≡ (c', ok tt)
      → Moved c c' to k
  renamed_entry c c' from to new_parent k h =
      let (c1, entry, e1, h1) = after-ok (ok_or lookup (w.get c.entries k) c) _ c' tt h in
      let (c2, new_name, e2, h2) =
        after-ok (ok_or (path_not_valid to) (file_name to) c1) _ c' tt h1 in
      let (c3, old_name, e3, h3) =
        after-ok (ok_or (path_not_valid entry.path) (file_name entry.path) c2) _ c' tt h2 in
      let (c4, old_parent, e4, h4) = after-ok (lookup_parent w from c3) _ c' tt h3 in
      let (c5, _, e5, h5) = after-ok (leave_dir w (component old_name) old_parent c4) _ c' tt h4 in
      let (c6, _, e6, h6) = after-ok (move_to w to k c5) _ c' tt h5 in
      let same : c4 ≡ c =
        lookup_parent_state w laws from c3 c4 old_parent e4
        ∙ (ok_or_state w laws _ (file_name entry.path) c2 c3 old_name e3).0
        ∙ (ok_or_state w laws _ (file_name to) c1 c2 new_name e2).0
        ∙ (ok_or_state w laws _ (w.get c.entries k) c c1 entry e1).0 in
      let left =
        subst (λ (x : FileSystem w). Keeps w laws x c5) same
          (leave_dir-Keeps w laws c4 c5 (component old_name) old_parent e5) in
      let entered = enter_dir-Keeps w laws c6 c' (component new_name) k new_parent h6 in
      join_moves c c5 c6 c' to k left (move_to-Moved c5 c6 to k e6) entered

  found_first :
      (o : Option (List w.Key)) (k : w.Key) (ks : List w.Key) (c d : FileSystem w)
      (a : Option w.Key)
      → o ≡ some (k ∷ ks)
      → first_or_panic w o c ≡ (d, ok a)
      → a ≡ some k
  found_first o k ks c d a e h =
      let it : first_or_panic w (some (k ∷ ks)) c ≡ (d, ok a) =
        subst (λ (p : Option (List w.Key)). first_or_panic w p c ≡ (d, ok a)) e h in
      cc

  -- Where the handling of a rename of a tracked path succeeds there are no events; the new path leads to
  -- the entry alone, which bears the new path; and all other paths lead where they led, the old one
  -- to the renamed entry.
  pub process_rename-Moved :
      (c c' : FileSystem w) (from to : FilePath) (k : w.Key) (ks : List w.Key) (es : Events w)
      → c.watch_descriptors from ≡ some (k ∷ ks)
      → process_rename w from to c ≡ (c', ok es)
      → Moved (record c { events = [] }) c' to k × (es ≡ [])
  unfolding process_rename lookup_path
  process_rename-Moved c c' from to k ks es tracked h =
      let c0 : FileSystem w = record c { events = [] } in
      let (c1, _, e1, h1) = after-ok _ _ c' es h in
      let (d1, new_parent, f1, g1) = after-ok (lookup_parent w to c0) _ c1 tt e1 in
      let (d2, found, f2, g2) = after-ok (lookup_path w from d1) _ c1 tt g1 in
      let s1 : d1 ≡ c0 = lookup_parent_state w laws to c0 d1 new_parent f1 in
      let s2 : d2 ≡ d1 = found_state w laws (d1.watch_descriptors from) d1 d2 found f2 in
      let first : found ≡ some k =
        found_first (d1.watch_descriptors from) k ks d1 d2 found
          (ap (λ (x : FileSystem w). x.watch_descriptors from) s1 ∙ tracked) f2 in
      let call : rename_entry w from to new_parent (some k) c0 ≡ (c1, ok tt) =
        subst (λ (o : Option w.Key). rename_entry w from to new_parent o c0 ≡ (c1, ok tt)) first
          (subst (λ (x : FileSystem w). rename_entry w from to new_parent found x ≡ (c1, ok tt))
            (s2 ∙ s1) g2) in
      let m = renamed_entry c0 c1 from to new_parent k call in
      let end : c1 ≡ c' = cc in
      let events : es ≡ c1.events = cc in
      (subst (λ (x : FileSystem w). Moved c0 x to k) end m, events ∙ m.events)
