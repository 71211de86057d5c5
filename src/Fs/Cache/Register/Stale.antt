-- ===== src/Fs/Cache/Register/Stale.antt =====
-- Which links go away when an entry is unregistered.
use logdna_agent_v.Base.{
  ◌≡◌, refl, ap, ◌∙◌, ℕ, ◌-◌, ◌&&◌, inl, inr, Bool-cases, arith, Bool, false, Option, none, some,
  List, [], ◌∷◌, Result, ok, err, if◌then◌else◌,
}
use logdna_agent_v.Shared.FilePath.{FilePath, same_path}
use logdna_agent_v.Fs.Cache.Guarded.{as_option}
use logdna_agent_v.Fs.Cache.Symlinks.{Symlinks, get, remove}
use logdna_agent_v.Fs.Cache.Symlinks.Count.{bit, linked, remove-linked}
use logdna_agent_v.Fs.Cache.Data.{World, Entry, EntryKind, FileSystem, Stop}
use logdna_agent_v.Fs.Cache.Effect.{M, after}
use logdna_agent_v.Fs.Cache.Passes.{first_or_panic, lookup_path}
use logdna_agent_v.Fs.Cache.Register.{
  toggle_kind, toggle_found, toggle_entry, toggle_links, links_of, keep_descriptors, unwatch_if_ok,
  unlink, forget, forget_found, without_key, unregister,
}

module _ (w : World) where
  -- The calls that leave the links alone.
  abbrev LeavesLinks : {A : Type 0} → M w A → Type 0
  LeavesLinks m = (c : FileSystem w) → (m c).0.symlinks ≡ c.symlinks

  after-links :
      {A B : Type 0} (c : FileSystem w) (r : FileSystem w × Result (Stop w) A) (f : A → M w B)
      → r.0.symlinks ≡ c.symlinks
      → ((a : A) → LeavesLinks (f a))
      → (after r f).0.symlinks ≡ c.symlinks
  after-links c (c', ok a) f e l = l a c' ∙ e
  after-links c (c', err s) f e l = e

  first_links : (o : Option (List w.Key)) → LeavesLinks (first_or_panic w o)
  first_links none c = refl
  first_links (some []) c = refl
  first_links (some (k ∷ ks)) c = refl

  toggle_kind_links :
      (on : Bool) (k : w.Key) (e : Entry w.Key) (kind : EntryKind w.Key)
      → LeavesLinks (toggle_kind w on k e kind)
  toggle_kind_links on k e (EntryKind.symlink link) c = refl
  toggle_kind_links on k e (EntryKind.file f) c = refl
  toggle_kind_links on k e (EntryKind.dir cs ds) c = refl

  toggle_found_links :
      (on : Bool) (k : w.Key) (o : Option (Entry w.Key)) → LeavesLinks (toggle_found w on k o)
  toggle_found_links on k none c = refl
  toggle_found_links on k (some e) c = toggle_kind_links on k e e.kind c

  toggle_entry_links : (on : Bool) (o : Option w.Key) → LeavesLinks (toggle_entry w on o)
  toggle_entry_links on none c = refl
  toggle_entry_links on (some k) c = toggle_found_links on k (w.get c.entries k) c

  toggle_links-symlinks : (on : Bool) (ss : List FilePath) → LeavesLinks (toggle_links w on ss)
  unfolding toggle_links lookup_path
  toggle_links-symlinks on [] c = refl
  toggle_links-symlinks on (s ∷ ss) c =
      after-links c (first_or_panic w (c.watch_descriptors s) c) _
        (first_links (c.watch_descriptors s) c)
        λ k c'.
          after-links c' (toggle_entry w on k c') _ (toggle_entry_links on k c')
            λ _ c''. toggle_links-symlinks on ss c''

  -- What a step leaves: it succeeds, and the links are as they were.
  abbrev Kept : M w (Unit {0}) → FileSystem w → Type 0
  Kept m c = (c' : FileSystem w) × (m c ≡ (c', ok tt)) × (c'.symlinks ≡ c.symlinks)

  unwatch-Kept :
      (r : Result w.WatchError (Unit {0})) (path : FilePath) (c : FileSystem w)
      → Kept (unwatch_if_ok w r path) c
  unwatch-Kept (ok _) path c = (_, refl, refl)
  unwatch-Kept (err e) path c = (c, refl, refl)

  keep_descriptors-Kept :
      (path : FilePath) (ks : List w.Key) (c : FileSystem w) → Kept (keep_descriptors w path ks) c
  keep_descriptors-Kept path [] c =
      let (c', e, l) = unwatch-Kept (w.unwatch path) path _ in (c', e, l)
  keep_descriptors-Kept path (k ∷ ks) c = (_, refl, refl)

  -- The links without the one that an entry stands for.
  abbrev links_left : FilePath → EntryKind w.Key → Symlinks → Symlinks
  links_left path (EntryKind.symlink link) links =
      if link.state then remove links path link.value else links
  links_left path (EntryKind.file f) links = links
  links_left path (EntryKind.dir cs ds) links = links

  unlink_left :
      (path : FilePath) (kind : EntryKind w.Key) (c : FileSystem w)
      → unlink w path kind c ≡ (record c { symlinks = links_left path kind c.symlinks }, ok tt)
  unfolding as_option
  unlink_left path (EntryKind.symlink link) c = elim (Bool-cases link.state) [
    | inl e ↦ rw e refl
    | inr e ↦ rw e refl
  ]
  unlink_left path (EntryKind.file f) c = refl
  unlink_left path (EntryKind.dir cs ds) c = refl

  forget_left :
      (k : w.Key) (path : FilePath) (kind : EntryKind w.Key) (ks : List w.Key) (c : FileSystem w)
      → (forget w k (record { path = path; kind = kind }) (some ks) c).0.symlinks
        ≡ links_left path kind c.symlinks
  forget_left k path kind ks c =
      let (c', kept, same) = keep_descriptors-Kept path (without_key w k ks) c in
      let d = record c' { symlinks = links_left path kind c'.symlinks } in
      let toggled = toggle_links-symlinks false (links_of w (get d.symlinks path)) d in
      rw kept (
        rw (unlink_left path kind c') (
          after-links d (toggle_links w false (links_of w (get d.symlinks path)) d) _ toggled
            (λ _ e. refl)
          ∙ ap (links_left path kind) same))

  -- How many times the entry stands for the link `q` to the target `t`.
  abbrev pub taken : FilePath → EntryKind w.Key → FilePath → FilePath → ℕ
  taken path (EntryKind.symlink link) q t =
      bit (link.state && (same_path link.value t && same_path path q))
  taken path (EntryKind.file f) q t = 0
  taken path (EntryKind.dir cs ds) q t = 0

  links_left-linked :
      (path : FilePath) (kind : EntryKind w.Key) (links : Symlinks) (q t : FilePath)
      → linked (links_left path kind links) q t ≡ linked links q t - taken path kind q t
  links_left-linked path (EntryKind.symlink link) links q t = elim (Bool-cases link.state) [
    | inl e ↦ rw e (remove-linked links path link.value q t)
    | inr e ↦ rw e (omega arith)
  ]
  links_left-linked path (EntryKind.file f) links q t = omega arith
  links_left-linked path (EntryKind.dir cs ds) links q t = omega arith

  -- An entry that has descriptors is unregistered: exactly if it is a link that is switched on, one
  -- mention of it among the links to its target goes away, if there is one. A link whose target is
  -- missing, so that it is switched off, stays among them. No other link to any path comes or goes,
  -- however the call ends.
  pub unregister-symlinks :
      (c : FileSystem w) (k : w.Key) (path : FilePath) (kind : EntryKind w.Key) (ks : List w.Key)
      → w.get c.entries k ≡ some (record { path = path; kind = kind })
      → c.watch_descriptors path ≡ some ks
      → (q t : FilePath)
      → linked (unregister w k c).0.symlinks q t ≡ linked c.symlinks q t - taken path kind q t
  unfolding unregister
  unregister-symlinks c k path kind ks e there q t =
      ap (λ (o : Option (Entry w.Key)). linked (forget_found w k o c).0.symlinks q t) e
      ∙ ap
          (λ (o : Option (List w.Key)).
            linked (forget w k (record { path = path; kind = kind }) o c).0.symlinks q t)
          there
      ∙ ap (λ l. linked l q t) (forget_left k path kind ks c)
      ∙ links_left-linked path kind c.symlinks q t
