-- ===== src/Fs/Cache/Offsets/Initial.antt =====
-- The bytes of a new file that count as read.
use logdna_agent_v.Base.{
  ℕ, ◌+◌, ◌<◌, ◌≡◌, ◌↔◌, refl, ap, ◌∙◌, ◌>>=◌, inl, inr, Bool, true, false, Option, none, some, [],
  ◌∷◌, ok, Bool-cases, arith, ltb, leb, u64_mod, if◌then◌else◌,
}
use logdna_agent_v.State.Span.{Span, new}
use logdna_agent_v.State.Span.Merge.{IsValid}
use logdna_agent_v.State.SpanVec.{SpanVec}
use logdna_agent_v.State.SpanVec.Place.{Rising, walk}
use logdna_agent_v.State.SpanVec.Loop.{insert-walk}
use logdna_agent_v.State.SpanVec.Cover.{covers}
use logdna_agent_v.State.SpanVec.Insert.{from_iter-covers}
use logdna_agent_v.Shared.FilePath.{FilePath}
use logdna_agent_v.Shared.Lookback.{Lookback}
use logdna_agent_v.Fs.Cache.Data.{World, Metadata, FileSystem}
use logdna_agent_v.Fs.Cache.Offsets.{
  with_front, completed, lookup_offset, whole_file, created_after, default_offset, choose_offset,
  get_initial_offset,
}

-- The vector is in order and covers the bytes that the test holds of, and no others.
abbrev pub Covering : (ℕ → Bool) → Option SpanVec → Type 0
Covering test result =
    (out : SpanVec) × (result ≡ some out) × Rising 0 out × ((p : ℕ) → covers out p ≡ test p)

with_front_lem :
    (s : Span) → IsValid s → with_front (s ∷ []) ≡ some (record { start = 0; end = s.end } ∷ [])
unfolding with_front new
with_front_lem s v =
    let front : Span = record { start = 0; end = s.start } in
    let walked : walk [] front (s ∷ []) ≡ record { start = 0; end = s.end } ∷ [] = ground arith in
    ground (arith, walked, insert-walk (s ∷ []) front (omega arith) (omega arith))

whole_file-covers : (len : ℕ) → len + 1 < u64_mod → Covering (λ p. leb p len) (whole_file len)
unfolding whole_file new
whole_file-covers len h =
    let all : Span = record { start = 0; end = len } in
    let (out, e, o, c) = from_iter-covers (all ∷ []) (omega arith) in
    (out, ground (arith, e), o, λ p. c p ∙ ground arith)

-- Whether a file of which nothing is known is read from its start.
abbrev pub from_start : Lookback → ℕ → Metadata → Bool
from_start Lookback.start start_time m = true
from_start Lookback.small_files start_time m = ltb m.len 8192
from_start Lookback.none start_time m = false
from_start Lookback.tail start_time m = elim m.created [ none ↦ false | some t ↦ ltb start_time t ]

nothing : Covering (λ p. false) (some [])
nothing = ([], refl, tt, λ p. refl)

either :
    (b : Bool) (len : ℕ)
    → len + 1 < u64_mod
    → Covering (λ p. if b then false else leb p len) (if b then some [] else whole_file len)
either true len h = nothing
either false len h = whole_file-covers len h

module _ (w : World) where
  default-covers :
      (lookback : Lookback) (start_time : ℕ) (m : Metadata)
      → m.len + 1 < u64_mod
      → Covering
          (λ p. if from_start lookback start_time m then false else leb p m.len)
          (default_offset w lookback start_time (ok m))
  unfolding default_offset
  default-covers Lookback.start start_time m h = nothing
  default-covers Lookback.small_files start_time m h = either (ltb m.len 8192) m.len h
  default-covers Lookback.none start_time m h = whole_file-covers m.len h
  default-covers Lookback.tail start_time m h = either (created_after w start_time (ok m)) m.len h

  -- What is known of a file: nothing, or one span of lines that were sent.
  abbrev pub saved_as : Option Span → Option SpanVec
  saved_as none = none
  saved_as (some s) = some (s ∷ [])

  abbrev pub Known : Option Span → Type 0
  Known none = Unit
  Known (some s) = IsValid s

  -- The bytes that count as read.
  abbrev pub read_before : Lookback → ℕ → Metadata → Option Span → ℕ → Bool
  read_before lookback start_time m none p =
      if from_start lookback start_time m then false else leb p m.len
  read_before lookback start_time m (some s) p =
      if leb s.end m.len
      then leb p s.end
      else if from_start lookback start_time m
      then false
      else leb p m.len

  chosen :
      (lookback : Lookback) (start_time : ℕ) (m : Metadata) (saved : Option Span)
      → m.len + 1 < u64_mod
      → Known saved
      → Covering (read_before lookback start_time m saved) (do
        default ← default_offset w lookback start_time (ok m)
        found ← lookup_offset (λ i. saved_as saved) 0
        choose_offset w found m.len default)
  unfolding lookup_offset
  chosen lookback start_time m none h k =
      let (out, e, o, c) = default-covers lookback start_time m h in (out, rw e refl, o, c)
  chosen lookback start_time m (some s) h k =
      let (out, e, o, c) = default-covers lookback start_time m h in
      elim (Bool-cases (leb s.end m.len)) [
        | inl fits ↦ rw fits (
          record { start = 0; end = s.end } ∷ [],
          rw (e, with_front_lem s k) (ground arith),
          omega arith,
          λ p. ground arith,
        )
        | inr beyond ↦ rw beyond (out, rw (e, with_front_lem s k) (ground arith), o, c)
      ]

  -- The span that is saved for a file stands for all bytes up to its end, also those in front of it,
  -- unless it ends beyond the file. Then, and where nothing is saved, no byte counts as read if the
  -- lookback says to start at the beginning (always; for files below 8192 bytes; for files created
  -- since the agent started), and else all bytes do up to the length. There is no panic.
  pub initial-covers :
      (c : FileSystem w) (path : FilePath) (inode : ℕ) (m : Metadata) (saved : Option Span)
      → w.metadata path ≡ ok m
      → c.initial_offsets inode ≡ saved_as saved
      → m.len + 1 < u64_mod
      → Known saved
      → Covering
          (read_before c.lookback_config c.fs_start_time m saved)
          (get_initial_offset w c path inode)
  unfolding get_initial_offset lookup_offset
  initial-covers c path inode m saved e f h k =
      let (out, is, o, cov) = chosen c.lookback_config c.fs_start_time m saved h k in
      (out, rw e (rw (ap completed f) is), o, cov)

  saved_or_none :
      (saved : SpanVec) (len : ℕ) (d : SpanVec)
      → Rising 0 saved
      → ((do found ← completed (some saved); choose_offset w found len d) ≡ none) ↔ (saved ≡ [])
  unfolding with_front
  saved_or_none [] len d r = (λ e. refl, λ e. refl)
  saved_or_none (s ∷ []) len d r =
      rw (with_front_lem s r.1) ((λ e. ground (arith, e), λ e. absurd (cc)))
  saved_or_none (s ∷ t ∷ more) len d r = (λ e. ground (arith, e), λ e. absurd (cc))

  -- If the length of a file is known, and the vector that is saved for it is in order, reading starts
  -- with a panic exactly if the vector is empty.
  pub initial_offset-panics :
      (c : FileSystem w) (path : FilePath) (inode : ℕ) (m : Metadata) (saved : SpanVec)
      → w.metadata path ≡ ok m
      → m.len + 1 < u64_mod
      → c.initial_offsets inode ≡ some saved
      → Rising 0 saved
      → (get_initial_offset w c path inode ≡ none) ↔ (saved ≡ [])
  unfolding get_initial_offset lookup_offset
  initial_offset-panics c path inode m saved e h f r =
      let (d, is, o, cov) = default-covers c.lookback_config c.fs_start_time m h in
      rw e (rw is (rw (ap completed f) (saved_or_none saved m.len d r)))
