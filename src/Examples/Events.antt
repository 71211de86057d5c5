-- ===== src/Examples/Events.antt =====
-- The events of the offset state, over a slot map that is a list with a counter and a database whose
-- rows and batches are functions.
use logdna_agent_v.Base.{
  ℕ, suc, ◌≡◌, ◌≢◌, ◌⊎◌, refl, sym, ap, ◌∙◌, Bool, true, false, ◌&&◌, Option, none, some, List, [],
  ◌∷◌, arith, if◌then◌else◌, Result, ok, ◌==◌, inl, inr, Bool-cases,
}
use logdna_agent_v.State.Span.{Span}
use logdna_agent_v.State.Codec.{Bytes}
use logdna_agent_v.State.Table.{lookup, erase, lookup-erase}
use logdna_agent_v.State.Events.Interface.{OffsetMap, SlotMap, Database}
use logdna_agent_v.State.Events.{
  run, start, OffsetStreamState, FileOffsetEvent, update, flush, delete, handle_file_offset_flush,
}
use logdna_agent_v.State.Events.Kept.{BatchValid}
use logdna_agent_v.State.Events.Flush.{Flushed, flush-Flushed}
use logdna_agent_v.State.Events.Synced.{Synced, start-Synced}
use logdna_agent_v.State.Events.Run.{run-Synced}

inserted :
    (b c : OffsetMap) (n k : ℕ) (t : List (ℕ × OffsetMap))
    → lookup k ((n, b) ∷ t) ≡ some c
    → (c ≡ b) ⊎ (lookup k t ≡ some c)
inserted b c n k t e = elim (Bool-cases (n == k)) [
  | inl same ↦ let e' : ◌≡◌ {A = Option OffsetMap} (some b) (some c) = rw same at e in inl (cc)
  | inr other ↦ inr (rw other at e)
]

removed :
    (j k : ℕ) (t : List (ℕ × OffsetMap)) (c : OffsetMap)
    → lookup k (erase j t) ≡ some c
    → lookup k t ≡ some c
removed j k t c e =
    let e' = sym (lookup-erase j k t) ∙ e in
    elim (Bool-cases (j == k)) [
      | inl same ↦ let bad : ◌≡◌ {A = Option OffsetMap} none (some c) = rw same at e' in absurd (cc)
      | inr other ↦ rw other at e'
    ]

gone : (k : ℕ) (t : List (ℕ × OffsetMap)) → lookup k (erase k t) ≡ none
gone k t = let self : (k == k) ≡ true = ground arith in lookup-erase k k t ∙ rw self refl

found_again : (b : OffsetMap) (s : ℕ × List (ℕ × OffsetMap)) → lookup s.0 ((s.0, b) ∷ s.1) ≡ some b
found_again b s = ground arith

abbrev counted : SlotMap
counted = record {
  Slots = ℕ × List (ℕ × OffsetMap);
  Key = ℕ;
  new = (0, []);
  insert = λ b s. (s.0, (suc s.0, (s.0, b) ∷ s.1));
  get_mut = λ k s. lookup k s.1;
  remove = λ k s. (s.0, erase k s.1);
  clear = λ s. (s.0, []);
  get-new = λ k. refl;
  get-inserted = found_again;
  get-insert = λ b c s k e. inserted b c s.0 k s.1 e;
  get-remove = λ s j k c e. removed j k s.1 c e;
  get-removed = λ s k. gone k s.1;
  get-clear = λ s k. refl;
}

abbrev same_bytes : Bytes → Bytes → Bool
same_bytes [] [] = true
same_bytes [] (b ∷ bs) = false
same_bytes (a ∷ more) [] = false
same_bytes (a ∷ more) (b ∷ bs) = let rest = same_bytes more bs in (a == b) && rest

same_bytes_refl : (k : Bytes) → same_bytes k k ≡ true
same_bytes_refl [] = refl
same_bytes_refl (b ∷ bs) = let rest = same_bytes_refl bs in ground arith

same_bytes→≡ : (j k : Bytes) → same_bytes j k ≡ true → j ≡ k
same_bytes→≡ [] [] e = refl
same_bytes→≡ [] (b ∷ bs) e = absurd (cc)
same_bytes→≡ (a ∷ more) [] e = absurd (cc)
same_bytes→≡ (a ∷ more) (b ∷ bs) e =
    let rest : more ≡ bs = same_bytes→≡ more bs (ground arith) in
    let first : a ≡ b = ground arith in cc

abbrev Writes : Type 0
Writes = Bytes → Option (Option Bytes)

abbrev with_last : Writes → Bytes → Option Bytes → Writes
with_last wb j r k = if same_bytes j k then some r else wb k

with_last-same : (wb : Writes) (k : Bytes) (r : Option Bytes) → with_last wb k r k ≡ some r
with_last-same wb k r = rw (same_bytes_refl k) refl

with_last_other : (wb : Writes) (j k : Bytes) (r : Option Bytes) → j ≢ k → with_last wb j r k ≡ wb k
with_last_other wb j k r d = elim (Bool-cases (same_bytes j k)) [
  | inl same ↦ absurd (d (same_bytes→≡ j k same))
  | inr other ↦ rw other refl
]

abbrev written_row : Option (Option Bytes) → Option Bytes → Option Bytes
written_row none old = old
written_row (some r) old = r

abbrev after_writes : (Bytes → Option Bytes) → Writes → Bytes → Option Bytes
after_writes d wb k = written_row (wb k) (d k)

untouched :
    (d d' : Bytes → Option Bytes) (wb : Writes) (k : Bytes)
    → ◌≡◌ {A = Result ℕ (Bytes → Option Bytes)} (ok (after_writes d wb)) (ok d')
    → wb k ≡ none
    → d' k ≡ d k
untouched d d' wb k e n =
    let same : after_writes d wb ≡ d' = cc in
    ap (λ g. g k) (sym same) ∙ ap (λ o. written_row o (d k)) n

rewritten :
    (d d' : Bytes → Option Bytes) (wb : Writes) (k : Bytes) (r : Option Bytes)
    → ◌≡◌ {A = Result ℕ (Bytes → Option Bytes)} (ok (after_writes d wb)) (ok d')
    → wb k ≡ some r
    → d' k ≡ r
rewritten d d' wb k r e n =
    let same : after_writes d wb ≡ d' = cc in
    ap (λ g. g k) (sym same) ∙ ap (λ o. written_row o (d k)) n

abbrev in_memory : Database
in_memory = record {
  Db = Bytes → Option Bytes;
  Batch = Writes;
  Error = ℕ;
  cf_handle = λ d. true;
  row = λ d k. d k;
  new_batch = λ k. none;
  put_cf = λ wb k v. with_last wb k (some v);
  delete_cf = λ wb k. with_last wb k none;
  last = λ wb k. wb k;
  write = λ d wb. ok (after_writes d wb);
  last-new = λ k. refl;
  last-put = λ wb k v. with_last-same wb k (some v);
  last-put_other = λ wb j k v d. with_last_other wb j k (some v) d;
  last-delete = λ wb k. with_last-same wb k none;
  last-delete_other = λ wb j k d. with_last_other wb j k none d;
  row-untouched = untouched;
  row-written = rewritten;
}

abbrev span : ℕ → ℕ → Span
span a b = record { start = a; end = b }

abbrev sent : OffsetMap
sent = (7, span 0 4 ∷ span 9 12 ∷ []) ∷ (8, span 3 5 ∷ []) ∷ []

sent-BatchValid : BatchValid sent
sent-BatchValid = omega arith

abbrev waiting : OffsetStreamState counted in_memory
waiting = record {
  wb = none;
  state = (7, span 5 6 ∷ []) ∷ [];
  pending = (1, (0, sent) ∷ []);
  span_buf = [];
  bytes_buf = [];
}

flush-Flushed_example :
    (st' : OffsetStreamState counted in_memory) × (handle_file_offset_flush counted in_memory
        (some 0)
        waiting
      ≡ some st')
    × (st'.pending ≡ (1, []))
    × (lookup 0 st'.pending.1 ≡ none)
    × Flushed counted in_memory sent waiting st'
flush-Flushed_example =
    flush-Flushed counted in_memory 0 sent waiting refl sent-BatchValid
      (omega arith, omega arith, refl, tt)

abbrev history : List (FileOffsetEvent counted in_memory)
history = update sent true ∷ flush (some 0) ∷ delete 8 ∷ []

run-Synced_example :
    (d' : Bytes → Option Bytes) × (st' : OffsetStreamState counted in_memory) × (run counted
        in_memory history
        (λ k. none)
        (start counted in_memory)
      ≡ some (d', st'))
    × Synced counted in_memory d' st'
run-Synced_example =
    run-Synced counted in_memory (λ d wb. (after_writes d wb, refl)) history (λ k. none)
      (start counted in_memory) (sent-BatchValid, (tt, (omega arith, tt)))
      (start-Synced counted in_memory (λ k. none))
