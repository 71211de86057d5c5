-- ===== src/State/Events/Rows.antt =====
-- What the loop that drains `span_buf` puts into the write batch and into the state.
use logdna_agent_v.Base.{
  ℕ, ◌<◌, ◌≡◌, ◌≢◌, refl, ap, sym, subst, ◌∙◌, Option, none, some, [], ◌∷◌, arith, u64_mod,
  Bool-cases, inl, inr, ◌==◌,
}
use logdna_agent_v.State.Span.{Span}
use logdna_agent_v.State.SpanVec.{SpanVec}
use logdna_agent_v.State.Codec.{Bytes, to_be_bytes, from_be_bytes, encode_row}
use logdna_agent_v.State.Codec.Words.{from_be_bytes-to_be_bytes}
use logdna_agent_v.State.Table.{lookup, put, lookup-put}
use logdna_agent_v.State.Events.Interface.{SlotMap, Database}
use logdna_agent_v.State.Events.{SpanTable, write_rows}
use logdna_agent_v.State.Events.Kept.{WellKept, put-WellKept}

-- What a file's working vector leaves in the state, and in the batch.
abbrev pub state_of : Option SpanVec → Option SpanVec → Option SpanVec
state_of none s = s
state_of (some []) s = s
state_of (some (x ∷ v)) s = some (x ∷ v)

abbrev pub last_of : Option SpanVec → Option (Option Bytes) → Option (Option Bytes)
last_of none r = r
last_of (some []) r = r
last_of (some (x ∷ v)) r = some (encode_row (x ∷ v))

pub to_be_bytes_apart :
    (j k : ℕ) → j < u64_mod → k < u64_mod → j ≢ k → to_be_bytes j ≢ to_be_bytes k
to_be_bytes_apart j k h g d e =
    d (sym (from_be_bytes-to_be_bytes j h) ∙ ap from_be_bytes e ∙ from_be_bytes-to_be_bytes k g)

module _ (slots : SlotMap) (db : Database) where
  open db use {Batch, put_cf, last, last-put, last-put_other}

  pub record Written (span_buf : SpanTable) (wb : Batch) (state : SpanTable) (wb' : Batch)
      (state' : SpanTable) : Type 0 where
    pub state_kept : WellKept state'
    pub state_after : (f : ℕ) → lookup f state' ≡ state_of (lookup f span_buf) (lookup f state)
    pub last_after :
        (f : ℕ)
        → f < u64_mod
        → last wb' (to_be_bytes f) ≡ last_of (lookup f span_buf) (last wb (to_be_bytes f))

  -- The first entry has no spans.
  skip_first :
      (k : ℕ) (rest : SpanTable) (wb : Batch) (state : SpanTable) (wb' : Batch) (state' : SpanTable)
      → lookup k rest ≡ none
      → Written rest wb state wb' state'
      → Written ((k, []) ∷ rest) wb state wb' state'
  skip_first k rest wb state wb' state' n w = record {
    state_kept = w.state_kept;
    state_after = λ f. w.state_after f ∙ elim (Bool-cases (k == f)) [
      | inl same ↦
          let eq : k ≡ f = ground arith in
          rw same (rw (subst (λ x. lookup x rest ≡ none) eq n) refl)
      | inr other ↦ rw other refl
    ];
    last_after = λ f h. w.last_after f h ∙ elim (Bool-cases (k == f)) [
      | inl same ↦
          let eq : k ≡ f = ground arith in
          rw same (rw (subst (λ x. lookup x rest ≡ none) eq n) refl)
      | inr other ↦ rw other refl
    ];
  }

  put_first :
      (k : ℕ) (x : Span) (v : SpanVec) (row : Bytes) (rest : SpanTable) (wb : Batch)
      (state : SpanTable) (wb' : Batch) (state' : SpanTable)
      → k < u64_mod
      → lookup k rest ≡ none
      → encode_row (x ∷ v) ≡ some row
      → Written rest (put_cf wb (to_be_bytes k) row) (put k (x ∷ v) state) wb' state'
      → Written ((k, x ∷ v) ∷ rest) wb state wb' state'
  put_first k x v row rest wb state wb' state' b n e w = record {
    state_kept = w.state_kept;
    state_after = λ f.
        w.state_after f
        ∙ ap (state_of (lookup f rest)) (lookup-put k f (x ∷ v) state)
        ∙ elim (Bool-cases (k == f)) [
          | inl same ↦
              let eq : k ≡ f = ground arith in
              rw same (rw (subst (λ x. lookup x rest ≡ none) eq n) refl)
          | inr other ↦ rw other refl
        ];
    last_after = λ f h. w.last_after f h ∙ elim (Bool-cases (k == f)) [
      | inl same ↦
          let eq : k ≡ f = ground arith in
          rw same (
            rw (subst (λ x. lookup x rest ≡ none) eq n) (
              subst
                (λ g.
                  last (put_cf wb (to_be_bytes k) row) (to_be_bytes g) ≡ some (encode_row (x ∷ v)))
                eq (last-put wb (to_be_bytes k) row ∙ ap some (sym e))))
      | inr other ↦
          let differ : k ≢ f = λ q. ground arith in
          rw other (
            ap (last_of (lookup f rest)) (
              last-put_other wb (to_be_bytes k) (to_be_bytes f) row
                (to_be_bytes_apart k f b h differ)))
    ];
  }

  pub write_rows-Written :
      (span_buf : SpanTable) (wb : Batch) (state : SpanTable) (bytes_buf : Bytes)
      → WellKept span_buf
      → WellKept state
      → (wb' : Batch) × (state' : SpanTable) × (bytes' : Bytes) × (write_rows slots db span_buf wb
            state bytes_buf
          ≡ (wb', (state', bytes')))
        × Written span_buf wb state wb' state'
  unfolding write_rows encode_row
  write_rows-Written [] wb state bytes_buf w s = (
    wb,
    state,
    bytes_buf,
    refl,
    record { state_kept = s; state_after = λ f. refl; last_after = λ f h. refl },
  )
  write_rows-Written ((k, []) ∷ rest) wb state bytes_buf w s =
      let (wb', state', bytes', e, r) = write_rows-Written rest wb state bytes_buf w.3 s in
      (wb', state', bytes', e, skip_first k rest wb state wb' state' w.2 r)
  write_rows-Written ((k, x ∷ v) ∷ rest) wb state bytes_buf w s =
      let (wb', state', bytes', e, r) =
        write_rows-Written rest (put_cf wb (to_be_bytes k) _) (put k (x ∷ v) state) _ w.3
          (put-WellKept k (x ∷ v) state w.0 w.1 s) in
      (wb', state', bytes', e, put_first k x v _ rest wb state wb' state' w.0 w.2 refl r)
