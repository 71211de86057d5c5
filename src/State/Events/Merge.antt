-- ===== src/State/Events/Merge.antt =====
-- What the loop over the files of a batch does to the two tables.
use logdna_agent_v.Base.{
  ℕ, ◌≡◌, refl, ap, sym, subst, ◌∙◌, Bool, false, ◌||◌, Option, none, some, List, [], ◌∷◌, arith,
  Bool-cases, Option-cases, inl, inr, ◌⊎◌, ◌==◌, if◌then◌else◌,
}
use logdna_agent_v.State.SpanVec.{SpanVec}
use logdna_agent_v.State.SpanVec.Place.{Rising}
use logdna_agent_v.State.SpanVec.Cover.{covers}
use logdna_agent_v.State.SpanVec.Insert.{from_iter-grows}
use logdna_agent_v.State.Table.{lookup, erase, put, lookup-erase, lookup-put}
use logdna_agent_v.State.Events.Interface.{OffsetMap}
use logdna_agent_v.State.Events.{SpanTable, or_empty, take_working, merge_batch}
use logdna_agent_v.State.Events.Kept.{
  WellKept, covered, BatchValid, brings, lookup-Rising, erase-WellKept, put-WellKept,
}

-- No file is in both tables.
pub record Apart (state span_buf : SpanTable) : Type 0 where
  pub state_kept : WellKept state
  pub buf_kept : WellKept span_buf
  pub apart : (f : ℕ) → (lookup f span_buf ≡ none) ⊎ (lookup f state ≡ none)

-- What either table covers.
abbrev pub either : SpanTable → SpanTable → ℕ → ℕ → Bool
either state span_buf f p = covered span_buf f p || covered state f p

record Taken (k : ℕ) (state span_buf : SpanTable) (span_v : SpanVec) (state' span_buf' : SpanTable)
    : Type 0 where
  taken : take_working k state span_buf ≡ (span_v, (state', span_buf'))
  rising : Rising 0 span_v
  covers_both : (p : ℕ) → covers span_v p ≡ either state span_buf k p
  state_kept : WellKept state'
  buf_kept : WellKept span_buf'
  state_lookup : (f : ℕ) → lookup f state' ≡ (if k == f then none else lookup f state)
  buf_lookup : (f : ℕ) → lookup f span_buf' ≡ (if k == f then none else lookup f span_buf)

absent_erase :
    {V : Type 0} (k f : ℕ) (t : List (ℕ × V))
    → lookup k t ≡ none
    → lookup f t ≡ (if k == f then none else lookup f t)
absent_erase k f t h = elim (Bool-cases (k == f)) [
  | inl same ↦ let eq : k ≡ f = ground arith in rw same (subst (λ x. lookup x t ≡ none) eq h)
  | inr other ↦ rw other refl
]

take_working-Taken :
    (k : ℕ) (state span_buf : SpanTable)
    → Apart state span_buf
    → (span_v : SpanVec) × (state' : SpanTable) × (span_buf' : SpanTable) × Taken k state span_buf
        span_v state' span_buf'
unfolding take_working
take_working-Taken k state span_buf a = elim (Option-cases (lookup k span_buf)) [
  | inl none_there ↦ (
    or_empty (lookup k state),
    erase k state,
    span_buf,
    record {
      taken = rw (none_there, take_working) refl;
      rising = lookup-Rising state k a.state_kept;
      covers_both = λ p. rw none_there refl;
      state_kept = erase-WellKept k state a.state_kept;
      buf_kept = a.buf_kept;
      state_lookup = λ f. lookup-erase k f state;
      buf_lookup = λ f. absent_erase k f span_buf none_there;
    },
  )
  | inr (v, there) ↦
      let gone : lookup k state ≡ none = elim (a.apart k) [
        | inl missing ↦
            let bad : ◌≡◌ {A = Option SpanVec} none (some v) = sym missing ∙ there in absurd (cc)
        | inr free ↦ free
      ] in
      (
        v,
        state,
        erase k span_buf,
        record {
          taken = rw (there, take_working) refl;
          rising = subst (λ o. Rising 0 (or_empty o)) there (lookup-Rising span_buf k a.buf_kept);
          covers_both = λ p. rw (there, gone) (ground arith);
          state_kept = a.state_kept;
          buf_kept = erase-WellKept k span_buf a.buf_kept;
          state_lookup = λ f. absent_erase k f state gone;
          buf_lookup = λ f. lookup-erase k f span_buf;
        },
      )
]

module _ (k : ℕ) (state span_buf : SpanTable) (span_v : SpanVec) (state1 buf1 : SpanTable)
    (out : SpanVec) (t : Taken k state span_buf span_v state1 buf1) where
  stays_disjoint :
      Apart state span_buf → (f : ℕ) → (lookup f (put k out buf1) ≡ none) ⊎ (lookup f state1 ≡ none)
  stays_disjoint a f = elim (Bool-cases (k == f)) [
    | inl same ↦ inr (t.state_lookup f ∙ rw same refl)
    | inr other ↦ elim (a.apart f) [
      | inl x ↦ inl (lookup-put k f out buf1 ∙ rw other (t.buf_lookup f ∙ rw other x))
      | inr y ↦ inr (t.state_lookup f ∙ rw other y)
    ]
  ]

  covers_after :
      (f p : ℕ)
      → either state1 (put k out buf1) f p
        ≡ (if k == f then covers out p else either state span_buf f p)
  covers_after f p =
      let in_buf : covered (put k out buf1) f p
          ≡ covers (or_empty (if k == f then some out else lookup f buf1)) p =
        ap (λ o. covers (or_empty o) p) (lookup-put k f out buf1) in
      let in_state : covered state1 f p
          ≡ covers (or_empty (if k == f then none else lookup f state)) p =
        ap (λ o. covers (or_empty o) p) (t.state_lookup f) in
      let before : covered buf1 f p
          ≡ covers (or_empty (if k == f then none else lookup f span_buf)) p =
        ap (λ o. covers (or_empty o) p) (t.buf_lookup f) in
      ap (λ b. b || covered state1 f p) in_buf ∙ elim (Bool-cases (k == f)) [
        | inl same ↦ rw in_state (rw same (ground arith))
        | inr other ↦
            rw in_state (rw other (ap (λ b. b || covered state f p) (before ∙ rw other refl)))
      ]

  kept_state : (f : ℕ) (v : SpanVec) → lookup f state1 ≡ some v → lookup f state ≡ some v
  kept_state f v e = elim (Bool-cases (k == f)) [
    | inl same ↦
        let bad : ◌≡◌ {A = Option SpanVec} none (some v) =
          sym (t.state_lookup f ∙ rw same refl) ∙ e in
        absurd (cc)
    | inr other ↦ sym (t.state_lookup f ∙ rw other refl) ∙ e
  ]

  taken_covers :
      (offsets : SpanVec)
      → ((p : ℕ) → covers out p ≡ (covers span_v p || covers offsets p))
      → (f p : ℕ)
      → either state1 (put k out buf1) f p
        ≡ (either state span_buf f p || (if k == f then covers offsets p else false))
  taken_covers offsets c f p = covers_after f p ∙ elim (Bool-cases (k == f)) [
    | inl same ↦
        let eq : k ≡ f = ground arith in
        rw same (
          c p
          ∙ ap (λ b. b || covers offsets p)
              (t.covers_both p ∙ ap (λ g. either state span_buf g p) eq))
    | inr other ↦ rw other (ground arith)
  ]

pub record Merged (batch : OffsetMap) (state span_buf state' span_buf' : SpanTable) : Type 0 where
  pub merges : merge_batch batch state span_buf ≡ some (state', span_buf')
  pub apart : Apart state' span_buf'
  pub covers_more :
      (f p : ℕ) → either state' span_buf' f p ≡ (either state span_buf f p || brings batch f p)
  pub no_new : (f : ℕ) (v : SpanVec) → lookup f state' ≡ some v → lookup f state ≡ some v

pub merge_batch-Merged :
    (batch : OffsetMap) (state span_buf : SpanTable)
    → BatchValid batch
    → Apart state span_buf
    → (state' : SpanTable) × (span_buf' : SpanTable) × Merged batch state span_buf state' span_buf'
unfolding merge_batch
merge_batch-Merged [] state span_buf b a = (
  state,
  span_buf,
  record { merges = refl; apart = a; covers_more = λ f p. ground arith; no_new = λ f v e. e },
)
merge_batch-Merged ((k, offsets) ∷ batch) state span_buf b a =
    let (span_v, state1, buf1, t) = take_working-Taken k state span_buf a in
    let (out, e, r, c) = from_iter-grows span_v offsets t.rising b.1 in
    let next : Apart state1 (put k out buf1) = record {
      state_kept = t.state_kept;
      buf_kept = put-WellKept k out buf1 b.0 r t.buf_kept;
      apart = stays_disjoint k state span_buf span_v state1 buf1 out t a;
    } in
    let (state', buf', m) = merge_batch-Merged batch state1 (put k out buf1) b.2 next in
    (
      state',
      buf',
      record {
        merges = rw (t.taken, e) m.merges;
        apart = m.apart;
        covers_more = λ f p.
            m.covers_more f p
            ∙ rw (taken_covers k state span_buf span_v state1 buf1 out t offsets c f p)
                (ground arith);
        no_new = λ f v g. kept_state k state span_buf span_v state1 buf1 out t f v (m.no_new f v g);
      },
    )
