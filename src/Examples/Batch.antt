-- ===== src/Examples/Batch.antt =====
-- Batches of lines that are numbers: the bytes of a line are as many as the number.
use logdna_agent_v.Base.{ℕ, ◌+◌, ◌≡◌, refl, some, List, [], ◌∷◌, ◌++◌, Result, ok, length}
use logdna_agent_v.State.Span.{Span}
use logdna_agent_v.Http.Batch.{
  Serializer, Selected, item, done, timeout, Yield, batch, next_batch, collect, finish,
}
use logdna_agent_v.Http.Batch.Lines.{Verdict, next_batch-Verdict}

abbrev total : List ℕ → ℕ
total [] = 0
total (n ∷ ns) = n + total ns

added :
    (b b' : List ℕ) (l : ℕ)
    → ◌≡◌ {A = Result ℕ (List ℕ)} (ok (b ++ l ∷ [])) (ok b')
    → b' ≡ b ++ l ∷ []
added b b' l e = cc

closed : (b body : List ℕ) → ◌≡◌ {A = Result ℕ (List ℕ)} (ok b) (ok body) → body ≡ b
closed b body e = cc

abbrev numbers : Serializer
numbers = record {
  Line = ℕ;
  Buffer = List ℕ;
  Body = List ℕ;
  Error = ℕ;
  Offsets = List (ℕ × Span);
  no_offsets = [];
  insert = λ offsets key offset. offsets ++ (key, offset) ∷ [];
  get_key = λ l. some 1;
  get_offset = λ l. some (record { start = l; end = l });
  write_line = λ b l. ok (b ++ l ∷ []);
  count = λ b. length b;
  bytes_len = total;
  end = λ b. ok b;
  lines_of = λ b. b;
  body_lines = λ b. b;
  written = added;
  counts = λ b. refl;
  ended = closed;
}

abbrev stream : List (Selected numbers)
stream = timeout ∷ item 4 ∷ item 7 ∷ item 2 ∷ done ∷ []

fills_up :
    next_batch numbers 10 (some (ok [])) stream
    ≡ some (
      batch
          (4 ∷ 7 ∷ [])
          ((1, record { start = 4; end = 4 }) ∷ (1, record { start = 7; end = 7 }) ∷ []),
      item 2 ∷ done ∷ [],
    )
unfolding next_batch collect finish
fills_up = refl

next_batch-Verdict_example :
    (y : Yield numbers) × (rest : List (Selected numbers)) × (next_batch numbers 10
        (some (ok []))
        stream
      ≡ some (y, rest))
    × Verdict numbers [] [] stream rest y
next_batch-Verdict_example = next_batch-Verdict numbers 10 [] stream refl tt
