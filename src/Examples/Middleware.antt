-- ===== src/Examples/Middleware.antt =====
-- Redaction, filters and the executor. An expression is a list of matches, of which a line that is
-- too short has only the first ones, a set of expressions is a list of bytes that a line may begin
-- with, and a line is its text.
use logdna_agent_v.Base.{
  ℕ, suc, ◌≡◌, ◌↔◌, ◌⊎◌, refl, Bool, true, false, ◌&&◌, ◌||◌, Option, none, some, List, [], ◌∷◌,
  arith, if◌then◌else◌, ok, err, length, leb, ◌==◌, inl, inr, Bool-cases,
}
use logdna_agent_v.Middleware.Interface.{LineBuffer, Engine, Status}
use logdna_agent_v.Middleware.Redact.{Match, record_all, record_match, render}
use logdna_agent_v.Middleware.Redact.Order.{Ordered, NoBridge}
use logdna_agent_v.Middleware.Redact.Render.{Proper}
use logdna_agent_v.Middleware.LineRules.{LineRules, no_items, find_all, redact, process}
use logdna_agent_v.Middleware.LineRules.Redacted.{redact_two_iff}
use logdna_agent_v.Middleware.LineRules.Filter.{
  passes, SkippedByRedaction, process-passes, process-no_text,
}
use logdna_agent_v.Middleware.Executor.{
  Executor, Middleware, process as run, validate, skip, retry, Passes, SkippedBy,
}
use logdna_agent_v.Middleware.Executor.Order.{process_iff, process-skip_iff, validate_iff, Accepted}

stored :
    (l : Option (List ℕ)) (bytes : List ℕ) (l' : Option (List ℕ))
    → some (some bytes) ≡ some l'
    → l' ≡ some bytes
stored l bytes l' e = cc

abbrev text_line : LineBuffer
text_line = record {
  Line = Option (List ℕ);
  get_line_buffer = λ l. l;
  set_line_buffer = λ l bytes. some (some bytes);
  get-set = stored;
}

abbrev fitting : ℕ → ℕ → List Match → List Match
fitting b n [] = []
fitting b n (m ∷ ms) =
    let rest = fitting m.1 n ms in if leb b m.0 && (leb m.0 m.1 && leb m.1 n) then m ∷ rest else []

fitting-Ordered : (b n : ℕ) (ms : List Match) → Ordered b (fitting b n ms)
fitting-Ordered b n [] = tt
fitting-Ordered b n (m ∷ ms) =
    let rest = fitting-Ordered m.1 n ms in
    elim (Bool-cases (leb b m.0 && (leb m.0 m.1 && leb m.1 n))) [
      | inl fits ↦ rw fits (ground arith, ground arith, rest)
      | inr stops ↦ rw stops tt
    ]

fitting-Proper : (b n : ℕ) (ms : List Match) → Proper n (fitting b n ms)
fitting-Proper b n [] = tt
fitting-Proper b n (m ∷ ms) =
    let rest = fitting-Proper m.1 n ms in
    elim (Bool-cases (leb b m.0 && (leb m.0 m.1 && leb m.1 n))) [
      | inl fits ↦ rw fits (ground arith, ground arith, rest)
      | inr stops ↦ rw stops tt
    ]

abbrev begins : List ℕ → List ℕ → Bool
begins [] value = false
begins (b ∷ bs) [] = false
begins (b ∷ bs) (x ∷ xs) = let rest = begins bs (x ∷ xs) in (b == x) || rest

nothing_begins : (s value : List ℕ) → no_items s ≡ true → begins s value ≡ false
nothing_begins [] value e = refl
nothing_begins (b ∷ bs) value e = absurd (cc)

abbrev match_list : Engine
match_list = record {
  Regex = List Match;
  RegexSet = List ℕ;
  find_iter = λ r value. fitting 0 (length value) r;
  is_empty = no_items;
  is_match = begins;
  found-Ordered = λ r value. fitting-Ordered 0 (length value) r;
  found-Proper = λ r value. fitting-Proper 0 (length value) r;
  empty-no_match = nothing_begins;
}

abbrev text : List ℕ
text = 97 ∷ 98 ∷ 99 ∷ 100 ∷ 101 ∷ 102 ∷ []

abbrev one_rule : LineRules text_line match_list
one_rule = record {
  exclusion = 120 ∷ [];
  inclusion = 97 ∷ [];
  redactions = ((1, 2) ∷ (4, 5) ∷ []) ∷ [];
}

-- The second expression matches across both matches of the first one.
abbrev two_rules : LineRules text_line match_list
two_rules = record {
  exclusion = [];
  inclusion = [];
  redactions = ((1, 2) ∷ (4, 5) ∷ []) ∷ ((1, 6) ∷ []) ∷ [];
}

redacts :
    redact text_line match_list one_rule text (some text)
    ≡ some (
        Status.ok (
          some (
            97
            ∷ (b'[' ∷ b'R' ∷ b'E' ∷ b'D' ∷ b'A' ∷ b'C' ∷ b'T' ∷ b'E' ∷ b'D' ∷ b']' ∷ 99 ∷ 100 ∷ b'['
                ∷ b'R' ∷ b'E' ∷ b'D' ∷ b'A' ∷ b'C' ∷ b'T' ∷ b'E' ∷ b'D' ∷ b']' ∷ 102 ∷ []))))
unfolding redact find_all record_all record_match render
redacts = refl

redact_two_iff_example :
    (redact text_line match_list two_rules text (some text) ≡ none)
    ↔ (¬ NoBridge (1, 6) ((1, 2) ∷ (4, 5) ∷ []))
redact_two_iff_example =
    redact_two_iff text_line match_list two_rules ((1, 2) ∷ (4, 5) ∷ []) ((1, 6) ∷ []) text
      (some text) (1, 6) refl refl refl

process-passes_example :
    (process text_line match_list one_rule (some text)
      ≡ redact text_line match_list one_rule text (some text))
    × ((process text_line match_list one_rule (some text) ≡ some Status.skip) ↔ (
        (passes text_line match_list one_rule text ≡ false)
        ⊎ SkippedByRedaction text_line match_list one_rule text (some text)))
process-passes_example = process-passes text_line match_list one_rule (some text) text refl

process-no_text_example : process text_line match_list one_rule none ≡ some Status.skip
process-no_text_example = process-no_text text_line match_list one_rule none refl

abbrev count_up : Middleware ℕ
count_up = record {
  name = "count up";
  process_line = λ n. Status.ok (suc n);
  validate_line = λ n. ok (suc n);
}

abbrev small_only : Middleware ℕ
small_only = record {
  name = "small only";
  process_line = λ n. if leb n 3 then Status.ok n else Status.skip;
  validate_line = λ n. if leb n 3 then ok n else err (retry "large");
}

abbrev stages : Executor ℕ
stages = record { middlewares = count_up ∷ small_only ∷ [] }

process_iff_example : (run ℕ stages 2 ≡ ok 3) ↔ Passes ℕ 2 (count_up ∷ small_only ∷ []) 3
process_iff_example = process_iff ℕ stages 2 3

process-skip_iff_example :
    (run ℕ stages 3 ≡ err (skip "small only"))
    ↔ SkippedBy ℕ 3 (count_up ∷ small_only ∷ []) "small only"
process-skip_iff_example = process-skip_iff ℕ stages 3 "small only"

validate_iff_example :
    (validate ℕ stages 3 ≡ ok 3) ↔ ((◌≡◌ {A = ℕ} 3 3) × Accepted ℕ 3 (count_up ∷ small_only ∷ []))
validate_iff_example = validate_iff ℕ stages 3 3
