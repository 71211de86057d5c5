-- ===== src/Middleware/Redact/Kept.antt =====
-- The bytes of a line that stay when its matches are redacted.
use logdna_agent_v.Base.{
  ℕ, zero, suc, ◌+◌, ◌-◌, ◌≤◌, ◌<◌, ◌≡◌, refl, ap, sym, ◌∙◌, Bool, true, false, ◌&&◌, ◌||◌, none,
  some, List, [], ◌∷◌, ◌++◌, map, arith, ltb, leb, shift, if◌then◌else◌, length, take, drop,
}
use native.Mathlib.Nat.{add-zero, zero-add}
use logdna_agent_v.Middleware.Redact.{Match}
use logdna_agent_v.Middleware.Redact.Order.{Ordered}
use logdna_agent_v.Middleware.Redact.Render.{tagged, kept, marks, kept-map-some, marks-map-some}

-- The bytes that lie in no match, at their positions from `i` on.
abbrev pub inside : List Match → ℕ → Bool
inside [] i = false
inside (m ∷ matches) i = (leb m.0 i && ltb i m.1) || inside matches i

abbrev pub outside : List Match → ℕ → List ℕ → List ℕ
outside matches i [] = []
outside matches i (b ∷ bs) =
    let rest = outside matches (suc i) bs in if inside matches i then rest else b ∷ rest

inside_before :
    (b i : ℕ) (matches : List Match) → Ordered b matches → i < b → inside matches i ≡ false
inside_before b i [] o h = refl
inside_before b i (m ∷ matches) (p, q, o) h = ground (arith, inside_before m.1 i matches o)

outside_kept :
    (n i b : ℕ) (matches : List Match) (w : List ℕ)
    → Ordered b matches
    → i + n ≤ b
    → outside matches i w ≡ take n w ++ outside matches (i + n) (drop n w)
outside_kept zero i b matches w o h = rw add-zero
outside_kept (suc n) i b matches [] o h = refl
outside_kept (suc n) i b matches (x ∷ w) o h =
    rw (inside_before b i matches o (omega arith))
      (rw (← shift i n) (ap (◌∷◌ x) (outside_kept n (suc i) b matches w o (omega arith))))

outside_skipped :
    (n i : ℕ) (m : Match) (matches : List Match) (w : List ℕ)
    → m.0 ≤ i
    → i + n ≤ m.1
    → outside (m ∷ matches) i w ≡ outside (m ∷ matches) (i + n) (drop n w)
outside_skipped zero i m matches w h k = rw add-zero
outside_skipped (suc n) i m matches [] h k = refl
outside_skipped (suc n) i m matches (x ∷ w) h k =
    rw (within, ← shift i n) (outside_skipped n (suc i) m matches w (omega arith) (omega arith))
  where
    within : inside (m ∷ matches) i ≡ true
    within = ground arith

outside_past :
    (i : ℕ) (m : Match) (matches : List Match) (w : List ℕ)
    → m.1 ≤ i
    → outside (m ∷ matches) i w ≡ outside matches i w
outside_past i m matches [] h = refl
outside_past i m matches (x ∷ w) h = ground (arith, outside_past (suc i) m matches w)

drop-nil : (n : ℕ) → drop {A = ℕ} n [] ≡ []
drop-nil zero = refl
drop-nil (suc n) = refl

drop-drop : (a b : ℕ) (w : List ℕ) → drop a (drop b w) ≡ drop (b + a) w
drop-drop a zero w = rw zero-add
drop-drop a (suc b) [] = drop-nil a ∙ sym (drop-nil (suc b + a))
drop-drop a (suc b) (x ∷ w) =
    let e : suc b + a ≡ suc (b + a) = omega arith in rw e (drop-drop a b w)

kept_all : (bs : List ℕ) → kept (map some bs) ≡ bs
kept_all [] = refl
kept_all (b ∷ bs) = ap (◌∷◌ b) (kept_all bs)

outside_none : (i : ℕ) (bs : List ℕ) → outside [] i bs ≡ bs
outside_none i [] = refl
outside_none i (b ∷ bs) = ap (◌∷◌ b) (outside_none (suc i) bs)

outside_match :
    (v : List ℕ) (i : ℕ) (m : Match) (matches : List Match)
    → Ordered i (m ∷ matches)
    → outside (m ∷ matches) i (drop i v)
      ≡ take (m.0 - i) (drop i v) ++ outside matches m.1 (drop m.1 v)
outside_match v i m matches (p, q, o) =
    outside_kept (m.0 - i) i m.0 (m ∷ matches) (drop i v) (omega arith, q, o) (omega arith)
    ∙ ap (◌++◌ (take (m.0 - i) (drop i v))) (
        rw (drop-drop (m.0 - i) i v, to_start)
          (outside_skipped (m.1 - m.0) m.0 m matches (drop m.0 v) (omega arith) (omega arith)
            ∙ rw (drop-drop (m.1 - m.0) m.0 v, to_end)
                (outside_past m.1 m matches (drop m.1 v) (omega arith))))
  where
    to_start : i + (m.0 - i) ≡ m.0
    to_start = omega arith

    to_end : m.0 + (m.1 - m.0) ≡ m.1
    to_end = omega arith

-- The bytes that stay are those that lie in no match, in their order.
pub kept-tagged :
    (v : List ℕ) (i : ℕ) (matches : List Match)
    → Ordered i matches
    → kept (tagged v i matches) ≡ outside matches i (drop i v)
unfolding tagged
kept-tagged v i [] o = kept_all (drop i v) ∙ sym (outside_none i (drop i v))
kept-tagged v i (m ∷ matches) o =
    rw (kept-map-some (take (m.0 - i) (drop i v)) (none ∷ tagged v m.1 matches))
      (rw (kept-tagged v m.1 matches o.2) (sym (outside_match v i m matches o)))

-- Each match is marked once.
pub marks-tagged :
    (v : List ℕ) (i : ℕ) (matches : List Match) → marks (tagged v i matches) ≡ length matches
unfolding tagged
marks-tagged v i [] = marks_none (drop i v)
  where
    marks_none : (bs : List ℕ) → marks (map some bs) ≡ 0
    marks_none [] = refl
    marks_none (b ∷ bs) = marks_none bs
marks-tagged v i (m ∷ matches) =
    marks-map-some (take (m.0 - i) (drop i v)) (none ∷ tagged v m.1 matches)
    ∙ ap suc (marks-tagged v m.1 matches)
