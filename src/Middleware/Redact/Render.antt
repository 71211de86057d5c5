-- ===== src/Middleware/Redact/Render.antt =====
-- What the redacted line holds, and when writing it panics.
use logdna_agent_v.Base.{
  ℕ, zero, suc, ◌-◌, ◌≤◌, ◌≡◌, ◌↔◌, refl, ap, sym, ◌∙◌, inl, inr, false, Option, none, some, List,
  [], ◌∷◌, ◌++◌, map, ◌>>=◌, arith, Bool-cases, ltb, leb, le→leb, leb→le, length, take, drop,
}
use logdna_agent_v.Middleware.Redact.{Match, redact_bytes, slice, render}
use logdna_agent_v.Middleware.Redact.Order.{Ordered}

-- Matches of a line of `n` bytes.
abbrev pub Proper : ℕ → List Match → Type 0
Proper n [] = Unit
Proper n (m ∷ matches) = (m.0 ≤ m.1) × (m.1 ≤ n) × Proper n matches

slice-le :
    (v : List ℕ) (i j : ℕ) → i ≤ j → j ≤ length v → slice v i j ≡ some (take (j - i) (drop i v))
slice-le v i j h k = rw (le→leb i j h, le→leb j (length v) k)

slice_over : (v : List ℕ) (i j : ℕ) → leb i j ≡ false → slice v i j ≡ none
slice_over v i j h = rw h

-- The line with its kept bytes, and a mark for each match.
unfoldable pub tagged : List ℕ → ℕ → List Match → List (Option ℕ)
tagged v i [] = map some (drop i v)
tagged v i (m ∷ matches) = map some (take (m.0 - i) (drop i v)) ++ none ∷ tagged v m.1 matches

-- A mark stands for `[REDACTED]`.
abbrev pub written : List (Option ℕ) → List ℕ
written [] = []
written (none ∷ ts) = redact_bytes ++ written ts
written (some b ∷ ts) = b ∷ written ts

abbrev pub kept : List (Option ℕ) → List ℕ
kept [] = []
kept (none ∷ ts) = kept ts
kept (some b ∷ ts) = b ∷ kept ts

abbrev pub marks : List (Option ℕ) → ℕ
marks [] = 0
marks (none ∷ ts) = suc (marks ts)
marks (some b ∷ ts) = marks ts

pub written-map : (bs : List ℕ) → written (map some bs) ≡ bs
written-map [] = refl
written-map (b ∷ bs) = ap (◌∷◌ b) (written-map bs)

written-map-some :
    (bs : List ℕ) (ts : List (Option ℕ)) → written (map some bs ++ ts) ≡ bs ++ written ts
written-map-some [] ts = refl
written-map-some (b ∷ bs) ts = ap (◌∷◌ b) (written-map-some bs ts)

pub kept-map-some : (bs : List ℕ) (ts : List (Option ℕ)) → kept (map some bs ++ ts) ≡ bs ++ kept ts
kept-map-some [] ts = refl
kept-map-some (b ∷ bs) ts = ap (◌∷◌ b) (kept-map-some bs ts)

pub marks-map-some : (bs : List ℕ) (ts : List (Option ℕ)) → marks (map some bs ++ ts) ≡ marks ts
marks-map-some [] ts = refl
marks-map-some (b ∷ bs) ts = marks-map-some bs ts

take_all : (bs : List ℕ) (n : ℕ) → length bs ≤ n → take n bs ≡ bs
take_all [] zero h = refl
take_all [] (suc n) h = refl
take_all (b ∷ bs) zero h = absurd (omega arith)
take_all (b ∷ bs) (suc n) h = ap (◌∷◌ b) (take_all bs n (omega arith))

length-drop : (n : ℕ) (bs : List ℕ) → length (drop n bs) ≡ length bs - n
length-drop zero bs = omega arith
length-drop (suc n) [] = omega arith
length-drop (suc n) (b ∷ bs) = omega (arith, length-drop n bs)

pub drop_all : (n : ℕ) (bs : List ℕ) → length bs ≤ n → drop n bs ≡ []
drop_all zero [] h = refl
drop_all (suc n) [] h = refl
drop_all zero (b ∷ bs) h = absurd (omega arith)
drop_all (suc n) (b ∷ bs) h = drop_all n bs (omega arith)

pub render-tagged :
    (v : List ℕ) (i : ℕ) (matches : List Match)
    → Proper (length v) matches
    → Ordered i matches
    → render v i matches ≡ some (written (tagged v i matches))
unfolding render tagged
render-tagged v i [] p o = elim (Bool-cases (ltb i (length v))) [
  | inl more ↦
      rw (more, render)
        (slice-le v i (length v) (ground arith) (omega arith)
          ∙ ap some (
              take_all (drop i v) (length v - i) (omega (arith, length-drop i v))
              ∙ sym (written-map (drop i v))))
  | inr done ↦ rw (done, render) (rw (drop_all i v (ground arith)))
]
render-tagged v i (m ∷ matches) p o = rw (slice-le v i m.0 o.0 (omega arith)) (
    rw (render-tagged v m.1 matches p.2 o.2)
      (ap some (sym (written-map-some (take (m.0 - i) (drop i v)) (none ∷ tagged v m.1 matches)))))

continues :
    (front : List ℕ) (r : Option (List ℕ)) (out : List ℕ)
    → (r >>= λ rest. some (front ++ (redact_bytes ++ rest))) ≡ some out
    → (rest : List ℕ) × (r ≡ some rest)
continues front none out e = cc
continues front (some rest) out e = (rest, refl)

render-Ordered :
    (v : List ℕ) (i : ℕ) (matches : List Match) (out : List ℕ)
    → Proper (length v) matches
    → render v i matches ≡ some out
    → Ordered i matches
unfolding render
render-Ordered v i [] out p r = tt
render-Ordered v i (m ∷ matches) out p r = elim (Bool-cases (leb i m.0)) [
  | inl fits ↦
      let (rest, e) =
        continues (take (m.0 - i) (drop i v)) (render v m.1 matches) out
          (rw (slice-le v i m.0 (leb→le _ _ fits) (omega arith)) at r) in
      (leb→le _ _ fits, p.0, render-Ordered v m.1 matches rest p.2 e)
  | inr over ↦
      let e : ◌≡◌ {A = Option (List ℕ)} none (some out) = rw (slice_over v i m.0 over) at r in
      absurd (cc)
]

-- Writing succeeds exactly if the matches are in order.
pub render_iff :
    (v : List ℕ) (i : ℕ) (matches : List Match)
    → Proper (length v) matches
    → ((out : List ℕ) × (render v i matches ≡ some out)) ↔ Ordered i matches
render_iff v i matches p =
    (λ (out, r). render-Ordered v i matches out p r, λ o. (_, render-tagged v i matches p o))
