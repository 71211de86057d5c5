-- ===== src/Middleware/K8sLineRules/Expressions.antt =====
-- The regular expressions of common/middleware/src/k8s_line_rules.rs that read the rules, and which texts
-- an expression matches. A text is the list of its code points; all expressions start at its beginning.
use Prim.Native.Char.{code}
use Prim.Native.String.{String}
use logdna_agent_v.Base.{
  ℕ, ◌≡◌, ◌⊎◌, Bool, true, false, ◌&&◌, List, [], ◌∷◌, ◌++◌, leb, if◌then◌else◌,
}

abbrev pub codes : String → List ℕ
codes String.[] = []
codes (String.◌∷◌ c s) = code c ∷ codes s

-- `one` is a class of characters, as a list of ranges.
pub data Regex : Type 0 where
  nothing : Regex
  one : List (ℕ × ℕ) → Regex
  seq alt : Regex → Regex → Regex
  star : Regex → Regex

abbrev pub in_ranges : ℕ → List (ℕ × ℕ) → Bool
in_ranges c [] = false
in_ranges c ((low, high) ∷ ranges) =
    let rest = in_ranges c ranges in if leb low c && leb c high then true else rest

pub data Star (P : List ℕ → Type 0) : List ℕ → Type 0 where
  star_nil : Star P []
  star_cons : (p q : List ℕ) → P p → Star P q → Star P (p ++ q)

-- The whole of the text matches.
abbrev pub Matches : Regex → List ℕ → Type 0
Matches nothing s = s ≡ []
Matches (one ranges) s = (c : ℕ) × (s ≡ c ∷ []) × (in_ranges c ranges ≡ true)
Matches (alt a b) s = Matches a s ⊎ Matches b s
Matches (seq a b) s = (p : List ℕ) × (q : List ℕ) × (s ≡ p ++ q) × Matches a p × Matches b q
Matches (star a) s = Star (Matches a) s

abbrev pub char : ℕ → Regex
char c = one ((c, c) ∷ [])

abbrev pub literal : List ℕ → Regex
literal [] = nothing
literal (c ∷ cs) = seq (char c) (literal cs)

-- `.` is any character but the end of a line.
abbrev pub dot : Regex
dot = one ((0, 9) ∷ (11, 1114111) ∷ [])

-- `[a-z0-9]`
abbrev pub letter : Regex
letter = one ((97, 122) ∷ (48, 57) ∷ [])

-- `[a-z0-9]+(|-|.|/)*[a-z0-9]*`
abbrev pub key_regex : Regex
key_regex =
    seq (seq letter (star letter))
      (seq (star (alt nothing (alt (char 45) (alt dot (char 47))))) (star letter))

-- `[a-z0-9]*((|-)[a-z0-9])*`
abbrev pub value_regex : Regex
value_regex = seq (star letter) (star (seq (alt nothing (char 45)) letter))

abbrev pub colon : Regex
colon = char 58

abbrev pub key_value_regex : Regex
key_value_regex = seq key_regex (seq colon value_regex)
