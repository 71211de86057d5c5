-- ===== src/Middleware/Interface.antt =====
-- What the stages use of the `logdna_client` and `regex` crates.
use logdna_agent_v.Base.{ℕ, ◌≡◌, Bool, true, false, Option, some, List, length}
use logdna_agent_v.Middleware.Redact.{Match}
use logdna_agent_v.Middleware.Redact.Order.{Ordered}
use logdna_agent_v.Middleware.Redact.Render.{Proper}

-- A line behind `LineBufferMut`. A setter that fails gives `none`.
pub record LineBuffer : Type 1 where
  pub Line : Type 0
  pub get_line_buffer : Line → Option (List ℕ)
  pub set_line_buffer : Line → List ℕ → Option Line
  pub get-set :
      (line : Line) (bytes : List ℕ) (line' : Line)
      → set_line_buffer line bytes ≡ some line'
      → get_line_buffer line' ≡ some bytes

-- Regular expressions and sets of them. `find_iter` gives the matches from left to right, none of
-- which begins before the one in front of it ends, within the bytes that are searched.
pub record Engine : Type 1 where
  pub Regex : Type 0
  pub RegexSet : Type 0
  pub find_iter : Regex → List ℕ → List Match
  pub is_empty : RegexSet → Bool
  pub is_match : RegexSet → List ℕ → Bool
  pub found-Ordered : (r : Regex) (value : List ℕ) → Ordered 0 (find_iter r value)
  pub found-Proper : (r : Regex) (value : List ℕ) → Proper (length value) (find_iter r value)
  -- A set without expressions matches nothing.
  pub empty-no_match :
      (s : RegexSet) (value : List ℕ) → is_empty s ≡ true → is_match s value ≡ false

-- What a stage makes of a line.
pub data Status {ℓ} (A : Type ℓ) : Type ℓ where
  ok : A → Status A
  skip : Status A
