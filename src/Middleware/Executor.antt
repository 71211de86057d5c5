-- ===== src/Middleware/Executor.antt =====
-- common/middleware/src/lib.rs: the stages in the order in which they were registered. The name of a
-- stage and the texts of errors are strings.
pub mod Order
use Prim.Native.String.{String}
use logdna_agent_v.Base.{◌≡◌, List, [], ◌∷◌, ◌++◌, Result, ok, err}
use logdna_agent_v.Middleware.Interface.{Status}

pub data MiddlewareError : Type 0 where
  skip retry : String → MiddlewareError

module _ (Line : Type 0) where
  -- The methods of the trait that take a line.
  pub record Middleware : Type 0 where
    pub name : String
    pub process_line : Line → Status Line
    pub validate_line : Line → Result MiddlewareError Line

  pub record Executor : Type 0 where
    pub middlewares : List Middleware

  unfoldable pub new : Executor
  new = record { middlewares = [] }

  unfoldable pub register : Executor → Middleware → Executor
  register ex m = record { middlewares = ex.middlewares ++ m ∷ [] }

  -- `try_fold` stops at the first error.
  process_from : Line → List Middleware → Result MiddlewareError Line
  process_from line [] = ok line
  process_from line (m ∷ rest) = elim (m.process_line line) [
    | Status.ok l ↦ process_from l rest
    | Status.skip ↦ err (skip m.name)
  ]

  unfoldable pub process : Executor → Line → Result MiddlewareError Line
  unfolding process_from
  process ex line = process_from line ex.middlewares

  validate_from : Line → List Middleware → Result MiddlewareError Line
  validate_from line [] = ok line
  validate_from line (m ∷ rest) = elim (m.validate_line line) [
    | ok l ↦ validate_from line rest
    | err e ↦ err e
  ]

  unfoldable pub validate : Executor → Line → Result MiddlewareError Line
  unfolding validate_from
  validate ex line = validate_from line ex.middlewares

  -- `line` becomes `line'` in these stages, none of which skips it.
  pub data Passes : Line → List Middleware → Line → Type 0 where
    done : (line : Line) → Passes line [] line
    stage :
        (line l line' : Line) (m : Middleware) (rest : List Middleware)
        → m.process_line line ≡ Status.ok l
        → Passes l rest line'
        → Passes line (m ∷ rest) line'

  -- The stages in front of one named `n` pass the line, and that one skips what they make of it.
  pub record SkippedBy (line : Line) (stages : List Middleware) (n : String) : Type 0 where
    pub front : List Middleware
    pub culprit : Middleware
    pub back : List Middleware
    pub seen : Line
    pub parts : stages ≡ front ++ culprit ∷ back
    pub passed : Passes line front seen
    pub skips : culprit.process_line seen ≡ Status.skip
    pub named : culprit.name ≡ n
