-- ===== src/Worker.antt =====
-- src/worker.c: one worker thread, on the paths that it gets from the queue before the queue is
-- drained, each with what the outside answers while its file is parsed. How it gets and frees them is
-- in Program.
pub mod Laws
mod Tests
use tsag.Base.{
  Bool, true, false, not, List, [], ◌∷◌, Option, none, some, ◌>>=◌, Bytes, map, if◌then◌else◌,
}
use tsag.LineVec.{LineVec, line_vec_new, line_vec_sort, line_vec_uniq}
use tsag.Parse.File.{Outside, parse_file_lines}

-- Which of the three set-up calls succeed, the last one made of two allocations.
pub record Setup : Type 0 where
  pub parser_ok : Bool
  pub cursor_ok : Bool
  pub vec_ok : Bool × Bool

-- The vector that the worker put out, `none` where it put none.
pub record Outcome : Type 0 where
  pub put : Option LineVec

-- `parse_file_lines` for each path; its status is not looked at.
unfoldable pub parse_loop : List (Bytes × Outside) → LineVec → Option LineVec
parse_loop [] vec = some vec
parse_loop ((path, x) ∷ jobs) vec = do
  (status, vec) ← parse_file_lines path x vec
  parse_loop jobs vec

-- With a vector, or with NULL.
unfoldable pub work : List (Bytes × Outside) → Option LineVec → Option Outcome
work jobs none = some (record { put = none })
work jobs (some vec) = do
  vec ← parse_loop jobs vec
  (vec, freed) ← line_vec_uniq (line_vec_sort vec)
  some (record { put = some vec })

unfoldable pub worker : Setup → List (Bytes × Outside) → Option Outcome
worker setup jobs =
    if not setup.parser_ok
    then some (record { put = none })
    else if not setup.cursor_ok
    then some (record { put = none })
    else line_vec_new setup.vec_ok 128 >>= work jobs
