-- ===== src/Pipeline.antt =====
-- src/main.c: the workers and the merge together. `main` starts the workers, closes their queue
-- when the walk has ended, waits for all of them and then closes the queue of the merge.
pub mod Laws
pub mod Files
pub mod Shares
pub mod Regroup
pub mod Paths
pub mod Once
pub mod Sample
mod Tests
use tsag.Base.{List, [], ◌∷◌, Option, none, some, ◌>>=◌, Bytes, length}
use tsag.LineVec.{LineVec}
use tsag.Merge.{Merged, merge}
use tsag.Parse.File.{Outside}
use tsag.Worker.{Setup, worker}

-- How a worker is set up, and the paths that it gets. The queue hands out each path to one worker.
abbrev pub Share : Type 0
Share = Setup × List (Bytes × Outside)

unfoldable pub add_put : Option LineVec → List LineVec → List LineVec
add_put none rest = rest
add_put (some vec) rest = vec ∷ rest

-- What the workers put into the second queue, for workers listed in the order in which they put.
unfoldable pub run_workers : List Share → Option (List LineVec)
run_workers [] = some []
run_workers ((setup, jobs) ∷ shares) = do
  o ← worker setup jobs
  rest ← run_workers shares
  some (add_put o.put rest)

-- One worker for each share; `merge` is told their number.
unfoldable pub tag_file : List Share → Option Merged
tag_file shares = do received ← run_workers shares; merge (length shares) received
