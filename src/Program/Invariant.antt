-- ===== src/Program/Invariant.antt =====
-- What the threads of the program have between them, and what a thread's place says of the rest.
use tsag.Base.{
  ℕ, ◌≤◌, ◌<◌, ◌≡◌, ◌⊎◌, ◌&&◌, true, false, List, [], ◌∷◌, ◌++◌, Option, none, some, length,
  get_elem?, Perm,
}
use tsag.Base.Gather.{gather}
use tsag.LineVec.{LineVec, line_vec_new}
use tsag.Merge.{Merged, merge}
use tsag.Queue.Laws.{Holds}
use tsag.Worker.{Setup, parse_loop, worker}
use tsag.Worker.Laws.{fresh_vec}
use tsag.Pipeline.{Share, run_workers}
use tsag.Program.{
  Job, Worker, begins, parses, drains, puts, ended, Stage, walks, joins, awaits_merge, over, Merger,
  collects, merged, World,
}

abbrev pub taken_of : Worker → List Job
taken_of (begins setup) = []
taken_of (parses setup taken vec) = taken
taken_of (drains setup taken) = taken
taken_of (puts setup taken vec) = taken
taken_of (ended setup taken) = taken

abbrev pub setup_of : Worker → Setup
setup_of (begins setup) = setup
setup_of (parses setup taken vec) = setup
setup_of (drains setup taken) = setup
setup_of (puts setup taken vec) = setup
setup_of (ended setup taken) = setup

abbrev pub share_of : Worker → Share
share_of p = (setup_of p, taken_of p)

abbrev pub ended_of : Worker → List Share
ended_of (begins setup) = []
ended_of (parses setup taken vec) = []
ended_of (drains setup taken) = []
ended_of (puts setup taken vec) = []
ended_of (ended setup taken) = (setup, taken) ∷ []

abbrev pub to_walk : Stage → List Job
to_walk (walks js) = js
to_walk (joins i) = []
to_walk awaits_merge = []
to_walk over = []

abbrev pub received_of : Merger → List LineVec
received_of (collects received) = received
received_of (merged received result) = received

-- The paths: each is with a worker, in the queue or still to be put.
pub record Kept (jobs : List Job) (w : World) : Type 0 where
  pub waiting : List Job
  pub holds : Holds w.queue waiting
  pub kept : Perm (gather taken_of w.workers ++ (waiting ++ to_walk w.stage)) jobs

-- The batches: what the workers that have ended put, in order, is what the merge has got and what
-- waits in its queue.
pub record Batched (w : World) : Type 0 where
  pub waiting : List LineVec
  pub holds : Holds w.out_queue waiting
  pub done : List Share
  pub put : run_workers done ≡ some (received_of w.merger ++ waiting)
  pub all : Perm done (gather ended_of w.workers)

-- No path will come any more.
abbrev pub IsClosed : World → Type 0
IsClosed w = (w.queue.closed ≡ true) × (w.queue.count ≡ 0)

abbrev pub IsParser : Setup → Type 0
IsParser setup = (setup.parser_ok && setup.cursor_ok) ≡ true

-- What a worker's place says.
abbrev pub IsPlaced : World → Worker → Type 0
IsPlaced w (begins setup) = Unit
IsPlaced w (parses setup taken vec) =
    IsParser setup
    × (line_vec_new setup.vec_ok 128 ≡ some (some fresh_vec))
    × (parse_loop taken fresh_vec ≡ some vec)
IsPlaced w (drains setup taken) = IsParser setup × (line_vec_new setup.vec_ok 128 ≡ some none)
IsPlaced w (puts setup taken vec) =
    IsClosed w × (worker setup taken ≡ some (record { put = some vec }))
IsPlaced w (ended setup taken) = ((setup.parser_ok && setup.cursor_ok) ≡ false) ⊎ IsClosed w

-- The workers below `i` have ended.
abbrev pub AreEnded : List Worker → ℕ → Type 0
AreEnded ws i =
    (k : ℕ)
    → k < i
    → (setup : Setup) × (taken : List Job) × (get_elem? ws k ≡ some (ended setup taken))

abbrev pub IsStaged : World → Stage → Type 0
IsStaged w (walks js) = (w.queue.closed ≡ false) × (w.out_queue.closed ≡ false)
IsStaged w (joins i) =
    (w.queue.closed ≡ true)
    × (w.out_queue.closed ≡ false)
    × (i ≤ length w.workers)
    × AreEnded w.workers i
IsStaged w awaits_merge =
    (w.queue.closed ≡ true) × (w.out_queue.closed ≡ true) × AreEnded w.workers (length w.workers)
IsStaged w over =
    (w.queue.closed ≡ true)
    × (w.out_queue.closed ≡ true)
    × AreEnded w.workers (length w.workers)
    × (received : List LineVec) × (result : Option Merged) × (w.merger ≡ merged received result)

abbrev pub IsMerging : World → Merger → Type 0
IsMerging w (collects received) = Unit
IsMerging w (merged received result) =
    (result ≡ merge (length w.workers) received)
    × (w.out_queue.closed ≡ true)
    × (w.out_queue.count ≡ 0)

pub record Local (w : World) : Type 0 where
  pub placed : (i : ℕ) (p : Worker) → get_elem? w.workers i ≡ some p → IsPlaced w p
  pub staged : IsStaged w w.stage
  pub merging : IsMerging w w.merger
