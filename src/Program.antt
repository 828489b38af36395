-- ===== src/Program.antt =====
-- src/main.c, src/worker.c and src/merge.c at run time: `main` walks, closes and joins, the workers
-- get paths and put batches, and the merge gets batches, all by the two queues. Each critical section
-- of a queue is one step, together with what its thread does next on its own. A thread that finds its
-- loop's condition true takes no step; Queue/Threads has how it sleeps and wakes.
pub mod Invariant
pub mod Moves
pub mod Kept
pub mod Batches
pub mod Whole
pub mod Carry
pub mod Local
pub mod Result
pub mod Same
pub mod Tree
pub mod Total
pub mod Progress
pub mod Ends
pub mod Stuck
pub mod Sample
mod Tests
use tsag.Base.{
  ℕ, suc, true, false, not, List, [], ◌∷◌, ◌++◌, map, Option, none, some, ◌>>=◌, ◌≡◌, Bytes, length,
  get_elem?, set, if◌then◌else◌,
}
use tsag.LineVec.{LineVec, line_vec_new, line_vec_sort, line_vec_uniq}
use tsag.Merge.{Merged, merge}
use tsag.Parse.File.{Outside, parse_file_lines}
use tsag.Queue.{IoQueue, Got, new_queue, io_queue_put, io_queue_get, io_queue_close}
use tsag.Worker.{Setup}
use tsag.Main.{queue_capacity}

-- A path, with what the outside answers while its file is parsed.
abbrev pub Job : Type 0
Job = Bytes × Outside

-- Where a worker is: before its set-up; in the loop that parses, or in the one that only frees the
-- paths; before it puts its batch; or at its end. The list is what it has got so far.
pub data Worker : Type 0 where
  begins : Setup → Worker
  parses : Setup → List Job → LineVec → Worker
  drains : Setup → List Job → Worker
  puts : Setup → List Job → LineVec → Worker
  ended : Setup → List Job → Worker

-- Where `main` is: it has these paths still to put; it joins worker `i` next; it waits for the merge;
-- or all threads are joined.
pub data Stage : Type 0 where
  walks : List Job → Stage
  joins : ℕ → Stage
  awaits_merge : Stage
  over : Stage

-- The merge has these batches, and in the end what `merge` makes of them.
pub data Merger : Type 0 where
  collects : List LineVec → Merger
  merged : List LineVec → Option Merged → Merger

pub record World : Type 0 where
  pub stage : Stage
  pub queue : IoQueue Job
  pub workers : List Worker
  pub out_queue : IoQueue LineVec
  pub merger : Merger

unfoldable pub with_vec : Setup → Option LineVec → Worker
with_vec setup none = drains setup []
with_vec setup (some vec) = parses setup [] vec

-- The set-up of `worker`.
unfoldable pub begin : Setup → Option Worker
begin setup =
    if not setup.parser_ok
    then some (ended setup [])
    else if not setup.cursor_ok
    then some (ended setup [])
    else (do vec ← line_vec_new setup.vec_ok 128; some (with_vec setup vec))

-- The body of the loop that parses.
unfoldable pub parse_job : Setup → List Job → LineVec → Job → Option Worker
parse_job setup taken vec (path, x) = do
  (status, vec) ← parse_file_lines path x vec
  some (parses setup (taken ++ (path, x) ∷ []) vec)

-- After that loop.
unfoldable pub sort_batch : Setup → List Job → LineVec → Option Worker
sort_batch setup taken vec = do
  (vec, freed) ← line_vec_uniq (line_vec_sort vec)
  some (puts setup taken vec)

pub data Step (w : World) : World → Type 0 where
  walk_puts :
      (j : Job) (js : List Job) (q : IoQueue Job)
      → w.stage ≡ walks (j ∷ js)
      → io_queue_put w.queue j ≡ some q
      → Step w (record w { stage = walks js; queue = q })
  main_closes :
      w.stage ≡ walks [] → Step w (record w { stage = joins 0; queue = io_queue_close w.queue })
  main_joins :
      (i : ℕ) (setup : Setup) (taken : List Job)
      → w.stage ≡ joins i
      → get_elem? w.workers i ≡ some (ended setup taken)
      → Step w (record w { stage = joins (suc i) })
  main_closes_batches :
      w.stage ≡ joins (length w.workers)
      → Step w (record w { stage = awaits_merge; out_queue = io_queue_close w.out_queue })
  main_joins_merge :
      (received : List LineVec) (result : Option Merged)
      → w.stage ≡ awaits_merge
      → w.merger ≡ merged received result
      → Step w (record w { stage = over })
  worker_begins :
      (i : ℕ) (setup : Setup) (next : Worker)
      → get_elem? w.workers i ≡ some (begins setup)
      → begin setup ≡ some next
      → Step w (record w { workers = set w.workers i next })
  worker_parses :
      (i : ℕ) (setup : Setup) (taken : List Job) (vec : LineVec) (j : Job) (q : IoQueue Job)
      (next : Worker)
      → get_elem? w.workers i ≡ some (parses setup taken vec)
      → io_queue_get w.queue ≡ Got.item (some j) q
      → parse_job setup taken vec j ≡ some next
      → Step w (record w { queue = q; workers = set w.workers i next })
  worker_sorts :
      (i : ℕ) (setup : Setup) (taken : List Job) (vec : LineVec) (next : Worker)
      → get_elem? w.workers i ≡ some (parses setup taken vec)
      → io_queue_get w.queue ≡ Got.drained
      → sort_batch setup taken vec ≡ some next
      → Step w (record w { workers = set w.workers i next })
  worker_frees :
      (i : ℕ) (setup : Setup) (taken : List Job) (j : Job) (q : IoQueue Job)
      → get_elem? w.workers i ≡ some (drains setup taken)
      → io_queue_get w.queue ≡ Got.item (some j) q
      → Step w (record w { queue = q; workers = set w.workers i (drains setup (taken ++ j ∷ [])) })
  worker_gives_up :
      (i : ℕ) (setup : Setup) (taken : List Job)
      → get_elem? w.workers i ≡ some (drains setup taken)
      → io_queue_get w.queue ≡ Got.drained
      → Step w (record w { workers = set w.workers i (ended setup taken) })
  worker_puts :
      (i : ℕ) (setup : Setup) (taken : List Job) (vec : LineVec) (q : IoQueue LineVec)
      → get_elem? w.workers i ≡ some (puts setup taken vec)
      → io_queue_put w.out_queue vec ≡ some q
      → Step w (record w { workers = set w.workers i (ended setup taken); out_queue = q })
  merger_gets :
      (received : List LineVec) (vec : LineVec) (q : IoQueue LineVec)
      → w.merger ≡ collects received
      → io_queue_get w.out_queue ≡ Got.item (some vec) q
      → Step w (record w { out_queue = q; merger = collects (received ++ vec ∷ []) })
  merger_merges :
      (received : List LineVec)
      → w.merger ≡ collects received
      → io_queue_get w.out_queue ≡ Got.drained
      → Step w (record w { merger = merged received (merge (length w.workers) received) })

-- All threads are created, and `jobs` are the paths that the walk finds, in order.
unfoldable pub at_start : List Setup → List Job → World
at_start setups jobs = record {
  stage = walks jobs;
  queue = new_queue queue_capacity;
  workers = map begins setups;
  out_queue = new_queue (length setups);
  merger = collects [];
}

pub data Reach (setups : List Setup) (jobs : List Job) : World → Type 0 where
  start : Reach setups jobs (at_start setups jobs)
  later : {v w : World} → Reach setups jobs v → Step v w → Reach setups jobs w
