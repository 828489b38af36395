-- ===== src/Program/Ends.antt =====
-- How many steps the threads can take.
use tsag.Base.{
  ℕ, zero, suc, ◌+◌, ◌*◌, ◌-◌, ◌<◌, ◌≤◌, ◌≡◌, refl, ap, List, [], ◌∷◌, ◌++◌, some, length,
  get_elem?, set, map, inl, inr, arith, length-set,
}
use tsag.Base.Gather.{get_elem?-in, length-map}
use tsag.Queue.{new_queue, io_queue_close}
use tsag.Queue.Answers.{put-inv, get_item-inv}
use tsag.Worker.{Setup}
use tsag.Program.{
  Job, Worker, begins, parses, drains, puts, ended, begin, World, at_start, Stage, walks, joins,
  awaits_merge, over, Merger, collects, merged, Step, Reach, start, later, walk_puts, main_closes,
  main_joins, main_closes_batches, main_joins_merge, worker_begins, worker_parses, worker_sorts,
  worker_frees, worker_gives_up, worker_puts, merger_gets, merger_merges,
}
use tsag.Program.Moves.{begin-cases, parse_job-inv, sort_batch-inv}

-- How many steps are left: those of a worker, with the one that takes its batch;
abbrev worker_left : Worker → ℕ
worker_left (begins setup) = 4
worker_left (parses setup taken vec) = 3
worker_left (drains setup taken) = 3
worker_left (puts setup taken vec) = 2
worker_left (ended setup taken) = 0

abbrev workers_left : List Worker → ℕ
workers_left [] = 0
workers_left (p ∷ ws) = worker_left p + workers_left ws

-- those of `main` with `n` workers, and those that take the paths that it puts;
abbrev stage_left : ℕ → Stage → ℕ
stage_left n (walks js) = 2 * length js + (n + 3)
stage_left n (joins i) = (n - i) + 2
stage_left n awaits_merge = 1
stage_left n over = 0

-- and that of the merge.
abbrev merger_left : Merger → ℕ
merger_left (collects received) = 1
merger_left (merged received result) = 0

unfoldable left : World → ℕ
left w =
    stage_left (length w.workers) w.stage
    + (w.queue.count + (workers_left w.workers + (w.out_queue.count + merger_left w.merger)))

workers_left-set :
    (ws : List Worker) (i : ℕ) (here next : Worker)
    → get_elem? ws i ≡ some here
    → workers_left (set ws i next) + worker_left here ≡ workers_left ws + worker_left next
workers_left-set [] i here next e = absurd (cc e)
workers_left-set (p ∷ ws) zero here next e =
    let same = ap worker_left (let same : p ≡ here = cc e in same) in omega (arith, same)
workers_left-set (p ∷ ws) (suc i) here next e =
    let rest = workers_left-set ws i here next e in omega (arith, rest)

begin-left : (setup : Setup) (next : Worker) → begin setup ≡ some next → worker_left next ≤ 3
begin-left setup next e = elim (begin-cases setup next e) [
  | inl p ↦ let n = ap worker_left p.0 in omega (arith, n)
  | inr (inl p) ↦ let n = ap worker_left p.0 in omega (arith, n)
  | inr (inr p) ↦ let n = ap worker_left p.0 in omega (arith, n)
]

-- A worker's step, with what it does to the queues.
worker-left :
    (v w : World) (i : ℕ) (here next : Worker)
    → get_elem? v.workers i ≡ some here
    → w.workers ≡ set v.workers i next
    → w.stage ≡ v.stage
    → w.merger ≡ v.merger
    → worker_left next + (w.queue.count + w.out_queue.count)
      < worker_left here + (v.queue.count + v.out_queue.count)
    → left w < left v
unfolding left
worker-left v w i here next e ws s m less =
    let change = workers_left-set v.workers i here next e in
    let same_length = length-set v.workers i next in
    rw (ws, s, m, same_length) (omega (arith, change, less))

Step-left : (v w : World) → Step v w → left w < left v
unfolding left io_queue_close
Step-left v _ (walk_puts j js q s e) =
    let (c, cap, n) = put-inv v.queue q j e in rw s (omega (arith, n))
Step-left v _ (main_closes s) = rw s (omega arith)
Step-left v _ (main_joins i setup taken s e) =
    let lt = get_elem?-in v.workers i _ e in rw s (omega (arith, lt))
Step-left v _ (main_closes_batches s) = rw s (omega arith)
Step-left v _ (main_joins_merge received result s e) = rw s (omega arith)
Step-left v w (worker_begins i setup next e b) =
    let few = begin-left setup next b in
    worker-left v w i _ next e refl refl refl (omega (arith, few))
Step-left v w (worker_parses i setup taken vec j q next e g p) =
    let (status, after, f, n) = parse_job-inv setup taken vec j next p in
    let (c, cap, less) = get_item-inv v.queue q (some j) g in
    let same = ap worker_left n in
    worker-left v w i _ next e refl refl refl (omega (arith, less, same))
Step-left v w (worker_sorts i setup taken vec next e g p) =
    let (after, freed, f, n) = sort_batch-inv setup taken vec next p in
    let same = ap worker_left n in worker-left v w i _ next e refl refl refl (omega (arith, same))
Step-left v w (worker_frees i setup taken j q e g) =
    let (c, cap, less) = get_item-inv v.queue q (some j) g in
    worker-left v w i _ (drains setup (taken ++ j ∷ [])) e refl refl refl (omega (arith, less))
Step-left v w (worker_gives_up i setup taken e g) =
    worker-left v w i _ (ended setup taken) e refl refl refl (omega arith)
Step-left v w (worker_puts i setup taken vec q e p) =
    let (c, cap, more) = put-inv v.out_queue q vec p in
    worker-left v w i _ (ended setup taken) e refl refl refl (omega (arith, more))
Step-left v _ (merger_gets received vec q e g) =
    let (c, cap, less) = get_item-inv v.out_queue q (some vec) g in rw e (omega (arith, less))
Step-left v _ (merger_merges received e g) = rw e (omega arith)

-- The number of steps of a run.
unfoldable pub steps : {setups : List Setup} {jobs : List Job} {w : World} → Reach setups jobs w → ℕ
steps start = 0
steps (later r s) = suc (steps r)

left-bounds_steps :
    (setups : List Setup) (jobs : List Job) (w : World) (r : Reach setups jobs w)
    → steps r + left w ≤ left (at_start setups jobs)
unfolding steps
left-bounds_steps setups jobs _ start = omega arith
left-bounds_steps setups jobs w (later {v = v} r s) =
    let down = Step-left v w s in
    let before = left-bounds_steps setups jobs v r in omega (arith, down, before)

begins_left : (setups : List Setup) → workers_left (map begins setups) ≡ 4 * length setups
begins_left [] = refl
begins_left (s ∷ setups) = let rest = begins_left setups in omega (arith, rest)

-- No run of the threads is longer than two steps for each path, five for each worker and four more,
-- whatever the interleaving: there is no run without end.
pub Reach-short :
    (setups : List Setup) (jobs : List Job) (w : World) (r : Reach setups jobs w)
    → steps r ≤ 2 * length jobs + (5 * length setups + 4)
unfolding left at_start new_queue
Reach-short setups jobs w r =
    let bound = left-bounds_steps setups jobs w r in
    let workers = begins_left setups in
    let n = length-map begins setups in omega (arith, bound, workers, n)
