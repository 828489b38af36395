-- ===== src/Program/Kept.antt =====
-- No step loses a path, and none doubles one.
use mathlib.Core.List.Perm
use tsag.Base.{
  ℕ, ◌≡◌, refl, ap, List, [], ◌∷◌, ◌++◌, map, some, get_elem?, set, append_assoc, inl, inr, arith,
}
use tsag.Base.Gather.{gather, gather-set, gather-set_more}
use tsag.Queue.{IoQueue, Got, io_queue_get}
use tsag.Queue.Laws.{new_queue-Holds}
use tsag.Queue.Runs.{after_put, after_get, io_queue_close-Holds}
use tsag.Worker.{Setup}
use tsag.Main.{queue_capacity}
use mathlib.Core.List.{perm_middle}
use tsag.Program.{
  Job, Worker, begins, begin, World, at_start, Step, Reach, start, later, walk_puts, main_closes,
  main_joins, main_closes_batches, main_joins_merge, worker_begins, worker_parses, worker_sorts,
  worker_frees, worker_gives_up, worker_puts, merger_gets, merger_merges,
}
use tsag.Program.Invariant.{Kept, taken_of, to_walk}
use tsag.Program.Moves.{begin-cases, parse_job-inv, sort_batch-inv}

pub begin-takes : (setup : Setup) (next : Worker) → begin setup ≡ some next → taken_of next ≡ []
begin-takes setup next e = elim (begin-cases setup next e) [
  | inl p ↦ ap taken_of p.0
  | inr (inl p) ↦ ap taken_of p.0
  | inr (inr p) ↦ ap taken_of p.0
]

-- A step that changes neither the paths of a worker nor those of the queue.
same_paths :
    (jobs : List Job) (v w : World)
    → Kept jobs v
    → w.queue ≡ v.queue
    → to_walk w.stage ≡ to_walk v.stage
    → gather taken_of w.workers ≡ gather taken_of v.workers
    → Kept jobs w
same_paths jobs v w k q s g = record {
  waiting = k.waiting;
  holds = rw q k.holds;
  kept = rw (s, g) k.kept;
}

-- A worker takes the path at the head of the queue.
takes_path :
    (jobs : List Job) (v : World) (i : ℕ) (here next : Worker) (j : Job) (q : IoQueue Job)
    → Kept jobs v
    → get_elem? v.workers i ≡ some here
    → io_queue_get v.queue ≡ Got.item (some j) q
    → taken_of next ≡ taken_of here ++ j ∷ []
    → Kept jobs (record v { queue = q; workers = set v.workers i next })
takes_path jobs v i here next j q k e g t =
    let (rest, split, h) = after_get v.queue q k.waiting j k.holds g in
    record {
      waiting = rest;
      holds = h;
      kept =
          Perm.trans
            (Perm.append_right (rest ++ to_walk v.stage)
              (gather-set_more taken_of v.workers i here next j e t))
            (Perm.trans
              (Perm.symm (perm_middle (gather taken_of v.workers) (rest ++ to_walk v.stage)))
              (rw split at k.kept));
    }

pub Step-Kept : (jobs : List Job) (v w : World) → Kept jobs v → Step v w → Kept jobs w
Step-Kept jobs v _ k (walk_puts j js q s e) = record {
  waiting = k.waiting ++ j ∷ [];
  holds = after_put v.queue q k.waiting j k.holds e;
  kept = rw (append_assoc k.waiting (j ∷ []) js) (rw s at k.kept);
}
Step-Kept jobs v _ k (main_closes s) = record {
  waiting = k.waiting;
  holds = io_queue_close-Holds v.queue k.waiting k.holds;
  kept = rw s at k.kept;
}
Step-Kept jobs v _ k (main_joins i setup taken s e) = same_paths jobs v _ k refl (rw s refl) refl
Step-Kept jobs v _ k (main_closes_batches s) = same_paths jobs v _ k refl (rw s refl) refl
Step-Kept jobs v _ k (main_joins_merge received result s e) =
    same_paths jobs v _ k refl (rw s refl) refl
Step-Kept jobs v _ k (worker_begins i setup next e b) =
    same_paths jobs v _ k refl refl
      (gather-set taken_of v.workers i _ next e (begin-takes setup next b))
Step-Kept jobs v _ k (worker_parses i setup taken vec j q next e g p) =
    let (status, after, f, n) = parse_job-inv setup taken vec j next p in
    takes_path jobs v i _ next j q k e g (ap taken_of n)
Step-Kept jobs v _ k (worker_sorts i setup taken vec next e g p) =
    let (after, freed, f, n) = sort_batch-inv setup taken vec next p in
    same_paths jobs v _ k refl refl (gather-set taken_of v.workers i _ next e (ap taken_of n))
Step-Kept jobs v _ k (worker_frees i setup taken j q e g) = takes_path jobs v i _ _ j q k e g refl
Step-Kept jobs v _ k (worker_gives_up i setup taken e g) =
    same_paths jobs v _ k refl refl (gather-set taken_of v.workers i _ _ e refl)
Step-Kept jobs v _ k (worker_puts i setup taken vec q e p) =
    same_paths jobs v _ k refl refl (gather-set taken_of v.workers i _ _ e refl)
Step-Kept jobs v _ k (merger_gets received vec q e g) = same_paths jobs v _ k refl refl refl
Step-Kept jobs v _ k (merger_merges received e g) = same_paths jobs v _ k refl refl refl

pub none_taken : (setups : List Setup) → gather taken_of (map begins setups) ≡ []
unfolding gather
none_taken [] = refl
none_taken (s ∷ setups) = none_taken setups

start-Kept : (setups : List Setup) (jobs : List Job) → Kept jobs (at_start setups jobs)
unfolding at_start
start-Kept setups jobs = record {
  waiting = [];
  holds = new_queue-Holds queue_capacity (omega arith);
  kept = rw (none_taken setups) (Perm.refl jobs);
}

-- In every state that the program reaches, each path that the walk finds is with a worker, in the
-- queue or still to be put, and as often as it was found.
pub Reach-Kept :
    (setups : List Setup) (jobs : List Job) (w : World) → Reach setups jobs w → Kept jobs w
Reach-Kept setups jobs _ start = start-Kept setups jobs
Reach-Kept setups jobs w (later {v = v} r s) = Step-Kept jobs v w (Reach-Kept setups jobs v r) s
