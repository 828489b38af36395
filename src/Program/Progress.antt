-- ===== src/Program/Progress.antt =====
-- No state of the threads is stuck before the end.
use native.Mathlib.Decide.{dec_lt}
use tsag.Base.{
  ℕ, ◌<◌, ◌≡◌, ◌⊎◌, refl, ap, ◌∙◌, true, false, List, [], ◌∷◌, some, length, get_elem?, inl, inr,
  arith, get_elem?-map_inv,
}
use tsag.Base.Gather.{get_elem?-some, get_elem?-in}
use tsag.LineVec.{LineVec}
use tsag.Queue.{IoQueue, Got, io_queue_get}
use tsag.Queue.Laws.{Holds, io_queue_put-Holds, io_queue_get-Holds}
use tsag.Worker.{Setup}
use tsag.Program.{
  Job, Worker, begins, parses, drains, puts, ended, World, Stage, walks, joins, awaits_merge, over,
  Merger, collects, merged, Step, Reach, walk_puts, main_closes, main_joins, main_closes_batches,
  main_joins_merge, worker_begins, worker_parses, worker_sorts, worker_frees, worker_gives_up,
  worker_puts, merger_gets, merger_merges,
}
use tsag.Program.Invariant.{Batched, Kept, IsPlaced, IsStaged, IsMerging, IsParser, setup_of}
use tsag.Program.Total.{begin-total, parse_job-total, sort_batch-total}
use tsag.Program.Whole.{Whole, Reach-Whole}

-- A queue that is closed answers at once.
closed_answers :
    {A : Type 0} (q : IoQueue A) (waiting : List A)
    → Holds q waiting
    → q.closed ≡ true
    → (io_queue_get q ≡ Got.drained)
      ⊎ ((x : A) × (r : IoQueue A) × (io_queue_get q ≡ Got.item (some x) r))
closed_answers q waiting h c = elim (io_queue_get-Holds q waiting h) [
  | inl p ↦ absurd (cc (c, p.1))
  | inr (inl p) ↦ inl p.2
  | inr (inr (x, rest, r, split, g, k, same)) ↦ inr (x, r, g)
]

-- So does one that is full.
full_answers :
    {A : Type 0} (q : IoQueue A) (waiting : List A)
    → Holds q waiting
    → length waiting ≡ q.cap
    → (x : A) × (r : IoQueue A) × (io_queue_get q ≡ Got.item (some x) r)
full_answers q waiting h full = elim (io_queue_get-Holds q waiting h) [
  | inl p ↦ let none_waits = ap length p.0 in absurd (omega (arith, full, none_waits, h.head_in))
  | inr (inl p) ↦
      let none_waits = ap length p.0 in absurd (omega (arith, full, none_waits, h.head_in))
  | inr (inr (x, rest, r, split, g, k, same)) ↦ (x, r, g)
]

-- Some step is possible.
abbrev pub IsLive : World → Type 0
IsLive w = (next : World) × Step w next

-- A path waits for a worker.
parser_takes :
    (w : World) (i : ℕ) (p : Worker) (j : Job) (q : IoQueue Job)
    → get_elem? w.workers i ≡ some p
    → IsPlaced w p
    → IsParser (setup_of p)
    → w.queue.closed ≡ false
    → io_queue_get w.queue ≡ Got.item (some j) q
    → IsLive w
parser_takes w i (begins setup) j q e h parser o g =
    let (next, b) = begin-total setup in (_, worker_begins i setup next e b)
parser_takes w i (parses setup taken vec) j q e h parser o g =
    let (next, p) = parse_job-total setup taken vec j in
    (_, worker_parses i setup taken vec j q next e g p)
parser_takes w i (drains setup taken) j q e h parser o g = (_, worker_frees i setup taken j q e g)
parser_takes w i (puts setup taken vec) j q e h parser o g = absurd (cc (o, h.0.0))
parser_takes w i (ended setup taken) j q e (inl h) parser o g = absurd (cc (parser, h))
parser_takes w i (ended setup taken) j q e (inr h) parser o g = absurd (cc (o, h.0))

-- A batch waits for the merge, or there is room for one more.
puts_batch :
    (w : World) (i : ℕ) (setup : Setup) (taken : List Job) (vec : LineVec) (m : Merger)
    → Batched w
    → get_elem? w.workers i ≡ some (puts setup taken vec)
    → w.merger ≡ m
    → IsMerging w m
    → w.out_queue.closed ≡ false
    → IsLive w
puts_batch w i setup taken vec (collects received) b e m h o =
    elim (io_queue_put-Holds w.out_queue b.waiting vec b.holds) [
      | inl full ↦
          let (next, q, g) = full_answers w.out_queue b.waiting b.holds full.0 in
          (_, merger_gets received next q m g)
      | inr (room, q, p, k) ↦ (_, worker_puts i setup taken vec q e p)
    ]
puts_batch w i setup taken vec (merged received result) b e m h o = absurd (cc (o, h.1))

-- `main` waits for a worker.
joins_worker :
    (jobs : List Job) (w : World) (i : ℕ) (p : Worker)
    → Kept jobs w
    → Batched w
    → get_elem? w.workers i ≡ some p
    → IsPlaced w p
    → w.stage ≡ joins i
    → w.queue.closed ≡ true
    → w.out_queue.closed ≡ false
    → IsMerging w w.merger
    → IsLive w
joins_worker jobs w i (begins setup) k b e h s c o m =
    let (next, f) = begin-total setup in (_, worker_begins i setup next e f)
joins_worker jobs w i (parses setup taken vec) k b e (parser, v, l) s c o m =
    elim (closed_answers w.queue k.waiting k.holds c) [
      | inl g ↦
          let (next, f) = sort_batch-total setup taken vec parser v l in
          (_, worker_sorts i setup taken vec next e g f)
      | inr (j, q, g) ↦
          let (next, f) = parse_job-total setup taken vec j in
          (_, worker_parses i setup taken vec j q next e g f)
    ]
joins_worker jobs w i (drains setup taken) k b e h s c o m =
    elim (closed_answers w.queue k.waiting k.holds c) [
      | inl g ↦ (_, worker_gives_up i setup taken e g)
      | inr (j, q, g) ↦ (_, worker_frees i setup taken j q e g)
    ]
joins_worker jobs w i (puts setup taken vec) k b e h s c o m =
    puts_batch w i setup taken vec w.merger b e refl m o
joins_worker jobs w i (ended setup taken) k b e h s c o m = (_, main_joins i setup taken s e)

-- The queue of the merge is closed.
merger_goes_on :
    (w : World) (m : Merger)
    → Batched w
    → w.merger ≡ m
    → w.stage ≡ awaits_merge
    → w.out_queue.closed ≡ true
    → IsLive w
merger_goes_on w (collects received) b m s c =
    elim (closed_answers w.out_queue b.waiting b.holds c) [
      | inl g ↦ (_, merger_merges received m g)
      | inr (vec, q, g) ↦ (_, merger_gets received vec q m g)
    ]
merger_goes_on w (merged received result) b m s c = (_, main_joins_merge received result s m)

-- `main` puts a path, or the queue is full and a worker with a parser takes one.
walk_goes_on :
    (setups : List Setup) (jobs : List Job) (w : World) (i : ℕ) (setup : Setup) (j : Job)
    (js : List Job)
    → Whole setups jobs w
    → get_elem? setups i ≡ some setup
    → IsParser setup
    → w.stage ≡ walks (j ∷ js)
    → w.queue.closed ≡ false
    → IsLive w
walk_goes_on setups jobs w i setup j js a e parser s o =
    elim (io_queue_put-Holds w.queue a.kept.waiting j a.kept.holds) [
      | inl full ↦
          let (first, q, g) = full_answers w.queue a.kept.waiting a.kept.holds full.0 in
          let (p, at, same) = get_elem?-map_inv setup_of w.workers i setup (rw a.same_setups e) in
          parser_takes w i p first q at (a.local.placed i p at) (rw same parser) o g
      | inr (room, q, p, k) ↦ (_, walk_puts j js q s p)
    ]

goes_on :
    (setups : List Setup) (jobs : List Job) (w : World) (i : ℕ) (setup : Setup) (stage : Stage)
    → Whole setups jobs w
    → get_elem? setups i ≡ some setup
    → IsParser setup
    → w.stage ≡ stage
    → IsStaged w stage
    → (w.stage ≡ over) ⊎ IsLive w
goes_on setups jobs w i setup (walks []) a e parser s h = inr (_, main_closes s)
goes_on setups jobs w i setup (walks (j ∷ js)) a e parser s h =
    inr (walk_goes_on setups jobs w i setup j js a e parser s h.0)
goes_on setups jobs w i setup (joins n) a e parser s (c, o, le, all) =
    elim (dec_lt n (length w.workers)) [
      | yes more ↦
          let (p, at) = get_elem?-some w.workers n more in
          inr (
            joins_worker jobs w n p a.kept a.batched at (a.local.placed n p at) s c o
              a.local.merging)
      | no none_left ↦
          let same : n ≡ length w.workers = omega (arith, le, none_left) in
          inr (_, main_closes_batches (s ∙ ap joins same))
    ]
goes_on setups jobs w i setup awaits_merge a e parser s h =
    inr (merger_goes_on w w.merger a.batched refl s h.1)
goes_on setups jobs w i setup over a e parser s h = inl s

-- The threads are never stuck before the end: in every state that they reach, `main` has joined
-- all of them, or some thread can take a step. This takes that at least one worker has its parser and
-- its cursor; its vector may be missing, and the other workers may have nothing.
pub Reach-live :
    (setups : List Setup) (jobs : List Job) (w : World) (i : ℕ) (setup : Setup)
    → get_elem? setups i ≡ some setup
    → IsParser setup
    → Reach setups jobs w
    → (w.stage ≡ over) ⊎ ((next : World) × Step w next)
Reach-live setups jobs w i setup e parser r =
    let pos : 0 < length setups = (let lt = get_elem?-in setups i setup e in omega (arith, lt)) in
    let a = Reach-Whole setups jobs w pos r in
    goes_on setups jobs w i setup w.stage a e parser refl a.local.staged
