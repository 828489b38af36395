-- ===== src/Program/Local.antt =====
-- What each thread's place says of the rest, after any step.
use tsag.Base.{
  ℕ, suc, ◌≡◌, refl, sym, ◌∙◌, true, List, [], ◌∷◌, ◌++◌, Option, some, length, get_elem?, set, inl,
  inr, arith, get_elem?-map_inv, subst,
}
use native.Mathlib.Decide.{dec_lt}
use tsag.Base.Gather.{get_elem?-in}
use tsag.LineVec.{LineVec}
use tsag.Merge.{merge}
use tsag.Queue.{IoQueue, Got, io_queue_get, io_queue_put, io_queue_close, new_queue}
use tsag.Queue.Answers.{put-inv, get_item-inv, get_drained-inv}
use tsag.Worker.{Setup, parse_loop}
use tsag.Worker.Laws.{fresh_vec}
use tsag.Program.{
  Job, Worker, begins, parses, drains, ended, begin, parse_job, sort_batch, World, at_start, walks,
  joins, awaits_merge, over, collects, merged, Step, Reach, start, later, walk_puts, main_closes,
  main_joins, main_closes_batches, main_joins_merge, worker_begins, worker_parses, worker_sorts,
  worker_frees, worker_gives_up, worker_puts, merger_gets, merger_merges,
}
use tsag.Program.Invariant.{Local, IsPlaced, IsStaged, IsMerging, IsClosed, AreEnded}
use tsag.Program.Moves.{begin-cases, parse_job-inv, sort_batch-inv, parse_loop-snoc, worker-puts}
use tsag.Program.Carry.{
  IsStaged-carry, IsMerging-open, IsMerging-carry, worker-Local, others-placed,
}

begin-Placed :
    (w : World) (setup : Setup) (next : Worker) → begin setup ≡ some next → IsPlaced w next
unfolding parse_loop
begin-Placed w setup next e = elim (begin-cases setup next e) [
  | inl (n, f) ↦ rw n (inl f)
  | inr (inl (n, p, f)) ↦ rw n (p, f)
  | inr (inr (n, p, f)) ↦ rw n (p, f, refl)
]

-- A path is taken, so that the queue was not empty.
not_drained :
    (v w : World) (j : Option Job) (q : IoQueue Job)
    → io_queue_get v.queue ≡ Got.item j q
    → IsClosed v
    → IsClosed w
not_drained v w j q g (c, n) =
    let (same, cap, more) = get_item-inv v.queue q j g in absurd (omega (arith, n, more))

walk-Local :
    (v : World) (j : Job) (js : List Job) (q : IoQueue Job)
    → Local v
    → v.stage ≡ walks (j ∷ js)
    → io_queue_put v.queue j ≡ some q
    → Local (record v { stage = walks js; queue = q })
walk-Local v j js q l s e =
    let (same, cap, more) = put-inv v.queue q j e in
    let there : IsStaged v (walks (j ∷ js)) = subst (IsStaged v) s l.staged in
    let w : World = record v { stage = walks js; queue = q } in
    record {
      placed = others-placed v w l refl λ closed. absurd (cc (there.0, closed.0));
      staged = (same ∙ there.0, there.1);
      merging = IsMerging-open v w v.merger there.1 l.merging;
    }

-- `main` goes from one stage to another and the queue of the paths can close.
main-Local :
    (v w : World)
    → Local v
    → w.workers ≡ v.workers
    → w.queue.count ≡ v.queue.count
    → (v.queue.closed ≡ true → w.queue.closed ≡ true)
    → IsStaged w w.stage
    → IsMerging w w.merger
    → Local w
main-Local v w l ws n c s m = record {
  placed = others-placed v w l ws λ closed. (c closed.0, n ∙ closed.1);
  staged = s;
  merging = m;
}

joined :
    (ws : List Worker) (i : ℕ) (setup : Setup) (taken : List Job)
    → get_elem? ws i ≡ some (ended setup taken)
    → AreEnded ws i
    → AreEnded ws (suc i)
joined ws i setup taken e all k lt = elim (dec_lt k i) [
  | yes below ↦ all k below
  | no above ↦ let same : k ≡ i = omega (arith, lt, above) in (setup, taken, rw same e)
]

-- The merge takes a step.
merger-Local :
    (v w : World) (received : List LineVec)
    → Local v
    → v.merger ≡ collects received
    → w.stage ≡ v.stage
    → w.workers ≡ v.workers
    → w.queue ≡ v.queue
    → w.out_queue.closed ≡ v.out_queue.closed
    → IsMerging w w.merger
    → Local w
merger-Local v w received l m s ws q o new = record {
  placed = others-placed v w l ws (λ closed. rw q closed);
  staged = subst (IsStaged w) (sym s) (
      IsStaged-carry v w v.stage (rw q refl) o (rw ws refl) (λ n all. rw ws all)
        (λ some_received result h. absurd (cc (m, h))) l.staged);
  merging = new;
}

merge-Local :
    (v : World) (received : List LineVec)
    → Local v
    → v.merger ≡ collects received
    → io_queue_get v.out_queue ≡ Got.drained
    → Local (record v { merger = merged received (merge (length v.workers) received) })
merge-Local v received l m g =
    let (c, n) = get_drained-inv v.out_queue g in
    let w : World = record v { merger = merged received (merge (length v.workers) received) } in
    merger-Local v w received l m refl refl refl refl (refl, c, n)

begin-Local :
    (v : World) (i : ℕ) (setup : Setup) (next : Worker)
    → Local v
    → get_elem? v.workers i ≡ some (begins setup)
    → begin setup ≡ some next
    → Local (record v { workers = set v.workers i next })
begin-Local v i setup next l e b =
    let w : World = record v { workers = set v.workers i next } in
    worker-Local v w i (begins setup) next l e refl refl refl refl refl refl (λ c. c)
      (begin-Placed w setup next b)

parse-Local :
    (v : World) (i : ℕ) (setup : Setup) (taken : List Job) (vec : LineVec) (j : Job)
    (q : IoQueue Job) (next : Worker)
    → Local v
    → get_elem? v.workers i ≡ some (parses setup taken vec)
    → io_queue_get v.queue ≡ Got.item (some j) q
    → parse_job setup taken vec j ≡ some next
    → Local (record v { queue = q; workers = set v.workers i next })
parse-Local v i setup taken vec j q next l e g p =
    let (status, after, f, n) = parse_job-inv setup taken vec j next p in
    let (parser, new_vec, loop) = l.placed i _ e in
    let w : World = record v { queue = q; workers = set v.workers i next } in
    worker-Local v w i _ next l e refl refl refl refl (get_item-inv v.queue q (some j) g).0 refl
      (not_drained v w (some j) q g)
      (rw n (parser, new_vec, parse_loop-snoc taken fresh_vec vec j status after loop f))

sort-Local :
    (v : World) (i : ℕ) (setup : Setup) (taken : List Job) (vec : LineVec) (next : Worker)
    → Local v
    → get_elem? v.workers i ≡ some (parses setup taken vec)
    → io_queue_get v.queue ≡ Got.drained
    → sort_batch setup taken vec ≡ some next
    → Local (record v { workers = set v.workers i next })
sort-Local v i setup taken vec next l e g p =
    let (after, freed, f, n) = sort_batch-inv setup taken vec next p in
    let (parser, new_vec, loop) = l.placed i _ e in
    let w : World = record v { workers = set v.workers i next } in
    worker-Local v w i _ next l e refl refl refl refl refl refl (λ c. c)
      (rw n
        (get_drained-inv v.queue g, worker-puts setup taken vec after freed parser new_vec loop f))

pub Step-Local : (v w : World) → Local v → Step v w → Local w
unfolding io_queue_close
Step-Local v _ l (walk_puts j js q s e) = walk-Local v j js q l s e
Step-Local v _ l (main_closes s) =
    let at : IsStaged v (walks []) = subst (IsStaged v) s l.staged in
    let w : World = record v { stage = joins 0; queue = io_queue_close v.queue } in
    main-Local v w l refl refl (λ c. refl) (refl, at.1, omega arith, λ k lt. elim lt [ ])
      (IsMerging-open v w v.merger at.1 l.merging)
Step-Local v _ l (main_joins i setup taken s e) =
    let (c, o, le, all) : IsStaged v (joins i) = subst (IsStaged v) s l.staged in
    let lt = get_elem?-in v.workers i _ e in
    let w : World = record v { stage = joins (suc i) } in
    main-Local v w l refl refl (λ c. c)
      (c, o, omega (arith, lt), joined v.workers i setup taken e all)
      (IsMerging-open v w v.merger o l.merging)
Step-Local v _ l (main_closes_batches s) =
    let (c, o, le, all) : IsStaged v (joins (length v.workers)) = subst (IsStaged v) s l.staged in
    let w : World = record v { stage = awaits_merge; out_queue = io_queue_close v.out_queue } in
    main-Local v w l refl refl (λ c. c) (c, refl, all) (IsMerging-open v w v.merger o l.merging)
Step-Local v _ l (main_joins_merge received result s e) =
    let (c, o, all) : IsStaged v awaits_merge = subst (IsStaged v) s l.staged in
    let w : World = record v { stage = over } in
    main-Local v w l refl refl (λ c. c) (c, o, all, received, result, e)
      (IsMerging-carry v w v.merger refl refl l.merging)
Step-Local v _ l (worker_begins i setup next e b) = begin-Local v i setup next l e b
Step-Local v _ l (worker_parses i setup taken vec j q next e g p) =
    parse-Local v i setup taken vec j q next l e g p
Step-Local v _ l (worker_sorts i setup taken vec next e g p) =
    sort-Local v i setup taken vec next l e g p
Step-Local v _ l (worker_frees i setup taken j q e g) =
    let next : Worker = drains setup (taken ++ j ∷ []) in
    let w : World = record v { queue = q; workers = set v.workers i next } in
    worker-Local v w i _ next l e refl refl refl refl (get_item-inv v.queue q (some j) g).0 refl
      (not_drained v w (some j) q g) (l.placed i _ e)
Step-Local v _ l (worker_gives_up i setup taken e g) =
    let next : Worker = ended setup taken in
    let w : World = record v { workers = set v.workers i next } in
    worker-Local v w i _ next l e refl refl refl refl refl refl (λ c. c)
      (inr (get_drained-inv v.queue g))
Step-Local v _ l (worker_puts i setup taken vec q e p) =
    let next : Worker = ended setup taken in
    let w : World = record v { workers = set v.workers i next; out_queue = q } in
    worker-Local v w i _ next l e refl refl refl refl refl (put-inv v.out_queue q vec p).0 (λ c. c)
      (inr (l.placed i _ e).0)
Step-Local v _ l (merger_gets received vec q e g) =
    let w : World = record v { out_queue = q; merger = collects (received ++ vec ∷ []) } in
    merger-Local v w received l e refl refl refl (get_item-inv v.out_queue q (some vec) g).0 tt
Step-Local v _ l (merger_merges received e g) = merge-Local v received l e g

start-Local : (setups : List Setup) (jobs : List Job) → Local (at_start setups jobs)
unfolding at_start new_queue
start-Local setups jobs = record {
  placed = λ i p e.
      let (setup, f, same) = get_elem?-map_inv begins setups i p e in
      subst (IsPlaced (at_start setups jobs)) same tt;
  staged = (refl, refl);
  merging = tt;
}

pub Reach-Local :
    (setups : List Setup) (jobs : List Job) (w : World) → Reach setups jobs w → Local w
Reach-Local setups jobs _ start = start-Local setups jobs
Reach-Local setups jobs w (later {v = v} r s) = Step-Local v w (Reach-Local setups jobs v r) s
