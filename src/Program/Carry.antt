-- ===== src/Program/Carry.antt =====
-- What carries over from one state of the threads to the next.
use tsag.Base.{
  ℕ, ◌≡◌, sym, ap, ◌∙◌, false, List, [], Option, some, length, get_elem?, set, inl, inr, arith,
  get_elem?-set_cases, get_elem?-set_ne, length-set, subst,
}
use tsag.Base.Gather.{get_elem?-in}
use tsag.LineVec.{LineVec}
use tsag.Merge.{Merged}
use tsag.Program.{
  Worker, begins, parses, drains, puts, ended, World, Stage, walks, joins, awaits_merge, over,
  Merger, collects, merged,
}
use tsag.Program.Invariant.{IsClosed, IsPlaced, AreEnded, IsStaged, IsMerging, Local, ended_of}

pub IsPlaced-carry :
    (v w : World) (p : Worker) → (IsClosed v → IsClosed w) → IsPlaced v p → IsPlaced w p
IsPlaced-carry v w (begins setup) f h = tt
IsPlaced-carry v w (parses setup taken vec) f h = h
IsPlaced-carry v w (drains setup taken) f h = h
IsPlaced-carry v w (puts setup taken vec) f h = (f h.0, h.1)
IsPlaced-carry v w (ended setup taken) f (inl h) = inl h
IsPlaced-carry v w (ended setup taken) f (inr h) = inr (f h)

-- A worker that has not ended takes a step.
pub AreEnded-set :
    (ws : List Worker) (i n : ℕ) (here next : Worker)
    → get_elem? ws i ≡ some here
    → ended_of here ≡ []
    → AreEnded ws n
    → AreEnded (set ws i next) n
AreEnded-set ws i n here next e alive all k lt =
    let (setup, taken, f) = all k lt in
    (
      setup,
      taken,
      get_elem?-set_ne ws i k next (λ same.
            let other : ended setup taken ≡ here = cc (e, f, same) in
            absurd (cc (ap ended_of other, alive)))
          ∙ f,
    )

pub IsStaged-carry :
    (v w : World) (s : Stage)
    → w.queue.closed ≡ v.queue.closed
    → w.out_queue.closed ≡ v.out_queue.closed
    → length w.workers ≡ length v.workers
    → ((n : ℕ) → AreEnded v.workers n → AreEnded w.workers n)
    → ((received : List LineVec) (result : Option Merged)
        → v.merger ≡ merged received result
        → w.merger ≡ merged received result)
    → IsStaged v s
    → IsStaged w s
IsStaged-carry v w (walks js) q o n all m h = (q ∙ h.0, o ∙ h.1)
IsStaged-carry v w (joins i) q o n all m (c, b, le, done) =
    (q ∙ c, o ∙ b, omega (arith, le, n), all i done)
IsStaged-carry v w awaits_merge q o n all m (c, b, done) =
    (q ∙ c, o ∙ b, rw n (all (length v.workers) done))
IsStaged-carry v w over q o n all m (c, b, done, received, result, e) =
    (q ∙ c, o ∙ b, rw n (all (length v.workers) done), received, result, m received result e)

-- The merge has not been told that its queue is drained.
pub IsMerging-open :
    (v w : World) (m : Merger) → v.out_queue.closed ≡ false → IsMerging v m → IsMerging w m
IsMerging-open v w (collects received) o h = tt
IsMerging-open v w (merged received result) o h = absurd (cc (o, h.1))

pub IsMerging-carry :
    (v w : World) (m : Merger)
    → w.workers ≡ v.workers
    → w.out_queue ≡ v.out_queue
    → IsMerging v m
    → IsMerging w m
IsMerging-carry v w (collects received) ws o h = tt
IsMerging-carry v w (merged received result) ws o h = rw (ws, o) h

not_all :
    (v : World) (i : ℕ) (here : Worker)
    → get_elem? v.workers i ≡ some here
    → ended_of here ≡ []
    → ¬ (AreEnded v.workers (length v.workers))
not_all v i here e alive all =
    let (setup, taken, f) = all i (get_elem?-in v.workers i here e) in
    let other : ended setup taken ≡ here = cc (e, f) in cc (ap ended_of other, alive)

-- While a worker has not ended, the queue of the merge is open.
pub worker-open :
    (v : World) (s : Stage) (i : ℕ) (here : Worker)
    → get_elem? v.workers i ≡ some here
    → ended_of here ≡ []
    → IsStaged v s
    → v.out_queue.closed ≡ false
worker-open v (walks js) i here e alive h = h.1
worker-open v (joins n) i here e alive h = h.1
worker-open v awaits_merge i here e alive h = absurd (not_all v i here e alive h.2)
worker-open v over i here e alive (c, o, all, r, x, m) = absurd (not_all v i here e alive all)

-- A worker that has not ended takes a step that is only its own.
pub worker-Local :
    (v w : World) (i : ℕ) (here next : Worker)
    → Local v
    → get_elem? v.workers i ≡ some here
    → ended_of here ≡ []
    → w.stage ≡ v.stage
    → w.merger ≡ v.merger
    → w.workers ≡ set v.workers i next
    → w.queue.closed ≡ v.queue.closed
    → w.out_queue.closed ≡ v.out_queue.closed
    → (IsClosed v → IsClosed w)
    → IsPlaced w next
    → Local w
worker-Local v w i here next l e alive s m ws q o f new = record {
  placed = λ k p at. elim (get_elem?-set_cases v.workers i k next p (rw ws at at)) [
    | inl same ↦ subst (IsPlaced w) same new
    | inr old ↦ IsPlaced-carry v w p f (l.placed k p old)
  ];
  staged = subst (IsStaged w) (sym s) (
      IsStaged-carry v w v.stage q o (rw ws (length-set v.workers i next))
        (λ n all.
          subst (λ l. AreEnded l n) (sym ws) (AreEnded-set v.workers i n here next e alive all))
        (λ received result h. m ∙ h) l.staged);
  merging =
      subst (IsMerging w) (sym m)
        (IsMerging-open v w v.merger (worker-open v v.stage i here e alive l.staged) l.merging);
}

-- Neither a worker nor the queue of the paths takes part.
pub others-placed :
    (v w : World)
    → Local v
    → w.workers ≡ v.workers
    → (IsClosed v → IsClosed w)
    → (i : ℕ) (p : Worker) → get_elem? w.workers i ≡ some p
    → IsPlaced w p
others-placed v w l ws f i p e = IsPlaced-carry v w p f (l.placed i p (rw ws at e))
