-- ===== src/Program/Batches.antt =====
-- The batches, from the workers that put them to the merge that gets them.
use mathlib.Core.List.Perm
use tsag.Base.{
  ℕ, ◌<◌, ◌≡◌, refl, sym, ap, ◌∙◌, List, [], ◌∷◌, ◌++◌, map, Option, none, some, length, get_elem?,
  set, Perm, append_assoc, append-nil, inl, inr, Option-cases,
}
use tsag.Base.Perms.{perm-snoc}
use tsag.Base.Gather.{gather, gather-set, gather-set_more}
use tsag.LineVec.{LineVec}
use tsag.Queue.{IoQueue, Got, io_queue_get, io_queue_put}
use tsag.Queue.Laws.{new_queue-Holds}
use tsag.Queue.Runs.{after_put, after_get, io_queue_close-Holds}
use tsag.Worker.{Setup, Outcome, worker}
use tsag.Pipeline.{Share, add_put, run_workers}
use tsag.Program.{
  collects, Job, Worker, begins, ended, begin, World, at_start, Step, walk_puts, main_closes,
  main_joins, main_closes_batches, main_joins_merge, worker_begins, worker_parses, worker_sorts,
  worker_frees, worker_gives_up, worker_puts, merger_gets, merger_merges,
}
use tsag.Program.Invariant.{Batched, Local, ended_of, received_of}
use tsag.Program.Moves.{begin-cases, parse_job-inv, sort_batch-inv, worker-drains, worker-fails}

add_put-append :
    (put : Option LineVec) (xs ys : List LineVec) → add_put put (xs ++ ys) ≡ add_put put xs ++ ys
unfolding add_put
add_put-append none xs ys = refl
add_put-append (some vec) xs ys = refl

-- One more worker, after the others.
pub run_workers-snoc :
    (shares : List Share) (s : Share) (o : Outcome) (received : List LineVec)
    → worker s.0 s.1 ≡ some o
    → run_workers shares ≡ some received
    → run_workers (shares ++ s ∷ []) ≡ some (received ++ add_put o.put [])
unfolding run_workers
run_workers-snoc [] (setup, jobs) o received w e =
    let same : [] ≡ received = cc e in rw (w, sym same) refl
run_workers-snoc ((setup, jobs) ∷ shares) s o received w e =
    elim (Option-cases (worker setup jobs)) [
      | inl f ↦ absurd (cc (rw f at e))
      | inr (first, f) ↦ elim (Option-cases (run_workers shares)) [
        | inl g ↦ absurd (cc (rw (f, g) at e))
        | inr (rest, g) ↦
            let all : add_put first.put rest ≡ received = cc (rw (f, g) at e) in
            rw (f, run_workers-snoc shares s o rest w g)
              (ap some (
                add_put-append first.put rest (add_put o.put [])
                ∙ ap (λ l. l ++ add_put o.put []) all))
      ]
    ]

-- A step after which the same workers have ended, with the same batches.
same_batches :
    (v w : World)
    → Batched v
    → w.out_queue ≡ v.out_queue
    → received_of w.merger ≡ received_of v.merger
    → gather ended_of w.workers ≡ gather ended_of v.workers
    → Batched w
same_batches v w b q m g = record {
  waiting = b.waiting;
  holds = rw q b.holds;
  done = b.done;
  put = rw m b.put;
  all = rw g b.all;
}

module _ (v : World) (i : ℕ) (here : Worker) (setup : Setup) (taken : List Job) (b : Batched v)
    (e : get_elem? v.workers i ≡ some here) (alive : ended_of here ≡ []) where
  abbrev after_end : List Worker
  after_end = set v.workers i (ended setup taken)

  one_more : Perm (b.done ++ (setup, taken) ∷ []) (gather ended_of after_end)
  one_more = Perm.trans (perm-snoc b.done (setup, taken)) (
      Perm.trans (Perm.cons (setup, taken) b.all) (
        Perm.symm (
          gather-set_more ended_of v.workers i here (ended setup taken) (setup, taken) e
            (rw alive refl))))

  -- A worker ends and has put nothing.
  ends_without :
      (o : Outcome)
      → worker setup taken ≡ some o
      → o.put ≡ none
      → Batched (record v { workers = after_end })
  unfolding add_put
  ends_without o w p = record {
    waiting = b.waiting;
    holds = b.holds;
    done = b.done ++ (setup, taken) ∷ [];
    put =
        rw (p, append-nil (received_of v.merger ++ b.waiting)) at
          (run_workers-snoc b.done (setup, taken) o (received_of v.merger ++ b.waiting) w b.put);
    all = one_more;
  }

  -- A worker puts its batch and ends.
  ends_with :
      (o : Outcome) (vec : LineVec) (q : IoQueue LineVec)
      → worker setup taken ≡ some o
      → o.put ≡ some vec
      → io_queue_put v.out_queue vec ≡ some q
      → Batched (record v { workers = after_end; out_queue = q })
  unfolding add_put
  ends_with o vec q w p f = record {
    waiting = b.waiting ++ vec ∷ [];
    holds = after_put v.out_queue q b.waiting vec b.holds f;
    done = b.done ++ (setup, taken) ∷ [];
    put =
        rw (p, append_assoc (received_of v.merger) b.waiting (vec ∷ [])) at
          (run_workers-snoc b.done (setup, taken) o (received_of v.merger ++ b.waiting) w b.put);
    all = one_more;
  }

begin-Batched :
    (v : World) (i : ℕ) (setup : Setup) (next : Worker)
    → Batched v
    → get_elem? v.workers i ≡ some (begins setup)
    → begin setup ≡ some next
    → Batched (record v { workers = set v.workers i next })
begin-Batched v i setup next b e s = elim (begin-cases setup next s) [
  | inl (n, f) ↦ rw n (ends_without v i _ setup [] b e refl _ (worker-fails setup [] f) refl)
  | inr (inl (n, f, g)) ↦
      same_batches v _ b refl refl (gather-set ended_of v.workers i _ next e (ap ended_of n))
  | inr (inr (n, f, g)) ↦
      same_batches v _ b refl refl (gather-set ended_of v.workers i _ next e (ap ended_of n))
]

get-Batched :
    (v : World) (received : List LineVec) (vec : LineVec) (q : IoQueue LineVec)
    → Batched v
    → v.merger ≡ collects received
    → io_queue_get v.out_queue ≡ Got.item (some vec) q
    → Batched (record v { out_queue = q; merger = collects (received ++ vec ∷ []) })
get-Batched v received vec q b m g =
    let (rest, split, h) = after_get v.out_queue q b.waiting vec b.holds g in
    record {
      waiting = rest;
      holds = h;
      done = b.done;
      put =
          b.put
          ∙ ap (λ l. some (received_of v.merger ++ l)) split
          ∙ ap (λ m. some (received_of m ++ vec ∷ rest)) m
          ∙ ap some (sym (append_assoc received (vec ∷ []) rest));
      all = b.all;
    }

pub Step-Batched : (v w : World) → Local v → Batched v → Step v w → Batched w
Step-Batched v _ l b (walk_puts j js q s e) = same_batches v _ b refl refl refl
Step-Batched v _ l b (main_closes s) = same_batches v _ b refl refl refl
Step-Batched v _ l b (main_joins i setup taken s e) = same_batches v _ b refl refl refl
Step-Batched v _ l b (main_closes_batches s) = record {
  waiting = b.waiting;
  holds = io_queue_close-Holds v.out_queue b.waiting b.holds;
  done = b.done;
  put = b.put;
  all = b.all;
}
Step-Batched v _ l b (main_joins_merge received result s e) = same_batches v _ b refl refl refl
Step-Batched v _ l b (worker_begins i setup next e s) = begin-Batched v i setup next b e s
Step-Batched v _ l b (worker_parses i setup taken vec j q next e g p) =
    let (status, after, f, n) = parse_job-inv setup taken vec j next p in
    same_batches v _ b refl refl (gather-set ended_of v.workers i _ next e (ap ended_of n))
Step-Batched v _ l b (worker_sorts i setup taken vec next e g p) =
    let (after, freed, f, n) = sort_batch-inv setup taken vec next p in
    same_batches v _ b refl refl (gather-set ended_of v.workers i _ next e (ap ended_of n))
Step-Batched v _ l b (worker_frees i setup taken j q e g) =
    same_batches v _ b refl refl (gather-set ended_of v.workers i _ _ e refl)
Step-Batched v _ l b (worker_gives_up i setup taken e g) =
    let (p, none_vec) = l.placed i _ e in
    ends_without v i _ setup taken b e refl _ (worker-drains setup taken p none_vec) refl
Step-Batched v _ l b (worker_puts i setup taken vec q e p) =
    let (closed, work) = l.placed i _ e in ends_with v i _ setup taken b e refl _ vec q work refl p
Step-Batched v _ l b (merger_gets received vec q e g) = get-Batched v received vec q b e g
Step-Batched v _ l b (merger_merges received e g) =
    same_batches v _ b refl (ap received_of (sym e)) refl

none_ended : (setups : List Setup) → gather ended_of (map begins setups) ≡ []
unfolding gather
none_ended [] = refl
none_ended (s ∷ setups) = none_ended setups

pub start-Batched :
    (setups : List Setup) (jobs : List Job) → 0 < length setups → Batched (at_start setups jobs)
unfolding at_start run_workers
start-Batched setups jobs pos = record {
  waiting = [];
  holds = new_queue-Holds (length setups) pos;
  done = [];
  put = refl;
  all = rw (none_ended setups) (Perm.refl []);
}
