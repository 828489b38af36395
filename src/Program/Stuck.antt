-- ===== src/Program/Stuck.antt =====
-- Workers that all fail before their loop.

use tsag.Base.{
  ℕ, zero, suc, ◌<◌, ◌≡◌, ◌&&◌, refl, ◌∙◌, false, List, [], ◌∷◌, ◌++◌, some, length, get_elem?,
  get_elem?-map, arith, All, subst, length-append, Perm,
}
use tsag.Base.Perms.{perm-length}
use tsag.Base.Gather.{gather, gather-set}
use tsag.Queue.{io_queue_close, new_queue}
use tsag.Queue.Answers.{put-inv, get_item-inv}
use tsag.Worker.{Setup}
use tsag.Main.{queue_capacity}
use tsag.Program.{
  Job, Worker, World, at_start, Stage, walks, joins, awaits_merge, over, Step, Reach, start, later,
  walk_puts, main_closes, main_joins, main_closes_batches, main_joins_merge, worker_begins,
  worker_parses, worker_sorts, worker_frees, worker_gives_up, worker_puts, merger_gets,
  merger_merges,
}
use tsag.Program.Invariant.{IsParser, setup_of, taken_of, to_walk}
use tsag.Program.Kept.{begin-takes, none_taken}
use tsag.Program.Whole.{Whole, Reach-Whole}

abbrev pub HasNoParser : Setup → Type 0
HasNoParser setup = (setup.parser_ok && setup.cursor_ok) ≡ false

All-at :
    (P : Setup → Type 0) (xs : List Setup) (i : ℕ) (x : Setup)
    → All P xs
    → get_elem? xs i ≡ some x
    → P x
All-at P [] i x h e = absurd (cc e)
All-at P (y ∷ xs) zero x h e = let same : y ≡ x = cc e in subst P same h.0
All-at P (y ∷ xs) (suc i) x h e = All-at P xs i x h.1 e

-- The queue keeps its capacity.
Step-cap : (v w : World) → Step v w → w.queue.cap ≡ v.queue.cap
unfolding io_queue_close
Step-cap v _ (walk_puts j js q s e) = (put-inv v.queue q j e).1
Step-cap v _ (main_closes s) = refl
Step-cap v _ (main_joins i setup taken s e) = refl
Step-cap v _ (main_closes_batches s) = refl
Step-cap v _ (main_joins_merge received result s e) = refl
Step-cap v _ (worker_begins i setup next e b) = refl
Step-cap v _ (worker_parses i setup taken vec j q next e g p) =
    (get_item-inv v.queue q (some j) g).1
Step-cap v _ (worker_sorts i setup taken vec next e g p) = refl
Step-cap v _ (worker_frees i setup taken j q e g) = (get_item-inv v.queue q (some j) g).1
Step-cap v _ (worker_gives_up i setup taken e g) = refl
Step-cap v _ (worker_puts i setup taken vec q e p) = refl
Step-cap v _ (merger_gets received vec q e g) = refl
Step-cap v _ (merger_merges received e g) = refl

Reach-cap :
    (setups : List Setup) (jobs : List Job) (w : World)
    → Reach setups jobs w
    → w.queue.cap ≡ queue_capacity
unfolding at_start new_queue
Reach-cap setups jobs _ start = refl
Reach-cap setups jobs w (later {v = v} r s) = Step-cap v w s ∙ Reach-cap setups jobs v r

module _ (setups : List Setup) (jobs : List Job) (none_parses : All HasNoParser setups) where
  -- No worker has come to one of its loops.
  not_in_loop :
      (v : World) (i : ℕ) (p : Worker)
      → Whole setups jobs v
      → get_elem? v.workers i ≡ some p
      → ¬ (IsParser (setup_of p))
  not_in_loop v i p a e parser =
      let at : get_elem? setups i ≡ some (setup_of p) =
        rw a.same_setups at (get_elem?-map setup_of v.workers i p e) in
      let failed = All-at HasNoParser setups i (setup_of p) none_parses at in cc (parser, failed)

  Step-takes_none :
      (v w : World)
      → Whole setups jobs v
      → gather taken_of v.workers ≡ []
      → Step v w
      → gather taken_of w.workers ≡ []
  Step-takes_none v _ a n (walk_puts j js q s e) = n
  Step-takes_none v _ a n (main_closes s) = n
  Step-takes_none v _ a n (main_joins i setup taken s e) = n
  Step-takes_none v _ a n (main_closes_batches s) = n
  Step-takes_none v _ a n (main_joins_merge received result s e) = n
  Step-takes_none v _ a n (worker_begins i setup next e b) =
      gather-set taken_of v.workers i _ next e (begin-takes setup next b) ∙ n
  Step-takes_none v _ a n (worker_parses i setup taken vec j q next e g p) =
      absurd (not_in_loop v i _ a e (a.local.placed i _ e).0)
  Step-takes_none v _ a n (worker_sorts i setup taken vec next e g p) =
      absurd (not_in_loop v i _ a e (a.local.placed i _ e).0)
  Step-takes_none v _ a n (worker_frees i setup taken j q e g) =
      absurd (not_in_loop v i _ a e (a.local.placed i _ e).0)
  Step-takes_none v _ a n (worker_gives_up i setup taken e g) =
      gather-set taken_of v.workers i _ _ e refl ∙ n
  Step-takes_none v _ a n (worker_puts i setup taken vec q e p) =
      gather-set taken_of v.workers i _ _ e refl ∙ n
  Step-takes_none v _ a n (merger_gets received vec q e g) = n
  Step-takes_none v _ a n (merger_merges received e g) = n

  Reach-takes_none :
      (w : World) → 0 < length setups → Reach setups jobs w → gather taken_of w.workers ≡ []
  unfolding at_start
  Reach-takes_none _ pos start = none_taken setups
  Reach-takes_none w pos (later {v = v} r s) =
      Step-takes_none v w (Reach-Whole setups jobs v pos r) (Reach-takes_none v pos r) s

still_walks :
    (s : Stage) → 0 < length (to_walk s) → (j : Job) × (js : List Job) × (s ≡ walks (j ∷ js))
still_walks (walks []) lt = elim lt [ ]
still_walks (walks (j ∷ js)) lt = (j, js, refl)
still_walks (joins i) lt = elim lt [ ]
still_walks awaits_merge lt = elim lt [ ]
still_walks over lt = elim lt [ ]

-- Where no worker gets both its parser and its cursor, and the walk finds more paths than the queue
-- has room for, `main` never comes to the end of the walk: in every state that the threads reach it
-- still has a path to put.
pub Reach-still_walks :
    (setups : List Setup) (jobs : List Job) (w : World)
    → 0 < length setups
    → All HasNoParser setups
    → queue_capacity < length jobs
    → Reach setups jobs w
    → (j : Job) × (js : List Job) × (w.stage ≡ walks (j ∷ js))
Reach-still_walks setups jobs w pos none_parses many r =
    let k = (Reach-Whole setups jobs w pos r).kept in
    let none_left = Reach-takes_none setups jobs none_parses w pos r in
    let all : Perm (k.waiting ++ to_walk w.stage) jobs = rw none_left at k.kept in
    let n = perm-length all in
    let sum = length-append k.waiting (to_walk w.stage) in
    let room = k.holds.fits in
    let cap = Reach-cap setups jobs w r in
    still_walks w.stage (omega (arith, many, n, sum, room, cap))
