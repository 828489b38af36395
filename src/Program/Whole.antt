-- ===== src/Program/Whole.antt =====
-- All that is true in every state that the threads of the program reach.
use tsag.Base.{◌<◌, ◌≡◌, refl, ap, ◌∙◌, List, [], ◌∷◌, map, some, length, inl, inr}
use tsag.Base.Gather.{map-set}
use tsag.Worker.{Setup}
use tsag.Program.{
  Job, Worker, begins, begin, World, at_start, Step, Reach, start, later, walk_puts, main_closes,
  main_joins, main_closes_batches, main_joins_merge, worker_begins, worker_parses, worker_sorts,
  worker_frees, worker_gives_up, worker_puts, merger_gets, merger_merges,
}
use tsag.Program.Invariant.{Local, Kept, Batched, setup_of}
use tsag.Program.Moves.{begin-cases, parse_job-inv, sort_batch-inv}
use tsag.Program.Kept.{Reach-Kept}
use tsag.Program.Batches.{Step-Batched, start-Batched}
use tsag.Program.Local.{Reach-Local}

begin-setup : (setup : Setup) (next : Worker) → begin setup ≡ some next → setup_of next ≡ setup
begin-setup setup next e = elim (begin-cases setup next e) [
  | inl p ↦ ap setup_of p.0
  | inr (inl p) ↦ ap setup_of p.0
  | inr (inr p) ↦ ap setup_of p.0
]

Step-setups : (v w : World) → Step v w → map setup_of w.workers ≡ map setup_of v.workers
Step-setups v _ (walk_puts j js q s e) = refl
Step-setups v _ (main_closes s) = refl
Step-setups v _ (main_joins i setup taken s e) = refl
Step-setups v _ (main_closes_batches s) = refl
Step-setups v _ (main_joins_merge received result s e) = refl
Step-setups v _ (worker_begins i setup next e b) =
    map-set setup_of v.workers i _ next e (begin-setup setup next b)
Step-setups v _ (worker_parses i setup taken vec j q next e g p) =
    let (status, after, f, n) = parse_job-inv setup taken vec j next p in
    map-set setup_of v.workers i _ next e (ap setup_of n)
Step-setups v _ (worker_sorts i setup taken vec next e g p) =
    let (after, freed, f, n) = sort_batch-inv setup taken vec next p in
    map-set setup_of v.workers i _ next e (ap setup_of n)
Step-setups v _ (worker_frees i setup taken j q e g) = map-set setup_of v.workers i _ _ e refl
Step-setups v _ (worker_gives_up i setup taken e g) = map-set setup_of v.workers i _ _ e refl
Step-setups v _ (worker_puts i setup taken vec q e p) = map-set setup_of v.workers i _ _ e refl
Step-setups v _ (merger_gets received vec q e g) = refl
Step-setups v _ (merger_merges received e g) = refl

begins-setups : (setups : List Setup) → map setup_of (map begins setups) ≡ setups
begins-setups [] = refl
begins-setups (s ∷ setups) = ap (λ l. s ∷ l) (begins-setups setups)

Reach-setups :
    (setups : List Setup) (jobs : List Job) (w : World)
    → Reach setups jobs w
    → map setup_of w.workers ≡ setups
unfolding at_start
Reach-setups setups jobs _ start = begins-setups setups
Reach-setups setups jobs w (later {v = v} r s) = Step-setups v w s ∙ Reach-setups setups jobs v r

Reach-Batched :
    (setups : List Setup) (jobs : List Job) (w : World)
    → 0 < length setups
    → Reach setups jobs w
    → Batched w
Reach-Batched setups jobs _ pos start = start-Batched setups jobs pos
Reach-Batched setups jobs w pos (later {v = v} r s) =
    Step-Batched v w (Reach-Local setups jobs v r) (Reach-Batched setups jobs v pos r) s

pub record Whole (setups : List Setup) (jobs : List Job) (w : World) : Type 0 where
  pub kept : Kept jobs w
  pub batched : Batched w
  pub local : Local w
  pub same_setups : map setup_of w.workers ≡ setups

pub Reach-Whole :
    (setups : List Setup) (jobs : List Job) (w : World)
    → 0 < length setups
    → Reach setups jobs w
    → Whole setups jobs w
Reach-Whole setups jobs w pos r = record {
  kept = Reach-Kept setups jobs w r;
  batched = Reach-Batched setups jobs w pos r;
  local = Reach-Local setups jobs w r;
  same_setups = Reach-setups setups jobs w r;
}
