-- ===== src/Main/Stages.antt =====
-- The stages of `main`, the last first: each is allowed where the stage before it leaves off.
use tsag.Base.{
  ℕ, zero, suc, ◌<◌, ◌≡◌, refl, ap, ◌∙◌, Bool, true, false, arith, List, [], ◌∷◌, ◌++◌, map, some,
  if◌then◌else◌, Bytes,
}
use tsag.Queue.{io_queue_new}
use tsag.Main.{
  cache, paths, batches, threads, acquired, released, merger_created, walked, paths_closed,
  batches_closed, Host, Ending, return, before, queue_capacity, job_count, is_some, close_output,
  roots, join_all, create_workers, finish, walk, release_all, start_merge, start_workers,
  new_threads, new_batches, new_paths,
}
use tsag.Main.Replay.{
  Play, perform, replay, is_over, is_quiet, is_free, is_held, hold, at_start, IsLegal,
  replay-append, before-IsLegal,
}
use tsag.Main.Loops.{
  working, ltb_irrefl, replay-walked, replay-join_all, join_workers-ok, replay-create,
}

-- No thread was created, and all was acquired up to the four: the output, the queue of paths, that of
-- the batches and the threads.
abbrev pub held : Bool → Bool → Bool → Bool → Play
held o p b t = record {
  cache_held = true;
  output_held = o;
  paths_held = p;
  batches_held = b;
  threads_held = t;
  paths_ended = false;
  batches_ended = false;
  created = 0;
  joined = 0;
  merging = false;
}

-- All was released.
abbrev pub over : ℕ → Bool → Play
over jobs ended = record at_start {
  paths_ended = ended;
  batches_ended = ended;
  created = jobs;
  joined = jobs;
}

pub over-IsOver : (jobs : ℕ) (ended : Bool) → is_over (over jobs ended) ≡ true
unfolding is_over is_quiet
over-IsOver jobs ended = rw (ltb_irrefl jobs) refl

released_all :
    (f : Bool) (jobs : ℕ)
    → replay (batches_closed ∷ release_all f) (working f jobs jobs true false)
      ≡ some (over jobs true)
unfolding release_all replay perform is_quiet is_free is_held hold close_output
released_all true jobs =
    rw (ltb_irrefl jobs, ltb_irrefl jobs, ltb_irrefl jobs, ltb_irrefl jobs, ltb_irrefl jobs) refl
released_all false jobs =
    rw (ltb_irrefl jobs, ltb_irrefl jobs, ltb_irrefl jobs, ltb_irrefl jobs, ltb_irrefl jobs) refl

finished :
    (h : Host) (f : Bool) (jobs : ℕ)
    → replay (finish h f).events (working f jobs jobs true true) ≡ some (over jobs true)
unfolding finish return replay perform is_quiet is_free is_held hold close_output
finished h true jobs =
    rw (ltb_irrefl jobs, ltb_irrefl jobs, ltb_irrefl jobs, ltb_irrefl jobs, ltb_irrefl jobs) refl
finished h false jobs =
    rw (ltb_irrefl jobs, ltb_irrefl jobs, ltb_irrefl jobs, ltb_irrefl jobs, ltb_irrefl jobs) refl

no_worker :
    (f : Bool)
    → replay (paths_closed ∷ batches_closed ∷ release_all f) (working f 0 0 false false)
      ≡ some (over 0 true)
unfolding replay perform release_all is_quiet is_free is_held hold close_output
no_worker true = refl
no_worker false = refl

pub job_count-pos : (jobs processors : ℕ) → 0 < job_count jobs processors
unfolding job_count
job_count-pos zero processors = ground arith
job_count-pos (suc jobs) processors = omega arith

pub if-IsLegal :
    (b : Bool) (p : Play) (x y : Ending)
    → IsLegal p x
    → IsLegal p y
    → IsLegal p (if b then x else y)
if-IsLegal true p x y left right = left
if-IsLegal false p x y left right = right

module _ (h : Host) where
  -- Before the first thread, what is held is released.
  released_held :
      (f : Bool)
      → (replay (close_output f ++ released cache ∷ []) (held f false false false)
          ≡ some (over 0 false))
        × (replay
              (released paths ∷ (close_output f ++ released cache ∷ []))
              (held f true false false)
            ≡ some (over 0 false))
        × (replay
              (released batches ∷ released paths ∷ (close_output f ++ released cache ∷ []))
              (held f true true false)
            ≡ some (over 0 false))
  unfolding replay perform is_quiet is_free is_held hold close_output
  released_held true = (refl, refl, refl)
  released_held false = (refl, refl, refl)

  module _ (jobs : ℕ) (f : Bool) (dirs : List Bytes)
      (joins : (i : ℕ) → i < jobs → h.join_ok i ≡ true) where
    closes :
        (m : Bool)
        → replay (paths_closed ∷ join_all jobs 0) (working f jobs 0 false m)
          ≡ some (working f jobs jobs true m)
    unfolding replay perform
    closes m = replay-join_all f m jobs jobs 0 (omega arith)

    walk-IsLegal : IsLegal (working f jobs 0 false true) (walk h f jobs dirs)
    unfolding walk
    walk-IsLegal = rw (join_workers-ok h jobs 0 (λ k lt. joins k (omega (arith, lt)))) (
        before-IsLegal (map walked (roots dirs) ++ paths_closed ∷ join_all jobs 0) (finish h f)
          (working f jobs 0 false true) (working f jobs jobs true true)
          (replay-append (map walked (roots dirs)) (paths_closed ∷ join_all jobs 0)
              (working f jobs 0 false true) (working f jobs 0 false true)
              (replay-walked (roots dirs) f true jobs 0)
            ∙ closes true)
          (over jobs true, finished h f jobs, over-IsOver jobs true))

    no_merge :
        IsLegal
          (working f jobs 0 false false)
          (return 1 (paths_closed ∷ (join_all jobs 0 ++ batches_closed ∷ release_all f)))
    unfolding return
    no_merge = (
      over jobs true,
      replay-append (paths_closed ∷ join_all jobs 0) (batches_closed ∷ release_all f)
            (working f jobs 0 false false) (working f jobs jobs true false) (closes false)
          ∙ released_all f jobs,
      over-IsOver jobs true,
    )

    merger :
        replay (merger_created ∷ []) (working f jobs 0 false false)
        ≡ some (working f jobs 0 false true)
    unfolding replay perform
    merger = refl

    start_merge-IsLegal : IsLegal (working f jobs 0 false false) (start_merge h f jobs dirs)
    unfolding start_merge
    start_merge-IsLegal =
        if-IsLegal h.merge_ok (working f jobs 0 false false) _ _
          (before-IsLegal (merger_created ∷ []) (walk h f jobs dirs) (working f jobs 0 false false)
            (working f jobs 0 false true) merger walk-IsLegal)
          no_merge

    module _ (creates : (i : ℕ) → i < jobs → h.create_ok i ≡ true) where
      pub start_workers-IsLegal : IsLegal (working f 0 0 false false) (start_workers h f jobs dirs)
      unfolding start_workers
      start_workers-IsLegal =
          let (e, all) = replay-create h f jobs 0 (λ k lt. creates k (omega (arith, lt))) in
          rw all (
            before-IsLegal (create_workers h jobs 0).0 (start_merge h f jobs dirs)
              (working f 0 0 false false) (working f jobs 0 false false)
              (e ∙ ap (λ k. some (working f k 0 false false)) (omega arith)) start_merge-IsLegal)

  -- The first thread cannot be created, and no other is tried.
  pub none_created :
      (jobs : ℕ) (f : Bool) (dirs : List Bytes)
      → h.create_ok 0 ≡ false
      → 0 < jobs
      → IsLegal (working f 0 0 false false) (start_workers h f jobs dirs)
  unfolding start_workers create_workers before return
  none_created zero f dirs failed pos = absurd (omega (arith, pos))
  none_created (suc n) f dirs failed pos = rw failed (over 0 true, no_worker f, over-IsOver 0 true)

  module _ (jobs : ℕ) (f : Bool) (dirs : List Bytes)
      (rest : IsLegal (working f 0 0 false false) (start_workers h f jobs dirs)) where
    grown :
        (replay (acquired threads ∷ []) (held f true true false) ≡ some (working f 0 0 false false))
        × (replay (acquired batches ∷ []) (held f true false false) ≡ some (held f true true false))
        × (replay (acquired paths ∷ []) (held f false false false) ≡ some (held f true false false))
    unfolding replay perform is_held hold
    grown = (refl, refl, refl)

    new_threads-IsLegal : IsLegal (held f true true false) (new_threads h f jobs dirs)
    unfolding new_threads return
    new_threads-IsLegal =
        if-IsLegal h.threads_ok (held f true true false) _ _
          (before-IsLegal (acquired threads ∷ []) (start_workers h f jobs dirs)
            (held f true true false) (working f 0 0 false false) grown.0 rest)
          (over 0 false, (released_held f).2, over-IsOver 0 false)

    new_batches-IsLegal : IsLegal (held f true false false) (new_batches h f jobs dirs)
    unfolding new_batches return
    new_batches-IsLegal =
        if-IsLegal (is_some (io_queue_new {A = Bytes} h.out_queue_ok jobs))
          (held f true false false) _ _
          (before-IsLegal (acquired batches ∷ []) (new_threads h f jobs dirs)
            (held f true false false) (held f true true false) grown.1 new_threads-IsLegal)
          (over 0 false, (released_held f).1, over-IsOver 0 false)

    pub new_paths-IsLegal : IsLegal (held f false false false) (new_paths h f jobs dirs)
    unfolding new_paths return
    new_paths-IsLegal =
        if-IsLegal (is_some (io_queue_new {A = Bytes} h.queue_ok queue_capacity))
          (held f false false false) _ _
          (before-IsLegal (acquired paths ∷ []) (new_batches h f jobs dirs)
            (held f false false false) (held f true false false) grown.2 new_batches-IsLegal)
          (over 0 false, (released_held f).0, over-IsOver 0 false)
