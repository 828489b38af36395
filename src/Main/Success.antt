-- ===== src/Main/Success.antt =====
-- What `main` has done when it returns 0.
use tsag.Base.{
  ℕ, zero, suc, ◌≡◌, refl, ap, ◌∙◌, Bool, true, false, not, ◌||◌, List, [], ◌∷◌, ◌++◌, map, Option,
  none, some, if◌then◌else◌, Bytes, Bool-cases, inl, inr,
}
use tsag.Queue.{io_queue_new}
use tsag.Lang.Cache.Life.{lang_cache_new}
use tsag.Options.{Options, Opt, Strtol, ok, parse_options}
use tsag.Main.{
  cache, paths, batches, threads, Event, acquired, released, worker_created, merger_created, walked,
  paths_closed, batches_closed, worker_joined, merger_joined, code, Host, Ending, return, before,
  queue_capacity, parsers_dir, job_count, is_stdout, output_path, is_some, open_output,
  close_output, roots, join_all, create_workers, join_workers, finish, walk, release_all,
  start_merge, start_workers, new_threads, new_batches, new_paths, new_output, new_cache,
  after_options, main,
}

unfoldable pub create_all : ℕ → ℕ → List Event
create_all zero i = []
create_all (suc n) i = worker_created i ∷ create_all n (suc i)

abbrev pub ending : Bool → List Event
ending f =
    batches_closed
    ∷ merger_joined
    ∷ released threads
    ∷ released batches
    ∷ released paths
    ∷ released cache
    ∷ close_output f

abbrev pub waiting : Bool → ℕ → List Bytes → List Event
waiting f jobs dirs = (map walked (roots dirs) ++ paths_closed ∷ join_all jobs 0) ++ ending f

abbrev pub queued : Bool → ℕ → List Bytes → List Event
queued f jobs dirs =
    acquired paths
    ∷ acquired batches
    ∷ acquired threads
    ∷ (create_all jobs 0 ++ merger_created ∷ waiting f jobs dirs)

-- All of the program: every thread is created, every directory walked, and every thread waited for.
unfoldable pub all_done : Options → ℕ → List Event
all_done o processors =
    let f = not (is_stdout o.output) in
    acquired cache ∷ (open_output f ++ queued f (job_count o.jobs processors) o.paths)

-- A test that must hold for the exit code to be 0.
if-success :
    (b : Bool) (x y : Ending) (es : List Event)
    → y.exit ≡ code 1
    → (b ≡ true → x.exit ≡ code 0 → x.events ≡ es)
    → (if b then x else y).exit ≡ code 0
    → (if b then x else y).events ≡ es
if-success true x y es fails holds e = holds refl e
if-success false x y es fails holds e = absurd (cc (fails, e))

before-success :
    (xs ys : List Event) (e : Ending)
    → (e.exit ≡ code 0 → e.events ≡ ys)
    → (before xs e).exit ≡ code 0
    → (before xs e).events ≡ xs ++ ys
unfolding before
before-success xs ys e next h = ap (λ zs. xs ++ zs) (next h)

module _ (h : Host) where
  joins-all : (n i : ℕ) → (join_workers h n i).1 ≡ true → (join_workers h n i).0 ≡ join_all n i
  unfolding join_workers join_all
  joins-all zero i e = refl
  joins-all (suc n) i e = elim (Bool-cases (h.join_ok i)) [
    | inl p ↦ rw p (ap (◌∷◌ (worker_joined i)) (joins-all n (suc i) (rw p at e)))
    | inr p ↦ absurd (cc (rw p at e))
  ]

  creates-all :
      (n i : ℕ) → (create_workers h n i).1 ≡ true → (create_workers h n i).0 ≡ create_all n i
  unfolding create_workers create_all
  creates-all zero i e = refl
  creates-all (suc n) i e = elim (Bool-cases (h.create_ok i)) [
    | inl p ↦ rw p (ap (◌∷◌ (worker_created i)) (creates-all n (suc i) (rw p at e)))
    | inr p ↦ absurd (cc (rw p at e))
  ]

  -- The exit code of a test is that of a branch.
  both :
      (b : Bool) (xs ys zs : List Event) (x y : Ending)
      → y.exit ≡ code 1
      → (b ≡ true → xs ≡ ys)
      → (x.exit ≡ code 0 → x.events ≡ zs)
      → (before xs (if b then x else y)).exit ≡ code 0
      → (before xs (if b then x else y)).events ≡ ys ++ zs
  unfolding before
  both true xs ys zs x y fails all next e =
      ap (λ l. l ++ x.events) (all refl) ∙ ap (λ l. ys ++ l) (next e)
  both false xs ys zs x y fails all next e = absurd (cc (fails, e))

  module _ (f : Bool) (jobs : ℕ) (dirs : List Bytes) where
    walk-success :
        (walk h f jobs dirs).exit ≡ code 0 → (walk h f jobs dirs).events ≡ waiting f jobs dirs
    unfolding walk finish return
    walk-success =
        both (join_workers h jobs 0).1
          (map walked (roots dirs) ++ paths_closed ∷ (join_workers h jobs 0).0)
          (map walked (roots dirs) ++ paths_closed ∷ join_all jobs 0) (ending f) (finish h f)
          (return 1 []) refl
          (λ all. ap (λ l. map walked (roots dirs) ++ paths_closed ∷ l) (joins-all jobs 0 all))
          (λ e. refl)

    merge-success :
        (start_merge h f jobs dirs).exit ≡ code 0
        → (start_merge h f jobs dirs).events ≡ merger_created ∷ waiting f jobs dirs
    unfolding start_merge return
    merge-success = if-success h.merge_ok _ _ (merger_created ∷ waiting f jobs dirs) refl (λ b.
        before-success (merger_created ∷ []) (waiting f jobs dirs) (walk h f jobs dirs)
          walk-success)

    queued-success :
        (new_paths h f jobs dirs).exit ≡ code 0
        → (new_paths h f jobs dirs).events ≡ queued f jobs dirs
    unfolding new_paths new_batches new_threads start_workers return
    queued-success =
        let started = create_all jobs 0 ++ merger_created ∷ waiting f jobs dirs in
        if-success (is_some (io_queue_new {A = Bytes} h.queue_ok queue_capacity)) _ _
          (queued f jobs dirs) refl
          (λ b.
            before-success (acquired paths ∷ []) (acquired batches ∷ acquired threads ∷ started)
              (new_batches h f jobs dirs)
              (if-success (is_some (io_queue_new {A = Bytes} h.out_queue_ok jobs)) _ _
                (acquired batches ∷ acquired threads ∷ started) refl
                (λ b.
                  before-success (acquired batches ∷ []) (acquired threads ∷ started)
                    (new_threads h f jobs dirs)
                    (if-success h.threads_ok _ _ (acquired threads ∷ started) refl (λ b.
                      before-success (acquired threads ∷ []) started (start_workers h f jobs dirs) (
                        both (create_workers h jobs 0).1 (create_workers h jobs 0).0
                          (create_all jobs 0) (merger_created ∷ waiting f jobs dirs)
                          (start_merge h f jobs dirs)
                          (return 1 (paths_closed ∷ batches_closed ∷ release_all f)) refl
                          (creates-all jobs 0) merge-success))))))

  output-success :
      (o : Options)
      → (new_output h o).exit ≡ code 0
      → acquired cache ∷ (new_output h o).events ≡ all_done o h.processors
  unfolding new_output all_done return
  output-success o e =
      let f = not (is_stdout o.output) in
      let jobs = job_count o.jobs h.processors in
      ap (◌∷◌ (acquired cache)) (
        if-success (is_stdout o.output || h.fopen_ok (output_path o.output)) _ _
          (open_output f ++ queued f jobs o.paths) refl
          (λ b.
            before-success (open_output f) (queued f jobs o.paths) (new_paths h f jobs o.paths)
              (queued-success f jobs o.paths))
          e)

  opened_cache :
      (o : Options)
      → (before (acquired cache ∷ []) (new_output h o)).exit ≡ code 0
      → (before (acquired cache ∷ []) (new_output h o)).events ≡ all_done o h.processors
  unfolding before
  opened_cache o e = output-success o e

  from_dir :
      (dir : Option Bytes) (o : Options)
      → (new_cache h dir o).exit ≡ code 0
      → (new_cache h dir o).events ≡ all_done o h.processors
  unfolding new_cache return
  from_dir none o e = absurd (cc e)
  from_dir (some dir) o e =
      if-success (is_some (lang_cache_new h.cache_setup).cache) _ _ (all_done o h.processors) refl
        (λ b. opened_cache o) e

  -- The events of `main`, by its own parts.
  pub main-success :
      (strtol : Bytes → Strtol) (opts : List Opt) (rest : List Bytes) (o : Options)
      → parse_options strtol opts rest (record { output = none; jobs = 0; paths = [] }) ≡ ok o
      → (main h strtol opts rest).exit ≡ code 0
      → (main h strtol opts rest).events ≡ all_done o h.processors
  unfolding main after_options
  main-success strtol opts rest o parsed e =
      rw parsed (from_dir (parsers_dir h.tsag_parsers h.data_home) o (rw parsed at e))
