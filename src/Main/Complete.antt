-- ===== src/Main/Complete.antt =====
-- src/main.c: the run of `main` in which every call succeeds, against a description that uses none of
-- its definitions.
use tsag.Base.{
  ℕ, zero, suc, ◌+◌, ◌<◌, ◌≤◌, ◌≡◌, ◌≢◌, ◌⊎◌, true, List, [], ◌∷◌, ◌++◌, map, some, Bytes, codes,
}
use tsag.Options.{Options}
use tsag.Main.{
  Thing, cache, output, paths, batches, threads, Event, acquired, released, worker_created,
  merger_created, walked, paths_closed, batches_closed, worker_joined, merger_joined, Host,
}

-- One of the two variables is set, and every call succeeds.
pub record AllWell (h : Host) : Type 0 where
  pub dir : ((d : Bytes) × (h.tsag_parsers ≡ some d)) ⊎ ((d : Bytes) × (h.data_home ≡ some d))
  pub cache_calloc : h.cache_setup.calloc_ok ≡ true
  pub cache_strdup : h.cache_setup.strdup_ok ≡ true
  pub cache_mutex : h.cache_setup.mutex_ok ≡ true
  pub cache_cond : h.cache_setup.cond_ok ≡ true
  pub fopens : (path : Bytes) → h.fopen_ok path ≡ true
  pub queue : h.queue_ok ≡ (true, true)
  pub out_queue : h.out_queue_ok ≡ (true, true)
  pub threads : h.threads_ok ≡ true
  pub creates : (i : ℕ) → h.create_ok i ≡ true
  pub merge_create : h.merge_ok ≡ true
  pub joins : (i : ℕ) → h.join_ok i ≡ true
  pub fclose : h.fclose_ok ≡ true

-- What the options ask for: the file to open, unless the output is `-`; the number of workers, which
-- is that of the option, or two less than the processors but at least one; and the directories,
-- which are the current one where none is given.
pub record Asks (o : Options) (processors : ℕ) (files : List Thing) (jobs : ℕ) (dirs : List Bytes)
    : Type 0 where
  pub opens :
      ((o.output ≡ some (codes "-")) × (files ≡ []))
      ⊎ ((o.output ≢ some (codes "-")) × (files ≡ output ∷ []))
  pub starts :
      ((0 < o.jobs) × (jobs ≡ o.jobs))
      ⊎ ((o.jobs ≡ 0)
          × (((2 < processors) × (jobs + 2 ≡ processors)) ⊎ ((processors ≤ 2) × (jobs ≡ 1))))
  pub walks : ((o.paths ≡ []) × (dirs ≡ codes "." ∷ [])) ⊎ ((o.paths ≢ []) × (dirs ≡ o.paths))

-- `n` numbers from `i` on.
unfoldable pub numbers : ℕ → ℕ → List ℕ
numbers zero i = []
numbers (suc n) i = i ∷ numbers n (suc i)

unfoldable pub whole_run : List Thing → ℕ → List Bytes → List Event
whole_run files jobs dirs =
    acquired cache
    ∷ (map acquired files
        ++ acquired paths
          ∷ acquired batches
          ∷ acquired threads
          ∷ (map worker_created (numbers jobs 0)
              ++ merger_created
                ∷ ((map walked dirs ++ paths_closed ∷ map worker_joined (numbers jobs 0))
                    ++ batches_closed
                      ∷ merger_joined
                      ∷ released threads
                      ∷ released batches
                      ∷ released paths
                      ∷ released cache
                      ∷ map released files)))
