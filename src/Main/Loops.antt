-- ===== src/Main/Loops.antt =====
-- The loops of `main` over its threads and its directories, as the check of its events sees them.
use tsag.Base.{
  ℕ, zero, suc, ◌+◌, ◌<◌, ◌≡◌, refl, ap, Bool, true, false, arith, List, [], ◌∷◌, map, some, ltb,
  ◌==◌, Bytes,
}
use tsag.Main.{Event, walked, Host, create_workers, join_workers, join_all}
use tsag.Main.Replay.{Play, perform, replay}

-- All is held; `ended`: the queue of the paths is closed.
abbrev pub working : Bool → ℕ → ℕ → Bool → Bool → Play
working to_file created joined ended merging = record {
  cache_held = true;
  output_held = to_file;
  paths_held = true;
  batches_held = true;
  threads_held = true;
  paths_ended = ended;
  batches_ended = false;
  created = created;
  joined = joined;
  merging = merging;
}

pub ltb_irrefl : (n : ℕ) → ltb n n ≡ false
ltb_irrefl n = ground arith

pub replay-walked :
    (dirs : List Bytes) (f m : Bool) (n j : ℕ)
    → replay (map walked dirs) (working f n j false m) ≡ some (working f n j false m)
unfolding replay perform
replay-walked [] f m n j = refl
replay-walked (dir ∷ dirs) f m n j = replay-walked dirs f m n j

joined_one :
    (f m : Bool) (jobs i : ℕ)
    → i < jobs
    → perform (Event.worker_joined i) (working f jobs i true m)
      ≡ some (working f jobs (suc i) true m)
unfolding perform
joined_one f m jobs i lt =
    let same : (i == i) ≡ true = ground arith in
    let less : ltb i jobs ≡ true = ground (arith, lt) in rw (same, less) refl

pub replay-join_all :
    (f m : Bool) (jobs n i : ℕ)
    → i + n ≡ jobs
    → replay (join_all n i) (working f jobs i true m) ≡ some (working f jobs jobs true m)
unfolding replay join_all
replay-join_all f m jobs zero i e = let same : i ≡ jobs = omega (arith, e) in rw same refl
replay-join_all f m jobs (suc n) i e =
    rw (joined_one f m jobs i (omega (arith, e)))
      (replay-join_all f m jobs n (suc i) (omega (arith, e)))

module _ (h : Host) where
  -- Where every join succeeds, the loop is the one that does not look at the results.
  pub join_workers-ok :
      (n i : ℕ)
      → ((k : ℕ) → k < i + n → h.join_ok k ≡ true)
      → join_workers h n i ≡ (join_all n i, true)
  unfolding join_workers join_all
  join_workers-ok zero i ok = refl
  join_workers-ok (suc n) i ok =
      rw (ok i (omega arith), join_workers-ok n (suc i) (λ k lt. ok k (omega (arith, lt)))) refl

  created_one :
      (f : Bool) (i : ℕ)
      → perform (Event.worker_created i) (working f i 0 false false)
        ≡ some (working f (suc i) 0 false false)
  unfolding perform
  created_one f i = let same : (i == i) ≡ true = ground arith in rw same refl

  pub replay-create :
      (f : Bool) (n i : ℕ)
      → ((k : ℕ) → k < i + n → h.create_ok k ≡ true)
      → (replay (create_workers h n i).0 (working f i 0 false false)
          ≡ some (working f (i + n) 0 false false))
        × ((create_workers h n i).1 ≡ true)
  unfolding replay create_workers
  replay-create f zero i ok = (ap (λ k. some (working f k 0 false false)) (omega arith), refl)
  replay-create f (suc n) i ok =
      let (e, all) = replay-create f n (suc i) (λ k lt. ok k (omega (arith, lt))) in
      let size : suc i + n ≡ i + suc n = omega arith in
      (
        rw (ok i (omega arith), created_one f i, e)
            (ap (λ k. some (working f k 0 false false)) size),
        rw (ok i (omega arith)) all,
      )
