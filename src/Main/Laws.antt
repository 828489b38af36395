-- ===== src/Main/Laws.antt =====
-- The events of `main` against the rules of Main/Replay.
use tsag.Base.{
  ℕ, ◌<◌, ◌≡◌, ◌⊎◌, refl, Bool, true, false, not, ◌||◌, List, [], ◌∷◌, Option, none, some, Bytes,
  inl, inr,
}
use tsag.Lang.Cache.Life.{lang_cache_new}
use tsag.Options.{Options, Opt, Strtol, Parsed, ok, bad, exits, parse_options}
use tsag.Main.{
  cache, acquired, released, Exit, code, aborts, Host, return, parsers_dir, job_count, is_stdout,
  output_path, is_some, open_output, start_workers, new_paths, new_output, new_cache, after_options,
  main,
}
use tsag.Main.Replay.{
  perform, replay, is_over, is_quiet, is_free, is_held, hold, at_start, IsLegal, before-IsLegal,
}
use tsag.Main.Loops.{working}
use tsag.Main.Stages.{
  held, over, over-IsOver, if-IsLegal, job_count-pos, start_workers-IsLegal, none_created,
  new_paths-IsLegal,
}

module _ (h : Host) where
  -- The workers are created, or not even the first is.
  abbrev pub IsCreating : Type 0
  IsCreating = ((i : ℕ) → h.create_ok i ≡ true) ⊎ (h.create_ok 0 ≡ false)

  module _ (creates : IsCreating) (joins : (i : ℕ) → h.join_ok i ≡ true) where
    workers-IsLegal :
        (jobs : ℕ) (f : Bool) (dirs : List Bytes)
        → 0 < jobs
        → IsLegal (working f 0 0 false false) (start_workers h f jobs dirs)
    workers-IsLegal jobs f dirs pos = elim creates [
      | inl all ↦ start_workers-IsLegal h jobs f dirs (λ i lt. joins i) (λ i lt. all i)
      | inr failed ↦ none_created h jobs f dirs failed pos
    ]

    opened :
        (f : Bool)
        → replay (open_output f) (held false false false false) ≡ some (held f false false false)
    unfolding open_output replay perform is_held hold
    opened true = refl
    opened false = refl

    no_output : IsLegal (held false false false false) (return 1 (released cache ∷ []))
    unfolding return replay perform is_held is_free is_quiet hold
    no_output = (over 0 false, refl, over-IsOver 0 false)

    new_output-IsLegal : (o : Options) → IsLegal (held false false false false) (new_output h o)
    unfolding new_output
    new_output-IsLegal o =
        let f = not (is_stdout o.output) in
        let jobs = job_count o.jobs h.processors in
        if-IsLegal (is_stdout o.output || h.fopen_ok (output_path o.output))
          (held false false false false) _ _
          (before-IsLegal (open_output f) (new_paths h f jobs o.paths)
            (held false false false false) (held f false false false) (opened f)
            (new_paths-IsLegal h jobs f o.paths
              (workers-IsLegal jobs f o.paths (job_count-pos o.jobs h.processors))))
          no_output

    nothing : (e : Exit) → IsLegal at_start (record { exit = e; events = [] })
    unfolding replay is_over is_quiet
    nothing e = (at_start, refl, refl)

    cached : replay (acquired cache ∷ []) at_start ≡ some (held false false false false)
    unfolding replay perform is_held hold
    cached = refl

    new_cache-IsLegal : (dir : Option Bytes) (o : Options) → IsLegal at_start (new_cache h dir o)
    unfolding new_cache return
    new_cache-IsLegal none o = nothing aborts
    new_cache-IsLegal (some dir) o =
        if-IsLegal (is_some (lang_cache_new h.cache_setup).cache) at_start _ _
          (before-IsLegal (acquired cache ∷ []) (new_output h o) at_start
            (held false false false false) cached (new_output-IsLegal o))
          (nothing (code 1))

    after_options-IsLegal : (parsed : Parsed) → IsLegal at_start (after_options h parsed)
    unfolding after_options return
    after_options-IsLegal (ok o) = new_cache-IsLegal (parsers_dir h.tsag_parsers h.data_home) o
    after_options-IsLegal bad = nothing (code 2)
    after_options-IsLegal exits = nothing (code 0)

    -- On every path through `main`, each thing is acquired before it is used, is released once, and
    -- only when no thread that runs can use it; the queue of the paths is closed after the walk and
    -- before the wait for the workers, the queue of the batches after the last worker and before the
    -- wait for the merge; and at the end nothing is held and no thread runs. This takes that every
    -- thread of a worker can be created, or not even the first, and that each can be joined.
    pub main-IsLegal :
        (strtol : Bytes → Strtol) (opts : List Opt) (rest : List Bytes)
        → IsLegal at_start (main h strtol opts rest)
    unfolding main
    main-IsLegal strtol opts rest =
        after_options-IsLegal
          (parse_options strtol opts rest (record { output = none; jobs = 0; paths = [] }))
