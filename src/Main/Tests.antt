-- ===== src/Main/Tests.antt =====
-- Two workers that write to standard output, and a machine whose second thread cannot be created.
use tsag.Base.{◌≡◌, refl, true, List, [], ◌∷◌, none, some, Bytes, codes, ◌==◌, inl, str_eq, strcmp}
use tsag.Lang.Cache.Life.{Setup, lang_cache_new}
use tsag.Queue.{io_queue_new}
use tsag.Options.{Options, Opt, Strtol, ok, parse_options}
use tsag.Main.{
  output, code, aborts, Host, main, after_options, new_cache, parsers_dir, is_some, before, return,
  new_output, is_stdout, output_path, open_output, close_output, job_count, roots, join_all,
  create_workers, join_workers, finish, walk, release_all, start_merge, start_workers, new_threads,
  new_batches, new_paths,
}
use tsag.Main.Replay.{at_start, IsLegal, replay, perform, is_held, hold, is_free, is_quiet}
use tsag.Main.Laws.{main-IsLegal}

abbrev setup : Setup
setup = record { calloc_ok = true; strdup_ok = true; mutex_ok = true; cond_ok = true }

abbrev host : Host
host = record {
  tsag_parsers = some (codes "/p");
  data_home = none;
  cache_setup = setup;
  processors = 4;
  fopen_ok = λ path. true;
  queue_ok = (true, true);
  out_queue_ok = (true, true);
  threads_ok = true;
  create_ok = λ i. true;
  merge_ok = true;
  join_ok = λ i. true;
  fclose_ok = true;
}

-- No text has a number.
abbrev strtol : Bytes → Strtol
strtol arg = record { failed = true; end = arg; value = none }

abbrev opts : List Opt
opts = Opt.opt_o (codes "-") ∷ []

abbrev options : Options
options = record { output = some (codes "-"); jobs = 0; paths = codes "src" ∷ [] }

parsed :
    parse_options strtol opts (codes "src" ∷ []) (record { output = none; jobs = 0; paths = [] })
    ≡ ok options
unfolding parse_options
parsed = refl

returned : (main host strtol opts (codes "src" ∷ [])).exit ≡ code 0
unfolding main after_options new_cache parsers_dir is_some before return new_output is_stdout
    output_path open_output close_output job_count roots join_all create_workers join_workers finish
    walk release_all start_merge start_workers new_threads new_batches new_paths lang_cache_new
    io_queue_new parse_options str_eq strcmp
returned = refl

main-IsLegal_example : IsLegal at_start (main host strtol opts (codes "src" ∷ []))
main-IsLegal_example =
    main-IsLegal host (inl (λ i. refl)) (λ i. refl) strtol opts (codes "src" ∷ [])

-- The tags go to the file `t`, and the current directory is walked by two workers.
abbrev to_file : Options
to_file = record { output = some (codes "t"); jobs = 0; paths = [] }

-- Without the two variables the assertion fails.
no_home : (main (record host { tsag_parsers = none }) strtol opts []).exit ≡ aborts
unfolding main after_options parse_options new_cache parsers_dir
no_home = refl

-- The first worker runs when the queues that it uses are released.
abbrev one_thread : Host
one_thread = record host { create_ok = λ i. i == 0 }

late : replay (main one_thread strtol opts []).events at_start ≡ none
unfolding main after_options new_cache parsers_dir is_some before return new_output is_stdout
    output_path open_output close_output job_count roots join_all create_workers join_workers finish
    walk release_all start_merge start_workers new_threads new_batches new_paths lang_cache_new
    io_queue_new parse_options str_eq strcmp replay perform is_held hold is_free is_quiet
late = refl
