-- ===== src/Main.antt =====
-- src/main.c: the whole of `main`, as the list of what it acquires, starts, closes, waits for and
-- releases, in order, and its exit code. What the calls answer is a parameter. The messages on
-- stderr are left out.
pub mod Replay
pub mod Loops
pub mod Stages
pub mod Success
pub mod Complete
pub mod Laws
mod Tests
use tsag.Base.{
  ℕ, zero, suc, ◌-◌, Bool, true, false, not, ◌||◌, List, [], ◌∷◌, ◌++◌, map, Option, none, some,
  Bytes, codes, take, length, ltb, ◌==◌, if◌then◌else◌, str_eq,
}
use tsag.Queue.{IoQueue, io_queue_new}
use tsag.Lang.Load.{path_max}
use tsag.Lang.Cache.{LangCache}
use tsag.Lang.Cache.Life.{Setup, lang_cache_new}
use tsag.Options.{Options, Opt, Strtol, Parsed, ok, bad, exits, parse_options}

-- `paths` is the variable `queue` and `batches` is `out_queue`. `output` is the stream that `fopen`
-- gives.
pub data Thing : Type 0 where
  cache : Thing
  output : Thing
  paths : Thing
  batches : Thing
  threads : Thing

pub data Event : Type 0 where
  acquired : Thing → Event
  released : Thing → Event
  worker_created : ℕ → Event
  merger_created : Event
  walked : Bytes → Event
  paths_closed : Event
  batches_closed : Event
  worker_joined : ℕ → Event
  merger_joined : Event

-- `aborts`: the assertion fails. The code is modelled as written, with its assertion: a build with
-- NDEBUG has none and goes on with a null pointer for XDG_DATA_HOME.
pub data Exit : Type 0 where
  code : ℕ → Exit
  aborts : Exit

-- The environment's variables, and what the calls answer. `processors` is 0 where `sysconf` fails,
-- `queue_ok` and `out_queue_ok` are the results of the two calls of `calloc` in `io_queue_new`.
pub record Host : Type 0 where
  pub tsag_parsers : Option Bytes
  pub data_home : Option Bytes
  pub cache_setup : Setup
  pub processors : ℕ
  pub fopen_ok : Bytes → Bool
  pub queue_ok : Bool × Bool
  pub out_queue_ok : Bool × Bool
  pub threads_ok : Bool
  pub create_ok : ℕ → Bool
  pub merge_ok : Bool
  pub join_ok : ℕ → Bool
  pub fclose_ok : Bool

pub record Ending : Type 0 where
  pub exit : Exit
  pub events : List Event

-- `main` returns `c` after the events.
unfoldable pub return : ℕ → List Event → Ending
return c es = record { exit = code c; events = es }

unfoldable pub before : List Event → Ending → Ending
before es e = record { exit = e.exit; events = es ++ e.events }

abbrev pub queue_capacity : ℕ
queue_capacity = 512

unfoldable pub parsers_dir : Option Bytes → Option Bytes → Option Bytes
parsers_dir (some dir) home = some dir
parsers_dir none none = none
parsers_dir none (some base) = some (take (path_max - 1) (base ++ codes "/tsag"))

-- 0 jobs: the option is not given.
unfoldable pub job_count : ℕ → ℕ → ℕ
job_count zero processors = let jobs = processors - 2 in if ltb jobs 1 then 1 else jobs
job_count (suc jobs) processors = suc jobs

-- `opts.output && strcmp(opts.output, "-") == 0`, and the path for `fopen`.
unfoldable pub is_stdout : Option Bytes → Bool
is_stdout none = false
is_stdout (some path) = str_eq path (codes "-")

unfoldable pub output_path : Option Bytes → Bytes
output_path none = codes "tags"
output_path (some path) = path

unfoldable pub is_some : {A : Type 0} → Option A → Bool
is_some none = false
is_some (some a) = true

-- `if (out != stdout) fclose(out)`
unfoldable pub open_output : Bool → List Event
open_output true = acquired output ∷ []
open_output false = []

unfoldable pub close_output : Bool → List Event
close_output true = released output ∷ []
close_output false = []

-- The directories that are walked.
unfoldable pub roots : List Bytes → List Bytes
roots [] = codes "." ∷ []
roots (dir ∷ dirs) = dir ∷ dirs

-- Joining, where the result is not looked at.
unfoldable pub join_all : ℕ → ℕ → List Event
join_all zero i = []
join_all (suc n) i = worker_joined i ∷ join_all n (suc i)

-- What is released where a thread cannot be created.
unfoldable pub release_all : Bool → List Event
release_all to_file =
    released threads
    ∷ released batches
    ∷ released paths
    ∷ (close_output to_file ++ released cache ∷ [])

module _ (h : Host) where
  -- The `n` threads from number `i` on, and whether all were created.
  unfoldable pub create_workers : ℕ → ℕ → List Event × Bool
  create_workers zero i = ([], true)
  create_workers (suc n) i =
      let rest = create_workers n (suc i) in
      if h.create_ok i then (worker_created i ∷ rest.0, rest.1) else ([], false)

  unfoldable pub join_workers : ℕ → ℕ → List Event × Bool
  join_workers zero i = ([], true)
  join_workers (suc n) i =
      let rest = join_workers n (suc i) in
      if h.join_ok i then (worker_joined i ∷ rest.0, rest.1) else ([], false)

  -- The end, after the workers are joined.
  unfoldable pub finish : Bool → Ending
  finish to_file = return (if not to_file || h.fclose_ok then 0 else 1) (
      batches_closed
      ∷ merger_joined
      ∷ released threads
      ∷ released batches
      ∷ released paths
      ∷ released cache
      ∷ close_output to_file)

  -- The walk and the waiting.
  unfoldable pub walk : Bool → ℕ → List Bytes → Ending
  walk to_file jobs dirs =
      let joins = join_workers jobs 0 in
      before (map walked (roots dirs) ++ paths_closed ∷ joins.0)
        (if joins.1 then finish to_file else return 1 [])

  unfoldable pub start_merge : Bool → ℕ → List Bytes → Ending
  start_merge to_file jobs dirs =
      if h.merge_ok
      then before (merger_created ∷ []) (walk to_file jobs dirs)
      else return 1 (paths_closed ∷ (join_all jobs 0 ++ batches_closed ∷ release_all to_file))

  unfoldable pub start_workers : Bool → ℕ → List Bytes → Ending
  start_workers to_file jobs dirs =
      let creates = create_workers jobs 0 in
      before creates.0 (
        if creates.1
        then start_merge to_file jobs dirs
        else return 1 (paths_closed ∷ batches_closed ∷ release_all to_file))

  -- `malloc` for the threads, and the two queues before it.
  unfoldable pub new_threads : Bool → ℕ → List Bytes → Ending
  new_threads to_file jobs dirs =
      if h.threads_ok
      then before (acquired threads ∷ []) (start_workers to_file jobs dirs)
      else return 1
          (released batches ∷ released paths ∷ (close_output to_file ++ released cache ∷ []))

  unfoldable pub new_batches : Bool → ℕ → List Bytes → Ending
  new_batches to_file jobs dirs =
      if is_some (io_queue_new {A = Bytes} h.out_queue_ok jobs)
      then before (acquired batches ∷ []) (new_threads to_file jobs dirs)
      else return 1 (released paths ∷ (close_output to_file ++ released cache ∷ []))

  unfoldable pub new_paths : Bool → ℕ → List Bytes → Ending
  new_paths to_file jobs dirs =
      if is_some (io_queue_new {A = Bytes} h.queue_ok queue_capacity)
      then before (acquired paths ∷ []) (new_batches to_file jobs dirs)
      else return 1 (close_output to_file ++ released cache ∷ [])

  -- The choice of the output.
  unfoldable pub new_output : Options → Ending
  new_output o =
      if is_stdout o.output || h.fopen_ok (output_path o.output)
      then before (open_output (not (is_stdout o.output)))
          (new_paths (not (is_stdout o.output)) (job_count o.jobs h.processors) o.paths)
      else return 1 (released cache ∷ [])

  -- From the parsers' directory on.
  unfoldable pub new_cache : Option Bytes → Options → Ending
  new_cache none o = record { exit = aborts; events = [] }
  new_cache (some dir) o =
      if is_some (lang_cache_new h.cache_setup).cache
      then before (acquired cache ∷ []) (new_output o)
      else return 1 []

  unfoldable pub after_options : Parsed → Ending
  after_options bad = return 2 []
  after_options exits = return 0 []
  after_options (ok o) = new_cache (parsers_dir h.tsag_parsers h.data_home) o

  unfoldable pub main : (Bytes → Strtol) → List Opt → List Bytes → Ending
  main strtol opts rest =
      after_options
        (parse_options strtol opts rest (record { output = none; jobs = 0; paths = [] }))
