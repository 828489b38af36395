-- ===== src/Program/Tests.antt =====
-- The theorems on runs of the whole program, at two finished runs and at one that is stuck.
use tsag.Base.Gather.{gather}
use tsag.Base.Lists.{length}
use tsag.Pipeline.{run_workers}
use tsag.Program.Invariant.{AreEnded, setup_of, taken_of, share_of}
use tsag.Base.{
  str_eq, strcmp, split_last, if◌then◌else◌, ◌≡◌, ◌⊎◌, refl, true, false, List, [], ◌∷◌, some,
  Bytes, arith, Perm, ◌≤◌, map,
}
use tsag.LineVec.{LineVec}
use tsag.Base.Lists.{replicate, length-replicate}
use tsag.LineVec.Sort.{IsSorted}
use tsag.LineVec.Ascending.{has}
use tsag.Pipeline.{tag_file}
use tsag.Pipeline.Files.{lines_of}
use tsag.Pipeline.Laws.{is_set_up}
use tsag.Program.Result.{Reach-over, Reach-lines}
use tsag.Program.Progress.{Reach-live}
use tsag.Program.Ends.{Reach-short, steps}
use tsag.Program.Stuck.{Reach-still_walks}
use tsag.Pipeline.{Share}
use tsag.Merge.{Merged}
use tsag.Queue.{new_queue, io_queue_put}
use tsag.Pipeline.Sample.{outside, outside-IsTame, setup}
use tsag.Worker.{Setup}
use tsag.Program.{
  Job, ended, begin, World, at_start, walks, over, collects, merged, Step, Reach, start, later,
  walk_puts, worker_begins,
}
use mathlib.Core.List.Perm
use tsag.LineVec.Count.{count}
use tsag.LineVec.Ascending.{IsAscending}
use tsag.Pipeline.Once.{AreDistinct, AreTabless}
use tsag.Base.{◌+◌, ℕ, codes}
use tsag.Discover.{FileSystem, Memory, Kind, full_path, is_wanted}
use tsag.Discover.Tree.{Plenty, walk, walk_all, children, below, entries_of, own_file}
use tsag.Discover.Ignored.{has_ignored_part, ignored_name}
use tsag.Lang.{find_extension, ext_to_lang, ext_lang}
use tsag.Main.{roots}
use tsag.Program.Tree.{enqueue_all, jobs_of, Reach-tree}
use tsag.Program.Same.{Reach-same}
use tsag.Program.Sample.{job, paths, finish, finished, finish_two, finished_two}

Reach-over_example :
    AreEnded finish_two.workers (length finish_two.workers)
    × (map setup_of finish_two.workers ≡ setup ∷ setup ∷ [])
    × Perm (gather taken_of finish_two.workers) (job ∷ [])
    × (shares : List Share) × (result : Merged) × (received : List LineVec) × Perm shares
        (map share_of finish_two.workers)
    × (run_workers shares ≡ some received)
    × (tag_file shares ≡ some result)
    × (finish_two.merger ≡ merged received (some result))
Reach-over_example =
    Reach-over (setup ∷ setup ∷ []) (job ∷ []) finish_two 0 setup refl refl finished_two refl

setup-is_set_up : is_set_up setup ≡ true
unfolding is_set_up
setup-is_set_up = refl

Reach-lines_example :
    (received : List LineVec) × (result : Merged) × (finish.merger ≡ merged received (some result))
    × IsSorted result.written
    × ((l : Bytes) → has l result.written ≡ has l (lines_of (job ∷ [])))
    × Perm result.written result.freed
Reach-lines_example =
    Reach-lines (setup ∷ []) (job ∷ []) finish (omega arith) (setup-is_set_up, tt)
      (outside-IsTame, tt) (omega arith) finished refl

Reach-live_example : (finish.stage ≡ over) ⊎ ((next : World) × Step finish next)
Reach-live_example = Reach-live (setup ∷ []) (job ∷ []) finish 0 setup refl refl finished

Reach-short_example : steps finished ≤ 11
Reach-short_example = Reach-short (setup ∷ []) (job ∷ []) finish finished

-- A worker with no parser, and one file more than the queue has room for.
abbrev no_parser : Setup
no_parser = record setup { parser_ok = false }

abbrev many : List Job
many = replicate 513 job

abbrev one_put : World
one_put = record {
  stage = walks (replicate 512 job);
  queue = paths;
  workers = ended no_parser [] ∷ [];
  out_queue = new_queue 1;
  merger = collects [];
}

failed : begin no_parser ≡ some (ended no_parser [])
unfolding begin
failed = refl

put_and_failed : Reach (no_parser ∷ []) many one_put
unfolding at_start io_queue_put new_queue
put_and_failed =
    later (later start (walk_puts job (replicate 512 job) paths refl refl))
      (worker_begins 0 no_parser _ refl failed)

Reach-still_walks_example : (j : Job) × (js : List Job) × (one_put.stage ≡ walks (j ∷ js))
Reach-still_walks_example =
    Reach-still_walks (no_parser ∷ []) many one_put (omega arith) (refl, tt)
      (rw (length-replicate 513 job) (omega arith)) put_and_failed

one_path : AreDistinct (job ∷ [])
unfolding count
one_path p = ground arith

no_tab : AreTabless (job ∷ [])
no_tab = (ground arith, tt)

Reach-same_example :
    (first second : List LineVec) × (x y : Merged) × (finish.merger ≡ merged first (some x))
    × (finish_two.merger ≡ merged second (some y))
    × (x.written ≡ y.written)
    × IsAscending x.written
Reach-same_example =
    Reach-same (job ∷ []) (outside-IsTame, tt) (omega arith) no_tab one_path (setup ∷ [])
      (setup ∷ setup ∷ []) (job ∷ []) (job ∷ []) finish finish_two (omega arith) (omega arith)
      (setup-is_set_up, tt) (setup-is_set_up, (setup-is_set_up, tt)) (Perm.refl (job ∷ []))
      (Perm.refl (job ∷ [])) finished finished_two refl refl

-- A directory with the file and a text.
abbrev tree : FileSystem
tree = record {
  lstat = λ p. if str_eq p (codes ".") then some Kind.directory else some Kind.regular;
  opendir = λ p. some (codes "." ∷ codes "x.c" ∷ codes "notes.txt" ∷ []);
}

abbrev memory : Memory
memory = record { strdup_ok = true; malloc_ok = λ p. true; realloc_ok = λ p. true }

memory-Plenty : Plenty memory
memory-Plenty = record { strdup_ok = refl; malloc_ok = λ p. refl; realloc_ok = λ p. refl }

walks_tree : walk_all (walk tree 2) (roots []) ≡ some (codes "x.c" ∷ [])
unfolding walk walk_all children below entries_of own_file has_ignored_part is_wanted find_extension
    ext_to_lang ext_lang full_path str_eq strcmp split_last ignored_name roots
walks_tree = refl

Reach-tree_example :
    (n : ℕ) × ((more : ℕ) → enqueue_all tree memory (n + more) (roots []) ≡ some (codes "x.c" ∷ []))
    × (received : List LineVec) × (result : Merged) × (finish.merger
        ≡ merged received (some result))
    × IsSorted result.written
    × ((l : Bytes)
        → has l result.written ≡ has l (lines_of (jobs_of (λ p. outside) (codes "x.c" ∷ []))))
Reach-tree_example =
    Reach-tree tree memory (λ p. outside) 2 [] (codes "x.c" ∷ []) (setup ∷ []) finish memory-Plenty
      walks_tree (omega arith) (setup-is_set_up, tt) (outside-IsTame, tt) (omega arith) finished
      refl
