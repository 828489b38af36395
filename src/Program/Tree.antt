-- ===== src/Program/Tree.antt =====
-- src/main.c, the whole way: from the file tree, by `enqueue_path` of src/discover.c for each
-- directory and the threads, to the tags file.
use tsag.Base.{
  ℕ, ◌+◌, ◌*◌, ◌^◌, ◌<◌, ◌≡◌, ap, ◌∙◌, true, arith, List, [], ◌∷◌, ◌++◌, map, Option, some, ◌>>=◌,
  Bytes, length, All,
}
use tsag.Base.Gather.{length-map}
use tsag.LineVec.{LineVec}
use tsag.LineVec.Sort.{IsSorted}
use tsag.LineVec.Ascending.{has}
use tsag.Merge.{Merged}
use tsag.Discover.{FileSystem, Memory, enqueue_path}
use tsag.Discover.Tree.{Plenty, walk, walk_all, bind-inv}
use tsag.Discover.Walk.{enqueue_path-walk}
use tsag.Parse.File.{Outside}
use tsag.Worker.{Setup}
use tsag.Main.{roots}
use tsag.Pipeline.Laws.{is_set_up}
use tsag.Pipeline.Files.{IsTame, lines_of}
use tsag.Program.{Job, World, over, merged, Reach}
use tsag.Program.Result.{Reach-lines}

-- What the calls of `enqueue_path` put, one after the other.
unfoldable pub enqueue_all : FileSystem → Memory → ℕ → List Bytes → Option (List Bytes)
enqueue_all fs mem fuel [] = some []
enqueue_all fs mem fuel (dir ∷ dirs) = do
  found ← enqueue_path fs mem fuel dir
  rest ← enqueue_all fs mem fuel dirs
  some (found ++ rest)

-- Each path with what the outside answers for it.
abbrev pub jobs_of : (Bytes → Outside) → List Bytes → List Job
jobs_of ask paths = map (λ p. (p, ask p)) paths

module _ (fs : FileSystem) (mem : Memory) (plenty : Plenty mem) (depth : ℕ) where
  enqueue_all-walk :
      (dirs outs : List Bytes)
      → walk_all (walk fs depth) dirs ≡ some outs
      → (n : ℕ) × ((more : ℕ) → enqueue_all fs mem (n + more) dirs ≡ some outs)
  unfolding enqueue_all walk_all
  enqueue_all-walk [] outs e = (0, λ more. e)
  enqueue_all-walk (dir ∷ dirs) outs e =
      let (a, ea, e') = bind-inv (walk fs depth dir) _ outs e in
      let (b, eb, e'') = bind-inv (walk_all (walk fs depth) dirs) _ outs e' in
      let (n, f) = enqueue_path-walk fs mem plenty depth dir a ea in
      let (k, g) = enqueue_all-walk dirs b eb in
      (
        n + k,
        λ more.
            let one = ap (λ m. enqueue_path fs mem m dir) (omega arith) ∙ f (k + more) in
            let rest = ap (λ m. enqueue_all fs mem m dirs) (omega arith) ∙ g (n + more) in
            ap
              (λ r. r >>= λ found.
                enqueue_all fs mem (n + k + more) dirs >>= λ rest. some (found ++ rest))
              one
            ∙ ap (λ r. r >>= λ rest. some (a ++ rest)) rest
            ∙ e'',
      )

jobs_of-IsTame :
    (ask : Bytes → Outside) (paths : List Bytes)
    → All (λ p. IsTame (ask p)) paths
    → All (λ j. IsTame j.1) (jobs_of ask paths)
jobs_of-IsTame ask [] a = tt
jobs_of-IsTame ask (p ∷ paths) a = (a.0, jobs_of-IsTame ask paths a.1)

-- From the file tree to the tags file. On a tree of finitely many levels, the calls of
-- `enqueue_path` for the directories of the command line return, for every fuel from some number of
-- rounds on, with the files of the recursive walks, in their order; and when all threads are joined
-- in a run on these files, the tags file holds, in ascending order, the lines of these files and no
-- others. This takes that all allocations succeed, that every worker is set up and there is at least
-- one, and that there are fewer than 2 ^ 47 files.
pub Reach-tree :
    (fs : FileSystem) (mem : Memory) (ask : Bytes → Outside) (depth : ℕ) (dirs outs : List Bytes)
    (setups : List Setup) (w : World)
    → Plenty mem
    → walk_all (walk fs depth) (roots dirs) ≡ some outs
    → 0 < length setups
    → All (λ s. is_set_up s ≡ true) setups
    → All (λ p. IsTame (ask p)) outs
    → 4096 * length outs < 2 ^ 59
    → Reach setups (jobs_of ask outs) w
    → w.stage ≡ over
    → (n : ℕ) × ((more : ℕ) → enqueue_all fs mem (n + more) (roots dirs) ≡ some outs)
      × (received : List LineVec) × (result : Merged) × (w.merger ≡ merged received (some result))
      × IsSorted result.written
      × ((l : Bytes) → has l result.written ≡ has l (lines_of (jobs_of ask outs)))
Reach-tree fs mem ask depth dirs outs setups w plenty e pos set_up tame small r s =
    let (n, f) = enqueue_all-walk fs mem plenty depth (roots dirs) outs e in
    let job : Bytes → Job = λ p. (p, ask p) in
    let size = length-map job outs in
    let (received, result, m, sorted, lines, freed) =
      Reach-lines setups (jobs_of ask outs) w pos set_up (jobs_of-IsTame ask outs tame)
        (omega (arith, small, size)) r s in
    (n, f, received, result, m, sorted, lines)
