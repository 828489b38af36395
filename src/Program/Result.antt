-- ===== src/Program/Result.antt =====
-- What the program has done when all its threads are joined.
use mathlib.Core.List.Perm
use tsag.Base.{
  ℕ, suc, ◌*◌, ◌^◌, ◌<◌, ◌≡◌, refl, sym, ap, ◌∙◌, true, List, [], ◌∷◌, ◌++◌, Option, some, length,
  get_elem?, inl, inr, arith, map, subst, get_elem?-map_inv, ◌>>=◌, Bytes, Perm, append-nil, All,
}
use tsag.Base.Perms.{perm-length}
use tsag.Base.Gather.{gather, get_elem?-in, length-map}
use tsag.LineVec.{LineVec}
use tsag.LineVec.Sort.{IsSorted}
use tsag.LineVec.Ascending.{has}
use tsag.Merge.{Merged, merge}
use tsag.Queue.{IoQueue}
use tsag.Queue.Laws.{Holds}
use tsag.Worker.{Setup}
use tsag.Pipeline.{Share, run_workers, tag_file}
use tsag.Pipeline.Laws.{tag_file-lines, is_set_up}
use tsag.Pipeline.Regroup.{perm-files, found-all}
use tsag.Pipeline.Files.{IsTame, lines_of}
use tsag.Pipeline.Shares.{files}
use tsag.Program.{Job, Worker, ended, World, over, merged, Reach}
use tsag.Program.Invariant.{
  Batched, Kept, IsStaged, IsMerging, IsClosed, IsParser, AreEnded, setup_of, taken_of, ended_of,
  share_of,
}
use tsag.Program.Whole.{Whole, Reach-Whole}

-- A queue with no item waiting.
none_waits :
    {A : Type 0} (q : IoQueue A) (waiting : List A) → Holds q waiting → q.count ≡ 0 → waiting ≡ []
none_waits q [] h e = refl
none_waits q (x ∷ xs) h e = let n = h.counted in absurd (omega (arith, n, e))

below :
    (p : Worker) (ws : List Worker) → AreEnded (p ∷ ws) (suc (length ws)) → AreEnded ws (length ws)
below p ws all k lt = all (suc k) (omega (arith, lt))

all_ended : (ws : List Worker) → AreEnded ws (length ws) → gather ended_of ws ≡ map share_of ws
unfolding gather
all_ended [] all = refl
all_ended (p ∷ ws) all =
    let (setup, taken, e) = all 0 (omega arith) in
    let same : p ≡ ended setup taken = cc e in
    rw same (ap (λ l. (setup, taken) ∷ l) (all_ended ws (below p ws all)))

files-shares : (ws : List Worker) → files (map share_of ws) ≡ gather taken_of ws
unfolding files gather
files-shares [] = refl
files-shares (p ∷ ws) = ap (λ l. taken_of p ++ l) (files-shares ws)

setups-shares : (ws : List Worker) → map (λ s. s.0) (map share_of ws) ≡ map setup_of ws
setups-shares [] = refl
setups-shares (p ∷ ws) = ap (λ l. setup_of p ∷ l) (setups-shares ws)

-- The workers in the order in which they ended.
record Done (setups : List Setup) (jobs : List Job) (w : World) : Type 0 where
  shares : List Share
  same_setups : Perm (map (λ s. s.0) shares) setups
  same_files : Perm (files shares) jobs
  of_workers : Perm shares (map share_of w.workers)
  at_end : AreEnded w.workers (length w.workers)
  taken_all : Perm (gather taken_of w.workers) jobs
  result : Merged
  is_merged :
      (received : List LineVec) × (run_workers shares ≡ some received)
      × (w.merger ≡ merged received (some result))
  is_result : tag_file shares ≡ some result

-- A worker with a parser has been told that no path will come.
told :
    (setups : List Setup) (jobs : List Job) (w : World) (i : ℕ) (setup : Setup)
    → Whole setups jobs w
    → get_elem? setups i ≡ some setup
    → IsParser setup
    → AreEnded w.workers (length w.workers)
    → IsClosed w
told setups jobs w i setup a e parser all =
    let (p, at, same) = get_elem?-map_inv setup_of w.workers i setup (rw a.same_setups e) in
    let (own, taken, at_end) = all i (get_elem?-in w.workers i p at) in
    elim (a.local.placed i (ended own taken) at_end) [
      | inl failed ↦
          let ends : p ≡ ended own taken = cc (at, at_end) in
          let owned : own ≡ setup = ap setup_of (sym ends) ∙ same in
          absurd (cc (parser, rw owned at failed))
      | inr closed ↦ closed
    ]

-- The merge's result, from the workers in the order in which they ended.
tag_file-run :
    (shares : List Share) (received : List LineVec)
    → run_workers shares ≡ some received
    → tag_file shares ≡ merge (length shares) received
unfolding tag_file
tag_file-run shares received e = ap (λ x. x >>= merge (length shares)) e

-- All batches are with the merge.
received-all :
    (w : World) (received : List LineVec) (result : Option Merged) (b : Batched w)
    → w.merger ≡ merged received result
    → w.out_queue.count ≡ 0
    → run_workers b.done ≡ some received
received-all w received result b m n =
    let none_left = none_waits w.out_queue b.waiting b.holds n in
    b.put ∙ ap some (rw (m, none_left) (append-nil received))

-- All paths are with the workers.
files-all :
    (jobs : List Job) (w : World) (k : Kept jobs w)
    → w.stage ≡ over
    → w.queue.count ≡ 0
    → Perm (files (map share_of w.workers)) jobs
files-all jobs w k s n =
    let none_left = none_waits w.queue k.waiting k.holds n in
    rw (files-shares w.workers)
      (rw (none_left, s, append-nil (gather taken_of w.workers)) at k.kept)

over-Done :
    (setups : List Setup) (jobs : List Job) (w : World) (i : ℕ) (setup : Setup)
    → Whole setups jobs w
    → get_elem? setups i ≡ some setup
    → IsParser setup
    → w.stage ≡ over
    → Done setups jobs w
over-Done setups jobs w i setup a e parser s =
    let (c, o, all, received, result, m) : IsStaged w over = subst (IsStaged w) s a.local.staged in
    let mine : Perm a.batched.done (map share_of w.workers) =
      rw (all_ended w.workers all) at a.batched.all in
    let (r, done, sorted, found, freed) = tag_file-lines a.batched.done in
    let (merges, closed, n) : IsMerging w (merged received result) =
      subst (IsMerging w) m a.local.merging in
    let run = tag_file-run a.batched.done received (received-all w received result a.batched m n) in
    let workers_count : length a.batched.done ≡ length w.workers =
      perm-length mine ∙ length-map share_of w.workers in
    let answer : result ≡ some r =
      merges ∙ ap (λ n. merge n received) (sym workers_count) ∙ sym run ∙ done in
    record {
      shares = a.batched.done;
      same_setups =
          Perm.trans (Perm.map (λ s. s.0) mine)
            (rw (setups-shares w.workers, a.same_setups) (Perm.refl setups));
      same_files =
          Perm.trans (perm-files mine)
            (files-all jobs w a.kept s (told setups jobs w i setup a e parser all).1);
      result = r;
      is_merged =
          (received, received-all w received result a.batched m n, m ∙ ap (merged received) answer);
      of_workers = mine;
      at_end = all;
      taken_all =
          rw (files-shares w.workers) at
            (files-all jobs w a.kept s (told setups jobs w i setup a e parser all).1);
      is_result = done;
    }

split :
    (setups : List Setup) (jobs : List Job) (w : World) (i : ℕ) (setup : Setup)
    → get_elem? setups i ≡ some setup
    → IsParser setup
    → Reach setups jobs w
    → w.stage ≡ over
    → Done setups jobs w
split setups jobs w i setup e parser r s =
    let pos : 0 < length setups = (let lt = get_elem?-in setups i setup e in omega (arith, lt)) in
    over-Done setups jobs w i setup (Reach-Whole setups jobs w pos r) e parser s

-- When `main` has joined all its threads, every worker has ended, with the set-up it was given. The
-- lists of the paths that the workers have got make up, together, the paths that the walk found,
-- each as often as it was found: none is lost and none goes to two workers. Of some order of these
-- workers, `shares`, the merge has received the batches, one after the other, and its result is that of
-- `tag_file`. This takes that at least one worker has its parser and its cursor.
pub Reach-over :
    (setups : List Setup) (jobs : List Job) (w : World) (i : ℕ) (setup : Setup)
    → get_elem? setups i ≡ some setup
    → IsParser setup
    → Reach setups jobs w
    → w.stage ≡ over
    → AreEnded w.workers (length w.workers)
      × (map setup_of w.workers ≡ setups)
      × Perm (gather taken_of w.workers) jobs
      × (shares : List Share) × (result : Merged) × (received : List LineVec) × Perm shares
          (map share_of w.workers)
      × (run_workers shares ≡ some received)
      × (tag_file shares ≡ some result)
      × (w.merger ≡ merged received (some result))
Reach-over setups jobs w i setup e parser r s =
    let pos : 0 < length setups = (let lt = get_elem?-in setups i setup e in omega (arith, lt)) in
    let whole = Reach-Whole setups jobs w pos r in
    let d = split setups jobs w i setup e parser r s in
    let (received, run, m) = d.is_merged in
    (
      d.at_end, whole.same_setups, d.taken_all, d.shares, d.result, received, d.of_workers, run,
      d.is_result, m,
    )

-- The same, with the order of the workers forgotten.
pub over_shares :
    (setups : List Setup) (jobs : List Job) (w : World) (i : ℕ) (setup : Setup)
    → get_elem? setups i ≡ some setup
    → IsParser setup
    → Reach setups jobs w
    → w.stage ≡ over
    → (shares : List Share) × (result : Merged) × (received : List LineVec) × Perm
        (map (λ s. s.0) shares)
        setups
      × Perm (files shares) jobs
      × (tag_file shares ≡ some result)
      × (w.merger ≡ merged received (some result))
over_shares setups jobs w i setup e parser r s =
    let d = split setups jobs w i setup e parser r s in
    let (received, run, m) = d.is_merged in
    (d.shares, d.result, received, d.same_setups, d.same_files, d.is_result, m)

pub first_setup :
    (setups : List Setup)
    → 0 < length setups
    → All (λ s. is_set_up s ≡ true) setups
    → (setup : Setup) × (get_elem? setups 0 ≡ some setup) × IsParser setup
unfolding is_set_up
first_setup [] pos all = elim pos [ ]
first_setup (s ∷ setups) pos all = let set_up = all.0 in (s, refl, ground arith)

-- When `main` has joined all its threads, the tags file holds, in ascending order, the lines of the
-- files that the walk found (`lines_of`) and no others, whatever the interleaving of the threads; the lines freed
-- are the lines written. This takes that every worker is set up, that there is at least one, that all
-- allocations for the files succeed, and that there are fewer than 2 ^ 47 files.
pub Reach-lines :
    (setups : List Setup) (jobs : List Job) (w : World)
    → 0 < length setups
    → All (λ s. is_set_up s ≡ true) setups
    → All (λ j. IsTame j.1) jobs
    → 4096 * length jobs < 2 ^ 59
    → Reach setups jobs w
    → w.stage ≡ over
    → (received : List LineVec) × (result : Merged) × (w.merger ≡ merged received (some result))
      × IsSorted result.written
      × ((l : Bytes) → has l result.written ≡ has l (lines_of jobs))
      × Perm result.written result.freed
Reach-lines setups jobs w pos set_up tame small r s =
    let (setup, e, parser) = first_setup setups pos set_up in
    let (shares, result, received, ps, pf, t, m) = over_shares setups jobs w 0 setup e parser r s in
    let (other, t', sorted, found, freed) = tag_file-lines shares in
    let same : other ≡ result = cc (t, t') in
    (
      received,
      result,
      m,
      rw same at sorted,
      λ l.
          ap (λ x. has l x.written) (sym same)
          ∙ found l
          ∙ found-all l shares setups jobs ps pf set_up tame small,
      rw same at freed,
    )
