-- ===== src/Program/Same.antt =====
-- Two runs on the same files.
use mathlib.Core.List.Perm
use tsag.Base.{◌<◌, ◌≡◌, ◌*◌, ◌^◌, sym, ap, ◌∙◌, true, List, some, Bytes, length, All, Perm}
use tsag.LineVec.{LineVec}
use tsag.LineVec.Ascending.{IsAscending, has}
use tsag.LineVec.Count.{IsAscending-unique}
use tsag.Merge.{Merged}
use tsag.Worker.{Setup}
use tsag.Pipeline.Laws.{is_set_up, tag_file-lines}
use tsag.Pipeline.Files.{IsTame, lines_of}
use tsag.Pipeline.Regroup.{found-all}
use tsag.Pipeline.Once.{AreTabless, AreDistinct, tag_file-once}
use tsag.Program.{Job, World, over, merged, Reach}
use tsag.Program.Result.{over_shares, first_setup}

module _ (all : List Job) (tame : All (λ j. IsTame j.1) all) (small : 4096 * length all < 2 ^ 59)
    (tabless : AreTabless all) (distinct : AreDistinct all) where
  -- What a run on these files writes, in whatever order it finds them.
  writes :
      (setups : List Setup) (jobs : List Job) (w : World)
      → 0 < length setups
      → All (λ s. is_set_up s ≡ true) setups
      → Perm jobs all
      → Reach setups jobs w
      → w.stage ≡ over
      → (received : List LineVec) × (result : Merged) × (w.merger ≡ merged received (some result))
        × IsAscending result.written
        × ((l : Bytes) → has l result.written ≡ has l (lines_of all))
  writes setups jobs w pos set_up found r s =
      let (setup, e, parser) = first_setup setups pos set_up in
      let (shares, result, received, ps, pf, t, m) =
        over_shares setups jobs w 0 setup e parser r s in
      let (other, t', sorted, lines, freed) = tag_file-lines shares in
      let same : other ≡ result = cc (t, t') in
      let mine = Perm.trans pf found in
      (
        received,
        result,
        m,
        tag_file-once shares setups all result ps mine set_up tame small tabless distinct t,
        λ l.
            ap (λ x. has l x.written) (sym same)
            ∙ lines l
            ∙ found-all l shares setups all ps mine set_up tame small,
      )

  -- The tags file does not depend on the threads: two runs that find the same files, in any order,
  -- write the same lines in the same order, whatever the number of workers and the interleaving of
  -- either. No line is written twice. This takes that no path comes twice or has a tab, that every
  -- worker is set up and each run has at least one, that all allocations for the files succeed, and
  -- that there are fewer than 2 ^ 47 files.
  pub Reach-same :
      (setups others : List Setup) (jobs again : List Job) (w u : World)
      → 0 < length setups
      → 0 < length others
      → All (λ s. is_set_up s ≡ true) setups
      → All (λ s. is_set_up s ≡ true) others
      → Perm jobs all
      → Perm again all
      → Reach setups jobs w
      → Reach others again u
      → w.stage ≡ over
      → u.stage ≡ over
      → (first second : List LineVec) × (x y : Merged) × (w.merger ≡ merged first (some x))
        × (u.merger ≡ merged second (some y))
        × (x.written ≡ y.written)
        × IsAscending x.written
  Reach-same setups others jobs again w u pos pos' set_up set_up' found found' r r' s s' =
      let (first, x, m, asc, has_x) = writes setups jobs w pos set_up found r s in
      let (second, y, n, asc', has_y) = writes others again u pos' set_up' found' r' s' in
      (
        first,
        second,
        x,
        y,
        m,
        n,
        IsAscending-unique x.written y.written asc asc' (λ l. has_x l ∙ sym (has_y l)),
        asc,
      )
