-- ===== src/Merge/Laws.antt =====
-- src/merge.c, `merge`: the k-way merge writes every line of every batch, in ascending order.
use mathlib.Core.List.Perm
use tsag.Base.{
  ℕ, suc, ◌+◌, ◌≤◌, ◌<◌, ◌≡◌, refl, ap, arith, List, [], ◌∷◌, ◌++◌, some, none, Bytes, Perm, length,
  replicate, length-replicate, le→ltb, length-append, dec_lt, lt→ltb,
}
use tsag.LineVec.{LineVec, line_vec_free}
use tsag.LineVec.Sort.{IsSorted}
use tsag.Heap.{HeapEntry}
use tsag.Heap.Live.{no_entry}
use tsag.Merge.{Merged, collect, populate, drain_loop, merge, all_lines, free_all}
use tsag.Merge.Rest.{AreSorted, rests}
use tsag.Merge.Fill.{Holds, collect-some, populate-Holds}
use tsag.Merge.Drain.{drain_loop-Drains}

empty-Holds : (batches : List LineVec) (n : ℕ) → Holds batches (replicate n no_entry, 0) []
unfolding rests
empty-Holds batches n = record {
  valid = record {
    live = record { room = omega arith; inside = tt };
    ordered = λ c p q. elim q [ ];
  };
  same = Perm.rfl;
}

free_all-lines : (batches : List LineVec) → free_all batches ≡ all_lines batches
unfolding free_all all_lines line_vec_free
free_all-lines [] = refl
free_all-lines (vec ∷ batches) = ap (λ xs. vec.items ++ xs) (free_all-lines batches)

merge-parts :
    (n : ℕ) (received batches : List LineVec) (s : List HeapEntry × ℕ) (written : List Bytes)
    → collect n received [] ≡ some batches
    → populate (length batches) 0 batches (replicate n no_entry, 0) ≡ some s
    → drain_loop (suc (length (all_lines batches))) batches s [] ≡ some written
    → merge n received ≡ some (record { written = written; freed = free_all batches })
unfolding merge
merge-parts n received batches s written collected filled drained = rw (collected, filled, drained)

-- With at most one batch for each of the `n` workers, each in ascending order, `merge` returns:
-- no array is read or written out of bounds and the loops end. It writes exactly the lines of the
-- batches, each as often as it occurs in them, in ascending order of `strcmp`; and it frees
-- exactly the lines of the batches.
pub merge-sorts :
    (n : ℕ) (received : List LineVec)
    → length received ≤ n
    → AreSorted received
    → (r : Merged) × (merge n received ≡ some r)
      × IsSorted r.written
      × Perm r.written (all_lines received)
      × (r.freed ≡ all_lines received)
merge-sorts n received few sorted =
    let size = length-replicate n no_entry in
    let lines = all_lines received in
    let (s, filled, held) =
      populate-Holds received (length received) 0 (replicate n no_entry) 0 [] (omega arith)
        (omega (arith, size)) (empty-Holds received n) in
    let (outs, drained, perm, asc) =
      drain_loop-Drains received (suc (length lines)) s.0 s.1 lines [] (omega arith) sorted held in
    (
      record { written = outs; freed = free_all received },
      merge-parts n received received s outs (collect-some n received [] (omega arith)) filled
          drained,
      asc,
      perm,
      free_all-lines received,
    )

collect-none :
    (n : ℕ) (received batches : List LineVec)
    → length batches ≤ n
    → n < length batches + length received
    → collect n received batches ≡ none
unfolding collect
collect-none n [] batches le lt = absurd (omega arith)
collect-none n (vec ∷ received) batches le lt =
    let size = length-append batches (vec ∷ []) in
    elim (dec_lt (length batches) n) [
      | yes p ↦
          rw (lt→ltb (length batches) n p)
            (collect-none n received (batches ++ vec ∷ []) (omega arith) (omega arith))
      | no p ↦ rw (le→ltb (length batches) n (omega arith))
    ]

-- `merge` relies on the number of batches: with more batches than `n` it writes past the end of
-- `batches[a->n]`.
pub merge-overflow :
    (n : ℕ) (received : List LineVec) → n < length received → merge n received ≡ none
unfolding merge
merge-overflow n received lt = rw (collect-none n received [] (omega arith) (omega arith))
