-- ===== src/Merge/Tests.antt =====
-- Runs of the merge, and its theorems at concrete batches.
use tsag.Base.{◌≡◌, refl, arith, List, [], ◌∷◌, some, Bytes, codes, str_lt, str_le, strcmp, Perm}
use tsag.LineVec.{LineVec, line_vec_free}
use tsag.LineVec.Sort.{IsSorted}
use tsag.Heap.{heap_push, heap_pop, heap_heapify_up, heap_heapify_down, line_at}
use tsag.Merge.{Merged, merge, collect, populate, advance, drain_loop, free_all, all_lines}
use tsag.Merge.Laws.{merge-sorts}
use tsag.Merge.Rest.{AreSorted}

abbrev batch : List Bytes → LineVec
batch lines = record { items = lines; cap = 128 }

abbrev received : List LineVec
received =
    batch (codes "b" ∷ codes "d" ∷ [])
    ∷ batch []
    ∷ batch (codes "a" ∷ codes "c" ∷ codes "d" ∷ [])
    ∷ []

merge-runs :
    merge 3 received
    ≡ some (record {
      written = codes "a" ∷ codes "b" ∷ codes "c" ∷ codes "d" ∷ codes "d" ∷ [];
      freed = codes "b" ∷ codes "d" ∷ codes "a" ∷ codes "c" ∷ codes "d" ∷ [];
    })
unfolding merge collect populate advance drain_loop all_lines free_all line_vec_free heap_push
    heap_pop heap_heapify_up heap_heapify_down line_at str_lt strcmp
merge-runs = refl

received-AreSorted : AreSorted received
unfolding str_le strcmp
received-AreSorted = ground arith

merge-sorts_example :
    (r : Merged) × (merge 3 received ≡ some r)
    × IsSorted r.written
    × Perm r.written (all_lines received)
    × (r.freed ≡ all_lines received)
merge-sorts_example = merge-sorts 3 received (omega arith) received-AreSorted
