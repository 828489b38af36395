-- ===== src/Heap/Tests.antt =====
-- The heap's theorems at a heap of two entries over two batches.
use tsag.Base.{ℕ, zero, suc, ◌≡◌, refl, arith, List, [], ◌∷◌, codes, some, str_le, strcmp}
use tsag.LineVec.{LineVec}
use tsag.Heap.{HeapEntry, heap_pop}
use tsag.Heap.Live.{in_batch, line, key, no_entry}
use tsag.Heap.Order.{IsOrdered}
use tsag.Heap.Laws.{IsHeap, IsPopped, heap_pop-IsPopped}

abbrev batches : List LineVec
batches =
    record { items = codes "b" ∷ codes "d" ∷ []; cap = 2 }
    ∷ record { items = codes "a" ∷ codes "c" ∷ []; cap = 2 }
    ∷ []

abbrev entry : ℕ → ℕ → HeapEntry
entry b i = record { batch = b; idx = i }

abbrev heap : List HeapEntry
heap = entry 1 0 ∷ entry 0 0 ∷ no_entry ∷ []

heap-IsOrdered : IsOrdered 2 (key batches heap)
unfolding line str_le strcmp
heap-IsOrdered zero p q = elim p [ ]
heap-IsOrdered (suc zero) p q = refl
heap-IsOrdered (suc (suc c)) p q = absurd (omega arith)

heap-IsHeap : IsHeap batches heap 2
unfolding in_batch
heap-IsHeap = record {
  live = record { room = omega arith; inside = (refl, (refl, tt)) };
  ordered = heap-IsOrdered;
}

heap_pop-IsPopped_example :
    (h : List HeapEntry) × (heap_pop heap 2 batches ≡ some (some (entry 1 0), h, 1))
    × IsPopped batches heap 1 (entry 1 0) h
heap_pop-IsPopped_example = heap_pop-IsPopped batches heap 1 heap-IsHeap
