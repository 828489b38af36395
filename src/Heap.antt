-- ===== src/Heap.antt =====
-- src/heap.h and src/heap.c: a binary min-heap of positions in the batches, ordered by the lines
-- at those positions. Sift loops are recursive in the source; here they take fuel.
pub mod Order
pub mod Live
pub mod Sift
pub mod Laws
mod Tests
use tsag.Base.{
  ℕ, zero, suc, ◌+◌, ◌-◌, ◌*◌, ◌/◌, Bool, true, false, List, Option, none, some, ◌>>=◌, Bytes,
  length, get_elem?, set, ltb, ◌==◌, not, if◌then◌else◌, str_lt,
}
use tsag.LineVec.{LineVec}

pub record HeapEntry : Type 0 where
  pub batch : ℕ
  pub idx : ℕ

-- `batches[e->batch]->items[e->idx]`
unfoldable pub line_at : List LineVec → HeapEntry → Option Bytes
line_at batches e = do vec ← get_elem? batches e.batch; get_elem? vec.items e.idx

pub heap_less : List LineVec → HeapEntry → HeapEntry → Option Bool
heap_less batches a b = do x ← line_at batches a; y ← line_at batches b; some (str_lt x y)

-- `heap_less(batches, &heap[i], &heap[j])`
pub less_at : List LineVec → List HeapEntry → ℕ → ℕ → Option Bool
unfolding heap_less
less_at batches heap i j = do a ← get_elem? heap i; b ← get_elem? heap j; heap_less batches a b

-- The exchange by way of `tmp`.
pub swap : List HeapEntry → ℕ → ℕ → Option (List HeapEntry)
swap heap i j = do
  tmp ← get_elem? heap j
  other ← get_elem? heap i
  some (set (set heap j other) i tmp)

up_loop : ℕ → List LineVec → List HeapEntry → ℕ → Option (List HeapEntry)
up_loop zero batches heap idx = none
up_loop (suc fuel) batches heap idx =
    let p = (idx - 1) / 2 in
    let rise = swap heap idx p >>= λ h. up_loop fuel batches h p in
    let step = less_at batches heap idx p >>= λ below. if below then rise else some heap in
    if idx == 0 then some heap else step

-- Each call halves the index, so `idx + 1` calls are enough.
unfoldable pub heap_heapify_up : List LineVec → List HeapEntry → ℕ → Option (List HeapEntry)
unfolding up_loop less_at swap
heap_heapify_up batches heap idx = up_loop (suc idx) batches heap idx

-- The index `smallest` of one call of `heap_heapify_down`.
pub smallest_of : List LineVec → List HeapEntry → ℕ → ℕ → Option ℕ
smallest_of batches heap idx size =
    let l = idx * 2 + 1 in
    let r = idx * 2 + 2 in
    do
      s ←
          if ltb l size
          then (less_at batches heap l idx >>= λ below. some (if below then l else idx))
          else some idx
      if ltb r size
          then (less_at batches heap r s >>= λ below. some (if below then r else s))
          else some s

down_loop : ℕ → List LineVec → List HeapEntry → ℕ → ℕ → Option (List HeapEntry)
down_loop zero batches heap idx size = none
down_loop (suc fuel) batches heap idx size = smallest_of batches heap idx size >>= λ smallest.
    let sink = swap heap idx smallest >>= λ h. down_loop fuel batches h smallest size in
    if not (smallest == idx) then sink else some heap

-- Each call moves to a larger index below `size`, or stops: `size + 1` calls are enough.
unfoldable pub heap_heapify_down : List LineVec → List HeapEntry → ℕ → ℕ → Option (List HeapEntry)
unfolding down_loop smallest_of less_at swap
heap_heapify_down batches heap idx size = down_loop (suc size) batches heap idx size

-- The array and `*size` after the call.
unfoldable pub heap_push :
    List HeapEntry → ℕ → HeapEntry → List LineVec → Option (List HeapEntry × ℕ)
heap_push heap size entry batches =
    if ltb size (length heap)
    then (do h ← heap_heapify_up batches (set heap size entry) size; some (h, size + 1))
    else none

-- `none` in the first component is the result `false`; `some out` is `true` with `*out`.
unfoldable pub heap_pop :
    List HeapEntry → ℕ → List LineVec → Option (Option HeapEntry × List HeapEntry × ℕ)
heap_pop heap size batches = if size == 0 then some (none, heap, size) else (do
  out ← get_elem? heap 0
  last ← get_elem? heap (size - 1)
  h ← heap_heapify_down batches (set heap 0 last) 0 (size - 1)
  some (some out, h, size - 1))
