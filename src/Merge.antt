-- ===== src/Merge.antt =====
-- src/merge.h and src/merge.c: the merge thread collects the workers' batches, fills a heap with
-- the first line of each, and writes the lines in order.
pub mod Rest
mod Fill
mod Drain
pub mod Laws
mod Tests
use tsag.Base.{
  ℕ, zero, suc, ◌+◌, true, false, List, [], ◌∷◌, ◌++◌, Option, none, some, ◌>>=◌, Bytes, length,
  get_elem?, replicate, ltb, if◌then◌else◌,
}
use tsag.LineVec.{LineVec, len, line_vec_free}
use tsag.Heap.{HeapEntry, line_at, heap_push, heap_pop}

-- `received` is what `io_queue_get` returns up to the first NULL. `batches[a->n]` has `n` slots:
-- a write past the end is the `none`.
pub collect : ℕ → List LineVec → List LineVec → Option (List LineVec)
collect n [] batches = some batches
collect n (vec ∷ received) batches =
    let rest = collect n received (batches ++ vec ∷ []) in
    if ltb (length batches) n then rest else none

-- The heap's array and `heap_size`.
abbrev pub Slots : Type 0
Slots = List HeapEntry × ℕ

-- `rounds` rounds of the loop that fills the heap, from batch `i` on.
pub populate : ℕ → ℕ → List LineVec → Slots → Option Slots
populate zero i batches s = some s
populate (suc rounds) i batches (heap, size) = do
  vec ← get_elem? batches i
  s ←
      if ltb 0 (len vec)
      then heap_push heap size (record { batch = i; idx = 0 }) batches
      else some (heap, size)
  populate rounds (i + 1) batches s

-- After a line is written: the next line of its batch enters the heap, if there is one.
pub advance : List LineVec → HeapEntry → Slots → Option Slots
advance batches entry (heap, size) = do
  vec ← get_elem? batches entry.batch
  if ltb (entry.idx + 1) (len vec)
      then heap_push heap size (record entry { idx = entry.idx + 1 }) batches
      else some (heap, size)

-- `out` is what `fputs` has written so far.
pub drain_loop : ℕ → List LineVec → Slots → List Bytes → Option (List Bytes)
drain_loop zero batches s out = none
drain_loop (suc fuel) batches (heap, size) out = heap_pop heap size batches >>= λ (popped, h, m).
    elim popped [
      | none ↦ some out
      | some entry ↦ do
        line ← line_at batches entry
        s ← advance batches entry (h, m)
        drain_loop fuel batches s (out ++ line ∷ [])
    ]

unfoldable pub all_lines : List LineVec → List Bytes
all_lines [] = []
all_lines (vec ∷ batches) = vec.items ++ all_lines batches

pub free_all : List LineVec → List Bytes
free_all [] = []
free_all (vec ∷ batches) = line_vec_free vec ++ free_all batches

pub record Merged : Type 0 where
  pub written : List Bytes
  pub freed : List Bytes

-- The slots of `heap[a->n]` are uninitialised; an entry of batch 0 stands in for what they hold.
-- Each round of the last loop writes a line, so one round more than there are lines is enough.
pub merge : ℕ → List LineVec → Option Merged
merge n received = do
  batches ← collect n received []
  s ← populate (length batches) 0 batches (replicate n (record { batch = 0; idx = 0 }), 0)
  written ← drain_loop (suc (length (all_lines batches))) batches s []
  some (record { written = written; freed = free_all batches })
