-- ===== src/Merge/Drain.antt =====
-- The loop that writes the lines: it ends, and writes what the heap stands for in ascending order.
use mathlib.Core.List.Perm
use tsag.Base.{
  ℕ, zero, suc, ◌+◌, ◌≤◌, ◌<◌, ◌≡◌, refl, sym, ap, ◌∙◌, true, arith, List, [], ◌∷◌, ◌++◌, Option,
  some, Bytes, Perm, length, get_elem?, get_or, take, lt→ltb, append_assoc, append-nil, drop_end,
  get_elem?-eq-get_or, le→ltb, dec_lt, str_le,
}
use tsag.Base.Perms.{All-perm, perm-length}
use tsag.LineVec.{LineVec, len}
use tsag.LineVec.Sort.{IsSorted}
use tsag.Heap.{HeapEntry, heap_pop, line_at}
use tsag.Heap.Live.{in_batch, line, no_vec, no_entry, line_at-line, in_batch-get_or}
use tsag.Heap.Laws.{IsHeap, heap_pop-IsPopped}
use tsag.Merge.{advance, drain_loop, Slots}
use tsag.Merge.Rest.{AreSorted, next, rest_of, rests, rests-perm, rest_of-next, rests-AllAbove}
use tsag.Merge.Fill.{Holds, push-Holds}

module _ (batches : List LineVec) where
  batch_found :
      (e : HeapEntry)
      → in_batch batches e ≡ true
      → (get_elem? batches e.batch ≡ some (get_or batches e.batch no_vec))
  unfolding in_batch
  batch_found e h = get_elem?-eq-get_or batches e.batch no_vec (ground arith)

  next-in_batch :
      (e : HeapEntry)
      → in_batch batches e ≡ true
      → e.idx + 1 < len (get_or batches e.batch no_vec)
      → in_batch batches (next batches e) ≡ true
  unfolding in_batch
  next-in_batch e h lt = ground arith

  rest_of-end :
      (e : HeapEntry)
      → len (get_or batches e.batch no_vec) ≤ e.idx + 1
      → rest_of batches (next batches e) ≡ []
  unfolding rest_of
  rest_of-end e le = drop_end (e.idx + 1) (get_or batches e.batch no_vec).items le

  -- After a line is written its batch is advanced: the heap stands for the lines that are left.
  advance-Holds :
      (h : List HeapEntry) (m : ℕ) (e : HeapEntry)
      → m < length h
      → in_batch batches e ≡ true
      → IsHeap batches h m
      → (s : Slots) × (advance batches e (h, m) ≡ some s)
        × Holds batches s (rest_of batches (next batches e) ++ rests batches (take m h))
  unfolding advance
  advance-Holds h m e lt inside valid =
      let vec = get_or batches e.batch no_vec in
      let held : Holds batches (h, m) (rests batches (take m h)) = record {
        valid = valid;
        same = Perm.rfl;
      } in
      rw (batch_found e inside) (elim (dec_lt (e.idx + 1) (len vec)) [
        | yes more ↦
            let (h', pushed, held', _) =
              push-Holds batches h m (next batches e) (rests batches (take m h)) lt
                (next-in_batch e inside more) held in
            ((h', m + 1), rw (lt→ltb (e.idx + 1) (len vec) more) pushed, held')
        | no last ↦ (
          (h, m),
          rw (le→ltb (e.idx + 1) (len vec) (omega arith)),
          rw (rest_of-end e (omega arith)) held,
        )
      ])

  drain-end :
      (fuel : ℕ) (heap : List HeapEntry) (out : List Bytes)
      → drain_loop (suc fuel) batches (heap, 0) out ≡ some out
  unfolding drain_loop heap_pop
  drain-end fuel heap out = refl

  drain-step :
      (fuel : ℕ) (heap h : List HeapEntry) (size m : ℕ) (e : HeapEntry) (l : Bytes) (s : Slots)
      (out : List Bytes)
      → heap_pop heap size batches ≡ some (some e, h, m)
      → line_at batches e ≡ some l
      → advance batches e (h, m) ≡ some s
      → drain_loop (suc fuel) batches (heap, size) out ≡ drain_loop fuel batches s (out ++ l ∷ [])
  unfolding drain_loop
  drain-step fuel heap h size m e l s out popped read moved = rw (popped, read, moved)

  -- What the loop appends to `out`.
  abbrev pub Drains : List Bytes → List Bytes → Option (List Bytes) → Type 0
  Drains lines out r =
      (outs : List Bytes) × (r ≡ some (out ++ outs)) × Perm outs lines × IsSorted outs

  -- The line of the popped entry and what is left make up what there was.
  popped-perm :
      (heap h : List HeapEntry) (m : ℕ) (e : HeapEntry) (lines : List Bytes)
      → in_batch batches e ≡ true
      → Perm (e ∷ take m h) (take (suc m) heap)
      → Perm (rests batches (take (suc m) heap)) lines
      → Perm (line batches e ∷ (rest_of batches (next batches e) ++ rests batches (take m h))) lines
  unfolding rests
  popped-perm heap h m e lines inside same held =
      Perm.trans (rw (rest_of-next batches e inside) at (rests-perm batches same)) held

  pub drain_loop-Drains :
      (fuel : ℕ) (heap : List HeapEntry) (size : ℕ) (lines out : List Bytes)
      → length lines < fuel
      → AreSorted batches
      → Holds batches (heap, size) lines
      → Drains lines out (drain_loop fuel batches (heap, size) out)
  drain_loop-Drains zero heap size lines out f sorted held = elim f [ ]
  drain_loop-Drains (suc fuel) heap zero lines out f sorted held =
      ([], drain-end fuel heap out ∙ ap some (sym (append-nil out)), unfold rests in held.same, tt)
  drain_loop-Drains (suc fuel) heap (suc m) lines out f sorted held =
      let (h, popped, s) = heap_pop-IsPopped batches heap m held.valid in
      let e = get_or heap 0 no_entry in
      let l = line batches e in
      let inside = in_batch-get_or batches heap (suc m) held.valid.live 0 (omega arith) in
      let room : m < length h = let r = held.valid.live.room in omega (arith, s.room) in
      let (s', moved, held') = advance-Holds h m e room inside s.valid in
      let left = rest_of batches (next batches e) ++ rests batches (take m h) in
      let same : Perm (l ∷ left) lines = popped-perm heap h m e lines inside s.same held.same in
      let (outs, eq, perm, asc) =
        drain_loop-Drains fuel s'.0 s'.1 left (out ++ l ∷ []) (omega (arith, perm-length same))
          sorted held' in
      let above =
        rests-AllAbove batches l (take (suc m) heap) sorted held.valid.live.inside s.least in
      let above' = (All-perm (str_le l) (Perm.trans held.same (Perm.symm same)) above).1 in
      (
        l ∷ outs,
        drain-step fuel heap h (suc m) m e l s' out popped (line_at-line batches e inside) moved
            ∙ eq
            ∙ ap some (append_assoc out (l ∷ []) outs),
        Perm.trans (Perm.cons l perm) same,
        (All-perm (str_le l) (Perm.symm perm) above', asc),
      )
