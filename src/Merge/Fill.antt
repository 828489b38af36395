-- ===== src/Merge/Fill.antt =====
-- Collecting the batches and filling the heap.
use mathlib.Core.List.Perm
use mathlib.Core.List.{perm_append_comm}
use native.Mathlib.Numerals.{add-one}
use tsag.Base.{
  ℕ, zero, suc, ◌+◌, ◌≤◌, ◌<◌, ◌≡◌, refl, sym, ap, ◌∙◌, true, arith, List, [], ◌∷◌, ◌++◌, some,
  Bytes, Perm, length, get_elem?, get_or, drop, take, lt→ltb, append_assoc, append-nil,
  length-append, drop-cons, drop_end, get_elem?-eq-get_or, le→ltb, ◌⊎◌, inl, inr,
}
use tsag.LineVec.{LineVec, len}
use tsag.Heap.{HeapEntry, heap_push}
use tsag.Heap.Live.{in_batch, no_vec}
use tsag.Heap.Laws.{IsHeap, heap_push-IsPushed}
use tsag.Merge.{collect, populate, all_lines}
use tsag.Merge.Rest.{rest_of, rests, rests-perm}

-- With room for all of them, the batches are collected in the order of receipt.
pub collect-some :
    (n : ℕ) (received batches : List LineVec)
    → length batches + length received ≤ n
    → collect n received batches ≡ some (batches ++ received)
unfolding collect
collect-some n [] batches h = ap some (sym (append-nil batches))
collect-some n (vec ∷ received) batches h =
    let size = length-append batches (vec ∷ []) in
    rw (
      lt→ltb (length batches) n (omega arith),
      collect-some n received (batches ++ vec ∷ []) (omega arith),
      append_assoc,
    )

regroup : (x y z : List Bytes) → Perm ((x ++ y) ++ z) (y ++ (x ++ z))
regroup x y z = rw (← append_assoc y x z) (Perm.append_right z (perm_append_comm x y))

list_cases : (xs : List Bytes) → (xs ≡ []) ⊎ (0 < length xs)
list_cases [] = inl refl
list_cases (x ∷ xs) = inr (omega arith)

module _ (batches : List LineVec) where
  -- A heap in `s` with room for the batches from `i` on, whose entries stand for `lines`.
  pub record Holds (s : List HeapEntry × ℕ) (lines : List Bytes) : Type 0 where
    pub valid : IsHeap batches s.0 s.1
    pub same : Perm (rests batches (take s.1 s.0)) lines

  abbrev start : ℕ → HeapEntry
  start i = record { batch = i; idx = 0 }

  start-in_batch :
      (i : ℕ)
      → i < length batches
      → 0 < len (get_or batches i no_vec)
      → in_batch batches (start i) ≡ true
  unfolding in_batch
  start-in_batch i lt pos = ground arith

  -- One `heap_push` of a position inside its batch.
  pub push-Holds :
      (heap : List HeapEntry) (size : ℕ) (e : HeapEntry) (lines : List Bytes)
      → size < length heap
      → in_batch batches e ≡ true
      → Holds (heap, size) lines
      → (h : List HeapEntry) × (heap_push heap size e batches ≡ some (h, size + 1))
        × Holds (h, size + 1) (rest_of batches e ++ lines)
        × (length h ≡ length heap)
  push-Holds heap size e lines lt inside held =
      let (h, eq, s) = heap_push-IsPushed batches heap size e lt held.valid inside in
      (
        h,
        eq,
        record {
          valid = s.valid;
          same =
              Perm.trans (rests-perm batches s.same)
                (unfold rests in Perm.append_left (rest_of batches e) held.same);
        },
        s.room,
      )

  pub Holds-perm :
      {s : List HeapEntry × ℕ} {xs ys : List Bytes} → Perm xs ys → Holds s xs → Holds s ys
  Holds-perm p held = record { valid = held.valid; same = Perm.trans held.same p }

  -- One round of the loop, on an empty batch and on any other.
  populate-skip :
      (rounds i : ℕ) (s : List HeapEntry × ℕ) (vec : LineVec)
      → get_elem? batches i ≡ some vec
      → len vec ≡ 0
      → populate (suc rounds) i batches s ≡ populate rounds (i + 1) batches s
  unfolding populate
  populate-skip rounds i (heap, size) vec e z = rw (e, le→ltb 0 (len vec) (omega arith))

  populate-push :
      (rounds i : ℕ) (heap : List HeapEntry) (size : ℕ) (s : List HeapEntry × ℕ) (vec : LineVec)
      → get_elem? batches i ≡ some vec
      → 0 < len vec
      → heap_push heap size (start i) batches ≡ some s
      → populate (suc rounds) i batches (heap, size) ≡ populate rounds (i + 1) batches s
  unfolding populate
  populate-push rounds i heap size s vec e pos p = rw (e, lt→ltb 0 (len vec) pos, p)

  lines_from :
      (i : ℕ)
      → i < length batches
      → all_lines (drop i batches)
        ≡ (get_or batches i no_vec).items ++ all_lines (drop (i + 1) batches)
  unfolding all_lines
  lines_from i lt = rw (drop-cons i batches no_vec lt, add-one)

  start-perm :
      (i : ℕ) (lines later : List Bytes)
      → Perm
          ((rest_of batches (start i) ++ lines) ++ later)
          (lines ++ ((get_or batches i no_vec).items ++ later))
  unfolding rest_of
  start-perm i lines later = regroup (get_or batches i no_vec).items lines later

  pub populate-Holds :
      (rounds i : ℕ) (heap : List HeapEntry) (size : ℕ) (lines : List Bytes)
      → i + rounds ≡ length batches
      → size + rounds ≤ length heap
      → Holds (heap, size) lines
      → (s : List HeapEntry × ℕ) × (populate rounds i batches (heap, size) ≡ some s)
        × Holds s (lines ++ all_lines (drop i batches))
  populate-Holds zero i heap size lines e room held = (
    (heap, size),
    unfold populate in refl,
    unfold all_lines in rw (drop_end i batches (omega arith), append-nil) held,
  )
  populate-Holds (suc rounds) i heap size lines e room held =
      let vec = get_or batches i no_vec in
      let later = all_lines (drop (i + 1) batches) in
      let found = get_elem?-eq-get_or batches i no_vec (omega arith) in
      rw (lines_from i (omega arith)) (elim (list_cases vec.items) [
        | inl none_left ↦
            let (s, eq, held') =
              populate-Holds rounds (i + 1) heap size lines (omega arith) (omega arith) held in
            let skip = populate-skip rounds i (heap, size) vec found (ap length none_left) in
            (s, skip ∙ eq, rw none_left held')
        | inr some_left ↦
            let (h, pushed, held', room') =
              push-Holds heap size (start i) lines (omega arith)
                (start-in_batch i (omega arith) some_left) held in
            let (s, eq, held'') =
              populate-Holds rounds (i + 1) h (size + 1) (rest_of batches (start i) ++ lines)
                (omega arith) (omega arith) held' in
            let step = populate-push rounds i heap size (h, size + 1) vec found some_left pushed in
            (s, step ∙ eq, Holds-perm (start-perm i lines later) held'')
      ])
