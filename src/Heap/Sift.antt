-- ===== src/Heap/Sift.antt =====
-- The sift loops of heap.c return, restore the order and only permute the live part.
use mathlib.Core.List.Perm
use tsag.Base.{
  ℕ, zero, suc, ◌+◌, ◌*◌, ◌<◌, ◌≡◌, ◌≢◌, refl, ◌∙◌, true, false, arith, List, Option, some, length,
  take, str_lt, Perm, Bool-cases, inl, inr, ap, subst, ℕ_discrete,
}
use tsag.Base.Perms.{exchange, length-exchange}
use tsag.LineVec.{LineVec}
use tsag.Heap.{
  HeapEntry, swap, less_at, smallest_of, up_loop, down_loop, heap_heapify_up, heap_heapify_down,
}
use tsag.Heap.Order.{
  parent, IsOrdered, IsOrderedAbove, IsOrderedBelow, rise, risen, risen_root, IsSmallest, smaller,
  smaller_two, sink, sunk,
}
use tsag.Heap.Live.{
  IsLive, key, no_entry, less_at-key, swap-exchange, key-exchange, take-perm, smallest_of-smaller,
  exchange-IsLive,
}

module _ (batches : List LineVec) where
  -- `h` is an ordered array of `n` live entries, those of `heap`.
  pub record IsSifted (n : ℕ) (heap h : List HeapEntry) : Type 0 where
    pub live : IsLive batches h n
    pub ordered : IsOrdered n (key batches h)
    pub same : Perm (take n h) (take n heap)
    pub size : length h ≡ length heap

  -- The call returns, with a sifted array.
  abbrev pub Sifts : ℕ → List HeapEntry → Option (List HeapEntry) → Type 0
  Sifts n heap r = (h : List HeapEntry) × (r ≡ some h) × IsSifted n heap h

  Sifts-exchange :
      {n i j : ℕ} {heap : List HeapEntry} {r : Option (List HeapEntry)}
      → IsLive batches heap n
      → i < n
      → j < n
      → Sifts n (exchange heap i j no_entry) r
      → Sifts n heap r
  Sifts-exchange {n} {i} {j} {heap} live hi hj (h, e, s) = (
    h,
    e,
    record {
      live = s.live;
      ordered = s.ordered;
      same = Perm.trans s.same (take-perm batches heap n live i j hi hj);
      size = s.size ∙ length-exchange heap i j no_entry;
    },
  )

  stay :
      {n : ℕ} {heap : List HeapEntry}
      → IsLive batches heap n
      → IsOrdered n (key batches heap)
      → Sifts n heap (some heap)
  stay {heap} live ord =
      (heap, refl, record { live = live; ordered = ord; same = Perm.rfl; size = refl })

  -- One call of the upward sift.
  up_loop-stop :
      (fuel : ℕ) (heap : List HeapEntry) (i : ℕ)
      → less_at batches heap i (parent i) ≡ some false
      → up_loop (suc fuel) batches heap i ≡ some heap
  unfolding up_loop
  up_loop-stop fuel heap i e = ground arith

  up_loop-rise :
      (fuel : ℕ) (heap h : List HeapEntry) (i : ℕ)
      → 0 < i
      → less_at batches heap i (parent i) ≡ some true
      → swap heap i (parent i) ≡ some h
      → up_loop (suc fuel) batches heap i ≡ up_loop fuel batches h (parent i)
  unfolding up_loop
  up_loop-rise fuel heap h i pos e e' = ground arith

  up_loop-Sifts :
      (fuel n : ℕ) (heap : List HeapEntry) (i : ℕ)
      → i < fuel
      → i < n
      → IsLive batches heap n
      → IsOrderedAbove n (key batches heap) i
      → Sifts n heap (up_loop fuel batches heap i)
  up_loop-Sifts zero n heap i f lt live inv = elim f [ ]
  up_loop-Sifts (suc fuel) n heap zero f lt live inv =
      unfold up_loop in stay live (risen_root n (key batches heap) inv)
  up_loop-Sifts (suc fuel) n heap (suc i) f lt live inv =
      let k = key batches heap in
      let p = parent (suc i) in
      let lp : p < n = omega arith in
      let h = exchange heap p (suc i) no_entry in
      let less = less_at-key batches heap n live (suc i) p lt lp in
      elim (Bool-cases (str_lt (k (suc i)) (k p))) [
        | inl below ↦
            let moved = swap-exchange batches heap n live (suc i) p lt lp in
            let inv' =
              rise n k (key batches h) (suc i) (key-exchange batches heap n live p (suc i) lp lt)
                (omega arith) lt below inv in
            let live' = exchange-IsLive batches heap n p (suc i) live lp lt in
            rw (up_loop-rise fuel heap h (suc i) (omega arith) (less ∙ ap some below) moved)
              (Sifts-exchange live lp lt (up_loop-Sifts fuel n h p (omega arith) lp live' inv'))
        | inr above ↦
            rw (up_loop-stop fuel heap (suc i) (less ∙ ap some above))
              (stay live (risen n k (suc i) above inv))
      ]

  pub heapify_up-Sifts :
      (n : ℕ) (heap : List HeapEntry) (i : ℕ)
      → i < n
      → IsLive batches heap n
      → IsOrderedAbove n (key batches heap) i
      → Sifts n heap (heap_heapify_up batches heap i)
  unfolding heap_heapify_up
  heapify_up-Sifts n heap i lt live inv = up_loop-Sifts (suc i) n heap i (omega arith) lt live inv

  -- One call of the downward sift.
  down_loop-stop :
      (fuel : ℕ) (heap : List HeapEntry) (i n : ℕ)
      → smallest_of batches heap i n ≡ some i
      → down_loop (suc fuel) batches heap i n ≡ some heap
  unfolding down_loop
  down_loop-stop fuel heap i n e = ground arith

  down_loop-sink :
      (fuel : ℕ) (heap h : List HeapEntry) (i s n : ℕ)
      → s ≢ i
      → smallest_of batches heap i n ≡ some s
      → swap heap i s ≡ some h
      → down_loop (suc fuel) batches heap i n ≡ down_loop fuel batches h s n
  unfolding down_loop
  down_loop-sink fuel heap h i s n ne e e' = ground arith

  down_loop-Sifts :
      (fuel n : ℕ) (heap : List HeapEntry) (i : ℕ)
      → n < fuel + i
      → i < n
      → IsLive batches heap n
      → IsOrderedBelow n (key batches heap) i
      → Sifts n heap (down_loop fuel batches heap i n)
  down_loop-Sifts zero n heap i f lt live inv = absurd (omega arith)
  down_loop-Sifts (suc fuel) n heap i f lt live inv =
      let k = key batches heap in
      let s = smaller k n (i * 2 + 2) (smaller k n (i * 2 + 1) i) in
      let found = smallest_of-smaller batches heap n live i lt in
      let small = smaller_two n k i in
      elim (ℕ_discrete s i) [
        | yes e ↦
            rw (down_loop-stop fuel heap i n (found ∙ ap some e))
              (stay live (sunk n k i (subst (IsSmallest n k i) e small) inv))
        | no ne ↦
            let (_, far, ls) = small.child ne in
            let h = exchange heap s i no_entry in
            let moved = swap-exchange batches heap n live i s lt ls in
            let inv' =
              sink n k (key batches h) i s (key-exchange batches heap n live s i ls lt) ne small
                inv in
            let live' = exchange-IsLive batches heap n s i live ls lt in
            rw (down_loop-sink fuel heap h i s n ne found moved)
              (Sifts-exchange live ls lt (down_loop-Sifts fuel n h s (omega arith) ls live' inv'))
      ]

  pub heapify_down-Sifts :
      (n : ℕ) (heap : List HeapEntry)
      → 0 < n
      → IsLive batches heap n
      → IsOrderedBelow n (key batches heap) 0
      → Sifts n heap (heap_heapify_down batches heap 0 n)
  unfolding heap_heapify_down
  heapify_down-Sifts n heap pos live inv =
      down_loop-Sifts (suc n) n heap 0 (omega arith) pos live inv

  -- An empty heap has nothing to sift.
  pub heapify_down-empty : (heap : List HeapEntry) → heap_heapify_down batches heap 0 0 ≡ some heap
  unfolding heap_heapify_down down_loop smallest_of
  heapify_down-empty heap = refl
