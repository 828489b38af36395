-- ===== src/Heap/Live.antt =====
-- The live part of the heap's array: every entry is a position inside its batch, so that the reads
-- of heap.c succeed. `line` is the line at an entry, and `key` the line at an index of the array.
use tsag.Base.{
  ℕ, ◌+◌, ◌*◌, ◌≤◌, ◌<◌, ◌≡◌, Bool, true, ◌&&◌, arith, List, [], some, ◌>>=◌, Bytes, length, get_or,
  take, ltb, if◌then◌else◌, str_lt, All, Perm, get_elem?-eq-get_or, get_or-take, All-get_or,
  length-take, dec_lt, lt→ltb, le→ltb,
}
use mathlib.Core.List.Perm
use tsag.Base.Perms.{
  exchange, get_or-exchange, length-exchange, perm-exchange, take-exchange, All-perm,
}
use tsag.LineVec.{LineVec, len}
use tsag.Heap.{HeapEntry, line_at, heap_less, less_at, swap, smallest_of}
use tsag.Heap.Order.{smaller, Exchanged}

abbrev pub no_vec : LineVec
no_vec = record { items = []; cap = 0 }

abbrev pub no_entry : HeapEntry
no_entry = record { batch = 0; idx = 0 }

module _ (batches : List LineVec) where
  unfoldable pub in_batch : HeapEntry → Bool
  in_batch e = ltb e.batch (length batches) && ltb e.idx (len (get_or batches e.batch no_vec))

  unfoldable pub line : HeapEntry → Bytes
  line e = get_or (get_or batches e.batch no_vec).items e.idx []

  abbrev pub key : List HeapEntry → ℕ → Bytes
  key heap i = line (get_or heap i no_entry)

  -- The first `n` slots hold positions inside the batches.
  pub record IsLive (heap : List HeapEntry) (n : ℕ) : Type 0 where
    pub room : n ≤ length heap
    pub inside : All (λ e. in_batch e ≡ true) (take n heap)

  pub line_at-line : (e : HeapEntry) → in_batch e ≡ true → line_at batches e ≡ some (line e)
  unfolding line_at line in_batch
  line_at-line e h = ground (
    arith,
    get_elem?-eq-get_or batches e.batch no_vec,
    get_elem?-eq-get_or (get_or batches e.batch no_vec).items e.idx [],
  )

  module _ (heap : List HeapEntry) (n : ℕ) (live : IsLive heap n) where
    pub in_batch-get_or : (i : ℕ) → i < n → in_batch (get_or heap i no_entry) ≡ true
    in_batch-get_or i lt = rw (get_or-take n heap i no_entry lt) at (
        All-get_or (λ e. in_batch e ≡ true) (take n heap) i no_entry live.inside
          (omega (arith, length-take n heap, live.room)))

    pub less_at-key :
        (i j : ℕ)
        → i < n
        → j < n
        → less_at batches heap i j ≡ some (str_lt (key heap i) (key heap j))
    unfolding less_at heap_less
    less_at-key i j hi hj =
        let room = live.room in
        rw (
          get_elem?-eq-get_or heap i no_entry (omega arith),
          get_elem?-eq-get_or heap j no_entry (omega arith),
          line_at-line (get_or heap i no_entry) (in_batch-get_or i hi),
          line_at-line (get_or heap j no_entry) (in_batch-get_or j hj),
        )

    pub swap-exchange :
        (i j : ℕ) → i < n → j < n → swap heap i j ≡ some (exchange heap j i no_entry)
    unfolding swap
    swap-exchange i j hi hj =
        let room = live.room in
        rw (
          get_elem?-eq-get_or heap i no_entry (omega arith),
          get_elem?-eq-get_or heap j no_entry (omega arith),
        )

    pub key-exchange :
        (i j : ℕ) → i < n → j < n → Exchanged n (key heap) (key (exchange heap i j no_entry)) i j
    key-exchange i j hi hj c =
        let room = live.room in
        ground (arith, get_or-exchange heap i j no_entry (omega arith) (omega arith) c)

    pub take-perm :
        (i j : ℕ) → i < n → j < n → Perm (take n (exchange heap i j no_entry)) (take n heap)
    take-perm i j hi hj =
        let room = live.room in
        let size = length-take n heap in
        rw (take-exchange n heap i j no_entry hi hj)
          (perm-exchange (take n heap) i j no_entry (omega arith) (omega arith))

    -- One of the two tests of a call of `heap_heapify_down`.
    test-smaller :
        (c s : ℕ)
        → s < n
        → (if ltb c n
            then (less_at batches heap c s >>= λ below. some (if below then c else s))
            else some s)
          ≡ some (smaller (key heap) n c s)
    test-smaller c s lt = elim (dec_lt c n) [
      | yes p ↦ rw (lt→ltb c n p, less_at-key c s p lt)
      | no p ↦ rw (le→ltb c n (omega arith))
    ]

    smaller-lt : (c s : ℕ) → s < n → smaller (key heap) n c s < n
    smaller-lt c s lt = ground arith

    pub smallest_of-smaller :
        (i : ℕ)
        → i < n
        → smallest_of batches heap i n
          ≡ some (smaller (key heap) n (i * 2 + 2) (smaller (key heap) n (i * 2 + 1) i))
    unfolding smallest_of
    smallest_of-smaller i lt = rw (
      test-smaller (i * 2 + 1) i lt,
      test-smaller (i * 2 + 2) (smaller (key heap) n (i * 2 + 1) i) (smaller-lt (i * 2 + 1) i lt),
    )

  -- An exchange of two live slots keeps the array live.
  pub exchange-IsLive :
      (heap : List HeapEntry) (n i j : ℕ)
      → IsLive heap n
      → i < n
      → j < n
      → IsLive (exchange heap i j no_entry) n
  exchange-IsLive heap n i j live hi hj = record {
    room = rw (length-exchange heap i j no_entry) live.room;
    inside = All-perm in_batch (Perm.symm (take-perm heap n live i j hi hj)) live.inside;
  }
