-- ===== src/Heap/Laws.antt =====
-- `heap_push` and `heap_pop` on a heap whose entries are positions inside the batches.
use mathlib.Core.List.Perm
use tsag.Base.{
  ℕ, zero, suc, ◌+◌, ◌≤◌, ◌<◌, ◌≡◌, refl, sym, ◌∙◌, true, arith, List, [], ◌∷◌, ◌++◌, some, Perm,
  length, get_or, set, take, All, All-append, All-of_get_or, get_or-set, get_or-take,
  get_elem?-eq-get_or, length-set, length-take, take-suc, take-set, take-set_end, str_le, lt→ltb,
  ap, ℕ_discrete, subst,
}
use tsag.Base.Perms.{perm-set, perm-snoc, All-perm}
use native.Mathlib.Numerals.{add-one}
use tsag.LineVec.{LineVec}
use tsag.Heap.{HeapEntry, heap_push, heap_pop, heap_heapify_down}
use tsag.Heap.Order.{IsOrdered, IsOrderedAbove, IsOrderedBelow, root_least, parent}
use tsag.Heap.Live.{IsLive, key, line, no_entry, in_batch}
use tsag.Heap.Sift.{Sifts, heapify_up-Sifts, heapify_down-Sifts, heapify_down-empty}

-- Moving the last of `m + 1` live slots to the front takes the first one out.
root_leaves {ℓ} :
    {A : Type ℓ} (m : ℕ) (xs : List A) (d : A)
    → suc m ≤ length xs
    → Perm (get_or xs 0 d ∷ take m (set xs 0 (get_or xs m d))) (take (suc m) xs)
root_leaves zero xs d h = rw (take-suc 0 xs d h) Perm.rfl
root_leaves (suc k) xs d h =
    let size = length-take (suc k) xs in
    let front = perm-set (take (suc k) xs) 0 (get_or xs (suc k) d) d (omega arith) in
    rw (take-set, take-suc (suc k) xs d h)
      (Perm.trans (rw (get_or-take (suc k) xs 0 d (omega arith)) at front)
        (Perm.symm (perm-snoc (take (suc k) xs) (get_or xs (suc k) d))))

module _ (batches : List LineVec) where
  -- `size` live entries in heap order.
  pub record IsHeap (heap : List HeapEntry) (size : ℕ) : Type 0 where
    pub live : IsLive batches heap size
    pub ordered : IsOrdered size (key batches heap)

  -- What `heap_push` leaves: the entries of `heap` and the new one.
  pub record IsPushed (heap : List HeapEntry) (size : ℕ) (e : HeapEntry) (h : List HeapEntry)
      : Type 0 where
    pub valid : IsHeap h (size + 1)
    pub same : Perm (take (size + 1) h) (e ∷ take size heap)
    pub room : length h ≡ length heap

  -- What `heap_pop` returns and leaves of `m + 1` entries: a least entry, and the `m` others.
  pub record IsPopped (heap : List HeapEntry) (m : ℕ) (e : HeapEntry) (h : List HeapEntry)
      : Type 0 where
    pub valid : IsHeap h m
    pub same : Perm (e ∷ take m h) (take (suc m) heap)
    pub least : All (λ x. str_le (line batches e) (line batches x) ≡ true) (take (suc m) heap)
    pub room : length h ≡ length heap

  module _ (heap : List HeapEntry) (size : ℕ) (e : HeapEntry) (lt : size < length heap) where
    abbrev placed : List HeapEntry
    placed = set heap size e

    take-placed : take (suc size) placed ≡ take size heap ++ e ∷ []
    take-placed =
        let new : get_or placed size no_entry ≡ e =
          ground (arith, get_or-set heap size size e no_entry) in
        take-suc size placed no_entry (rw length-set lt)
        ∙ ap (λ x. take size placed ++ x ∷ []) new
        ∙ ap (λ xs. xs ++ e ∷ []) (take-set_end size heap e)

    placed-IsLive :
        IsLive batches heap size → in_batch batches e ≡ true → IsLive batches placed (suc size)
    placed-IsLive live h = record {
      room = rw length-set lt;
      inside = rw take-placed (All-append _ (take size heap) (e ∷ []) live.inside (h, tt));
    }

    placed-IsOrderedAbove :
        IsOrdered size (key batches heap) → IsOrderedAbove (suc size) (key batches placed) size
    placed-IsOrderedAbove ord = record {
      edges = λ c p q ne. ground (
        arith,
        ord c,
        get_or-set heap size c e no_entry lt,
        get_or-set heap size (parent c) e no_entry lt,
      );
      bridge = λ c p q up pos. absurd (omega arith);
    }

    -- In a heap whose array has room, `heap_push` returns, and leaves a heap of the entries that
    -- were there and the new one, in an array of the same length.
    pub heap_push-IsPushed :
        IsHeap heap size
        → in_batch batches e ≡ true
        → (h : List HeapEntry) × (heap_push heap size e batches ≡ some (h, size + 1))
          × IsPushed heap size e h
    unfolding heap_push
    heap_push-IsPushed valid inside =
        let (h, e', s) =
          heapify_up-Sifts batches (suc size) placed size (omega arith)
            (placed-IsLive valid.live inside) (placed-IsOrderedAbove valid.ordered) in
        (
          h,
          rw (lt→ltb size (length heap) lt, e'),
          record {
            valid = rw add-one (record { live = s.live; ordered = s.ordered });
            same =
                rw add-one (Perm.trans (rw take-placed at s.same) (perm-snoc (take size heap) e));
            room = s.size ∙ length-set heap size e;
          },
        )

  module _ (heap : List HeapEntry) (m : ℕ) (valid : IsHeap heap (suc m)) where
    abbrev top : HeapEntry
    top = get_or heap 0 no_entry

    abbrev last : HeapEntry
    last = get_or heap m no_entry

    abbrev moved : List HeapEntry
    moved = set heap 0 last

    -- The root leaves, and the last entry takes its place.
    moved-perm : Perm (top ∷ take m moved) (take (suc m) heap)
    moved-perm = root_leaves m heap no_entry valid.live.room

    top_least : All (λ x. str_le (line batches top) (line batches x) ≡ true) (take (suc m) heap)
    top_least =
        let room = valid.live.room in
        All-of_get_or _ (take (suc m) heap) no_entry λ i lt.
          let below : i < suc m = omega (arith, length-take (suc m) heap) in
          rw (get_or-take (suc m) heap i no_entry below)
            (root_least (suc m) (key batches heap) i valid.ordered below)

    moved-IsLive : IsLive batches moved m
    moved-IsLive = record {
      room = let room = valid.live.room in rw length-set (omega arith);
      inside = (All-perm (in_batch batches) (Perm.symm moved-perm) valid.live.inside).1;
    }

    moved-IsOrderedBelow : IsOrderedBelow m (key batches moved) 0
    moved-IsOrderedBelow =
        let room = valid.live.room in
        record {
          edges = λ c p q ne. ground (
            arith,
            valid.ordered c,
            get_or-set heap 0 c last no_entry,
            get_or-set heap 0 (parent c) last no_entry,
          );
          bridge = λ c p q up pos. elim pos [ ];
        }

    moved-Sifts : Sifts batches m moved (heap_heapify_down batches moved 0 m)
    moved-Sifts = elim (ℕ_discrete m 0) [
      | yes e ↦
          subst (λ k. Sifts batches k moved (heap_heapify_down batches moved 0 k)) (sym e)
            (
              moved,
              heapify_down-empty batches moved,
              record {
                live = subst (IsLive batches moved) e moved-IsLive;
                ordered = λ c p q. elim q [ ];
                same = Perm.rfl;
                size = refl;
              },
            )
      | no ne ↦ heapify_down-Sifts batches m moved (omega arith) moved-IsLive moved-IsOrderedBelow
    ]

    -- On a heap that is not empty, `heap_pop` returns the first entry, whose line is at or below
    -- every other's, and leaves a heap of the other entries, in an array of the same length.
    pub heap_pop-IsPopped :
        (h : List HeapEntry) × (heap_pop heap (suc m) batches ≡ some (some top, h, m))
        × IsPopped heap m top h
    unfolding heap_pop
    heap_pop-IsPopped =
        let room = valid.live.room in
        let (h, e, s) = moved-Sifts in
        (
          h,
          ground
              (arith, get_elem?-eq-get_or heap 0 no_entry, get_elem?-eq-get_or heap m no_entry, e),
          record {
            valid = record { live = s.live; ordered = s.ordered };
            same = Perm.trans (Perm.cons top s.same) moved-perm;
            least = top_least;
            room = s.size ∙ length-set heap 0 last;
          },
        )
