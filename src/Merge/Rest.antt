-- ===== src/Merge/Rest.antt =====
-- The lines still to be written: for each entry of the heap, its batch from the entry's index on.
use mathlib.Core.List.Perm
use mathlib.Core.Logic.{∥∥₁_elim}
use mathlib.Core.List.{Permᴰ, Perm-prop, perm_append_comm}
use tsag.Base.{
  ℕ, zero, suc, ◌+◌, ◌≡◌, ap, ◌∙◌, true, arith, List, [], ◌∷◌, ◌++◌, Bytes, Perm, All, All-append,
  drop, get_or, drop-cons, append_assoc, str_le, str_le_refl,
}
use tsag.LineVec.{LineVec}
use tsag.LineVec.Sort.{AllAbove, AllAbove-trans, IsSorted}
use tsag.Heap.{HeapEntry}
use tsag.Heap.Live.{in_batch, line, no_vec}

-- Every batch is in ascending order, as a worker leaves it.
abbrev pub AreSorted : List LineVec → Type 0
AreSorted batches = All (λ vec. IsSorted vec.items) batches

pub drop-IsSorted : (n : ℕ) (xs : List Bytes) → IsSorted xs → IsSorted (drop n xs)
drop-IsSorted zero xs s = s
drop-IsSorted (suc n) [] s = tt
drop-IsSorted (suc n) (x ∷ xs) s = drop-IsSorted n xs s.1

batch-IsSorted :
    (batches : List LineVec) (i : ℕ) → AreSorted batches → IsSorted (get_or batches i no_vec).items
batch-IsSorted [] i s = tt
batch-IsSorted (vec ∷ batches) zero s = s.0
batch-IsSorted (vec ∷ batches) (suc i) s = batch-IsSorted batches i s.1

module _ (batches : List LineVec) where
  abbrev pub next : HeapEntry → HeapEntry
  next e = record e { idx = e.idx + 1 }

  unfoldable pub rest_of : HeapEntry → List Bytes
  rest_of e = drop e.idx (get_or batches e.batch no_vec).items

  unfoldable pub rests : List HeapEntry → List Bytes
  rests [] = []
  rests (e ∷ es) = rest_of e ++ rests es

  pub rest_of-next :
      (e : HeapEntry) → in_batch batches e ≡ true → rest_of e ≡ line batches e ∷ rest_of (next e)
  unfolding rest_of line in_batch
  rest_of-next e h =
      drop-cons e.idx (get_or batches e.batch no_vec).items [] (ground arith)
      ∙ ap (λ n. line batches e ∷ drop n (get_or batches e.batch no_vec).items) {x = suc e.idx}
          (omega arith)

  rests-permᴰ : {xs ys : List HeapEntry} → Permᴰ xs ys → Perm (rests xs) (rests ys)
  unfolding rests
  rests-permᴰ Permᴰ.nil = Perm.rfl
  rests-permᴰ (Permᴰ.cons {a} e p) = rw (← e) (Perm.append_left (rest_of a) (rests-permᴰ p))
  rests-permᴰ (Permᴰ.swap {a} {b} {l} e f) =
      rw (← e, ← f) (regroup (rest_of a) (rest_of b) (rests l))
    where
      regroup : (x y z : List Bytes) → Perm (x ++ (y ++ z)) (y ++ (x ++ z))
      regroup x y z =
          rw (← append_assoc x y z, ← append_assoc y x z)
            (Perm.append_right z (perm_append_comm x y))
  rests-permᴰ (Permᴰ.trans p q) = Perm.trans (rests-permᴰ p) (rests-permᴰ q)

  -- Only which entries are in the heap matters, not where.
  pub rests-perm : {xs ys : List HeapEntry} → Perm xs ys → Perm (rests xs) (rests ys)
  rests-perm p = ∥∥₁_elim p Perm-prop rests-permᴰ

  -- An entry's line is at or above no other line of its rest.
  rest_of-AllAbove :
      (e : HeapEntry)
      → AreSorted batches
      → in_batch batches e ≡ true
      → AllAbove (line batches e) (rest_of e)
  rest_of-AllAbove e s h =
      rw (rest_of-next e h) (str_le_refl (line batches e), (rw (rest_of-next e h) at sorted).0)
    where
      sorted : IsSorted (rest_of e)
      sorted = unfold rest_of in drop-IsSorted e.idx _ (batch-IsSorted batches e.batch s)

  pub rests-AllAbove :
      (l : Bytes) (es : List HeapEntry)
      → AreSorted batches
      → All (λ e. in_batch batches e ≡ true) es
      → All (λ e. str_le l (line batches e) ≡ true) es
      → AllAbove l (rests es)
  unfolding rests
  rests-AllAbove l [] s inside above = tt
  rests-AllAbove l (e ∷ es) s inside above =
      All-append (λ y. str_le l y ≡ true) (rest_of e) (rests es)
        (AllAbove-trans l (line batches e) (rest_of e) above.0 (rest_of-AllAbove e s inside.0))
        (rests-AllAbove l es s inside.1 above.1)
