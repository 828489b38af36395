-- ===== src/LineVec/Ascending.antt =====
-- src/linevec.c: what `line_vec_sort` and then `line_vec_uniq` leave, as a worker calls them.
use mathlib.Core.List.Perm
use mathlib.Core.Logic.{∥∥₁_elim}
use mathlib.Core.Bool.{Bool-set}
use mathlib.Core.List.{Permᴰ, perm_middle}
use tsag.Base.{
  ◌≡◌, refl, ◌∙◌, Bool, true, false, ◌||◌, arith, List, [], ◌∷◌, ◌++◌, Option, none, some, Bytes,
  Perm, All, str_eq, str_eq→eq, str_le, str_lt, str_le_ne→lt, str_le_lt_trans, Bool-cases, inl, inr,
}
use tsag.LineVec.{LineVec, line_vec_sort, line_vec_uniq}
use tsag.LineVec.Sort.{AllAbove, IsSorted, line_vec_sort_unique}
use tsag.LineVec.Uniq.{same_as, kept, repeated, line_vec_uniq-kept}

-- Each line is below all that follow: ascending, with no line twice.
abbrev pub IsAscending : List Bytes → Type 0
IsAscending [] = Unit
IsAscending (x ∷ xs) = All (λ y. str_lt x y ≡ true) xs × IsAscending xs

unfoldable pub has : Bytes → List Bytes → Bool
has l [] = false
has l (x ∷ xs) = str_eq l x || has l xs

has-permᴰ : (l : Bytes) {xs ys : List Bytes} → Permᴰ xs ys → has l xs ≡ has l ys
unfolding has
has-permᴰ l Permᴰ.nil = refl
has-permᴰ l (Permᴰ.cons {b} {l₁} e p) = rw (e, has-permᴰ l p)
has-permᴰ l (Permᴰ.swap {a} {b} {l = zs} e f) = rw (← e, ← f) (ground arith)
has-permᴰ l (Permᴰ.trans p q) = has-permᴰ l p ∙ has-permᴰ l q

pub has-perm : (l : Bytes) {xs ys : List Bytes} → Perm xs ys → has l xs ≡ has l ys
has-perm l p = ∥∥₁_elim p (Bool-set _ _) (has-permᴰ l)

AllBelow-trans :
    (k l : Bytes) (xs : List Bytes)
    → str_le k l ≡ true
    → All (λ y. str_lt l y ≡ true) xs
    → All (λ y. str_lt k y ≡ true) xs
AllBelow-trans k l [] h a = tt
AllBelow-trans k l (x ∷ xs) h a = (str_le_lt_trans k l x h a.0, AllBelow-trans k l xs h a.1)

-- The lines kept after `q` are above it, and ascending.
kept-IsAscending :
    (q : Bytes) (xs : List Bytes)
    → AllAbove q xs
    → IsSorted xs
    → All (λ y. str_lt q y ≡ true) (kept (some q) xs) × IsAscending (kept (some q) xs)
unfolding kept same_as
kept-IsAscending q [] a s = (tt, tt)
kept-IsAscending q (x ∷ xs) a s = elim (Bool-cases (str_eq x q)) [
  | inl e ↦ rw e (kept-IsAscending q xs a.1 s.1)
  | inr e ↦
      let (above, asc) = kept-IsAscending x xs s.0 s.1 in
      rw e ((str_le_ne→lt q x a.0 e, AllBelow-trans q x (kept (some x) xs) a.0 above), (above, asc))
]

first-IsAscending : (xs : List Bytes) → IsSorted xs → IsAscending (kept none xs)
unfolding kept same_as
first-IsAscending [] s = tt
first-IsAscending (x ∷ xs) s = kept-IsAscending x xs s.0 s.1

kept-repeated-perm : (p : Option Bytes) (xs : List Bytes) → Perm (kept p xs ++ repeated p xs) xs
unfolding kept repeated
kept-repeated-perm p [] = Perm.rfl
kept-repeated-perm p (x ∷ xs) = elim (Bool-cases (same_as p x)) [
  | inl e ↦
      rw e (
        Perm.trans (perm_middle (kept p xs) (repeated p xs))
          (Perm.cons x (kept-repeated-perm p xs)))
  | inr e ↦ rw e (Perm.cons x (kept-repeated-perm (some x) xs))
]

-- No line is lost: one that goes equals the line kept before it.
has-kept :
    (l : Bytes) (p : Option Bytes) (xs : List Bytes)
    → (has l (kept p xs) || same_as p l) ≡ (has l xs || same_as p l)
unfolding has kept same_as
has-kept l p [] = refl
has-kept l none (x ∷ xs) = ground (arith, has-kept l (some x) xs)
has-kept l (some q) (x ∷ xs) =
    ground (arith, has-kept l (some x) xs, has-kept l (some q) xs, str_eq→eq x q)

has-first : (l : Bytes) (xs : List Bytes) → has l (kept none xs) ≡ has l xs
unfolding same_as
has-first l xs = ground (arith, has-kept l none xs)

-- What a worker passes on: after `line_vec_sort` and `line_vec_uniq` the lines ascend with no line
-- twice, a line is among them exactly when it was among the lines before, and the lines kept and
-- the lines freed together are the lines before.
pub sort_uniq-IsAscending :
    (vec : LineVec)
    → (r : LineVec) × (freed : List Bytes) × (line_vec_uniq (line_vec_sort vec) ≡ some (r, freed))
      × IsAscending r.items
      × ((l : Bytes) → has l r.items ≡ has l vec.items)
      × Perm (r.items ++ freed) vec.items
sort_uniq-IsAscending vec =
    let s = line_vec_sort vec in
    let (asc, same, _) = line_vec_sort_unique vec in
    (
      record s { items = kept none s.items },
      repeated none s.items,
      line_vec_uniq-kept s,
      first-IsAscending s.items asc,
      λ l. has-first l s.items ∙ has-perm l same,
      Perm.trans (kept-repeated-perm none s.items) same,
    )
