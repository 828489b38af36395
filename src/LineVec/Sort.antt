-- ===== src/LineVec/Sort.antt =====
-- src/linevec.c, `line_vec_sort`: ascending lines, and the same lines whatever method sorts them.
use mathlib.Core.List.Perm
use tsag.Base.{
  ◌≡◌, true, arith, List, [], ◌∷◌, Bytes, Perm, All, str_le, str_le_trans, str_le_antisymm,
  str_le_refl, str_le_total, Bool-cases, inl, inr, sym,
}
use tsag.Base.Perms.{All-perm}
use tsag.LineVec.{LineVec, sort_lines, insert_line, line_vec_sort}

-- `l` is at or below every line.
abbrev pub AllAbove : Bytes → List Bytes → Type 0
AllAbove l xs = All (λ y. str_le l y ≡ true) xs

abbrev pub IsSorted : List Bytes → Type 0
IsSorted [] = Unit
IsSorted (x ∷ xs) = AllAbove x xs × IsSorted xs

pub AllAbove-trans :
    (k l : Bytes) (xs : List Bytes) → str_le k l ≡ true → AllAbove l xs → AllAbove k xs
AllAbove-trans k l [] h a = tt
AllAbove-trans k l (x ∷ xs) h a = (str_le_trans k l x h a.0, AllAbove-trans k l xs h a.1)

insert_line-perm : (x : Bytes) (xs : List Bytes) → Perm (insert_line x xs) (x ∷ xs)
unfolding insert_line
insert_line-perm x [] = Perm.rfl
insert_line-perm x (y ∷ ys) = elim (Bool-cases (str_le x y)) [
  | inl p ↦ rw p Perm.rfl
  | inr p ↦ rw p (Perm.trans (Perm.cons y (insert_line-perm x ys)) (Perm.swap x y ys))
]

insert_line-AllAbove :
    (l x : Bytes) (xs : List Bytes)
    → str_le l x ≡ true
    → AllAbove l xs
    → AllAbove l (insert_line x xs)
insert_line-AllAbove l x xs h a = All-perm (str_le l) (Perm.symm (insert_line-perm x xs)) (h, a)

insert_line-IsSorted : (x : Bytes) (xs : List Bytes) → IsSorted xs → IsSorted (insert_line x xs)
unfolding insert_line
insert_line-IsSorted x [] s = (tt, tt)
insert_line-IsSorted x (y ∷ ys) s = elim (Bool-cases (str_le x y)) [
  | inl p ↦ rw p ((p, AllAbove-trans x y ys p s.0), s)
  | inr p ↦
      let below : str_le y x ≡ true = ground (arith, str_le_total x y) in
      rw p (insert_line-AllAbove y x ys below s.0, insert_line-IsSorted x ys s.1)
]

sort_lines-perm : (xs : List Bytes) → Perm (sort_lines xs) xs
unfolding sort_lines
sort_lines-perm [] = Perm.rfl
sort_lines-perm (x ∷ xs) =
    Perm.trans (insert_line-perm x (sort_lines xs)) (Perm.cons x (sort_lines-perm xs))

sort_lines-IsSorted : (xs : List Bytes) → IsSorted (sort_lines xs)
unfolding sort_lines
sort_lines-IsSorted [] = tt
sort_lines-IsSorted (x ∷ xs) = insert_line-IsSorted x (sort_lines xs) (sort_lines-IsSorted xs)

-- Two ascending arrangements of the same lines are the same list.
pub IsSorted-unique : (xs ys : List Bytes) → IsSorted xs → IsSorted ys → Perm xs ys → xs ≡ ys
IsSorted-unique [] ys s t p = sym (Perm.eq-nil (Perm.symm p))
IsSorted-unique (x ∷ xs) [] s t p = Perm.eq-nil p
IsSorted-unique (x ∷ xs) (y ∷ ys) s t p =
    let up = All-perm (str_le x) p (str_le_refl x, s.0) in
    let down = All-perm (str_le y) (Perm.symm p) (str_le_refl y, t.0) in
    let e : x ≡ y = str_le_antisymm x y up.0 down.0 in
    let p' : Perm (x ∷ xs) (x ∷ ys) = rw (← e) at p in
    rw (e, IsSorted-unique xs ys s.1 t.1 (Perm.cons_inv p'))

-- `line_vec_sort` leaves the lines of the vector in ascending order of `strcmp`, and any other
-- ascending arrangement of those lines, by whatever method, is that same list of lines.
pub line_vec_sort_unique :
    (vec : LineVec)
    → IsSorted (line_vec_sort vec).items
      × Perm (line_vec_sort vec).items vec.items
      × ((xs : List Bytes) → IsSorted xs → Perm xs vec.items → xs ≡ (line_vec_sort vec).items)
unfolding line_vec_sort
line_vec_sort_unique vec = (
  sort_lines-IsSorted vec.items,
  sort_lines-perm vec.items,
  λ xs s p.
      IsSorted-unique xs (sort_lines vec.items) s (sort_lines-IsSorted vec.items)
        (Perm.trans p (Perm.symm (sort_lines-perm vec.items))),
)
