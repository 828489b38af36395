-- ===== src/LineVec/Count.antt =====
-- How often a line is among others, and lists that ascend.

use mathlib.Core.List.{Permᴰ}
use mathlib.Core.Logic.{∥∥₁_elim}
use native.Mathlib.Nat.{ℕ_set}
use tsag.Base.{
  ◌⊎◌, ℕ, ◌+◌, ◌≤◌, ◌≡◌, refl, sym, ap, ◌∙◌, true, false, arith, List, [], ◌∷◌, ◌++◌, Bytes, Perm,
  All, str_eq, str_eq_refl, str_eq→eq, str_lt, str_lt→le, str_le_ne→lt, str_le_lt_trans, Bool-cases,
  inl, inr, if◌then◌else◌, subst, strcmp,
}
use tsag.LineVec.Sort.{AllAbove, IsSorted}
use tsag.LineVec.Ascending.{IsAscending, has}

unfoldable pub count : Bytes → List Bytes → ℕ
count l [] = 0
count l (x ∷ xs) = (if str_eq l x then 1 else 0) + count l xs

pub count-append : (l : Bytes) (xs ys : List Bytes) → count l (xs ++ ys) ≡ count l xs + count l ys
unfolding count
count-append l [] ys = omega arith
count-append l (x ∷ xs) ys = let rest = count-append l xs ys in omega (arith, rest)

count-permᴰ : (l : Bytes) {xs ys : List Bytes} → Permᴰ xs ys → count l xs ≡ count l ys
unfolding count
count-permᴰ l Permᴰ.nil = refl
count-permᴰ l (Permᴰ.cons e p) = let rest = count-permᴰ l p in rw (e, rest) refl
count-permᴰ l (Permᴰ.swap e f) = rw (← e, ← f) (omega arith)
count-permᴰ l (Permᴰ.trans p q) = count-permᴰ l p ∙ count-permᴰ l q

pub count-perm : (l : Bytes) {xs ys : List Bytes} → Perm xs ys → count l xs ≡ count l ys
count-perm l p = ∥∥₁_elim p (ℕ_set _ _) (count-permᴰ l)

pub count-has : (l : Bytes) (xs : List Bytes) → has l xs ≡ true → 1 ≤ count l xs
unfolding count has
count-has l [] h = absurd (cc h)
count-has l (x ∷ xs) h = elim (Bool-cases (str_eq l x)) [
  | inl e ↦ rw e (omega arith)
  | inr e ↦ let rest = count-has l xs (rw e at h) in rw e (omega (arith, rest))
]

pub count-has_not : (l : Bytes) (xs : List Bytes) → has l xs ≡ false → count l xs ≡ 0
unfolding count has
count-has_not l [] h = refl
count-has_not l (x ∷ xs) h = elim (Bool-cases (str_eq l x)) [
  | inl e ↦ absurd (cc (rw e at h))
  | inr e ↦ let rest = count-has_not l xs (rw e at h) in rw e (omega (arith, rest))
]

str_eq_sym : (a b : Bytes) → str_eq a b ≡ false → str_eq b a ≡ false
str_eq_sym a b n = elim (Bool-cases (str_eq b a)) [
  | inl e ↦ absurd (cc (n, str_eq→eq b a e, str_eq_refl a))
  | inr e ↦ e
]

str_lt_irrefl : (a : Bytes) → str_lt a a ≡ false
unfolding str_lt strcmp
str_lt_irrefl [] = refl
str_lt_irrefl (x ∷ a) = ground (arith, str_lt_irrefl a)

str_lt_asymm : (a b : Bytes) → str_lt a b ≡ true → ¬ (str_lt b a ≡ true)
str_lt_asymm a b p q =
    let both = str_le_lt_trans a b a (str_lt→le a b p) q in cc (both, str_lt_irrefl a)

pub All-has : (P : Bytes → Type 0) (l : Bytes) (xs : List Bytes) → All P xs → has l xs ≡ true → P l
unfolding has
All-has P l [] a h = absurd (cc h)
All-has P l (x ∷ xs) a h = elim (Bool-cases (str_eq l x)) [
  | inl e ↦ subst P (sym (str_eq→eq l x e)) a.0
  | inr e ↦ All-has P l xs a.1 (rw e at h)
]

pub has_head : (x : Bytes) (xs : List Bytes) → has x (x ∷ xs) ≡ true
unfolding has
has_head x xs = rw (str_eq_refl x) refl

-- A line below all others is not among them.
below-not_has : (x : Bytes) (xs : List Bytes) → All (λ y. str_lt x y ≡ true) xs → has x xs ≡ false
below-not_has x xs a = elim (Bool-cases (has x xs)) [
  | inl h ↦ absurd (cc (All-has (λ y. str_lt x y ≡ true) x xs a h, str_lt_irrefl x))
  | inr h ↦ h
]

pub IsAscending-once : (l : Bytes) (xs : List Bytes) → IsAscending xs → count l xs ≤ 1
unfolding count
IsAscending-once l [] a = omega arith
IsAscending-once l (x ∷ xs) a = elim (Bool-cases (str_eq l x)) [
  | inl e ↦
      let none_left = count-has_not l xs (rw (str_eq→eq l x e) (below-not_has x xs a.0)) in
      rw e (omega (arith, none_left))
  | inr e ↦ let rest = IsAscending-once l xs a.1 in rw e (omega (arith, rest))
]

above-once :
    (x : Bytes) (xs : List Bytes) → AllAbove x xs → count x xs ≡ 0 → All (λ y. str_lt x y ≡ true) xs
unfolding count
above-once x [] a n = tt
above-once x (y ∷ ys) a n = elim (Bool-cases (str_eq x y)) [
  | inl e ↦ absurd (omega (arith, rw e at n))
  | inr e ↦ (str_le_ne→lt x y a.0 (str_eq_sym x y e), above-once x ys a.1 (omega (arith, n)))
]

-- Sorted lines, none of them twice, ascend.
pub IsSorted-once :
    (xs : List Bytes) → IsSorted xs → ((l : Bytes) → count l xs ≤ 1) → IsAscending xs
unfolding count
IsSorted-once [] s once = tt
IsSorted-once (x ∷ xs) s once =
    let first = once x in
    let here = str_eq_refl x in
    (
      above-once x xs s.0 (omega (arith, rw here at first)),
      IsSorted-once xs s.1 λ l. (let all = once l in omega (arith, all)),
    )

other_head :
    (x y : Bytes) (ys : List Bytes)
    → All (λ z. str_lt y z ≡ true) ys
    → has x (y ∷ ys) ≡ true
    → (x ≡ y) ⊎ (str_lt y x ≡ true)
unfolding has
other_head x y ys b h = elim (Bool-cases (str_eq x y)) [
  | inl e ↦ inl (str_eq→eq x y e)
  | inr e ↦ inr (All-has (λ z. str_lt y z ≡ true) x ys b (rw e at h))
]

same_head :
    (x y : Bytes) (xs ys : List Bytes)
    → All (λ z. str_lt x z ≡ true) xs
    → All (λ z. str_lt y z ≡ true) ys
    → ((l : Bytes) → has l (x ∷ xs) ≡ has l (y ∷ ys))
    → x ≡ y
same_head x y xs ys a b same = elim (other_head x y ys b (sym (same x) ∙ has_head x xs)) [
  | inl e ↦ e
  | inr down ↦ elim (other_head y x xs a (same y ∙ has_head y ys)) [
    | inl e ↦ sym e
    | inr up ↦ absurd (str_lt_asymm x y up down)
  ]
]

same_tail :
    (x : Bytes) (xs ys : List Bytes)
    → All (λ z. str_lt x z ≡ true) xs
    → All (λ z. str_lt x z ≡ true) ys
    → ((l : Bytes) → has l (x ∷ xs) ≡ has l (x ∷ ys))
    → (l : Bytes) → has l xs ≡ has l ys
unfolding has
same_tail x xs ys a b same l = elim (Bool-cases (str_eq l x)) [
  | inl e ↦ rw (str_eq→eq l x e) (below-not_has x xs a ∙ sym (below-not_has x ys b))
  | inr e ↦ rw e at (same l)
]

-- Lists that ascend and have the same lines are the same.
pub IsAscending-unique :
    (xs ys : List Bytes)
    → IsAscending xs
    → IsAscending ys
    → ((l : Bytes) → has l xs ≡ has l ys)
    → xs ≡ ys
unfolding has
IsAscending-unique [] [] a b same = refl
IsAscending-unique [] (y ∷ ys) a b same = absurd (cc (same y, has_head y ys))
IsAscending-unique (x ∷ xs) [] a b same = absurd (cc (same x, has_head x xs))
IsAscending-unique (x ∷ xs) (y ∷ ys) a b same =
    let head = same_head x y xs ys a.0 b.0 same in
    let b' : IsAscending (x ∷ ys) = rw head b in
    let same' : (l : Bytes) → has l (x ∷ xs) ≡ has l (x ∷ ys) =
      λ l. same l ∙ ap (λ z. has l (z ∷ ys)) (sym head) in
    ap (λ z. z ∷ xs) head
    ∙ ap (λ l. y ∷ l) (IsAscending-unique xs ys a.1 b.1 (same_tail x xs ys a.0 b'.0 same'))
