-- ===== src/Base/Text.antt =====
-- C strings as lists of bytes (the terminating NUL is left out), and `strcmp`.
use Prim.Native.Nat.{ℕ, compare, Ordering}
use Prim.Native.Char.{code}
use Prim.Native.String.{String}
use mathlib.Core.Path.{◌≡◌, refl}
use mathlib.Core.Logic.{◌⊎◌, inl, inr}
use mathlib.Core.Bool.{Bool, true, false}
use mathlib.Core.List.{List, [], ◌∷◌}
use native.Mathlib.Omega.{arith}
use tsag.Base.Tests.{Bool-cases}

abbrev pub Bytes : Type 0
Bytes = List ℕ

-- The bytes of an ASCII literal.
abbrev pub codes : String → Bytes
codes String.[] = []
codes (String.◌∷◌ c s) = code c ∷ codes s

-- The sign of `strcmp(a, b)`: bytes compare as `unsigned char`, and a prefix comes first.
unfoldable pub strcmp : Bytes → Bytes → Ordering
strcmp [] [] = Ordering.eq
strcmp [] (y ∷ b) = Ordering.lt
strcmp (x ∷ a) [] = Ordering.gt
strcmp (x ∷ a) (y ∷ b) = elim (compare x y) [
  | Ordering.lt ↦ Ordering.lt
  | Ordering.eq ↦ strcmp a b
  | Ordering.gt ↦ Ordering.gt
]

-- `strcmp(a, b) == 0`, `strcmp(a, b) < 0` and `strcmp(a, b) <= 0`
unfoldable pub str_eq : Bytes → Bytes → Bool
str_eq a b = elim (strcmp a b) [ Ordering.eq ↦ true | _ ↦ false ]

unfoldable pub str_lt : Bytes → Bytes → Bool
str_lt a b = elim (strcmp a b) [ Ordering.lt ↦ true | _ ↦ false ]

unfoldable pub str_le : Bytes → Bytes → Bool
str_le a b = elim (strcmp a b) [ Ordering.gt ↦ false | _ ↦ true ]

pub str_eq_refl : (a : Bytes) → str_eq a a ≡ true
unfolding str_eq strcmp
str_eq_refl [] = refl
str_eq_refl (x ∷ a) = ground (arith, str_eq_refl a)

pub str_eq→eq : (a b : Bytes) → str_eq a b ≡ true → a ≡ b
unfolding str_eq strcmp
str_eq→eq [] [] h = refl
str_eq→eq [] (y ∷ b) h = ground arith
str_eq→eq (x ∷ a) [] h = ground arith
str_eq→eq (x ∷ a) (y ∷ b) h = ground (arith, str_eq→eq a b)

pub str_le_refl : (a : Bytes) → str_le a a ≡ true
unfolding str_le strcmp
str_le_refl [] = refl
str_le_refl (x ∷ a) = ground (arith, str_le_refl a)

pub str_le_trans : (a b c : Bytes) → str_le a b ≡ true → str_le b c ≡ true → str_le a c ≡ true
unfolding str_le strcmp
str_le_trans [] [] [] p q = refl
str_le_trans [] b (z ∷ c) p q = refl
str_le_trans [] (y ∷ b) [] p q = ground arith
str_le_trans (x ∷ a) [] c p q = ground arith
str_le_trans (x ∷ a) (y ∷ b) [] p q = ground arith
str_le_trans (x ∷ a) (y ∷ b) (z ∷ c) p q = ground (arith, str_le_trans a b c)

pub str_le_antisymm : (a b : Bytes) → str_le a b ≡ true → str_le b a ≡ true → a ≡ b
unfolding str_le strcmp
str_le_antisymm [] [] p q = refl
str_le_antisymm [] (y ∷ b) p q = ground arith
str_le_antisymm (x ∷ a) [] p q = ground arith
str_le_antisymm (x ∷ a) (y ∷ b) p q = ground (arith, str_le_antisymm a b)

pub str_lt→le : (a b : Bytes) → str_lt a b ≡ true → str_le a b ≡ true
unfolding str_lt str_le
str_lt→le a b h = ground arith

-- What is not below is at or above.
pub not_str_lt→le : (a b : Bytes) → str_lt a b ≡ false → str_le b a ≡ true
unfolding str_lt str_le strcmp
not_str_lt→le [] [] h = refl
not_str_lt→le [] (y ∷ b) h = ground arith
not_str_lt→le (x ∷ a) [] h = refl
not_str_lt→le (x ∷ a) (y ∷ b) h = ground (arith, not_str_lt→le a b)

pub str_le_total : (a b : Bytes) → (str_le a b ≡ true) ⊎ (str_le b a ≡ true)
str_le_total a b = elim (Bool-cases (str_lt a b)) [
  | inl p ↦ inl (str_lt→le a b p)
  | inr p ↦ inr (not_str_lt→le a b p)
]

pub str_le_ne→lt : (a b : Bytes) → str_le a b ≡ true → str_eq b a ≡ false → str_lt a b ≡ true
unfolding str_le str_eq str_lt strcmp
str_le_ne→lt [] [] h k = ground arith
str_le_ne→lt [] (y ∷ b) h k = refl
str_le_ne→lt (x ∷ a) [] h k = ground arith
str_le_ne→lt (x ∷ a) (y ∷ b) h k = ground (arith, str_le_ne→lt a b)

pub str_le_lt_trans : (a b c : Bytes) → str_le a b ≡ true → str_lt b c ≡ true → str_lt a c ≡ true
unfolding str_le str_lt strcmp
str_le_lt_trans [] b [] p q = ground arith
str_le_lt_trans [] b (z ∷ c) p q = refl
str_le_lt_trans (x ∷ a) [] c p q = ground arith
str_le_lt_trans (x ∷ a) (y ∷ b) [] p q = ground arith
str_le_lt_trans (x ∷ a) (y ∷ b) (z ∷ c) p q = ground (arith, str_le_lt_trans a b c)
