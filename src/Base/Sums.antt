-- ===== src/Base/Sums.antt =====
-- Sums of weights over a list, under writes to a slot.
use Prim.Native.Nat.{ℕ, zero, suc, ◌+◌, ◌*◌, ◌≤◌, ◌<◌}
use mathlib.Core.Path.{◌≡◌, refl, ap}
use mathlib.Core.Bool.{Bool, true, false}
use mathlib.Core.List.{List, [], ◌∷◌, ◌++◌, map}
use mathlib.Core.Option.{some}
use native.Mathlib.Decide.{dec_lt}
use native.Mathlib.Omega.{arith}
use tsag.Base.Lists.{length, get_elem?, set, take}

-- 1 for true.
abbrev pub bit : Bool → ℕ
bit true = 1
bit false = 0

module _ {ℓ} {A : Type ℓ} where
  unfoldable pub total : (A → ℕ) → List A → ℕ
  total w [] = 0
  total w (x ∷ xs) = w x + total w xs

  pub total-append : (w : A → ℕ) (xs ys : List A) → total w (xs ++ ys) ≡ total w xs + total w ys
  unfolding total
  total-append w [] ys = omega arith
  total-append w (x ∷ xs) ys = omega (arith, total-append w xs ys)

  pub total-snoc : (w : A → ℕ) (xs : List A) (x : A) → total w (xs ++ x ∷ []) ≡ total w xs + w x
  unfolding total
  total-snoc w xs x = omega (arith, total-append w xs (x ∷ []))

  pub total-set :
      (w : A → ℕ) (xs : List A) (i : ℕ) (x v : A)
      → get_elem? xs i ≡ some x
      → total w (set xs i v) + w x ≡ total w xs + w v
  unfolding total
  total-set w [] i x v e = ground arith
  total-set w (y ∷ xs) zero x v e = let same : y ≡ x = cc e in rw same (omega arith)
  total-set w (y ∷ xs) (suc i) x v e = omega (arith, total-set w xs i x v e)

  pub total-take :
      (w : A → ℕ) (xs : List A) (n : ℕ) (x : A)
      → length xs ≡ suc n
      → get_elem? xs n ≡ some x
      → total w (take n xs) + w x ≡ total w xs
  unfolding total
  total-take w [] n x h e = absurd (omega (arith, h))
  total-take w (y ∷ []) zero x h e = let same : y ≡ x = cc e in rw same (omega arith)
  total-take w (y ∷ z ∷ xs) zero x h e = absurd (omega (arith, h))
  total-take w (y ∷ xs) (suc n) x h e = omega (arith, total-take w xs n x (omega (arith, h)) e)

  pub total-le : (w : A → ℕ) → ((x : A) → w x ≤ 3) → (xs : List A) → total w xs ≤ 3 * length xs
  unfolding total
  total-le w h [] = omega arith
  total-le w h (x ∷ xs) = omega (arith, h x, total-le w h xs)

  -- One element's weight is part of the sum.
  pub le-total :
      (w : A → ℕ) (xs : List A) (i : ℕ) (x : A) → get_elem? xs i ≡ some x → w x ≤ total w xs
  unfolding total
  le-total w [] i x e = ground arith
  le-total w (y ∷ xs) zero x e = let same : y ≡ x = cc e in rw same (omega arith)
  le-total w (y ∷ xs) (suc i) x e = omega (arith, le-total w xs i x e)

  -- A sum that is not zero has an element that is not.
  pub total-pos :
      (w : A → ℕ) (xs : List A)
      → 0 < total w xs
      → (i : ℕ) × (x : A) × (get_elem? xs i ≡ some x) × (0 < w x)
  unfolding total
  total-pos w [] h = absurd (omega (arith, h))
  total-pos w (x ∷ xs) h = elim (dec_lt 0 (w x)) [
    | yes p ↦ (0, x, refl, p)
    | no z ↦ let (i, y, e, p) = total-pos w xs (omega (arith, h)) in (suc i, y, e, p)
  ]

module _ {ℓ κ} {A : Type ℓ} {B : Type κ} where
  pub total-map :
      (w : B → ℕ) (f : A → B) (xs : List A) → total w (map f xs) ≡ total (λ x. w (f x)) xs
  unfolding total
  total-map w f [] = refl
  total-map w f (x ∷ xs) = ap (λ n. w (f x) + n) (total-map w f xs)
