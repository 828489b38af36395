-- ===== src/Base/Perms.antt =====
-- Permutations of the live part of an array.
use mathlib.Core.List.Perm
use mathlib.Core.Logic.{∥∥₁_elim}
use mathlib.Core.List.{Permᴰ, perm_middle, Perm, List, [], ◌∷◌, ◌++◌, append-nil}
use mathlib.Core.Path.{◌≡◌, refl, ap, ◌∙◌}
use mathlib.Core.Bool.{Bool, true}
use native.Mathlib.Nat.{ℕ_set}
use native.Mathlib.Omega.{arith}
use Prim.Native.Nat.{ℕ, zero, suc, ◌<◌}
use tsag.Base.Lists.{length, get_or, set, take, length-set, get_or-set, get_or-take, take-set, All}
use tsag.Base.Tests.{◌==◌, if◌then◌else◌}

module _ {ℓ} {A : Type ℓ} where
  permᴰ-length : {xs ys : List A} → Permᴰ xs ys → length xs ≡ length ys
  permᴰ-length Permᴰ.nil = refl
  permᴰ-length (Permᴰ.cons e p) = ap suc (permᴰ-length p)
  permᴰ-length (Permᴰ.swap e f) = refl
  permᴰ-length (Permᴰ.trans p q) = permᴰ-length p ∙ permᴰ-length q

  pub perm-length : {xs ys : List A} → Perm xs ys → length xs ≡ length ys
  perm-length p = ∥∥₁_elim p (ℕ_set _ _) permᴰ-length

  pub perm-snoc : (xs : List A) (x : A) → Perm (xs ++ x ∷ []) (x ∷ xs)
  perm-snoc xs x = rw (append-nil xs) at (perm_middle {a = x} xs [])

  -- Overwriting a slot exchanges its old value for the new one.
  pub perm-set :
      (xs : List A) (i : ℕ) (v d : A) → i < length xs → Perm (get_or xs i d ∷ set xs i v) (v ∷ xs)
  perm-set [] i v d h = elim h [ ]
  perm-set (x ∷ xs) zero v d h = Perm.swap v x xs
  perm-set (x ∷ xs) (suc i) v d h =
      Perm.trans (Perm.swap x (get_or xs i d) (set xs i v))
        (Perm.trans (Perm.cons x (perm-set xs i v d (omega arith))) (Perm.swap v x xs))

  -- Exchanging two slots.
  abbrev pub exchange : List A → ℕ → ℕ → A → List A
  exchange xs i j d = set (set xs i (get_or xs j d)) j (get_or xs i d)

  pub length-exchange : (xs : List A) (i j : ℕ) (d : A) → length (exchange xs i j d) ≡ length xs
  length-exchange xs i j d =
      length-set (set xs i (get_or xs j d)) j (get_or xs i d) ∙ length-set xs i (get_or xs j d)

  module _ (xs : List A) (i j : ℕ) (d : A) (hi : i < length xs) (hj : j < length xs) where
    pub get_or-exchange :
        (c : ℕ)
        → get_or (exchange xs i j d) c d
          ≡ (if j == c then get_or xs i d else if i == c then get_or xs j d else get_or xs c d)
    get_or-exchange c = rw (
      get_or-set (set xs i (get_or xs j d)) j c (get_or xs i d) d
          (rw (length-set xs i (get_or xs j d)) hj),
      get_or-set xs i c (get_or xs j d) d hi,
    )

    pub perm-exchange : Perm (exchange xs i j d) xs
    perm-exchange =
        let ys = set xs i (get_or xs j d) in
        let same : get_or ys j d ≡ get_or xs j d =
          ground (arith, get_or-set xs i j (get_or xs j d) d) in
        let second =
          rw same at (perm-set ys j (get_or xs i d) d (rw (length-set xs i (get_or xs j d)) hj)) in
        Perm.cons_inv (Perm.trans second (perm-set xs i (get_or xs j d) d hi))

  pub take-exchange :
      (n : ℕ) (xs : List A) (i j : ℕ) (d : A)
      → i < n
      → j < n
      → take n (exchange xs i j d) ≡ exchange (take n xs) i j d
  take-exchange n xs i j d hi hj =
      rw (take-set, take-set, get_or-take n xs i d hi, get_or-take n xs j d hj)

  All-permᴰ :
      (p : A → Bool) {xs ys : List A}
      → Permᴰ xs ys
      → All (λ x. p x ≡ true) xs
      → All (λ x. p x ≡ true) ys
  All-permᴰ p Permᴰ.nil h = tt
  All-permᴰ p (Permᴰ.cons e q) h = (rw (ap p e) at h.0, All-permᴰ p q h.1)
  All-permᴰ p (Permᴰ.swap e f) h = (rw (ap p f) at h.1.0, (rw (ap p e) at h.0, h.1.1))
  All-permᴰ p (Permᴰ.trans q r) h = All-permᴰ p r (All-permᴰ p q h)

  All-prop : (p : A → Bool) (xs : List A) → IsProp (All (λ x. p x ≡ true) xs)
  All-prop p [] = hlevel
  All-prop p (x ∷ xs) = hlevel (All-prop p xs)

  -- A test that every element passes is passed in any order.
  pub All-perm :
      (p : A → Bool) {xs ys : List A}
      → Perm xs ys
      → All (λ x. p x ≡ true) xs
      → All (λ x. p x ≡ true) ys
  All-perm p {ys} q h = ∥∥₁_elim q (All-prop p ys) λ d. All-permᴰ p d h
