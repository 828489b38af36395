-- ===== src/Base/Gather.antt =====
-- The lists that the elements of a list give, one after the other, under writes to a slot, and
-- which slots there are.
use Prim.Native.Nat.{ℕ, zero, suc, ◌<◌}
use mathlib.Core.List.Perm
use mathlib.Core.List.{List, [], ◌∷◌, ◌++◌, map, append_assoc, Perm, perm_middle}
use mathlib.Core.Path.{◌≡◌, refl, sym, ap, ◌∙◌}
use mathlib.Core.Option.{some}
use native.Mathlib.Omega.{arith}
use tsag.Base.Lists.{get_elem?, set, length}

module _ {ℓ} {A : Type ℓ} where
  pub get_elem?-in : (xs : List A) (i : ℕ) (x : A) → get_elem? xs i ≡ some x → i < length xs
  get_elem?-in [] i x e = absurd (cc e)
  get_elem?-in (y ∷ xs) zero x e = omega arith
  get_elem?-in (y ∷ xs) (suc i) x e = let h = get_elem?-in xs i x e in omega (arith, h)

  pub get_elem?-some : (xs : List A) (i : ℕ) → i < length xs → (x : A) × (get_elem? xs i ≡ some x)
  get_elem?-some [] i h = elim h [ ]
  get_elem?-some (y ∷ xs) zero h = (y, refl)
  get_elem?-some (y ∷ xs) (suc i) h = get_elem?-some xs i (omega arith)

module _ {ℓ κ} {A : Type ℓ} {B : Type κ} (f : A → List B) where
  unfoldable pub gather : List A → List B
  gather [] = []
  gather (x ∷ xs) = f x ++ gather xs

  pub gather-set :
      (xs : List A) (i : ℕ) (x y : A)
      → get_elem? xs i ≡ some x
      → f y ≡ f x
      → gather (set xs i y) ≡ gather xs
  unfolding gather
  gather-set [] i x y e same = absurd (cc e)
  gather-set (z ∷ xs) zero x y e same =
      let here : z ≡ x = cc e in ap (λ l. l ++ gather xs) (same ∙ ap f (sym here))
  gather-set (z ∷ xs) (suc i) x y e same = ap (λ l. f z ++ l) (gather-set xs i x y e same)

  -- One more in a slot is one more in all.
  pub gather-set_more :
      (xs : List A) (i : ℕ) (x y : A) (b : B)
      → get_elem? xs i ≡ some x
      → f y ≡ f x ++ b ∷ []
      → Perm (gather (set xs i y)) (b ∷ gather xs)
  unfolding gather
  gather-set_more [] i x y b e more = absurd (cc e)
  gather-set_more (z ∷ xs) zero x y b e more =
      let here : z ≡ x = cc e in
      rw (more, here, append_assoc (f x) (b ∷ []) (gather xs)) (perm_middle (f x) (gather xs))
  gather-set_more (z ∷ xs) (suc i) x y b e more =
      Perm.trans (Perm.append_left (f z) (gather-set_more xs i x y b e more))
        (perm_middle (f z) (gather xs))

module _ {ℓ κ} {A : Type ℓ} {B : Type κ} (f : A → B) where
  pub length-map : (xs : List A) → length (map f xs) ≡ length xs
  length-map [] = refl
  length-map (x ∷ xs) = ap suc (length-map xs)

  pub map-set :
      (xs : List A) (i : ℕ) (x y : A)
      → get_elem? xs i ≡ some x
      → f y ≡ f x
      → map f (set xs i y) ≡ map f xs
  map-set [] i x y e same = absurd (cc e)
  map-set (z ∷ xs) zero x y e same =
      let here : z ≡ x = cc e in ap (λ b. b ∷ map f xs) (same ∙ ap f (sym here))
  map-set (z ∷ xs) (suc i) x y e same = ap (λ l. f z ∷ l) (map-set xs i x y e same)
