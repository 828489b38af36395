-- ===== src/Queue/Ring.antt =====
-- Windows of a ring buffer: the slots from an index on, around the end of the array.
use native.Mathlib.Nat.{mod-lt, mod-eq_of_lt, mod-eq-sub-mod, mod-add-mod}
use tsag.Base.{
  ℕ, zero, suc, ◌+◌, ◌-◌, ◌%◌, ◌≤◌, ◌<◌, ◌≡◌, refl, sym, ap, ◌∙◌, List, [], ◌∷◌, ◌++◌, Option, some,
  length, get_elem?, set, arith, dec_lt, get_elem?-set_self, get_elem?-set_ne,
}

mod_back : (n c : ℕ) → c ≤ n → n % c ≡ (n - c) % c
mod_back n c h = mod-eq-sub-mod h

mod_low : (n c : ℕ) → n < c → n % c ≡ n
mod_low n c h = mod-eq_of_lt h

-- A ring index comes back to itself only after a full turn.
pub add-mod-ne : (c h d : ℕ) → h < c → zero < d → d < c → ¬ ((h + d) % c ≡ h)
add-mod-ne c h d hc dp dc e = elim (dec_lt (h + d) c) [
  | yes p ↦ omega (arith, e, mod_low (h + d) c p)
  | no p ↦ omega (arith, e, mod_back (h + d) c (omega arith), mod_low (h + d - c) c (omega arith))
]

pub step_index : (c h d : ℕ) → ((h + 1) % c + d) % c ≡ (h + suc d) % c
step_index c h d = mod-add-mod (h + 1) c d ∙ ap (λ n. n % c) (omega arith)

module _ {ℓ} {A : Type ℓ} where
  -- The slots of `buf` from `h` on hold `xs`, modulo the capacity `c`.
  abbrev pub Window : List (Option A) → ℕ → ℕ → List A → Type ℓ
  Window buf c h [] = Unit
  Window buf c h (x ∷ xs) = (get_elem? buf h ≡ some (some x)) × Window buf c ((h + 1) % c) xs

  module _ (c : ℕ) where
    -- A write `d` slots behind the head, at or past the end of a window, leaves the window alone
    -- and extends it when it is next.
    extend_at :
        (buf : List (Option A)) (h t : ℕ) (xs : List A) (x : A)
        → length buf ≡ c
        → h < c
        → length xs < c
        → (h + length xs) % c ≡ t
        → Window buf c h xs
        → Window (set buf t (some x)) c h (xs ++ x ∷ [])
    extend_at buf h t [] x e hc lt et w =
        let here : t ≡ h = sym et ∙ mod_low (h + 0) c (omega arith) ∙ omega arith in
        (rw here (get_elem?-set_self buf h (some x) (omega (arith, e))), tt)
    extend_at buf h t (y ∷ xs) x e hc lt et w = (
      get_elem?-set_ne buf t h (some x)
            (λ q. add-mod-ne c h (suc (length xs)) hc (omega arith) lt (et ∙ q))
          ∙ w.0,
      extend_at buf ((h + 1) % c) t xs x e (mod-lt (h + 1) (omega arith)) (omega arith)
          (step_index c h (length xs) ∙ et) w.1,
    )

  -- A write to the slot behind a window extends it.
  pub Window-extend :
      (buf : List (Option A)) (c h : ℕ) (xs : List A) (x : A)
      → length buf ≡ c
      → h < c
      → length xs < c
      → Window buf c h xs
      → Window (set buf ((h + length xs) % c) (some x)) c h (xs ++ x ∷ [])
  Window-extend buf c h xs x e hc lt w = extend_at c buf h ((h + length xs) % c) xs x e hc lt refl w
