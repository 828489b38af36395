-- ===== src/Base/Split.antt =====
-- `strrchr`: a text around the last occurrence of a byte, and texts that lack a byte.
use tsag.Base.Tests.{◌==◌, if◌then◌else◌, Bool-cases, ==→eq}
use tsag.Base.Text.{Bytes}
use tsag.Base.Lists.{All}
use Prim.Native.Nat.{ℕ}
use mathlib.Core.Path.{◌≡◌, refl, ap}
use mathlib.Core.Logic.{◌≢◌, inl, inr}
use mathlib.Core.List.{[], ◌∷◌, ◌++◌}
use mathlib.Core.Option.{Option, none, some}
use native.Mathlib.Omega.{arith}

-- The bytes before and behind the last `c`; `none` where `strrchr` returns NULL.
unfoldable pub split_last : ℕ → Bytes → Option (Bytes × Bytes)
split_last c [] = none
split_last c (x ∷ s) = elim (split_last c s) [
  | some (a, b) ↦ some (x ∷ a, b)
  | none ↦ if x == c then some ([], s) else none
]

abbrev pub Lacks : ℕ → Bytes → Type 0
Lacks c s = All (λ x. x ≢ c) s

-- What a split says of the text.
abbrev pub Splits : ℕ → Bytes → Option (Bytes × Bytes) → Type 0
Splits c s none = Lacks c s
Splits c s (some (a, b)) = (s ≡ a ++ c ∷ b) × Lacks c b

pub split_last-Splits : (c : ℕ) (s : Bytes) → Splits c s (split_last c s)
unfolding split_last
split_last-Splits c [] = tt
split_last-Splits c (x ∷ s) = go (split_last c s) (split_last-Splits c s)
  where
    go :
        (r : Option (Bytes × Bytes))
        → Splits c s r
        → Splits c (x ∷ s) (elim r [
          | some (a, b) ↦ some (x ∷ a, b)
          | none ↦ if x == c then some ([], s) else none
        ])
    go (some (a, b)) (e, l) = (ap (◌∷◌ x) e, l)
    go none l = elim (Bool-cases (x == c)) [
      | inl e ↦ rw e (ap (λ y. y ∷ s) (==→eq x c e), l)
      | inr e ↦ rw e ((λ q. ground arith), l)
    ]

pub split_last-none : (c : ℕ) (s : Bytes) → Lacks c s → split_last c s ≡ none
unfolding split_last
split_last-none c [] l = refl
split_last-none c (x ∷ s) l = rw (split_last-none c s l.1) (ground (arith, l.0))

pub split_last-some : (c : ℕ) (a b : Bytes) → Lacks c b → split_last c (a ++ c ∷ b) ≡ some (a, b)
unfolding split_last
split_last-some c [] b l = rw (split_last-none c b l) (ground arith)
split_last-some c (x ∷ a) b l = rw (split_last-some c a b l)
