-- ===== src/Tsdump/Lines.antt =====
-- Lines of text, and what indents them.
use tsag.Base.{
  ℕ, zero, suc, ◌≡◌, ◌≢◌, refl, ap, Bool, true, false, arith, [], ◌∷◌, ◌++◌, Bytes, ◌==◌, Lacks,
  Bool-cases, inl, inr,
}
use tsag.Parse.Text.{newline}
use tsag.Tsdump.{snippet_loop, indent}

-- Two spaces in front of every line; the flag says whether a line begins here.
unfoldable pub shift : Bool → Bytes → Bytes
shift begins [] = []
shift true (c ∷ cs) = b' ' ∷ b' ' ∷ c ∷ shift (c == newline) cs
shift false (c ∷ cs) = c ∷ shift (c == newline) cs

shift-plain :
    (xs ys : Bytes)
    → Lacks newline xs
    → shift false (xs ++ newline ∷ ys) ≡ xs ++ newline ∷ shift true ys
unfolding shift
shift-plain [] ys l = refl
shift-plain (x ∷ xs) ys l =
    let other : (x == newline) ≡ false = ground (arith, l.0) in
    rw other (ap (◌∷◌ x) (shift-plain xs ys l.1))

-- One line.
pub shift-line :
    (xs ys : Bytes)
    → Lacks newline xs
    → xs ≢ []
    → shift true (xs ++ newline ∷ ys) ≡ b' ' ∷ b' ' ∷ (xs ++ newline ∷ shift true ys)
unfolding shift
shift-line [] ys l full = absurd (full refl)
shift-line (x ∷ xs) ys l full =
    let other : (x == newline) ≡ false = ground (arith, l.0) in
    rw other (ap (λ t. b' ' ∷ b' ' ∷ x ∷ t) (shift-plain xs ys l.1))

pub indent-Lacks : (depth : ℕ) → Lacks newline (indent depth)
unfolding indent
indent-Lacks zero = tt
indent-Lacks (suc depth) =
    ((λ e. ground (arith, e)), ((λ e. ground (arith, e)), indent-Lacks depth))

-- A snippet stays on its line.
pub snippet_loop-Lacks : (src : Bytes) → Lacks newline (snippet_loop src)
unfolding snippet_loop
snippet_loop-Lacks [] = tt
snippet_loop-Lacks (c ∷ cs) = elim (Bool-cases (c == newline)) [
  | inl p ↦ rw p ((λ e. ground (arith, e)), ((λ e. ground (arith, e)), tt))
  | inr p ↦ elim (Bool-cases (c == 9)) [
    | inl q ↦
        rw (p, q) ((λ e. ground (arith, e)), ((λ e. ground (arith, e)), snippet_loop-Lacks cs))
    | inr q ↦ rw (p, q) ((λ e. ground (arith, e, p)), snippet_loop-Lacks cs)
  ]
]

pub ne-append : (xs ys : Bytes) → ys ≢ [] → xs ++ ys ≢ []
ne-append [] ys full e = full e
ne-append (x ∷ xs) ys full e = cc e
