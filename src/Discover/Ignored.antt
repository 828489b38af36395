-- ===== src/Discover/Ignored.antt =====
-- src/discover.c, `is_ignored`: the loop against the components of the path.
use tsag.Base.{
  ℕ, zero, suc, ◌≤◌, ◌<◌, ◌≡◌, refl, ap, ◌∙◌, sym, Bool, true, false, not, ◌||◌, ◌&&◌, arith, List,
  [], ◌∷◌, Option, none, some, Bytes, codes, length, ◌==◌, if◌then◌else◌, str_eq, strcmp,
  Bool-cases, inl, inr, str_eq→eq,
}
use tsag.Discover.{
  ignored_files, skip_slashes, component, is_listed, is_dot, go_on, ignored_round, ignored_loop,
  is_ignored,
}

-- The parts of a path between its slashes, empty ones included: the first, and the others.
unfoldable pub parts : Bytes → Bytes × List Bytes
parts [] = ([], [])
parts (c ∷ p) =
    let (name, names) = parts p in if c == b'/' then ([], name ∷ names) else (c ∷ name, names)

unfoldable pub ignored_name : Bytes → Bool
ignored_name n = str_eq n (codes ".git") || str_eq n (codes "build") || str_eq n (codes "dist")

unfoldable pub any_ignored : List Bytes → Bool
any_ignored [] = false
any_ignored (n ∷ names) = ignored_name n || any_ignored names

-- Some part of the path is `.git`, `build` or `dist`.
unfoldable pub has_ignored_part : Bytes → Bool
unfolding parts any_ignored
has_ignored_part p = let (name, names) = parts p in any_ignored (name ∷ names)

-- A slash in front adds an empty part, which is not ignored.
slash_in_front :
    (c : ℕ) (p : Bytes) → (c == b'/') ≡ true → has_ignored_part (c ∷ p) ≡ has_ignored_part p
unfolding has_ignored_part ignored_name str_eq strcmp
slash_in_front c p e = rw e refl

skip_one : (c : ℕ) (p : Bytes) → (c == b'/') ≡ true → skip_slashes (c ∷ p) ≡ skip_slashes p
unfolding skip_slashes
skip_one c p e = rw e refl

skip_none : (c : ℕ) (p : Bytes) → (c == b'/') ≡ false → skip_slashes (c ∷ p) ≡ c ∷ p
unfolding skip_slashes
skip_none c p e = rw e refl

skip_slashes-parts : (p : Bytes) → has_ignored_part (skip_slashes p) ≡ has_ignored_part p
unfolding skip_slashes
skip_slashes-parts [] = refl
skip_slashes-parts (c ∷ p) = elim (Bool-cases (c == b'/')) [
  | inl e ↦ ap has_ignored_part (skip_one c p e) ∙ skip_slashes-parts p ∙ sym (slash_in_front c p e)
  | inr e ↦ ap has_ignored_part (skip_none c p e)
]

skip_slashes-length : (p : Bytes) → length (skip_slashes p) ≤ length p
unfolding skip_slashes
skip_slashes-length [] = omega arith
skip_slashes-length (c ∷ p) = ground (arith, skip_slashes-length p)

-- The parts behind a component.
abbrev others : Option Bytes → List Bytes
others none = []
others (some rest) = let (name, names) = parts rest in name ∷ names

component-parts : (p : Bytes) → parts p ≡ ((component p).0, others (component p).1)
unfolding component parts
component-parts [] = refl
component-parts (c ∷ p) = elim (Bool-cases (c == b'/')) [
  | inl e ↦ rw e refl
  | inr e ↦ rw (e, component-parts p) refl
]

component-length : (p rest : Bytes) → (component p).1 ≡ some rest → length rest < length p
unfolding component
component-length [] rest e = absurd (ground arith)
component-length (c ∷ p) rest e = elim (Bool-cases (c == b'/')) [
  | inl s ↦ ground arith
  | inr s ↦ ground (arith, component-length p rest)
]

same_length : (n f : Bytes) → (length n == length f && str_eq n f) ≡ str_eq n f
same_length n f = elim (Bool-cases (str_eq n f)) [
  | inl e ↦ rw (str_eq→eq n f e) (ground arith)
  | inr e ↦ rw e (ground arith)
]

is_listed-ignored : (n : Bytes) → is_listed ignored_files n ≡ ignored_name n
unfolding is_listed ignored_name
is_listed-ignored n = ground (
  arith,
  same_length n (codes ".git"),
  same_length n (codes "build"),
  same_length n (codes "dist"),
)

dot : (n : Bytes) → is_dot n ≡ true → n ≡ codes "."
dot n e = str_eq→eq n (codes ".") (ground arith)

dot-ignored : ignored_name (codes ".") ≡ false
unfolding ignored_name str_eq strcmp
dot-ignored = refl

listed-ignored : (n : Bytes) → (not (is_dot n) && is_listed ignored_files n) ≡ ignored_name n
listed-ignored n = elim (Bool-cases (is_dot n)) [
  | inl e ↦ rw e (sym (ap ignored_name (dot n e) ∙ dot-ignored))
  | inr e ↦ rw e (is_listed-ignored n)
]

-- The end of a round.
finish :
    (next : Bytes → Option Bool) (name : Bytes) (end : Option Bytes)
    → ((rest : Bytes) → end ≡ some rest → next rest ≡ some (has_ignored_part rest))
    → (if not (is_dot name) && is_listed ignored_files name then some true else go_on next end)
      ≡ some (any_ignored (name ∷ others end))
unfolding go_on any_ignored has_ignored_part
finish next name none h = rw (listed-ignored name) (ground arith)
finish next name (some rest) h = rw (listed-ignored name, h rest refl) (ground arith)

nothing_ignored : has_ignored_part [] ≡ false
unfolding has_ignored_part any_ignored ignored_name str_eq strcmp
nothing_ignored = refl

component-ignored :
    (p : Bytes) → any_ignored ((component p).0 ∷ others (component p).1) ≡ has_ignored_part p
unfolding has_ignored_part
component-ignored p = ap (λ r. any_ignored (r.0 ∷ r.1)) (sym (component-parts p))

suc_ne_zero : (n : ℕ) → (suc n == 0) ≡ false
suc_ne_zero n = ground arith

ignored_round-parts :
    (next : Bytes → Option Bool) (p : Bytes)
    → ((rest : Bytes) → length rest < length p → next rest ≡ some (has_ignored_part rest))
    → ignored_round next p ≡ some (has_ignored_part p)
unfolding ignored_round
ignored_round-parts next [] h = ap some (sym nothing_ignored)
ignored_round-parts next (c ∷ p) h = rw (suc_ne_zero (length p)) (
    finish next (component (c ∷ p)).0 (component (c ∷ p)).1
      (λ rest e. h rest (component-length (c ∷ p) rest e))
    ∙ ap some (component-ignored (c ∷ p)))

ignored_loop-parts :
    (fuel : ℕ) (p : Bytes) → length p < fuel → ignored_loop fuel p ≡ some (has_ignored_part p)
unfolding ignored_loop
ignored_loop-parts zero p h = elim h [ ]
ignored_loop-parts (suc fuel) p h =
    ignored_round-parts (ignored_loop fuel) (skip_slashes p)
      (λ rest lt. ignored_loop-parts fuel rest (omega (arith, skip_slashes-length p)))
    ∙ ap some (skip_slashes-parts p)

-- `is_ignored` always returns, and says whether some part of the path between its slashes is
-- `.git`, `build` or `dist`: a part counts as a whole, wherever it stands.
pub is_ignored-parts : (path : Bytes) → is_ignored path ≡ some (has_ignored_part path)
unfolding is_ignored
is_ignored-parts path = ignored_loop-parts (suc (length path)) path (omega arith)
