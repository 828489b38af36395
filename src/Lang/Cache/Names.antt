-- ===== src/Lang/Cache/Names.antt =====
-- How many names the two arrays of the cache can hold.
use tsag.Base.{
  ℕ, ◌+◌, ◌≤◌, ◌≡◌, refl, ap, Option-cases, true, not, arith, List, [], ◌∷◌, Option, none, some,
  Bytes, length, str_eq, Bool-cases, inl, inr, str_eq→eq, str_eq_refl,
}
use tsag.Base.Sums.{bit, total}
use tsag.Lang.{ExtLang, has_query, queries}
use tsag.Lang.Load.{LangEntry}
use tsag.Lang.Cache.{is_named}
use tsag.Lang.Cache.Arrays.{row_hit, entry_hit}

-- How often the names of a table occur in `xs`.
module _ {A : Type 0} (hits : Bytes → A → ℕ) where
  unfoldable pub sums : List Bytes → List A → ℕ
  sums [] xs = 0
  sums (t ∷ ts) xs = total (hits t) xs + sums ts xs

  sums-cons :
      (ts : List Bytes) (x : A) (xs : List A) → sums ts (x ∷ xs) ≡ sums ts (x ∷ []) + sums ts xs
  unfolding sums total
  sums-cons [] x xs = omega arith
  sums-cons (t ∷ ts) x xs = omega (arith, sums-cons ts x xs)

  -- Each element has a name of the table or is bad.
  length-le-sums :
      (bad : A → ℕ) (ts : List Bytes)
      → ((x : A) → 1 ≤ sums ts (x ∷ []) + bad x)
      → (xs : List A) → length xs ≤ sums ts xs + total bad xs
  unfolding total
  length-le-sums bad ts h [] = omega arith
  length-le-sums bad ts h (x ∷ xs) =
      omega (arith, sums-cons ts x xs, h x, length-le-sums bad ts h xs)

-- 1 for a name that the table of queries does not have.
unfoldable pub strange : Option Bytes → ℕ
strange none = 1
strange (some t) = bit (not (has_query queries t))

abbrev pub strange_row : ExtLang → ℕ
strange_row l = strange (some l.name)

abbrev pub strange_entry : LangEntry → ℕ
strange_entry e = strange e.name

name_hits : List Bytes → Bytes → ℕ
name_hits [] n = 0
name_hits (t ∷ ts) n = bit (str_eq n t) + name_hits ts n

name_hits-has_query : (ts : List Bytes) (n : Bytes) → has_query ts n ≡ true → 1 ≤ name_hits ts n
unfolding has_query name_hits
name_hits-has_query [] n h = ground arith
name_hits-has_query (t ∷ ts) n h = elim (Bool-cases (str_eq t n)) [
  | inl p ↦ rw (str_eq→eq t n p) (ground (arith, str_eq_refl n))
  | inr p ↦ ground (arith, name_hits-has_query ts n)
]

row-sums : (ts : List Bytes) (l : ExtLang) → sums row_hit ts (l ∷ []) ≡ name_hits ts l.name
unfolding sums name_hits total row_hit
row-sums [] l = refl
row-sums (t ∷ ts) l = omega (arith, row-sums ts l)

pub entry_hit-name :
    (t : Bytes) (e : LangEntry) (n : Bytes) → e.name ≡ some n → entry_hit t e ≡ bit (str_eq n t)
unfolding entry_hit is_named
entry_hit-name t e n q = ap (λ m. bit (is_named t m)) q

entry-sums :
    (ts : List Bytes) (e : LangEntry) (n : Bytes)
    → e.name ≡ some n
    → sums entry_hit ts (e ∷ []) ≡ name_hits ts n
unfolding sums name_hits total
entry-sums [] e n q = refl
entry-sums (t ∷ ts) e n q = omega (arith, entry_hit-name t e n q, entry-sums ts e n q)

strange-row : (l : ExtLang) → 1 ≤ sums row_hit queries (l ∷ []) + strange_row l
unfolding strange
strange-row l = elim (Bool-cases (has_query queries l.name)) [
  | inl h ↦ omega (arith, row-sums queries l, name_hits-has_query queries l.name h)
  | inr h ↦ rw h (omega arith)
]

strange-entry : (e : LangEntry) → 1 ≤ sums entry_hit queries (e ∷ []) + strange_entry e
unfolding strange
strange-entry e = elim (Option-cases e.name) [
  | inl q ↦ rw q (omega arith)
  | inr (n, q) ↦ elim (Bool-cases (has_query queries n)) [
    | inl h ↦ omega (arith, entry-sums queries e n q, name_hits-has_query queries n h)
    | inr h ↦ rw (q, h) (omega arith)
  ]
]

sums-le :
    (ls : List ExtLang) (es : List LangEntry)
    → ((t : Bytes) → total (row_hit t) ls + total (entry_hit t) es ≤ 1)
    → (ts : List Bytes) → sums row_hit ts ls + sums entry_hit ts es ≤ length ts
unfolding sums
sums-le ls es h [] = omega arith
sums-le ls es h (t ∷ ts) = omega (arith, h t, sums-le ls es h ts)

nine : length queries ≡ 9
unfolding queries
nine = refl

-- Both arrays together hold at most nine names.
pub few_names :
    (ls : List ExtLang) (es : List LangEntry)
    → ((t : Bytes) → total (row_hit t) ls + total (entry_hit t) es ≤ 1)
    → total strange_row ls ≡ 0
    → total strange_entry es ≡ 0
    → length ls + length es ≤ 9
few_names ls es once rows entries = omega (
  arith,
  nine,
  sums-le ls es once queries,
  length-le-sums row_hit strange_row queries strange-row ls,
  length-le-sums entry_hit strange_entry queries strange-entry es,
)
