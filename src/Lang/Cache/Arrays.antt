-- ===== src/Lang/Cache/Arrays.antt =====
-- How often a name occurs in the two arrays of the cache, and what the loops over them find. Equal
-- names in the table of extensions are taken to have equal addresses (`IsPooled`), as compilers
-- arrange for equal string literals of one file, and different names have different addresses.
use tsag.Base.{
  ℕ, suc, ◌+◌, ◌-◌, ◌<◌, ◌≡◌, refl, ◌∙◌, ap, true, false, arith, List, [], ◌∷◌, none, some, Bytes,
  length, get_elem?, get_or, set, take, ◌==◌, str_eq, str_eq→eq, Bool-cases, inl, inr, length-set,
  get_elem?-eq-get_or, get_elem?-set_self, get_elem?-set_ne, ℕ_discrete,
}
use tsag.Base.Sums.{bit, total, total-set, total-take}
use tsag.Lang.{ExtLang}
use tsag.Lang.Load.{LangEntry}
use tsag.Lang.Cache.{is_named, find_entry, is_loading, find_loading, drop_slot, unmark}

abbrev pub IsPooled : (ExtLang → ℕ) → Type 0
IsPooled addr = (a b : ExtLang) → (addr a == addr b) ≡ str_eq a.name b.name

-- 1 for a row of that name, and for an entry of that name.
unfoldable pub row_hit : Bytes → ExtLang → ℕ
row_hit t l = bit (str_eq l.name t)

unfoldable pub entry_hit : Bytes → LangEntry → ℕ
entry_hit t e = bit (is_named t e.name)

pub find_entry-none :
    (es : List LangEntry) (t : Bytes) (i : ℕ)
    → find_entry es t i ≡ none
    → total (entry_hit t) es ≡ 0
unfolding find_entry total entry_hit
find_entry-none [] t i e = refl
find_entry-none (x ∷ es) t i e = ground (arith, find_entry-none es t (i + 1))

pub find_entry-some :
    (es : List LangEntry) (t : Bytes) (i k : ℕ)
    → find_entry es t i ≡ some k
    → (j : ℕ) × (e : LangEntry) × (k ≡ i + j)
      × (get_elem? es j ≡ some e)
      × (is_named t e.name ≡ true)
unfolding find_entry
find_entry-some [] t i k e = absurd (ground arith)
find_entry-some (x ∷ es) t i k e = elim (Bool-cases (is_named t x.name)) [
  | inl p ↦ (0, x, ground arith, refl, p)
  | inr p ↦
      let (j, y, q, g, n) = find_entry-some es t (i + 1) k (rw p at e) in
      (suc j, y, omega (arith, q), g, n)
]

-- The last slot moves to slot `i`, and the array is one shorter.
moved-total :
    (w : ExtLang → ℕ) (ls : List ExtLang) (i n : ℕ) (l z : ExtLang)
    → length ls ≡ suc n
    → get_elem? ls i ≡ some l
    → get_elem? ls n ≡ some z
    → total w (take n (set ls i z)) + w l ≡ total w ls
moved-total w ls i n l z size e f = omega (
  arith,
  total-set w ls i l z e,
  total-take w (set ls i z) n z (length-set ls i z ∙ size) (last (ℕ_discrete i n)),
)
  where
    last : Dec (i ≡ n) → get_elem? (set ls i z) n ≡ some z
    last (yes p) = rw p (get_elem?-set_self ls n z (omega (arith, size)))
    last (no p) = get_elem?-set_ne ls i n z p ∙ f

drop_slot-total :
    (w : ExtLang → ℕ) (ls : List ExtLang) (i : ℕ) (l r : ExtLang)
    → get_elem? ls i ≡ some l
    → total w (drop_slot ls i r) + w l ≡ total w ls
unfolding drop_slot
drop_slot-total w [] i l r e = absurd (ground arith)
drop_slot-total w (x ∷ xs) i l r e =
    let size : length (x ∷ xs) ≡ suc (length (x ∷ xs) - 1) = omega arith in
    moved-total w (x ∷ xs) i (length (x ∷ xs) - 1) l (get_or (x ∷ xs) (length (x ∷ xs) - 1) r) size
      e (get_elem?-eq-get_or (x ∷ xs) (length (x ∷ xs) - 1) r (omega arith))

module _ (addr : ExtLang → ℕ) (pooled : IsPooled addr) where
  pub is_loading-none :
      (ls : List ExtLang) (r : ExtLang)
      → is_loading addr ls r ≡ false
      → total (row_hit r.name) ls ≡ 0
  unfolding is_loading total row_hit
  is_loading-none [] r e = refl
  is_loading-none (l ∷ ls) r e = ground (arith, pooled l r, is_loading-none ls r)

  pub is_loading-some :
      (ls : List ExtLang) (r : ExtLang)
      → is_loading addr ls r ≡ true
      → 0 < total (row_hit r.name) ls
  unfolding is_loading total row_hit
  is_loading-some [] r e = ground arith
  is_loading-some (l ∷ ls) r e = ground (arith, pooled l r, is_loading-some ls r)

  find_loading-some :
      (ls : List ExtLang) (r : ExtLang)
      → 0 < total (row_hit r.name) ls
      → (i : ℕ) × (l : ExtLang) × (find_loading addr ls r ≡ some i)
        × (get_elem? ls i ≡ some l)
        × (l.name ≡ r.name)
  unfolding find_loading total row_hit
  find_loading-some [] r h = absurd (omega (arith, h))
  find_loading-some (l ∷ ls) r h = elim (Bool-cases (str_eq l.name r.name)) [
    | inl p ↦ (0, l, rw (pooled l r, p) refl, refl, str_eq→eq l.name r.name p)
    | inr p ↦
        let (i, k, f, g, n) = find_loading-some ls r (ground (arith, h)) in
        (suc i, k, rw (pooled l r, p, f) refl, g, n)
  ]

  unmark-at :
      (ls : List ExtLang) (r : ExtLang) (i : ℕ)
      → find_loading addr ls r ≡ some i
      → unmark addr ls r ≡ drop_slot ls i r
  unfolding unmark
  unmark-at ls r i e = rw (e, unmark) refl

  -- `unmark` takes one row of the name out, and weighs on the others not at all.
  pub unmark-total :
      (w : ExtLang → ℕ) (ls : List ExtLang) (r : ExtLang)
      → 0 < total (row_hit r.name) ls
      → (l : ExtLang) × (l.name ≡ r.name) × (total w (unmark addr ls r) + w l ≡ total w ls)
  unmark-total w ls r h =
      let (i, l, f, g, n) = find_loading-some ls r h in
      (l, n, ap (λ k. total w k + w l) (unmark-at ls r i f) ∙ drop_slot-total w ls i l r g)
