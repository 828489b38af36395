-- ===== src/Parse/File/Best/Covers.antt =====
-- src/parse.c, the loop over the matches: every match that counts is covered by a line of its range.
use tsag.Base.{
  ℕ, ◌≡◌, refl, ◌≤◌, ◌<◌, ◌+◌, ◌^◌, ◌⊎◌, inl, inr, true, arith, List, [], ◌∷◌, ◌++◌, Option, none,
  some, map, Bytes, length, leb, All, Bool-cases, str_eq_refl, get_elem?, zero, suc, Option-cases,
}
use tsag.LineVec.{LineVec, len}
use tsag.LineVec.Ascending.{has}
use tsag.LineVec.Dedup.{dedup_init, dedup_cap}
use tsag.Parse.Match.{QueryMatch, Outcomes}
use tsag.Parse.File.{Seen, match_loop, max_matches_per_file}
use tsag.Parse.File.Best.{Tagged, same_place, keep, keep?, tagged, best, line_for}
use tsag.Parse.File.Best.Lines.{AllOk}
use tsag.Parse.File.Best.Claim.{keep-All}
use tsag.Parse.File.Best.Refine.{match_loop-best}

-- Some match of the list has the range of `t` and an index that is not lower.
abbrev Covers : Tagged → List Tagged → Type 0
Covers t [] = ⊥
Covers t (u ∷ us) = ((same_place t u ≡ true) × (t.pattern ≤ u.pattern)) ⊎ Covers t us

same_trans :
    (t u v : Tagged) → same_place t u ≡ true → same_place v u ≡ true → same_place t v ≡ true
same_trans t u v p q = ground arith

keep-Covers : (t v : Tagged) (us : List Tagged) → Covers t us → Covers t (keep v us)
unfolding keep
keep-Covers t v [] c = elim c [ ]
keep-Covers t v (u ∷ us) (inl c) = elim (Bool-cases (same_place v u)) [
  | inl s ↦ elim (Bool-cases (leb v.pattern u.pattern)) [
    | inl l ↦ rw (s, l, keep) (inl c)
    | inr l ↦ rw (s, l, keep) (inl (same_trans t u v c.0 s, ground (arith, c.1)))
  ]
  | inr s ↦ rw (s, keep) (inl c)
]
keep-Covers t v (u ∷ us) (inr c) = elim (Bool-cases (same_place v u)) [
  | inl s ↦ elim (Bool-cases (leb v.pattern u.pattern)) [
    | inl l ↦ rw (s, l, keep) (inr c)
    | inr l ↦ rw (s, l, keep) (inr c)
  ]
  | inr s ↦ rw (s, keep) (inr (keep-Covers t v us c))
]

same_refl : (t : Tagged) → same_place t t ≡ true
same_refl t = ground arith

-- A match that has come in is covered.
keep-Covers_new : (t : Tagged) (us : List Tagged) → Covers t (keep t us)
unfolding keep
keep-Covers_new t [] = inl (same_refl t, omega arith)
keep-Covers_new t (u ∷ us) = elim (Bool-cases (same_place t u)) [
  | inl s ↦ elim (Bool-cases (leb t.pattern u.pattern)) [
    | inl l ↦ rw (s, l, keep) (inl (s, ground arith))
    | inr l ↦ rw (s, l, keep) (inl (same_refl t, omega arith))
  ]
  | inr s ↦ rw (s, keep) (inr (keep-Covers_new t us))
]

keep?-Covers :
    (t : Tagged) (r : Option Tagged) (us : List Tagged) → Covers t us → Covers t (keep? r us)
unfolding keep?
keep?-Covers t none us c = c
keep?-Covers t (some v) us c = keep-Covers t v us c

best-Covers :
    (t : Tagged) (source : Bytes) (ms : List QueryMatch) (us : List Tagged)
    → Covers t us
    → Covers t (best source ms us)
unfolding best
best-Covers t source [] us c = c
best-Covers t source (m ∷ ms) us c =
    best-Covers t source ms (keep? (tagged source m) us) (keep?-Covers t (tagged source m) us c)

best-Covers_match :
    (t : Tagged) (source : Bytes) (ms : List QueryMatch) (us : List Tagged) (i : ℕ) (m : QueryMatch)
    → get_elem? ms i ≡ some m
    → tagged source m ≡ some t
    → Covers t (best source ms us)
unfolding best keep?
best-Covers_match t source [] us i m e k = absurd (ground arith)
best-Covers_match t source (n ∷ ms) us zero m e k =
    let same : n ≡ m = cc e in
    rw (same, k) (best-Covers t source ms (keep t us) (keep-Covers_new t us))
best-Covers_match t source (n ∷ ms) us (suc i) m e k =
    best-Covers_match t source ms (keep? (tagged source n) us) i m e k

has-appended : (l : Bytes) (xs ys : List Bytes) → has l ys ≡ true → has l (xs ++ ys) ≡ true
unfolding has
has-appended l [] ys h = h
has-appended l (x ∷ xs) ys h = rw (has-appended l xs ys h) (ground arith)

-- What holds for the matches that count holds for those that are kept.
best-All {κ} :
    (P : Tagged → Type κ) (source : Bytes) (ms : List QueryMatch) (us : List Tagged)
    → ((j : ℕ) (m : QueryMatch) (t : Tagged)
        → get_elem? ms j ≡ some m
        → tagged source m ≡ some t
        → P t)
    → All P us
    → All P (best source ms us)
unfolding best keep?
best-All P source [] us h a = a
best-All P source (m ∷ ms) us h a =
    best-All P source ms (keep? (tagged source m) us) (λ j. h (suc j))
      (elim (Option-cases (tagged source m)) [
        | inl e ↦ rw e a
        | inr (t, e) ↦ rw e (keep-All P t us (h 0 m t refl e) a)
      ])

-- A match of the file that counts.
abbrev pub IsMatch : Bytes → List QueryMatch → Tagged → Type 0
IsMatch source ms u =
    (j : ℕ) × (m : QueryMatch) × (get_elem? ms j ≡ some m) × (tagged source m ≡ some u)

-- The line that covers a match, and the match that it is the line of.
line-Covers :
    (P : Tagged → Type 0) (filepath source : Bytes) (t : Tagged) (us : List Tagged)
    → All P us
    → Covers t us
    → (u : Tagged) × P u
      × (same_place t u ≡ true)
      × (t.pattern ≤ u.pattern)
      × (has (line_for filepath source u) (map (line_for filepath source) us) ≡ true)
unfolding has
line-Covers P filepath source t [] a c = elim c [ ]
line-Covers P filepath source t (u ∷ us) a (inl c) =
    (u, a.0, c.0, c.1, rw (str_eq_refl (line_for filepath source u)) refl)
line-Covers P filepath source t (u ∷ us) a (inr c) =
    let (v, w, p, q, h) = line-Covers P filepath source t us a.1 c in
    (v, w, p, q, rw h (ground arith))

-- With every allocation successful, at most 4096 matches, at most 1024 byte ranges among those that
-- count and a vector that stays below 2^59 lines, no match that counts is lost: where the match at
-- index `i` counts, the vector holds the line of a match of this file that counts, has the same byte
-- range, and has a pattern index at least as high.
pub match_loop-Covers :
    (filepath source : Bytes) (matches : List (QueryMatch × Outcomes)) (vec : LineVec) (i : ℕ)
    (m : QueryMatch) (t : Tagged)
    → All (λ p. AllOk p.1) matches
    → length matches ≤ max_matches_per_file
    → length (best source (map (λ p. p.0) matches) []) ≤ dedup_cap
    → len vec + length matches < 2 ^ 59
    → get_elem? (map (λ p. p.0) matches) i ≡ some m
    → tagged source m ≡ some t
    → (s : Seen) × (u : Tagged) × (match_loop filepath source matches 0
          (record { vec = vec; seen = dedup_init })
        ≡ some s)
      × IsMatch source (map (λ p. p.0) matches) u
      × (same_place t u ≡ true)
      × (t.pattern ≤ u.pattern)
      × (has (line_for filepath source u) s.vec.items ≡ true)
match_loop-Covers filepath source matches vec i m t ok few ranges small e k =
    let (s, run, items) = match_loop-best filepath source matches vec ok few ranges small in
    let found = map (λ p. p.0) matches in
    let own = best-All (IsMatch source found) source found [] (λ j n v a b. (j, n, a, b)) tt in
    let (u, w, p, q, h) =
      line-Covers (IsMatch source found) filepath source t _ own
        (best-Covers_match t source found [] i m e k) in
    (s, u, run, w, p, q, rw items (has-appended (line_for filepath source u) vec.items _ h))
