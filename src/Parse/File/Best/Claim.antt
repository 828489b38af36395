-- ===== src/Parse/File/Best/Claim.antt =====
-- `dedup_claim` on a table that stands for the matches kept.
use tsag.Base.{
  zero, lt→ltb, le→ltb, Bytes, Option, none, some, ℕ, suc, ◌+◌, ◌≤◌, ◌<◌, ◌≡◌, refl, ap, true,
  false, arith, List, [], ◌∷◌, ◌++◌, All, length, set, get_or, leb, Bool-cases, inl, inr,
}
use tsag.LineVec.Dedup.{dedup_cap, DedupEntry, Claim, drop, survive, claim_loop}
use tsag.Parse.Match.{QueryMatch}
use tsag.Parse.File.Best.{
  tagged, keep?, best, Tagged, same_place, keep, has_place, table_of, Kept, keep_in,
}

-- The three answers of a claim, and what `keep` does in each case.
pub data Answer (size n : ℕ) (ts : List Tagged) (t : Tagged) (r : Claim × List DedupEntry)
    : Type 0 where
  fresh :
      r ≡ (survive size, table_of n ts)
      → keep t ts ≡ ts ++ t ∷ []
      → has_place t ts ≡ false
      → Answer size n ts t r
  low : r ≡ (drop, table_of n ts) → keep t ts ≡ ts → has_place t ts ≡ true → Answer size n ts t r
  over :
      (i : ℕ)
      → i < length ts
      → r ≡ (survive (n + i), table_of n (set ts i t))
      → keep t ts ≡ set ts i t
      → same_place t (get_or ts i t) ≡ true
      → has_place t ts ≡ true
      → Answer size n ts t r

pub claim_loop-Answer :
    (size n : ℕ) (ts : List Tagged) (t : Tagged)
    → Answer size n ts t (claim_loop (table_of n ts) t.info.start t.info.end t.pattern size)
unfolding claim_loop keep table_of has_place
claim_loop-Answer size n [] t = fresh refl refl refl
claim_loop-Answer size n (u ∷ us) t = elim (Bool-cases (same_place t u)) [
  | inl same ↦ elim (Bool-cases (leb t.pattern u.pattern)) [
    | inl lower ↦ low (rw (same, lower)) (rw (same, lower)) (rw same refl)
    | inr higher ↦ over 0 (omega arith) (ground arith) (rw (same, higher)) same (rw same refl)
  ]
  | inr other ↦ further other (claim_loop-Answer size (n + 1) us t)
]
  where
    further :
        same_place t u ≡ false
        → Answer size
            (n + 1)
            us
            t
            (claim_loop (table_of (n + 1) us) t.info.start t.info.end t.pattern size)
        → Answer size n
            (u ∷ us)
            t
            (claim_loop (table_of n (u ∷ us)) t.info.start t.info.end t.pattern size)
    further other (fresh e k h) = fresh (rw (other, e)) (rw (other, k)) (rw other h)
    further other (low e k h) = low (rw (other, e)) (rw (other, k)) (rw other h)
    further other (over i lt e k s h) =
        let shift : n + 1 + i ≡ n + suc i = omega arith in
        over (suc i) (omega arith) (rw (other, e, shift)) (rw (other, k)) s (rw other h)

pub keep-All {κ} :
    (P : Tagged → Type κ) (t : Tagged) (ts : List Tagged) → P t → All P ts → All P (keep t ts)
unfolding keep
keep-All P t [] p a = (p, tt)
keep-All P t (u ∷ us) p a = elim (Bool-cases (same_place t u)) [
  | inl same ↦ elim (Bool-cases (leb t.pattern u.pattern)) [
    | inl lower ↦ rw (same, lower) a
    | inr higher ↦ rw (same, higher) (p, a.1)
  ]
  | inr other ↦ rw other (a.0, keep-All P t us p a.1)
]

pub length-keep : (t : Tagged) (ts : List Tagged) → length ts ≤ length (keep t ts)
unfolding keep
length-keep t [] = omega arith
length-keep t (u ∷ us) = ground (arith, length-keep t us)

pub length-table_of : (n : ℕ) (ts : List Tagged) → length (table_of n ts) ≡ length ts
unfolding table_of
length-table_of n [] = refl
length-table_of n (t ∷ ts) = ap suc (length-table_of (n + 1) ts)

pub table_of-append :
    (n : ℕ) (ts : List Tagged) (t : Tagged)
    → table_of n (ts ++ t ∷ [])
      ≡ table_of n ts
        ++ record {
          start = t.info.start;
          end = t.info.end;
          pattern = t.pattern;
          idx = n + length ts;
        }
          ∷ []
unfolding table_of
table_of-append n [] t = ground arith
table_of-append n (u ∷ us) t =
    let shift : n + 1 + length us ≡ n + suc (length us) = omega arith in
    rw (table_of-append (n + 1) us t, shift)

length-keep? : (t : Option Tagged) (ts : List Tagged) → length ts ≤ length (keep? t ts)
unfolding keep?
length-keep? none ts = omega arith
length-keep? (some t) ts = length-keep t ts

-- What is kept stays: the number of ranges does not fall.
pub length-best :
    (source : Bytes) (matches : List QueryMatch) (ts : List Tagged)
    → length ts ≤ length (best source matches ts)
unfolding best
length-best source [] ts = omega arith
length-best source (m ∷ matches) ts = omega (
  arith,
  length-keep? (tagged source m) ts,
  length-best source matches (keep? (tagged source m) ts),
)

pub keep-length-le : (t : Tagged) (ts : List Tagged) → length (keep t ts) ≤ length ts + 1
unfolding keep
keep-length-le t [] = omega arith
keep-length-le t (u ∷ us) = ground (arith, keep-length-le t us)

pub keep?-length-le : (t : Option Tagged) (ts : List Tagged) → length (keep? t ts) ≤ length ts + 1
unfolding keep?
keep?-length-le none ts = omega arith
keep?-length-le (some t) ts = keep-length-le t ts

pub set-front :
    (xs ys : List Tagged) (i : ℕ) (t : Tagged)
    → i < length xs
    → set (xs ++ ys) i t ≡ set xs i t ++ ys
set-front [] ys i t lt = elim lt [ ]
set-front (x ∷ xs) ys zero t lt = refl
set-front (x ∷ xs) ys (suc i) t lt = ap (λ l. x ∷ l) (set-front xs ys i t (omega arith))

pub keep_in-place :
    (t : Tagged) (k : Kept)
    → has_place t k.tracked ≡ true
    → keep_in t k ≡ record k { tracked = keep t k.tracked }
unfolding keep_in
keep_in-place t k h = rw h refl

pub keep_in-room :
    (t : Tagged) (k : Kept)
    → length k.tracked < dedup_cap
    → keep_in t k ≡ record k { tracked = keep t k.tracked }
unfolding keep_in
keep_in-room t k room = elim (Bool-cases (has_place t k.tracked)) [
  | inl h ↦ rw h refl
  | inr h ↦ rw (h, lt→ltb (length k.tracked) dedup_cap room) refl
]

pub keep_in-extra :
    (t : Tagged) (k : Kept)
    → has_place t k.tracked ≡ false
    → dedup_cap ≤ length k.tracked
    → keep_in t k ≡ record k { extra = k.extra ++ t ∷ [] }
unfolding keep_in
keep_in-extra t k h full = rw (h, le→ltb (length k.tracked) dedup_cap full) refl
