-- ===== src/Heap/Order.antt =====
-- The heap order on an array of lines, given as a function of the index, and how an exchange of a
-- parent and a child restores it.
use tsag.Base.{
  ℕ, zero, suc, ◌+◌, ◌-◌, ◌*◌, ◌/◌, ◌<◌, ◌≡◌, ◌≢◌, true, false, arith, Bytes, ltb, ◌==◌,
  if◌then◌else◌, str_le, str_lt, str_le_trans, str_le_refl, str_lt→le, not_str_lt→le, ◌⊎◌, dec_lt,
}

abbrev pub parent : ℕ → ℕ
parent c = (c - 1) / 2

-- Each line but the first is at or above its parent's.
abbrev pub IsOrdered : ℕ → (ℕ → Bytes) → Type 0
IsOrdered n f = (c : ℕ) → 0 < c → c < n → str_le (f (parent c)) (f c) ≡ true

-- In order but for the edge above `i`.
pub record IsOrderedAbove (n : ℕ) (f : ℕ → Bytes) (i : ℕ) : Type 0 where
  pub edges : (c : ℕ) → 0 < c → c < n → c ≢ i → str_le (f (parent c)) (f c) ≡ true
  pub bridge : (c : ℕ) → 0 < c → c < n → parent c ≡ i → 0 < i → str_le (f (parent i)) (f c) ≡ true

-- In order but for the edges below `i`.
pub record IsOrderedBelow (n : ℕ) (f : ℕ → Bytes) (i : ℕ) : Type 0 where
  pub edges : (c : ℕ) → 0 < c → c < n → parent c ≢ i → str_le (f (parent c)) (f c) ≡ true
  pub bridge : (c : ℕ) → 0 < c → c < n → parent c ≡ i → 0 < i → str_le (f (parent i)) (f c) ≡ true

root_least_below :
    (k n : ℕ) (f : ℕ → Bytes) (i : ℕ) → IsOrdered n f → i < k → i < n → str_le (f 0) (f i) ≡ true
root_least_below zero n f i h lt ln = elim lt [ ]
root_least_below (suc k) n f zero h lt ln = str_le_refl (f 0)
root_least_below (suc k) n f (suc i) h lt ln =
    str_le_trans (f 0) (f (parent (suc i))) (f (suc i))
      (root_least_below k n f (parent (suc i)) h (omega arith) (omega arith))
      (h (suc i) (omega arith) ln)

pub root_least : (n : ℕ) (f : ℕ → Bytes) (i : ℕ) → IsOrdered n f → i < n → str_le (f 0) (f i) ≡ true
root_least n f i h ln = root_least_below (suc i) n f i h (omega arith) ln

module _ (n : ℕ) (f g : ℕ → Bytes) (i j : ℕ) where
  -- `g` is `f` with the lines at `i` and `j` exchanged.
  abbrev pub Exchanged : Type 0
  Exchanged = (c : ℕ) → g c ≡ (if j == c then f i else if i == c then f j else f c)

-- A line below its parent's changes places with it.
module _ (n : ℕ) (f g : ℕ → Bytes) (i : ℕ) where
  pub rise :
      Exchanged n f g (parent i) i
      → 0 < i
      → i < n
      → str_lt (f i) (f (parent i)) ≡ true
      → IsOrderedAbove n f i
      → IsOrderedAbove n g (parent i)
  rise sw pos lt below inv = record {
    edges = λ c p q ne. ground (
      arith,
      sw c,
      sw (parent c),
      inv.edges c p q,
      inv.bridge c p q,
      str_lt→le (f i) (f (parent i)) below,
      str_le_trans (f i) (f (parent i)) (f c),
    );
    bridge = λ c p q e pos'. ground (
      arith,
      sw c,
      sw (parent (parent i)),
      inv.edges c p q,
      inv.edges (parent i),
      str_le_trans (f (parent (parent i))) (f (parent i)) (f c),
    );
  }

-- The upward sift stops at the root, or above a parent that is not above.
pub risen_root : (n : ℕ) (f : ℕ → Bytes) → IsOrderedAbove n f 0 → IsOrdered n f
risen_root n f inv = λ c p q. inv.edges c p q (omega arith)

pub risen :
    (n : ℕ) (f : ℕ → Bytes) (i : ℕ)
    → str_lt (f i) (f (parent i)) ≡ false
    → IsOrderedAbove n f i
    → IsOrdered n f
risen n f i stop inv =
    λ c p q. ground (arith, inv.edges c p q, not_str_lt→le (f i) (f (parent i)) stop)

-- The index that `smallest_of` computes, on lines.
abbrev pub smaller : (ℕ → Bytes) → ℕ → ℕ → ℕ → ℕ
smaller f n c s = if ltb c n then (if str_lt (f c) (f s) then c else s) else s

pub record IsSmallest (n : ℕ) (f : ℕ → Bytes) (i s : ℕ) : Type 0 where
  pub child : s ≢ i → (parent s ≡ i) × (i < s) × (s < n)
  pub least_here : str_le (f s) (f i) ≡ true
  pub least : (c : ℕ) → 0 < c → c < n → parent c ≡ i → str_le (f s) (f c) ≡ true

smaller_le :
    (f : ℕ → Bytes) (n c s : ℕ)
    → (str_le (f (smaller f n c s)) (f s) ≡ true)
      × (c < n → str_le (f (smaller f n c s)) (f c) ≡ true)
      × ((smaller f n c s ≡ s) ⊎ ((smaller f n c s ≡ c) × (c < n)))
smaller_le f n c s =
    ground (
      arith,
      str_le_refl (f s),
      str_le_refl (f c),
      str_lt→le (f c) (f s),
      not_str_lt→le (f c) (f s),
    )

-- What the two tests of a call establish, the first with result `s` and the second with `t`.
two_tests :
    (n : ℕ) (f : ℕ → Bytes) (i s t : ℕ)
    → (str_le (f s) (f i) ≡ true)
      × (i * 2 + 1 < n → str_le (f s) (f (i * 2 + 1)) ≡ true)
      × ((s ≡ i) ⊎ ((s ≡ i * 2 + 1) × (i * 2 + 1 < n)))
    → (str_le (f t) (f s) ≡ true)
      × (i * 2 + 2 < n → str_le (f t) (f (i * 2 + 2)) ≡ true)
      × ((t ≡ s) ⊎ ((t ≡ i * 2 + 2) × (i * 2 + 2 < n)))
    → IsSmallest n f i t
two_tests n f i s t (le_i, le_l, at_s) (le_s, le_r, at_t) = record {
  child = λ ne. omega arith;
  least_here = str_le_trans (f t) (f s) (f i) le_s le_i;
  least = λ c p q e. elim (dec_lt c (i * 2 + 2)) [
    | yes lt ↦
        let left : c ≡ i * 2 + 1 = omega arith in
        rw left (str_le_trans (f t) (f s) (f (i * 2 + 1)) le_s (le_l (omega arith)))
    | no ge ↦ let right : c ≡ i * 2 + 2 = omega arith in rw right (le_r (omega arith))
  ];
}

pub smaller_two :
    (n : ℕ) (f : ℕ → Bytes) (i : ℕ)
    → IsSmallest n f i (smaller f n (i * 2 + 2) (smaller f n (i * 2 + 1) i))
smaller_two n f i =
    let s = smaller f n (i * 2 + 1) i in
    two_tests n f i s _ (smaller_le f n (i * 2 + 1) i) (smaller_le f n (i * 2 + 2) s)

-- A line above its least child changes places with it.
pub sink :
    (n : ℕ) (f g : ℕ → Bytes) (i s : ℕ)
    → Exchanged n f g s i
    → s ≢ i
    → IsSmallest n f i s
    → IsOrderedBelow n f i
    → IsOrderedBelow n g s
sink n f g i s sw ne small inv =
    let (up, lt, ln) = small.child ne in
    record {
      edges = λ c p q off. ground (
        arith,
        sw c,
        sw (parent c),
        inv.edges c p q,
        inv.bridge s,
        small.least_here,
        small.least c p q,
      );
      bridge = λ c p q e pos. ground (arith, sw c, sw (parent s), inv.edges c p q);
    }

-- The downward sift stops where no child is below.
pub sunk :
    (n : ℕ) (f : ℕ → Bytes) (i : ℕ) → IsSmallest n f i i → IsOrderedBelow n f i → IsOrdered n f
sunk n f i small inv = λ c p q. ground (arith, inv.edges c p q, small.least c p q)
