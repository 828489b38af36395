-- ===== src/Lang/Cache/Ends.antt =====
-- How many steps the threads in `lang_cache_get` take.
use tsag.Base.{
  ℕ, suc, ◌+◌, ◌*◌, ◌≤◌, ◌<◌, ◌≡◌, ◌⊎◌, refl, ◌∙◌, ap, arith, List, [], ◌∷◌, map, Option, some,
  Bytes, length, length-set, get_elem?, set, get_elem?-map, inl, inr,
}
use native.Mathlib.Nat.{mul-le-mul_right}
use tsag.Base.Sums.{total, total-set, total-le}
use tsag.Lang.{ExtLang}
use tsag.Lang.Cache.{look, insert}
use tsag.Lang.Cache.Threads.{
  Pc, asks, waits, loads, loaded, returns, unknown, System, wake, after_look, after_insert, Step,
  looking, loading, inserting, Reach, later,
}
use tsag.Lang.Cache.Arrays.{IsPooled}
use tsag.Lang.Cache.Invariant.{Inv}
use tsag.Lang.Cache.Looks.{look-cases}
use tsag.Lang.Cache.Safety.{Reach-Inv}
use tsag.Lang.Cache.Progress.{inside}

-- How many sections it has left if nobody wakes it again.
unfoldable left : Pc → ℕ
left (asks r) = 3
left (waits r) = 0
left (loads r) = 2
left (loaded r e) = 1
left (returns r k) = 0
left unknown = 0

left-le : (p : Pc) → left p ≤ 3
unfolding left
left-le (asks r) = omega arith
left-le (waits r) = omega arith
left-le (loads r) = omega arith
left-le (loaded r e) = omega arith
left-le (returns r k) = omega arith
left-le unknown = omega arith

inside-le : (p : Pc) → inside p ≤ 1
unfolding inside
inside-le (asks r) = omega arith
inside-le (waits r) = omega arith
inside-le (loads r) = omega arith
inside-le (loaded r e) = omega arith
inside-le (returns r k) = omega arith
inside-le unknown = omega arith

inside-wake : (p : Pc) → inside (wake p) ≡ inside p
unfolding inside wake
inside-wake (asks r) = refl
inside-wake (waits r) = refl
inside-wake (loads r) = refl
inside-wake (loaded r e) = refl
inside-wake (returns r k) = refl
inside-wake unknown = refl

total-inside-wake : (ps : List Pc) → total inside (map wake ps) ≡ total inside ps
unfolding total
total-inside-wake [] = refl
total-inside-wake (p ∷ ps) = omega (arith, inside-wake p, total-inside-wake ps)

length-wake : (ps : List Pc) → length (map wake ps) ≡ length ps
length-wake [] = refl
length-wake (p ∷ ps) = ap suc (length-wake ps)

total-inside_le : (ps : List Pc) → total inside ps ≤ length ps
unfolding total
total-inside_le [] = omega arith
total-inside_le (p ∷ ps) = omega (arith, inside-le p, total-inside_le ps)

-- A step takes a thread out of the function, or leaves fewer sections to run; the threads are the
-- same.
record Falls (s t : System) : Type 0 where
  size : length t.pcs ≡ length s.pcs
  falls :
      (total inside t.pcs < total inside s.pcs)
      ⊎ ((total inside t.pcs ≡ total inside s.pcs) × (total left t.pcs < total left s.pcs))

-- A thread leaves the function, perhaps after a broadcast.
leaves-Falls :
    (s t : System) (i : ℕ) (p : Pc) (r : ExtLang) (k : Option ℕ) (ps : List Pc)
    → length ps ≡ length s.pcs
    → total inside ps ≡ total inside s.pcs
    → get_elem? ps i ≡ some p
    → inside p ≡ 1
    → t.pcs ≡ set ps i (returns r k)
    → Falls s t
unfolding inside
leaves-Falls s t i p r k ps size same here one after = record {
  size = ap length after ∙ length-set ps i (returns r k) ∙ size;
  falls = inl (
      omega
        (arith, ap (total inside) after, total-set inside ps i p (returns r k) here, same, one));
}

-- A thread goes on inside the function.
stays-Falls :
    (s t : System) (i : ℕ) (p q : Pc)
    → get_elem? s.pcs i ≡ some p
    → inside p ≡ inside q
    → left q < left p
    → t.pcs ≡ set s.pcs i q
    → Falls s t
stays-Falls s t i p q here same less after = record {
  size = ap length after ∙ length-set s.pcs i q;
  falls = inr (
    omega (arith, ap (total inside) after, total-set inside s.pcs i p q here, same),
    omega (arith, ap (total left) after, total-set left s.pcs i p q here, less),
  );
}

module _ (addr : ExtLang → ℕ) (pooled : IsPooled addr) (dir : Bytes) where
  looking-Falls :
      (s : System) (i : ℕ) (r : ExtLang)
      → Inv s
      → get_elem? s.pcs i ≡ some (asks r)
      → Falls s (after_look s i r (look addr s.cache r))
  unfolding inside left
  looking-Falls s i r inv here = elim (look-cases addr pooled s i r inv) [
    | inl (k, e, q) ↦
        leaves-Falls s (after_look s i r (look addr s.cache r)) i (asks r) r (some k) s.pcs refl
          refl here refl (ap (λ t. System.pcs t) q)
    | inr (inl (f, q)) ↦
        stays-Falls s (after_look s i r (look addr s.cache r)) i (asks r) (waits r) here refl
          (omega arith) (ap (λ t. System.pcs t) q)
    | inr (inr (e, f, q)) ↦
        stays-Falls s (after_look s i r (look addr s.cache r)) i (asks r) (loads r) here refl
          (omega arith) (ap (λ t. System.pcs t) q)
  ]

  Step-Falls : {s t : System} → Inv s → Step addr dir s t → Falls s t
  unfolding inside left after_insert wake
  Step-Falls {s} inv (looking i r here) = looking-Falls s i r inv here
  Step-Falls {s} {t} inv (loading i r w l here ok e) =
      stays-Falls s t i (loads r) (loaded r l.result) here refl (omega arith) refl
  Step-Falls {s} {t} inv (inserting i r e here) =
      leaves-Falls s t i (loaded r e) r (insert addr s.cache r e).result (map wake s.pcs)
        (length-wake s.pcs) (total-inside-wake s.pcs) (get_elem?-map wake s.pcs i (loaded r e) here)
        refl refl

  -- `n` steps.
  pub data Run : ℕ → System → System → Type 0 where
    done : {s : System} → Run 0 s s
    and_then : {n : ℕ} {s t u : System} → Step addr dir s t → Run n t u → Run (suc n) s u

  -- With `c` more than all the sections that can be left, each step takes one off this.
  measure : ℕ → System → ℕ
  measure c s = total inside s.pcs * c + total left s.pcs

  Falls-measure :
      (c : ℕ) (s t : System) → Falls s t → 3 * length s.pcs < c → measure c t < measure c s
  unfolding measure
  Falls-measure c s t f big = elim f.falls [
    | inl fewer ↦ omega (arith, big, f.size, total-le left left-le t.pcs, mul-le-mul_right c fewer)
    | inr (same, less) ↦ omega (arith, less, ap (λ u. u * c) same)
  ]

  Run-measure :
      (exts : List Bytes) (n c : ℕ) (s t : System)
      → Reach addr dir exts s
      → 3 * length s.pcs < c
      → Run n s t
      → n + measure c t ≤ measure c s
  Run-measure exts n c s t reached big done = omega arith
  Run-measure exts n c s t reached big (and_then {n = m} {t = next} step rest) =
      let f = Step-Falls (Reach-Inv addr pooled dir exts s reached) step in
      omega (
        arith,
        Falls-measure c s next f big,
        Run-measure exts m c next t (later reached step) (omega (arith, big, f.size)) rest,
      )

  -- The calls of `k` threads end: however they interleave, they take at most `k * (3 * k + 1) + 3 * k`
  -- steps from any reachable state, if no thread wakes without a broadcast or calls again. Names are
  -- taken to have equal addresses exactly where they are equal.
  pub Run-bounded :
      (exts : List Bytes) (n : ℕ) (s t : System)
      → Reach addr dir exts s
      → Run n s t
      → n ≤ length s.pcs * (3 * length s.pcs + 1) + 3 * length s.pcs
  unfolding measure
  Run-bounded exts n s t reached run =
      let c = 3 * length s.pcs + 1 in
      omega (
        arith,
        Run-measure exts n c s t reached (omega arith) run,
        total-le left left-le s.pcs,
        mul-le-mul_right c (total-inside_le s.pcs),
      )
