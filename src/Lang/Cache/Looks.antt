-- ===== src/Lang/Cache/Looks.antt =====
-- The first critical section of `lang_cache_get` and the invariant.
use tsag.Base.{
  ℕ, ◌≡◌, ◌≢◌, ◌⊎◌, refl, sym, ap, subst, true, false, arith, [], ◌∷◌, ◌++◌, Option, none, some,
  Bytes, length, get_elem?, set, ◌==◌, ◌||◌, str_eq→eq, Bool-cases, Option-cases, inl, inr,
}
use tsag.Lang.{ExtLang}
use tsag.Lang.Cache.{no_room, look, find_entry, is_loading, is_named, max_langs}
use tsag.Lang.Cache.Threads.{asks, waits, loads, returns, System, after_look}
use tsag.Lang.Cache.Arrays.{
  IsPooled, find_entry-none, find_entry-some, is_loading-none, is_loading-some,
}
use tsag.Lang.Cache.Names.{few_names}
use tsag.Lang.Cache.Invariant.{owner, Inv, moves-Inv, marks-Inv}

is_named-some : (t : Bytes) (n : Option Bytes) → is_named t n ≡ true → n ≡ some t
unfolding is_named
is_named-some t none e = absurd (cc e)
is_named-some t (some n) e = ap some (str_eq→eq n t e)

module _ (addr : ExtLang → ℕ) (pooled : IsPooled addr) where
  in_flight-Inv :
      (s : System) (i : ℕ) (r : ExtLang)
      → Inv s
      → get_elem? s.pcs i ≡ some (asks r)
      → is_loading addr s.cache.loading r ≡ true
      → Inv (record s { pcs = set s.pcs i (waits r) })
  unfolding owner
  in_flight-Inv s i r inv here e =
      moves-Inv s i (asks r) (waits r) inv here (λ t. refl)
        (inv.placed i (asks r) here, is_loading-some addr pooled s.cache.loading r e)

  hit-Inv :
      (s : System) (i k : ℕ) (r : ExtLang)
      → Inv s
      → get_elem? s.pcs i ≡ some (asks r)
      → find_entry s.cache.entries r.name 0 ≡ some k
      → Inv (record s { pcs = set s.pcs i (returns r (some k)) })
  unfolding owner
  hit-Inv s i k r inv here e =
      let (j, x, q, g, n) = find_entry-some s.cache.entries r.name 0 k e in
      let same : k ≡ j = omega (arith, q) in
      moves-Inv s i (asks r) (returns r (some k)) inv here (λ t. refl)
        (inv.placed i (asks r) here, x, rw same g, is_named-some r.name x.name n)

  -- There is room for a mark.
  roomy :
      (s : System)
      → Inv s
      → ((length s.cache.loading == max_langs) || (length s.cache.entries == max_langs)) ≡ false
  roomy s inv =
      ground (arith, few_names s.cache.loading s.cache.entries inv.once inv.rows inv.entries)

  pub look-no_room : (s : System) → Inv s → (r : ExtLang) → look addr s.cache r ≢ no_room
  unfolding look
  look-no_room s inv r e = elim (Option-cases (find_entry s.cache.entries r.name 0)) [
    | inr (k, f) ↦ cc (rw (f, look) at e)
    | inl f ↦ elim (Bool-cases (is_loading addr s.cache.loading r)) [
      | inl g ↦ cc (rw (f, look, g) at e)
      | inr g ↦ cc (rw (f, look, g, roomy s inv) at e)
    ]
  ]

  look-hit :
      (s : System) (i k : ℕ) (r : ExtLang)
      → find_entry s.cache.entries r.name 0 ≡ some k
      → after_look s i r (look addr s.cache r) ≡ record s { pcs = set s.pcs i (returns r (some k)) }
  unfolding after_look look
  look-hit s i k r e = rw (e, look) refl

  look-in_flight :
      (s : System) (i : ℕ) (r : ExtLang)
      → find_entry s.cache.entries r.name 0 ≡ none
      → is_loading addr s.cache.loading r ≡ true
      → after_look s i r (look addr s.cache r) ≡ record s { pcs = set s.pcs i (waits r) }
  unfolding after_look look
  look-in_flight s i r e f = rw (e, look, f) refl

  look-first :
      (s : System) (i : ℕ) (r : ExtLang)
      → Inv s
      → find_entry s.cache.entries r.name 0 ≡ none
      → is_loading addr s.cache.loading r ≡ false
      → after_look s i r (look addr s.cache r) ≡ record {
        cache = record s.cache { loading = s.cache.loading ++ r ∷ [] };
        pcs = set s.pcs i (loads r);
      }
  unfolding after_look look
  look-first s i r inv e f = rw (e, look, f, roomy s inv) refl

  -- What the first section does to a reachable system: there is an entry, a load in flight, or
  -- neither, and then the caller is the first and there is room.
  pub look-cases :
      (s : System) (i : ℕ) (r : ExtLang)
      → Inv s
      → let after = after_look s i r (look addr s.cache r) in
        ((k : ℕ) × (find_entry s.cache.entries r.name 0 ≡ some k)
          × (after ≡ record s { pcs = set s.pcs i (returns r (some k)) }))
        ⊎ ((is_loading addr s.cache.loading r ≡ true)
            × (after ≡ record s { pcs = set s.pcs i (waits r) }))
        ⊎ ((find_entry s.cache.entries r.name 0 ≡ none)
            × (is_loading addr s.cache.loading r ≡ false)
            × (after ≡ record {
              cache = record s.cache { loading = s.cache.loading ++ r ∷ [] };
              pcs = set s.pcs i (loads r);
            }))
  look-cases s i r inv = elim (Option-cases (find_entry s.cache.entries r.name 0)) [
    | inr (k, e) ↦ inl (k, e, look-hit s i k r e)
    | inl e ↦ elim (Bool-cases (is_loading addr s.cache.loading r)) [
      | inl f ↦ inr (inl (f, look-in_flight s i r e f))
      | inr f ↦ inr (inr (e, f, look-first s i r inv e f))
    ]
  ]

  pub looking-Inv :
      (s : System) (i : ℕ) (r : ExtLang)
      → Inv s
      → get_elem? s.pcs i ≡ some (asks r)
      → Inv (after_look s i r (look addr s.cache r))
  looking-Inv s i r inv here = elim (look-cases s i r inv) [
    | inl (k, e, q) ↦ subst Inv (sym q) (hit-Inv s i k r inv here e)
    | inr (inl (f, q)) ↦ subst Inv (sym q) (in_flight-Inv s i r inv here f)
    | inr (inr (e, f, q)) ↦ subst Inv (sym q) (
        marks-Inv s i r inv here (is_loading-none addr pooled s.cache.loading r f)
          (find_entry-none s.cache.entries r.name 0 e))
  ]
