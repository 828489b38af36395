-- ===== src/Lang/Cache/Inserts.antt =====
-- The second critical section of `lang_cache_get` and the invariant.
use tsag.Base.{
  ℕ, ◌+◌, ◌≤◌, ◌<◌, ◌≡◌, refl, ◌∙◌, subst, true, arith, List, [], ◌∷◌, ◌++◌, map, Option, none,
  some, Bytes, length, get_elem?, set, get_elem?-set_cases, get_elem?-append, get_elem?-last,
  get_elem?-map, get_elem?-map_inv, ltb, str_eq, str_eq_refl, inl, inr,
}
use tsag.Base.Sums.{bit, total, total-snoc, total-set, le-total}
use tsag.Lang.{ExtLang, has_query, queries}
use tsag.Lang.Load.{LangEntry}
use tsag.Lang.Cache.{LangCache, insert, unmark, max_langs}
use tsag.Lang.Cache.Threads.{
  Pc, asks, waits, loads, loaded, returns, unknown, System, wake, after_insert,
}
use tsag.Lang.Cache.Arrays.{IsPooled, row_hit, entry_hit, unmark-total}
use tsag.Lang.Cache.Names.{strange, strange_row, strange_entry, few_names, entry_hit-name}
use tsag.Lang.Cache.Invariant.{owner, IsPlaced, Inv}

owner-wake : (t : Bytes) (p : Pc) → owner t (wake p) ≡ owner t p
unfolding owner wake
owner-wake t (asks r) = refl
owner-wake t (waits r) = refl
owner-wake t (loads r) = refl
owner-wake t (loaded r e) = refl
owner-wake t (returns r k) = refl
owner-wake t unknown = refl

pub total-owner-wake :
    (t : Bytes) (ps : List Pc) → total (owner t) (map wake ps) ≡ total (owner t) ps
unfolding total
total-owner-wake t [] = refl
total-owner-wake t (p ∷ ps) = omega (arith, owner-wake t p, total-owner-wake t ps)

-- A thread that is woken finds its entries where they were.
wake-IsPlaced :
    (c d : LangCache) (p : Pc)
    → ((k : ℕ) (e : LangEntry) → get_elem? c.entries k ≡ some e → get_elem? d.entries k ≡ some e)
    → IsPlaced c p
    → IsPlaced d (wake p)
unfolding wake
wake-IsPlaced c d (asks x) keep h = h
wake-IsPlaced c d (waits x) keep h = h.0
wake-IsPlaced c d (loads x) keep h = h
wake-IsPlaced c d (loaded x none) keep h = h
wake-IsPlaced c d (loaded x (some e)) keep h = h
wake-IsPlaced c d (returns x none) keep h = h
wake-IsPlaced c d (returns x (some k)) keep h = let (q, e, g, n) = h in (q, e, keep k e g, n)
wake-IsPlaced c d unknown keep h = h

row_hit_self : (r : ExtLang) → row_hit r.name r ≡ 1
unfolding row_hit
row_hit_self r = rw (str_eq_refl r.name) refl

loaded-known :
    (c : LangCache) (r : ExtLang) (e : Option LangEntry)
    → IsPlaced c (loaded r e)
    → has_query queries r.name ≡ true
loaded-known c r none h = h
loaded-known c r (some e) h = h.0

module _ (addr : ExtLang → ℕ) (pooled : IsPooled addr) where
  -- A language that a thread loads is marked.
  marked :
      (s : System) (i : ℕ) (r : ExtLang) (e : Option LangEntry)
      → Inv s
      → get_elem? s.pcs i ≡ some (loaded r e)
      → 0 < total (row_hit r.name) s.cache.loading
  unfolding owner
  marked s i r e inv here =
      omega
        (arith, inv.owned r.name, row_hit_self r, le-total (owner r.name) s.pcs i (loaded r e) here)

  unmarked :
      (t : Bytes) (ls : List ExtLang) (r : ExtLang)
      → 0 < total (row_hit r.name) ls
      → total (row_hit t) (unmark addr ls r) + row_hit t r ≡ total (row_hit t) ls
  unfolding row_hit
  unmarked t ls r h =
      let (l, n, e) = unmark-total addr pooled (row_hit t) ls r h in
      subst (λ m. total (row_hit t) (unmark addr ls r) + bit (str_eq m t) ≡ total (row_hit t) ls) n
        e

  -- The mark goes, and the entries become `es`.
  unmarks-Inv :
      (s : System) (i : ℕ) (r : ExtLang) (e : Option LangEntry) (es : List LangEntry) (k : Option ℕ)
      → Inv s
      → get_elem? s.pcs i ≡ some (loaded r e)
      → ((t : Bytes) → total (entry_hit t) es ≤ total (entry_hit t) s.cache.entries + row_hit t r)
      → total strange_entry es ≡ 0
      → ((j : ℕ) (x : LangEntry) → get_elem? s.cache.entries j ≡ some x → get_elem? es j ≡ some x)
      → IsPlaced (record { entries = es; loading = unmark addr s.cache.loading r }) (returns r k)
      → Inv (record {
        cache = record { entries = es; loading = unmark addr s.cache.loading r };
        pcs = set (map wake s.pcs) i (returns r k);
      })
  unfolding owner wake
  unmarks-Inv s i r e es k inv here few known keep new =
      let ls = s.cache.loading in
      let pos = marked s i r e inv here in
      let (l, n, out) = unmark-total addr pooled strange_row ls r pos in
      record {
        owned = λ t. omega (
          arith,
          inv.owned t,
          unmarked t ls r pos,
          total-owner-wake t s.pcs,
          total-set (owner t) (map wake s.pcs) i (loaded r e) (returns r k)
              (get_elem?-map wake s.pcs i (loaded r e) here),
        );
        once = λ t. omega (arith, inv.once t, few t, unmarked t ls r pos);
        rows = omega (arith, inv.rows, out);
        entries = known;
        placed = λ j p g. elim (get_elem?-set_cases (map wake s.pcs) i j (returns r k) p g) [
          | inl now ↦ subst (IsPlaced (record { entries = es; loading = unmark addr ls r })) now new
          | inr old ↦
              let (x, f, q) = get_elem?-map_inv wake s.pcs j p old in
              subst (IsPlaced (record { entries = es; loading = unmark addr ls r })) q (
                wake-IsPlaced s.cache (record { entries = es; loading = unmark addr ls r }) x keep
                  (inv.placed j x f))
        ];
      }

  -- There is always room for an entry.
  pub has_room : (s : System) → Inv s → ltb (length s.cache.entries) max_langs ≡ true
  has_room s inv =
      ground (arith, few_names s.cache.loading s.cache.entries inv.once inv.rows inv.entries)

  inserts-some :
      (s : System) (i : ℕ) (r : ExtLang) (e : LangEntry)
      → Inv s
      → get_elem? s.pcs i ≡ some (loaded r (some e))
      → Inv (after_insert s i r (insert addr s.cache r (some e)))
  unfolding after_insert insert row_hit strange
  inserts-some s i r e inv here =
      let es = s.cache.entries in
      let known = inv.placed i (loaded r (some e)) here in
      rw (has_room s inv) (
        unmarks-Inv s i r (some e) (es ++ e ∷ []) (some (length es)) inv here
          (λ t. omega (arith, total-snoc (entry_hit t) es e, entry_hit-name t e r.name known.1))
          (total-snoc strange_entry es e ∙ rw (inv.entries, known.1, known.0) refl)
          (get_elem?-append es (e ∷ [])) (known.0, e, get_elem?-last es e, known.1))

  inserts-none :
      (s : System) (i : ℕ) (r : ExtLang)
      → Inv s
      → get_elem? s.pcs i ≡ some (loaded r none)
      → Inv (after_insert s i r (insert addr s.cache r none))
  unfolding after_insert insert
  inserts-none s i r inv here =
      unmarks-Inv s i r none s.cache.entries none inv here (λ t. omega arith) inv.entries
        (λ j x g. g) (inv.placed i (loaded r none) here)

  pub inserting-Inv :
      (s : System) (i : ℕ) (r : ExtLang) (e : Option LangEntry)
      → Inv s
      → get_elem? s.pcs i ≡ some (loaded r e)
      → Inv (after_insert s i r (insert addr s.cache r e))
  inserting-Inv s i r none inv here = inserts-none s i r inv here
  inserting-Inv s i r (some e) inv here = inserts-some s i r e inv here
