-- ===== src/Lang/Cache/Invariant.antt =====
-- The invariant of the cache and the threads in `lang_cache_get`.
use tsag.Base.{
  ℕ, ◌+◌, ◌≤◌, ◌<◌, ◌≡◌, refl, subst, true, false, arith, [], ◌∷◌, ◌++◌, none, some, Bytes,
  get_elem?, set, get_elem?-set_cases, str_eq, str_eq→eq, Bool-cases, inl, inr,
}
use tsag.Base.Sums.{total, total-snoc, total-set}
use tsag.Lang.{ExtLang, has_query, queries}
use tsag.Lang.Load.{LangEntry}
use tsag.Lang.Cache.{LangCache}
use tsag.Lang.Cache.Threads.{Pc, asks, waits, loads, loaded, returns, unknown, System}
use tsag.Lang.Cache.Arrays.{row_hit, entry_hit}
use tsag.Lang.Cache.Names.{strange, strange_row, strange_entry}

-- 1 for a thread that loads the grammar of that name.
unfoldable pub owner : Bytes → Pc → ℕ
owner t (asks r) = 0
owner t (waits r) = 0
owner t (loads r) = row_hit t r
owner t (loaded r e) = row_hit t r
owner t (returns r k) = 0
owner t unknown = 0

-- What a thread's place says of the cache.
abbrev pub IsPlaced : LangCache → Pc → Type 0
IsPlaced c (asks r) = has_query queries r.name ≡ true
IsPlaced c (waits r) = (has_query queries r.name ≡ true) × (0 < total (row_hit r.name) c.loading)
IsPlaced c (loads r) = has_query queries r.name ≡ true
IsPlaced c (loaded r none) = has_query queries r.name ≡ true
IsPlaced c (loaded r (some e)) = (has_query queries r.name ≡ true) × (e.name ≡ some r.name)
IsPlaced c (returns r none) = has_query queries r.name ≡ true
IsPlaced c (returns r (some k)) =
    (has_query queries r.name ≡ true)
    × (e : LangEntry) × (get_elem? c.entries k ≡ some e)
    × (e.name ≡ some r.name)
IsPlaced c unknown = Unit

pub record Inv (s : System) : Type 0 where
  pub owned : (t : Bytes) → total (row_hit t) s.cache.loading ≡ total (owner t) s.pcs
  pub once :
      (t : Bytes) → total (row_hit t) s.cache.loading + total (entry_hit t) s.cache.entries ≤ 1
  pub rows : total strange_row s.cache.loading ≡ 0
  pub entries : total strange_entry s.cache.entries ≡ 0
  pub placed : (i : ℕ) (p : Pc) → get_elem? s.pcs i ≡ some p → IsPlaced s.cache p

-- A thread moves and the cache stays.
pub moves-Inv :
    (s : System) (i : ℕ) (p q : Pc)
    → Inv s
    → get_elem? s.pcs i ≡ some p
    → ((t : Bytes) → owner t p ≡ owner t q)
    → IsPlaced s.cache q
    → Inv (record s { pcs = set s.pcs i q })
moves-Inv s i p q inv here same new = record {
  owned = λ t. omega (arith, inv.owned t, total-set (owner t) s.pcs i p q here, same t);
  once = inv.once;
  rows = inv.rows;
  entries = inv.entries;
  placed = λ j r e. elim (get_elem?-set_cases s.pcs i j q r e) [
    | inl now ↦ subst (IsPlaced s.cache) now new
    | inr old ↦ inv.placed j r old
  ];
}

row_hit-zero : (t : Bytes) (r : ExtLang) → str_eq r.name t ≡ false → row_hit t r ≡ 0
unfolding row_hit
row_hit-zero t r e = rw e refl

row_hit-one : (t : Bytes) (r : ExtLang) → row_hit t r ≤ 1
unfolding row_hit
row_hit-one t r = ground arith

-- A longer list of loads keeps every thread in its place.
more-IsPlaced :
    (c : LangCache) (r : ExtLang) (p : Pc)
    → IsPlaced c p
    → IsPlaced (record c { loading = c.loading ++ r ∷ [] }) p
more-IsPlaced c r (asks x) h = h
more-IsPlaced c r (waits x) h = (h.0, omega (arith, h.1, total-snoc (row_hit x.name) c.loading r))
more-IsPlaced c r (loads x) h = h
more-IsPlaced c r (loaded x none) h = h
more-IsPlaced c r (loaded x (some e)) h = h
more-IsPlaced c r (returns x none) h = h
more-IsPlaced c r (returns x (some k)) h = h
more-IsPlaced c r unknown h = h

-- A thread that is the first to load marks its language.
pub marks-Inv :
    (s : System) (i : ℕ) (r : ExtLang)
    → Inv s
    → get_elem? s.pcs i ≡ some (asks r)
    → total (row_hit r.name) s.cache.loading ≡ 0
    → total (entry_hit r.name) s.cache.entries ≡ 0
    → Inv (record {
      cache = record s.cache { loading = s.cache.loading ++ r ∷ [] };
      pcs = set s.pcs i (loads r);
    })
unfolding owner strange
marks-Inv s i r inv here none_loading none_there =
    let c = s.cache in
    let known = inv.placed i (asks r) here in
    record {
      owned = λ t. omega (
        arith,
        inv.owned t,
        total-snoc (row_hit t) c.loading r,
        total-set (owner t) s.pcs i (asks r) (loads r) here,
      );
      once = λ t. elim (Bool-cases (str_eq r.name t)) [
        | inl e ↦
            subst (λ n. total (row_hit n) (c.loading ++ r ∷ []) + total (entry_hit n) c.entries ≤ 1)
              (str_eq→eq r.name t e)
              (omega (
                arith,
                none_loading,
                none_there,
                total-snoc (row_hit r.name) c.loading r,
                row_hit-one r.name r,
              ))
        | inr e ↦ omega (arith, inv.once t, total-snoc (row_hit t) c.loading r, row_hit-zero t r e)
      ];
      rows = ground (arith, inv.rows, known, total-snoc strange_row c.loading r);
      entries = inv.entries;
      placed = λ j p e. elim (get_elem?-set_cases s.pcs i j (loads r) p e) [
        | inl now ↦ subst (IsPlaced (record c { loading = c.loading ++ r ∷ [] })) now known
        | inr old ↦ more-IsPlaced c r p (inv.placed j p old)
      ];
    }
