-- ===== src/Lang/Cache/Safety.antt =====
-- The reachable states of the threads in `lang_cache_get`, and what their callers get.
use tsag.Base.{
  ℕ, ◌+◌, ◌≤◌, ◌≡◌, ◌≢◌, ◌⊎◌, refl, sym, ◌∙◌, ap, subst, true, arith, List, [], ◌∷◌, ◌++◌, map,
  Option, none, some, Bytes, length, get_elem?, set, get_elem?-map_inv, str_eq, Bool-cases,
  Option-cases, inl, inr,
}
use tsag.Base.Sums.{total}
use tsag.Lang.{ExtLang, ext_lang, ext_to_lang, has_query, queries, lang_loop}
use tsag.Lang.Extension.{ext_to_lang-has_query}
use tsag.Lang.Load.{LangEntry, Load}
use tsag.Lang.Load.Laws.{IsBalanced, load_lang-IsBalanced}
use tsag.Lang.Cache.{LangCache, no_room, new_cache, lang_row, look, insert}
use tsag.Lang.Cache.Threads.{
  asks, waits, loads, loaded, returns, System, called, Step, looking, loading, inserting, Stray,
  stray, Reach, start, later, woken, again,
}
use tsag.Lang.Cache.Arrays.{IsPooled, row_hit, entry_hit}
use tsag.Lang.Cache.Names.{few_names}
use tsag.Lang.Cache.Invariant.{owner, IsPlaced, Inv, moves-Inv}
use tsag.Lang.Cache.Inserts.{inserting-Inv, has_room}
use tsag.Lang.Cache.Looks.{looking-Inv, look-no_room}

row-lang :
    (rows : List ExtLang) (ext : Bytes) (r : ExtLang)
    → lang_row rows ext ≡ some r
    → lang_loop rows ext ≡ some r.name
unfolding lang_row lang_loop
row-lang [] ext r e = absurd (cc e)
row-lang (x ∷ rows) ext r e = elim (Bool-cases (str_eq ext x.ext)) [
  | inl p ↦ let same : x ≡ r = cc (rw p at e) in rw p (ap (λ y. some (ExtLang.name y)) same)
  | inr p ↦ rw p (row-lang rows ext r (rw p at e))
]

called-IsPlaced : (c : LangCache) (ext : Bytes) → IsPlaced c (called (lang_row ext_lang ext))
unfolding called ext_to_lang
called-IsPlaced c ext = elim (Option-cases (lang_row ext_lang ext)) [
  | inl e ↦ rw e tt
  | inr (r, e) ↦ rw e (ext_to_lang-has_query ext r.name (row-lang ext_lang ext r e))
]

owner-called : (t : Bytes) (r : Option ExtLang) → owner t (called r) ≡ 0
unfolding owner called
owner-called t none = refl
owner-called t (some r) = refl

-- Nobody holds a language at the start.
idle :
    (t : Bytes) (exts : List Bytes)
    → total (owner t) (map (λ x. called (lang_row ext_lang x)) exts) ≡ 0
unfolding total
idle t [] = refl
idle t (x ∷ exts) = omega (arith, owner-called t (lang_row ext_lang x), idle t exts)

start-Inv :
    (exts : List Bytes)
    → Inv (record { cache = new_cache; pcs = map (λ x. called (lang_row ext_lang x)) exts })
unfolding new_cache total
start-Inv exts = record {
  owned = λ t. sym (idle t exts);
  once = λ t. omega arith;
  rows = refl;
  entries = refl;
  placed = λ i p e.
      let (x, f, q) = get_elem?-map_inv (λ y. called (lang_row ext_lang y)) exts i p e in
      subst (IsPlaced (record { entries = []; loading = [] })) q
        (called-IsPlaced (record { entries = []; loading = [] }) x);
}

named :
    (l : Load) (r : ExtLang)
    → IsBalanced r.name l
    → (l.result ≡ none) ⊎ ((e : LangEntry) × (l.result ≡ some e) × (e.name ≡ some r.name))
named l r (inl b) = inl (b.0)
named l r (inr (e, q, n, kept, freed)) = inr (e, q, n)

loading-Inv :
    (s : System) (i : ℕ) (r : ExtLang) (l : Load)
    → Inv s
    → get_elem? s.pcs i ≡ some (loads r)
    → IsBalanced r.name l
    → Inv (record s { pcs = set s.pcs i (loaded r l.result) })
unfolding owner
loading-Inv s i r l inv here b =
    moves-Inv s i (loads r) (loaded r l.result) inv here (λ t. refl)
      (known l.result (named l r b) (inv.placed i (loads r) here))
  where
    known :
        (x : Option LangEntry)
        → (x ≡ none) ⊎ ((e : LangEntry) × (x ≡ some e) × (e.name ≡ some r.name))
        → has_query queries r.name ≡ true
        → IsPlaced s.cache (loaded r x)
    known none b h = h
    known (some e) (inl b) h = absurd (cc b)
    known (some e) (inr (y, q, n)) h =
        let same : y ≡ e = cc q in (h, ap (λ z. LangEntry.name z) (sym same) ∙ n)

module _ (addr : ExtLang → ℕ) (pooled : IsPooled addr) (dir : Bytes) where
  Step-Inv : {s t : System} → Inv s → Step addr dir s t → Inv t
  Step-Inv {s} inv (looking i r here) = looking-Inv addr pooled s i r inv here
  Step-Inv {s} inv (loading i r w l here ok e) =
      let (m, f, b) = load_lang-IsBalanced w dir r.name ok in
      let same : m ≡ l = cc (f, e) in
      loading-Inv s i r l inv here (subst (IsBalanced r.name) same b)
  Step-Inv {s} inv (inserting i r e here) = inserting-Inv addr pooled s i r e inv here

  Stray-Inv : {s t : System} → Inv s → Stray s t → Inv t
  unfolding owner
  Stray-Inv {s} inv (stray i r here) =
      moves-Inv s i (waits r) (asks r) inv here (λ t. refl) ((inv.placed i (waits r) here).0)

  pub Reach-Inv : (exts : List Bytes) (s : System) → Reach addr dir exts s → Inv s
  unfolding owner
  Reach-Inv exts s start = start-Inv exts
  Reach-Inv exts s (later {s = before} before_IsReached step) =
      Step-Inv (Reach-Inv exts before before_IsReached) step
  Reach-Inv exts s (woken {s = before} before_IsReached step) =
      Stray-Inv (Reach-Inv exts before before_IsReached) step
  Reach-Inv exts s (again {s = before} i r k ext before_IsReached here) =
      moves-Inv before i (returns r k) (called (lang_row ext_lang ext))
        (Reach-Inv exts before before_IsReached) here
        (λ t. sym (owner-called t (lang_row ext_lang ext))) (called-IsPlaced before.cache ext)

  -- However the threads interleave, each language is in the cache at most once and is loaded by at
  -- most one thread at a time, never while it is in the cache, and the marks in `loading` are those
  -- of the threads that load. Names are taken to have equal addresses exactly where they are equal.
  pub Reach-loads_once :
      (exts : List Bytes) (s : System)
      → Reach addr dir exts s
      → (t : Bytes)
      → (total (owner t) s.pcs + total (entry_hit t) s.cache.entries ≤ 1)
        × (total (row_hit t) s.cache.loading ≡ total (owner t) s.pcs)
  Reach-loads_once exts s reached t =
      let inv = Reach-Inv exts s reached in (omega (arith, inv.once t, inv.owned t), inv.owned t)

  -- However the threads interleave, a call of `lang_cache_get` that returns an entry returns one of
  -- the cache, and the entry has the name in the row of `EXT_LANG` that the call found. Names are
  -- taken to have equal addresses exactly where they are equal.
  pub Reach-returns :
      (exts : List Bytes) (s : System)
      → Reach addr dir exts s
      → (i k : ℕ) (r : ExtLang) → get_elem? s.pcs i ≡ some (returns r (some k))
      → (e : LangEntry) × (get_elem? s.cache.entries k ≡ some e) × (e.name ≡ some r.name)
  Reach-returns exts s reached i k r here =
      let (known, e, there, same) = (Reach-Inv exts s reached).placed i (returns r (some k)) here in
      (e, there, same)

  -- However the threads interleave, the two arrays hold at most nine languages together, so the
  -- first section never reports that there are too many, and an entry that was loaded is always
  -- inserted behind the others. Names are taken to have equal addresses exactly where they are equal.
  pub Reach-has_room :
      (exts : List Bytes) (s : System)
      → Reach addr dir exts s
      → (length s.cache.loading + length s.cache.entries ≤ 9)
        × ((r : ExtLang) → look addr s.cache r ≢ no_room)
        × ((r : ExtLang) (e : LangEntry)
            → (insert addr s.cache r (some e)).cache.entries ≡ s.cache.entries ++ e ∷ [])
  unfolding insert
  Reach-has_room exts s reached =
      let inv = Reach-Inv exts s reached in
      (
        few_names s.cache.loading s.cache.entries inv.once inv.rows inv.entries,
        look-no_room addr pooled s inv,
        λ r e. rw (has_room addr pooled s inv) refl,
      )
