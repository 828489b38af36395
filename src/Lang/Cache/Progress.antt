-- ===== src/Lang/Cache/Progress.antt =====
-- Which steps the threads in `lang_cache_get` can take.
use tsag.Base.{
  ℕ, ◌<◌, ◌≡◌, ◌⊎◌, refl, true, arith, List, none, some, Bytes, get_elem?, set, inl, inr,
  str_eq_refl,
}
use native.Mathlib.Decide.{dec_lt}
use tsag.Base.Sums.{total, total-pos, le-total}
use tsag.Lang.{ExtLang}
use tsag.Lang.Load.{Loader}
use tsag.Lang.Load.Laws.{load_lang-IsBalanced}
use tsag.Lang.Cache.{look, insert}
use tsag.Lang.Cache.Threads.{
  Pc, asks, waits, loads, loaded, returns, unknown, System, after_look, after_insert, Step, looking,
  loading, inserting, Reach,
}
use tsag.Lang.Cache.Arrays.{IsPooled, row_hit}
use tsag.Lang.Cache.Invariant.{owner, Inv}
use tsag.Lang.Cache.Safety.{Reach-Inv}

-- 1 for a thread that is inside the function.
unfoldable pub inside : Pc → ℕ
inside (asks r) = 1
inside (waits r) = 1
inside (loads r) = 1
inside (loaded r e) = 1
inside (returns r k) = 0
inside unknown = 0

-- The thread has its result.
unfoldable pub IsOutside : Pc → Type 0
IsOutside (asks r) = ⊥
IsOutside (waits r) = ⊥
IsOutside (loads r) = ⊥
IsOutside (loaded r e) = ⊥
IsOutside (returns r k) = Unit
IsOutside unknown = Unit

outside : (p : Pc) → inside p ≡ 0 → IsOutside p
unfolding inside IsOutside
outside (asks r) e = absurd (omega (arith, e))
outside (waits r) e = absurd (omega (arith, e))
outside (loads r) e = absurd (omega (arith, e))
outside (loaded r e) h = absurd (omega (arith, h))
outside (returns r k) e = tt
outside unknown e = tt

module _ (addr : ExtLang → ℕ) (pooled : IsPooled addr) (dir : Bytes) where
  -- A loader for which every load fails: a load always comes to an end.
  no_libraries : Loader
  no_libraries = record {
    malloc_ok = true;
    dlopen = λ path. none;
    dlsym = λ lib sym. none;
    query_new = λ language lang. none;
    strdup_ok = true;
  }

  owner_moves :
      (s : System) (t : Bytes) (i : ℕ) (p : Pc)
      → get_elem? s.pcs i ≡ some p
      → 0 < owner t p
      → (u : System) × Step addr dir s u
  unfolding owner no_libraries
  owner_moves s t i (asks r) here h = absurd (omega (arith, h))
  owner_moves s t i (waits r) here h = absurd (omega (arith, h))
  owner_moves s t i (loads r) here h =
      let (l, e, b) = load_lang-IsBalanced no_libraries dir r.name refl in
      (record s { pcs = set s.pcs i (loaded r l.result) }, loading i r no_libraries l here refl e)
  owner_moves s t i (loaded r e) here h =
      (after_insert s i r (insert addr s.cache r e), inserting i r e here)
  owner_moves s t i (returns r k) here h = absurd (omega (arith, h))
  owner_moves s t i unknown here h = absurd (omega (arith, h))

  inside_moves :
      (s : System) (i : ℕ) (p : Pc)
      → Inv s
      → get_elem? s.pcs i ≡ some p
      → 0 < inside p
      → (u : System) × Step addr dir s u
  unfolding inside owner row_hit
  inside_moves s i (asks r) inv here h = (after_look s i r (look addr s.cache r), looking i r here)
  inside_moves s i (waits r) inv here h =
      let pos = (inv.placed i (waits r) here).1 in
      let (j, p, there, owns) =
        total-pos (owner r.name) s.pcs (omega (arith, pos, inv.owned r.name)) in
      owner_moves s r.name j p there owns
  inside_moves s i (loads r) inv here h =
      owner_moves s r.name i (loads r) here (ground (arith, str_eq_refl r.name))
  inside_moves s i (loaded r e) inv here h =
      owner_moves s r.name i (loaded r e) here (ground (arith, str_eq_refl r.name))
  inside_moves s i (returns r k) inv here h = absurd (omega (arith, h))
  inside_moves s i unknown inv here h = absurd (omega (arith, h))

  -- Threads are never stuck in `lang_cache_get`: in every reachable state each thread has its result,
  -- or some thread can take a step. Names are taken to have equal addresses exactly where they are
  -- equal.
  pub Reach-progress :
      (exts : List Bytes) (s : System)
      → Reach addr dir exts s
      → ((i : ℕ) (p : Pc) → get_elem? s.pcs i ≡ some p → IsOutside p)
        ⊎ ((u : System) × Step addr dir s u)
  Reach-progress exts s reached = elim (dec_lt 0 (total inside s.pcs)) [
    | yes h ↦
        let (i, p, here, is_inside) = total-pos inside s.pcs h in
        inr (inside_moves s i p (Reach-Inv addr pooled dir exts s reached) here is_inside)
    | no h ↦ inl λ i p here. outside p (omega (arith, le-total inside s.pcs i p here, h))
  ]
