-- ===== src/Lang/Cache/Tests.antt =====
-- Two threads that ask for the same language, and one that has its grammar.
use tsag.Base.{
  ℕ, zero, suc, ◌+◌, ◌*◌, ◌≤◌, ◌≡◌, ◌≢◌, ◌⊎◌, refl, sym, ◌∙◌, ap, true, arith, List, [], ◌∷◌, some,
  Bytes, codes, get_elem?, ◌==◌, str_eq, strcmp, str_eq_refl, str_eq→eq, Bool-cases, inl, inr,
}
use tsag.Base.Sums.{total}
use tsag.Lang.{ExtLang, ext_lang, has_query, queries}
use tsag.Lang.Load.{LangEntry, Loader, Load, Resource, load_lang}
use tsag.Lang.Cache.{
  look, insert, no_room, lang_row, find_entry, is_loading, unmark, find_loading, drop_slot,
  is_named, new_cache,
}
use tsag.Lang.Cache.Threads.{
  Pc, asks, waits, loads, returns, System, called, wake, after_look, after_insert, Step, looking,
  loading, inserting, Reach, start, later,
}
use tsag.Lang.Cache.Arrays.{IsPooled, row_hit, entry_hit}
use tsag.Lang.Cache.Invariant.{owner}
use tsag.Lang.Cache.Safety.{Reach-loads_once, Reach-returns, Reach-has_room}
use tsag.Lang.Cache.Progress.{IsOutside, Reach-progress}
use tsag.Lang.Cache.Ends.{done, and_then, Run-bounded}

-- An address for each name: equal names at one address, different names at different ones.
unfoldable double : ℕ → ℕ → ℕ
double zero n = 2 * n + 1
double (suc x) n = 2 * double x n

unfoldable place : Bytes → ℕ
place [] = 0
place (x ∷ xs) = double x (place xs)

double-pos : (x n : ℕ) → 1 ≤ double x n
unfolding double
double-pos zero n = omega arith
double-pos (suc x) n = omega (arith, double-pos x n)

double-inj : (x y m n : ℕ) → double x m ≡ double y n → (x ≡ y) × (m ≡ n)
unfolding double
double-inj zero zero m n e = (refl, omega (arith, e))
double-inj zero (suc y) m n e = absurd (omega (arith, e))
double-inj (suc x) zero m n e = absurd (omega (arith, e))
double-inj (suc x) (suc y) m n e =
    let (p, q) = double-inj x y m n (omega (arith, e)) in (ap suc p, q)

place-inj : (s t : Bytes) → place s ≡ place t → s ≡ t
unfolding place
place-inj [] [] e = refl
place-inj [] (y ∷ t) e = absurd (omega (arith, e, double-pos y (place t)))
place-inj (x ∷ s) [] e = absurd (omega (arith, e, double-pos x (place s)))
place-inj (x ∷ s) (y ∷ t) e =
    let (p, q) = double-inj x y (place s) (place t) e in cc (p, place-inj s t q)

unfoldable address : ExtLang → ℕ
address r = place r.name

places : (s t : Bytes) → (place s == place t) ≡ str_eq s t
places s t = elim (Bool-cases (str_eq s t)) [
  | inl p ↦ rw (str_eq→eq s t p, str_eq_refl t) (ground arith)
  | inr p ↦ elim (Bool-cases (place s == place t)) [
    | inr q ↦ q ∙ sym p
    | inl q ↦
        let same : s ≡ t = place-inj s t (ground arith) in
        absurd (cc (rw (same, str_eq_refl t) at p))
  ]
]

pooled : IsPooled address
unfolding address
pooled a b = places a.name b.name

abbrev cpp_row : ExtLang
cpp_row = record { ext = codes "cpp"; name = codes "cpp" }

abbrev h_row : ExtLang
h_row = record { ext = codes "h"; name = codes "cpp" }

abbrev dir : Bytes
dir = codes "/p"

abbrev exts : List Bytes
exts = codes "cpp" ∷ codes "h" ∷ []

-- The first loads and the second waits.
abbrev waiting : System
waiting = record {
  cache = record { entries = []; loading = cpp_row ∷ [] };
  pcs = loads cpp_row ∷ waits h_row ∷ [];
}

waiting-IsReached : Reach address dir exts waiting
unfolding lang_row ext_lang str_eq strcmp called new_cache after_look look find_entry is_loading
    address place double
waiting-IsReached = later (later start (looking 0 cpp_row refl)) (looking 1 h_row refl)

Reach-loads_once_example :
    (total (owner (codes "cpp")) waiting.pcs + total (entry_hit (codes "cpp")) waiting.cache.entries
      ≤ 1)
    × (total (row_hit (codes "cpp")) waiting.cache.loading
        ≡ total (owner (codes "cpp")) waiting.pcs)
Reach-loads_once_example =
    Reach-loads_once address pooled dir exts waiting waiting-IsReached (codes "cpp")

abbrev linker : Loader
linker = record {
  malloc_ok = true;
  dlopen = λ path. some 1;
  dlsym = λ lib sym. some 2;
  query_new = λ language lang. some 3;
  strdup_ok = true;
}

abbrev grammar : LangEntry
grammar = record { name = some (codes "cpp"); dl_handle = some 1; lang = some 2; query = some 3 }

-- The first has its entry and the second is awake.
abbrev woken : System
woken = record {
  cache = record { entries = grammar ∷ []; loading = [] };
  pcs = returns cpp_row (some 0) ∷ asks h_row ∷ [];
}

-- Both have the same entry.
abbrev served : System
served = record woken { pcs = returns cpp_row (some 0) ∷ returns h_row (some 0) ∷ [] }

abbrev load : Load
load = record {
  result = some grammar;
  acquired =
      Resource.memory ∷ Resource.library 1 ∷ Resource.compiled 3 ∷ Resource.text (codes "cpp") ∷ [];
  released = [];
}

load_cpp : load_lang linker dir (codes "cpp") ≡ some load
unfolding load_lang has_query queries str_eq strcmp
load_cpp = refl

woken-IsReached : Reach address dir exts woken
unfolding after_insert insert unmark find_loading drop_slot address place double str_eq strcmp wake
woken-IsReached =
    later (later waiting-IsReached (loading 0 cpp_row linker load refl refl load_cpp))
      (inserting 0 cpp_row (some grammar) refl)

serves : Step address dir woken served
unfolding after_look look find_entry is_named str_eq strcmp
serves = looking 1 h_row refl

Reach-returns_example :
    (e : LangEntry) × (get_elem? (grammar ∷ []) 0 ≡ some e) × (e.name ≡ some (codes "cpp"))
Reach-returns_example =
    Reach-returns address pooled dir exts served (later woken-IsReached serves) 1 0 h_row refl

Reach-has_room_example :
    (1 ≤ 9)
    × ((r : ExtLang) → look address woken.cache r ≢ no_room)
    × ((r : ExtLang) (e : LangEntry)
        → (insert address woken.cache r (some e)).cache.entries ≡ grammar ∷ e ∷ [])
Reach-has_room_example = Reach-has_room address pooled dir exts woken woken-IsReached

Reach-progress_example :
    ((i : ℕ) (p : Pc) → get_elem? waiting.pcs i ≡ some p → IsOutside p)
    ⊎ ((u : System) × Step address dir waiting u)
Reach-progress_example = Reach-progress address pooled dir exts waiting waiting-IsReached

Run-bounded_example : 1 ≤ 20
Run-bounded_example =
    Run-bounded address pooled dir exts 1 woken served woken-IsReached (and_then serves done)
