-- ===== src/Lang/Cache/Threads.antt =====
-- The workers inside `lang_cache_get`: a thread stands before the first critical section, waits on
-- `loaded`, loads its grammar without the lock, stands before the second, or has its result.
use tsag.Base.{ℕ, true, ◌≡◌, List, Option, none, some, Bytes, map, get_elem?, set}
use tsag.Lang.{ExtLang, ext_lang}
use tsag.Lang.Load.{LangEntry, Loader, Load, load_lang}
use tsag.Lang.Cache.{
  LangCache, Look, hit, in_flight, no_room, first, Insert, new_cache, lang_row, look, insert,
}

pub data Pc : Type 0 where
  asks : ExtLang → Pc
  waits : ExtLang → Pc
  loads : ExtLang → Pc
  loaded : ExtLang → Option LangEntry → Pc
  returns : ExtLang → Option ℕ → Pc
  unknown : Pc  -- the extension has no language

pub record System : Type 0 where
  pub cache : LangCache
  pub pcs : List Pc

-- A call of `lang_cache_get` for an extension.
unfoldable pub called : Option ExtLang → Pc
called none = unknown
called (some r) = asks r

-- `pthread_cond_broadcast`
unfoldable pub wake : Pc → Pc
wake (waits r) = asks r
wake (asks r) = asks r
wake (loads r) = loads r
wake (loaded r e) = loaded r e
wake (returns r k) = returns r k
wake unknown = unknown

-- What the first critical section makes of the system, for thread `i`.
unfoldable pub after_look : System → ℕ → ExtLang → Look → System
after_look s i r (hit k) = record s { pcs = set s.pcs i (returns r (some k)) }
after_look s i r in_flight = record s { pcs = set s.pcs i (waits r) }
after_look s i r no_room = record s { pcs = set s.pcs i (returns r none) }
after_look s i r (first c) = record { cache = c; pcs = set s.pcs i (loads r) }

-- The second critical section; it wakes all that wait.
unfoldable pub after_insert : System → ℕ → ExtLang → Insert → System
after_insert s i r x = record { cache = x.cache; pcs = set (map wake s.pcs) i (returns r x.result) }

-- One section of one thread. Loading goes on without the lock, with any answers of the linker.
pub data Step (addr : ExtLang → ℕ) (dir : Bytes) (s : System) : System → Type 0 where
  looking :
      (i : ℕ) (r : ExtLang)
      → get_elem? s.pcs i ≡ some (asks r)
      → Step addr dir s (after_look s i r (look addr s.cache r))
  loading :
      (i : ℕ) (r : ExtLang) (w : Loader) (l : Load)
      → get_elem? s.pcs i ≡ some (loads r)
      → w.malloc_ok ≡ true
      → load_lang w dir r.name ≡ some l
      → Step addr dir s (record s { pcs = set s.pcs i (loaded r l.result) })
  inserting :
      (i : ℕ) (r : ExtLang) (e : Option LangEntry)
      → get_elem? s.pcs i ≡ some (loaded r e)
      → Step addr dir s (after_insert s i r (insert addr s.cache r e))

-- A thread that waits may also wake with no broadcast.
pub data Stray (s : System) : System → Type 0 where
  stray :
      (i : ℕ) (r : ExtLang)
      → get_elem? s.pcs i ≡ some (waits r)
      → Stray s (record s { pcs = set s.pcs i (asks r) })

-- From an empty cache, with one call for each of `exts`.
pub data Reach (addr : ExtLang → ℕ) (dir : Bytes) (exts : List Bytes) : System → Type 0 where
  start :
      Reach addr dir exts
        (record { cache = new_cache; pcs = map (λ x. called (lang_row ext_lang x)) exts })
  later : {s t : System} → Reach addr dir exts s → Step addr dir s t → Reach addr dir exts t
  woken : {s t : System} → Reach addr dir exts s → Stray s t → Reach addr dir exts t
  -- A thread that has its result may call again.
  again :
      {s : System} (i : ℕ) (r : ExtLang) (k : Option ℕ) (ext : Bytes)
      → Reach addr dir exts s
      → get_elem? s.pcs i ≡ some (returns r k)
      → Reach addr dir exts (record s { pcs = set s.pcs i (called (lang_row ext_lang ext)) })
