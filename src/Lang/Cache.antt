-- ===== src/Lang/Cache.antt =====
-- src/lang.h and src/lang.c, the cache of loaded grammars that the workers share: the two critical
-- sections of `lang_cache_get`, and the load between them that runs without the lock.
pub mod Threads
pub mod Arrays
pub mod Names
pub mod Invariant
pub mod Inserts
pub mod Looks
pub mod Safety
pub mod Progress
pub mod Ends
pub mod Life
mod Tests
use tsag.Base.{
  ℕ, zero, suc, ◌+◌, ◌-◌, Bool, true, false, not, ◌&&◌, ◌||◌, List, [], ◌∷◌, ◌++◌, Option, none,
  some, ◌>>=◌, Bytes, length, get_elem?, get_or, set, take, ltb, ◌==◌, if◌then◌else◌, str_eq,
}
use tsag.Lang.{ExtLang, ext_lang}
use tsag.Lang.Load.{LangEntry, Resource, load_lang_free}

abbrev pub max_langs : ℕ
max_langs = 32

-- The rows of `EXT_LANG` whose names stand in the first `loading_count` slots of `loading`, and the
-- first `entry_count` entries. `parser_dir` never changes.
pub record LangCache : Type 0 where
  pub entries : List LangEntry
  pub loading : List ExtLang

-- `ext_to_lang`, with the row that the name comes from: the result is a pointer into that row.
unfoldable pub lang_row : List ExtLang → Bytes → Option ExtLang
lang_row [] ext = none
lang_row (r ∷ rows) ext = if str_eq ext r.ext then some r else lang_row rows ext

-- `strcmp(entry.name, name) == 0`
unfoldable pub is_named : Bytes → Option Bytes → Bool
is_named name none = false
is_named name (some n) = str_eq n name

-- The first entry of that name; `i` is the index of the first of the entries.
unfoldable pub find_entry : List LangEntry → Bytes → ℕ → Option ℕ
find_entry [] name i = none
find_entry (e ∷ es) name i = if is_named name e.name then some i else find_entry es name (i + 1)

-- What the first critical section finds: an entry, a load in flight, no room, or the first to load.
pub data Look : Type 0 where
  hit : ℕ → Look
  in_flight : Look
  no_room : Look
  first : LangCache → Look

-- What the second leaves: the cache, the result, and what it frees.
pub record Insert : Type 0 where
  pub cache : LangCache
  pub result : Option ℕ
  pub freed : List Resource

-- What `calloc` leaves.
unfoldable pub new_cache : LangCache
new_cache = record { entries = []; loading = [] }

-- `loading[i] = loading[--loading_count]`
unfoldable pub drop_slot : List ExtLang → ℕ → ExtLang → List ExtLang
drop_slot ls i r = take (length ls - 1) (set ls i (get_or ls (length ls - 1) r))

-- `addr` gives the address of the name in a row: `loading[i] == name` compares addresses.
module _ (addr : ExtLang → ℕ) where
  unfoldable pub is_loading : List ExtLang → ExtLang → Bool
  is_loading [] r = false
  is_loading (l ∷ ls) r = (addr l == addr r) || is_loading ls r

  -- The body of the loop of `lang_cache_get` up to the wait, and the marking that follows the loop.
  unfoldable pub look : LangCache → ExtLang → Look
  look c r = elim (find_entry c.entries r.name 0) [
    | some i ↦ hit i
    | none ↦
        if is_loading c.loading r
        then in_flight
        else if (length c.loading == max_langs) || (length c.entries == max_langs)
        then no_room
        else first (record c { loading = c.loading ++ r ∷ [] })
  ]

  unfoldable pub find_loading : List ExtLang → ExtLang → Option ℕ
  find_loading [] r = none
  find_loading (l ∷ ls) r =
      if addr l == addr r then some 0 else find_loading ls r >>= λ i. some (suc i)

  unfoldable pub unmark : List ExtLang → ExtLang → List ExtLang
  unmark ls r = elim (find_loading ls r) [ none ↦ ls | some i ↦ drop_slot ls i r ]

  -- The second critical section, and the lines behind it.
  unfoldable pub insert : LangCache → ExtLang → Option LangEntry → Insert
  insert c r none = record {
    cache = record c { loading = unmark c.loading r };
    result = none;
    freed = [];
  }
  insert c r (some e) =
      let loading = unmark c.loading r in
      if ltb (length c.entries) max_langs
      then record {
        cache = record { entries = c.entries ++ e ∷ []; loading = loading };
        result = some (length c.entries);
        freed = Resource.memory ∷ [];
      }
      else record {
        cache = record c { loading = loading };
        result = none;
        freed = load_lang_free e;
      }
