-- ===== src/Lang/Cache/Life.antt =====
-- src/lang.c, `lang_cache_new` and `lang_cache_free`: what they acquire and release.
pub mod Laws
mod Tests
use tsag.Base.{
  ◌≡◌, ◌⊎◌, refl, sym, ◌∙◌, ap, subst, Bool, true, false, not, List, [], ◌∷◌, ◌++◌, reverse, Perm,
  map, Option, none, some, if◌then◌else◌, Bool-cases, inl, inr, ltb, length, append_assoc, Bytes,
}
use tsag.Lang.{ExtLang}
use tsag.Lang.Load.{
  LangEntry, Resource, Load, Loader, load_lang, free_text, query_delete, close_library,
  load_lang_free,
}
use tsag.Lang.Load.Laws.{IsBalanced, load_lang-IsBalanced}
use tsag.Lang.Cache.{LangCache, new_cache, insert, max_langs}

-- What a cache holds: its own memory, the copy of the directory's name, the lock, the condition, and
-- the resources of its entries.
pub data Held : Type 0 where
  cache_memory : Held
  parser_dir : Held
  lock : Held
  loaded_condition : Held
  of_entry : Resource → Held

-- Which of the calls succeed: `calloc`, `strdup`, `pthread_mutex_init`, `pthread_cond_init`.
pub record Setup : Type 0 where
  pub calloc_ok : Bool
  pub strdup_ok : Bool
  pub mutex_ok : Bool
  pub cond_ok : Bool

pub record Started : Type 0 where
  pub cache : Option LangCache
  pub acquired : List Held
  pub released : List Held

unfoldable pub lang_cache_new : Setup → Started
lang_cache_new w =
    if not w.calloc_ok
    then record { cache = none; acquired = []; released = [] }
    else if not w.strdup_ok
    then record { cache = none; acquired = cache_memory ∷ []; released = cache_memory ∷ [] }
    else if not w.mutex_ok
    then record {
      cache = none;
      acquired = cache_memory ∷ parser_dir ∷ [];
      released = parser_dir ∷ cache_memory ∷ [];
    }
    else if not w.cond_ok
    then record {
      cache = none;
      acquired = cache_memory ∷ parser_dir ∷ lock ∷ [];
      released = lock ∷ parser_dir ∷ cache_memory ∷ [];
    }
    else record {
      cache = some new_cache;
      acquired = cache_memory ∷ parser_dir ∷ lock ∷ loaded_condition ∷ [];
      released = [];
    }

-- The body of the loop of `lang_cache_free`.
unfoldable pub entry_free : LangEntry → List Resource
entry_free entry =
    query_delete entry.query ++ (close_library entry.dl_handle ++ free_text entry.name)

unfoldable pub entries_free : List LangEntry → List Held
entries_free [] = []
entries_free (entry ∷ entries) = map of_entry (entry_free entry) ++ entries_free entries

unfoldable pub lang_cache_free : LangCache → List Held
lang_cache_free c =
    entries_free c.entries ++ lock ∷ loaded_condition ∷ parser_dir ∷ cache_memory ∷ []
