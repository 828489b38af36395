-- ===== src/Lang/Cache/Life/Tests.antt =====
-- A cache whose lock cannot be made, and a grammar that goes into an empty cache.
use tsag.Base.{
  ◌≡◌, ◌⊎◌, refl, true, false, [], ◌∷◌, ◌++◌, reverse, Perm, map, none, some, codes, str_eq, strcmp,
}
use tsag.Lang.{ExtLang, has_query, queries}
use tsag.Lang.Load.{LangEntry, Resource, Load, Loader, load_lang}
use tsag.Lang.Cache.{new_cache, insert}
use tsag.Lang.Cache.Life.{of_entry, Setup, lang_cache_new, entries_free, lang_cache_free}
use tsag.Lang.Cache.Life.Laws.{lang_cache_new-IsBalanced, insert-keeps_resources}

abbrev no_lock : Setup
no_lock = record { calloc_ok = true; strdup_ok = true; mutex_ok = false; cond_ok = true }

lang_cache_new-IsBalanced_example :
    let s = lang_cache_new no_lock in
    ((s.cache ≡ none) × (s.released ≡ reverse s.acquired))
    ⊎ ((s.cache ≡ some new_cache) × (s.released ≡ []) × Perm (lang_cache_free new_cache) s.acquired)
lang_cache_new-IsBalanced_example = lang_cache_new-IsBalanced no_lock

abbrev linker : Loader
linker = record {
  malloc_ok = true;
  dlopen = λ path. some 1;
  dlsym = λ lib sym. some 2;
  query_new = λ language lang. some 3;
  strdup_ok = true;
}

abbrev row : ExtLang
row = record { ext = codes "h"; name = codes "cpp" }

abbrev grammar : LangEntry
grammar = record { name = some (codes "cpp"); dl_handle = some 1; lang = some 2; query = some 3 }

abbrev load : Load
load = record {
  result = some grammar;
  acquired =
      Resource.memory ∷ Resource.library 1 ∷ Resource.compiled 3 ∷ Resource.text (codes "cpp") ∷ [];
  released = [];
}

load_cpp : load_lang linker (codes "/p") (codes "cpp") ≡ some load
unfolding load_lang has_query queries str_eq strcmp
load_cpp = refl

insert-keeps_resources_example :
    let x = insert (λ r. 0) new_cache row (some grammar) in
    Perm
      (map of_entry x.freed ++ entries_free x.cache.entries)
      (map of_entry load.acquired ++ entries_free new_cache.entries)
insert-keeps_resources_example =
    insert-keeps_resources (λ r. 0) new_cache row grammar linker (codes "/p") load refl load_cpp
      refl
