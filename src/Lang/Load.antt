-- ===== src/Lang/Load.antt =====
-- src/lang.c, `load_lang` and `load_lang_free`: what is acquired and what is released. The dynamic
-- linker and tree-sitter are parameters, and handles, languages and queries are numbers that they
-- give. The messages on stderr are left out.
pub mod Laws
mod Tests
use tsag.Base.{
  ℕ, ◌-◌, Bool, true, false, not, List, [], ◌∷◌, ◌++◌, Option, none, some, Bytes, codes, take,
  if◌then◌else◌,
}
use tsag.Lang.{queries, has_query}

pub record LangEntry : Type 0 where
  pub name : Option Bytes
  pub dl_handle : Option ℕ
  pub lang : Option ℕ
  pub query : Option ℕ

pub data Resource : Type 0 where
  memory : Resource
  library : ℕ → Resource
  compiled : ℕ → Resource
  text : Bytes → Resource

-- `dlsym` stands for the call and for the grammar's function that it finds, which gives the language.
-- `ts_query_new` gets the language and the source of the query of the named language.
pub record Loader : Type 0 where
  pub malloc_ok : Bool
  pub dlopen : Bytes → Option ℕ
  pub dlsym : ℕ → Bytes → Option ℕ
  pub query_new : ℕ → Bytes → Option ℕ
  pub strdup_ok : Bool

-- The result, what the call acquires and what it releases, in order.
pub record Load : Type 0 where
  pub result : Option LangEntry
  pub acquired : List Resource
  pub released : List Resource

abbrev pub path_max : ℕ
path_max = 4096

-- `snprintf(so_path, sizeof(so_path), "%s/%s.so", dir, lang)`
unfoldable pub so_path : Bytes → Bytes → Bytes
so_path dir lang = take (path_max - 1) (dir ++ b'/' ∷ (lang ++ codes ".so"))

-- `snprintf(sym, sizeof(sym), "tree_sitter_%s", lang)`
unfoldable pub symbol : Bytes → Bytes
symbol lang = take 63 (codes "tree_sitter_" ++ lang)

-- `ts_query_delete`, `dlclose` and `free`, which do nothing for NULL.
unfoldable pub free_text : Option Bytes → List Resource
free_text none = []
free_text (some s) = text s ∷ []

unfoldable pub query_delete : Option ℕ → List Resource
query_delete none = []
query_delete (some q) = compiled q ∷ []

unfoldable pub close_library : Option ℕ → List Resource
close_library none = []
close_library (some lib) = library lib ∷ []

-- The label `cleanup`, where `entry->name` is NULL on every path.
unfoldable pub cleanup : Option ℕ → Option ℕ → List Resource
cleanup query lib = free_text none ++ (query_delete query ++ (close_library lib ++ memory ∷ []))

module _ (w : Loader) where
  -- After `query` is compiled.
  unfoldable pub load_name : Bytes → ℕ → ℕ → ℕ → Load
  unfolding cleanup free_text query_delete close_library
  load_name lang lib language query =
      if not w.strdup_ok
      then record {
        result = none;
        acquired = memory ∷ library lib ∷ compiled query ∷ [];
        released = cleanup (some query) (some lib);
      }
      else record {
        result = some (record {
          name = some lang;
          dl_handle = some lib;
          lang = some language;
          query = some query;
        });
        acquired = memory ∷ library lib ∷ compiled query ∷ text lang ∷ [];
        released = [];
      }

  -- After `dlsym`.
  unfoldable pub load_query : Bytes → ℕ → Option ℕ → Option ℕ → Load
  unfolding load_name cleanup free_text query_delete close_library
  load_query lang lib none query = record {
    result = none;
    acquired = memory ∷ library lib ∷ [];
    released = cleanup none (some lib);
  }
  load_query lang lib (some language) none = record {
    result = none;
    acquired = memory ∷ library lib ∷ [];
    released = cleanup none (some lib);
  }
  load_query lang lib (some language) (some query) = load_name lang lib language query

  -- `ts_query_new`, where `QUERIES` has a query.
  unfoldable pub compile_query : Bytes → Option ℕ → Option ℕ
  compile_query lang none = none
  compile_query lang (some language) =
      if has_query queries lang then w.query_new language lang else none

  -- After `dlopen`.
  unfoldable pub load_library : Bytes → Option ℕ → Load
  unfolding load_query compile_query cleanup free_text query_delete close_library
  load_library lang none = record {
    result = none;
    acquired = memory ∷ [];
    released = cleanup none none;
  }
  load_library lang (some lib) =
      let language = w.dlsym lib (symbol lang) in
      load_query lang lib language (compile_query lang language)

  -- `none`: the result of `malloc` is NULL, and is written through.
  unfoldable pub load_lang : Bytes → Bytes → Option Load
  unfolding load_library
  load_lang dir lang =
      if not w.malloc_ok then none else some (load_library lang (w.dlopen (so_path dir lang)))

unfoldable pub load_lang_free : LangEntry → List Resource
unfolding free_text query_delete close_library
load_lang_free entry =
    free_text entry.name
    ++ (query_delete entry.query ++ (close_library entry.dl_handle ++ memory ∷ []))
