-- ===== src/Lang/Load/Laws.antt =====
-- What `load_lang` leaves acquired, on every path.
use tsag.Base.{
  ℕ, ◌≡◌, ◌⊎◌, refl, inl, inr, true, [], reverse, Option, none, some, Bytes, Bool-cases,
}
use tsag.Lang.{ext_to_lang, queries, has_query}
use tsag.Lang.Extension.{ext_to_lang-has_query}
use tsag.Lang.Load.{
  LangEntry, Loader, Load, so_path, symbol, load_name, load_query, compile_query, load_library,
  load_lang, load_lang_free,
}

-- A load that fails has released what it has acquired, last in first out; one that succeeds has
-- released nothing, and freeing its entry releases what it has acquired, last in first out.
abbrev pub IsBalanced : Bytes → Load → Type 0
IsBalanced lang l =
    ((l.result ≡ none) × (l.released ≡ reverse l.acquired))
    ⊎ ((e : LangEntry) × (l.result ≡ some e)
        × (e.name ≡ some lang)
        × (l.released ≡ [])
        × (load_lang_free e ≡ reverse l.acquired))

abbrev whole : Bytes → ℕ → ℕ → ℕ → LangEntry
whole lang lib language query = record {
  name = some lang;
  dl_handle = some lib;
  lang = some language;
  query = some query;
}

module _ (w : Loader) where
  load_name-IsBalanced :
      (lang : Bytes) (lib language query : ℕ)
      → IsBalanced lang (load_name w lang lib language query)
  unfolding load_name load_lang_free
  load_name-IsBalanced lang lib language query = elim (Bool-cases w.strdup_ok) [
    | inl ok ↦ inr (whole lang lib language query, rw ok refl, refl, rw ok refl, rw ok refl)
    | inr bad ↦ inl (rw bad refl, rw bad refl)
  ]

  load_query-IsBalanced :
      (lang : Bytes) (lib : ℕ) (language query : Option ℕ)
      → IsBalanced lang (load_query w lang lib language query)
  unfolding load_query
  load_query-IsBalanced lang lib none query = inl (refl, refl)
  load_query-IsBalanced lang lib (some language) none = inl (refl, refl)
  load_query-IsBalanced lang lib (some language) (some query) =
      load_name-IsBalanced lang lib language query

  load_library-IsBalanced :
      (lang : Bytes) (lib : Option ℕ) → IsBalanced lang (load_library w lang lib)
  unfolding load_library
  load_library-IsBalanced lang none = inl (refl, refl)
  load_library-IsBalanced lang (some lib) = load_query-IsBalanced lang lib _ _

  -- Where its first `malloc` succeeds, `load_lang` returns, whatever the linker and tree-sitter
  -- answer. When it fails it has released all that it has acquired, last in first out; when it
  -- succeeds it has released nothing, the entry has the language's name, and `load_lang_free`
  -- releases all that it has acquired, last in first out.
  pub load_lang-IsBalanced :
      (dir lang : Bytes)
      → w.malloc_ok ≡ true
      → (l : Load) × (load_lang w dir lang ≡ some l) × IsBalanced lang l
  unfolding load_lang
  load_lang-IsBalanced dir lang ok = (
    load_library w lang (w.dlopen (so_path dir lang)),
    rw ok refl,
    load_library-IsBalanced lang (w.dlopen (so_path dir lang)),
  )

  compiled :
      (lang : Bytes) (language query : ℕ)
      → has_query queries lang ≡ true
      → w.query_new language lang ≡ some query
      → compile_query w lang (some language) ≡ some query
  unfolding compile_query
  compiled lang language query q made = rw q made

  named :
      (lang : Bytes) (lib language query : ℕ)
      → w.strdup_ok ≡ true
      → (load_name w lang lib language query).result ≡ some (whole lang lib language query)
  unfolding load_name
  named lang lib language query s = rw s refl

  from_library :
      (lang : Bytes) (lib language query : ℕ)
      → has_query queries lang ≡ true
      → w.strdup_ok ≡ true
      → w.dlsym lib (symbol lang) ≡ some language
      → w.query_new language lang ≡ some query
      → (load_library w lang (some lib)).result ≡ some (whole lang lib language query)
  unfolding load_library load_query
  from_library lang lib language query q s sym made =
      rw (sym, compiled lang language query q made) (named lang lib language query s)

  -- The language of an extension is loaded whenever the linker has the library and the symbol,
  -- tree-sitter takes the query, and no allocation fails: the query itself is never missing.
  pub load_lang-known :
      (dir ext lang : Bytes) (lib language query : ℕ)
      → ext_to_lang ext ≡ some lang
      → (w.malloc_ok ≡ true) × (w.strdup_ok ≡ true)
      → w.dlopen (so_path dir lang) ≡ some lib
      → w.dlsym lib (symbol lang) ≡ some language
      → w.query_new language lang ≡ some query
      → (l : Load) × (load_lang w dir lang ≡ some l)
        × (l.result
            ≡ some (record {
              name = some lang;
              dl_handle = some lib;
              lang = some language;
              query = some query;
            }))
  unfolding load_lang
  load_lang-known dir ext lang lib language query known (m, s) found sym made =
      let q = ext_to_lang-has_query ext lang known in
      (
        load_library w lang (w.dlopen (so_path dir lang)),
        rw m refl,
        rw found (from_library lang lib language query q s sym made),
      )
