-- ===== src/Lang/Cache/Life/Laws.antt =====
-- What the shared cache and its grammars hold, and what frees it.
use mathlib.Core.List.Perm
use mathlib.Core.List.{perm_middle, perm_append_comm, reverse_perm}
use tsag.Base.{
  ℕ, ◌≡◌, ◌⊎◌, refl, sym, ◌∙◌, ap, subst, true, false, List, [], ◌∷◌, ◌++◌, reverse, Perm, map,
  none, some, Bool-cases, inl, inr, ltb, length, append_assoc, Bytes, append-nil,
}
use tsag.Lang.{ExtLang}
use tsag.Lang.Load.{
  LangEntry, Resource, Load, Loader, load_lang, free_text, query_delete, close_library,
  load_lang_free,
}
use tsag.Lang.Load.Laws.{IsBalanced, load_lang-IsBalanced}
use tsag.Lang.Cache.{LangCache, new_cache, insert, max_langs}
use tsag.Lang.Cache.Life.{
  cache_memory, parser_dir, lock, loaded_condition, of_entry, Setup, lang_cache_new, entry_free,
  entries_free, lang_cache_free,
}

-- What the cache holds and what a fresh one frees.
fresh-free :
    Perm (lang_cache_free new_cache) (cache_memory ∷ parser_dir ∷ lock ∷ loaded_condition ∷ [])
unfolding lang_cache_free entries_free new_cache
fresh-free =
    Perm.trans (perm_append_comm (lock ∷ loaded_condition ∷ []) (parser_dir ∷ cache_memory ∷ []))
      (Perm.swap cache_memory parser_dir (lock ∷ loaded_condition ∷ []))

-- `lang_cache_new` returns NULL and has released all that it has acquired, last in first out, or it
-- returns an empty cache, and `lang_cache_free` releases exactly what was acquired.
pub lang_cache_new-IsBalanced :
    (w : Setup)
    → let s = lang_cache_new w in
      ((s.cache ≡ none) × (s.released ≡ reverse s.acquired))
      ⊎ ((s.cache ≡ some new_cache)
          × (s.released ≡ [])
          × Perm (lang_cache_free new_cache) s.acquired)
unfolding lang_cache_new
lang_cache_new-IsBalanced w = elim (Bool-cases w.calloc_ok) [
  | inr a ↦ inl (rw a refl, rw a refl)
  | inl a ↦ elim (Bool-cases w.strdup_ok) [
    | inr b ↦ inl (rw (a, b) refl, rw (a, b) refl)
    | inl b ↦ elim (Bool-cases w.mutex_ok) [
      | inr c ↦ inl (rw (a, b, c) refl, rw (a, b, c) refl)
      | inl c ↦ elim (Bool-cases w.cond_ok) [
        | inr d ↦ inl (rw (a, b, c, d) refl, rw (a, b, c, d) refl)
        | inl d ↦ inr (rw (a, b, c, d) refl, rw (a, b, c, d) refl, rw (a, b, c, d) fresh-free)
      ]
    ]
  ]
]

-- The entry's memory and its fields are all that `load_lang_free` frees.
entry-Perm : (e : LangEntry) → Perm (Resource.memory ∷ entry_free e) (load_lang_free e)
unfolding entry_free load_lang_free
entry-Perm e =
    let text = free_text e.name in
    let query = query_delete e.query in
    let lib = close_library e.dl_handle in
    let moved : (query ++ (lib ++ Resource.memory ∷ [])) ++ text
        ≡ (query ++ lib) ++ Resource.memory ∷ text =
      ap (λ x. x ++ text) (sym (append_assoc query lib (Resource.memory ∷ [])))
      ∙ append_assoc (query ++ lib) (Resource.memory ∷ []) text in
    Perm.symm (
      Perm.trans (perm_append_comm text (query ++ (lib ++ Resource.memory ∷ [])))
        (rw (moved, sym (append_assoc query lib text)) (perm_middle (query ++ lib) text)))

acquired-Perm :
    (l : Load) (e : LangEntry)
    → load_lang_free e ≡ reverse l.acquired
    → Perm (load_lang_free e) l.acquired
acquired-Perm l e q = rw q (reverse_perm l.acquired)

held-Perm :
    (lang : Bytes) (l : Load) (e : LangEntry)
    → l.result ≡ some e
    → IsBalanced lang l
    → Perm (load_lang_free e) l.acquired
held-Perm lang l e made (inl (failed, out)) = absurd (cc (failed, made))
held-Perm lang l e made (inr (y, q, named, kept, freed)) =
    let same : y ≡ e = cc (q, made) in
    acquired-Perm l e (subst (λ z. load_lang_free z ≡ reverse l.acquired) same freed)

entries_free-snoc :
    (es : List LangEntry) (e : LangEntry)
    → entries_free (es ++ e ∷ []) ≡ entries_free es ++ map of_entry (entry_free e)
unfolding entries_free
entries_free-snoc [] e = append-nil (map of_entry (entry_free e))
entries_free-snoc (x ∷ es) e =
    ap (λ r. map of_entry (entry_free x) ++ r) (entries_free-snoc es e)
    ∙ sym
        (append_assoc (map of_entry (entry_free x)) (entries_free es) (map of_entry (entry_free e)))

module _ (addr : ExtLang → ℕ) (c : LangCache) (r : ExtLang) (e : LangEntry) where
  -- With room, the entry's fields go to the cache and its memory is freed.
  room :
      ltb (length c.entries) max_langs ≡ true
      → let x = insert addr c r (some e) in
        Perm
          (map of_entry x.freed ++ entries_free x.cache.entries)
          (map of_entry (load_lang_free e) ++ entries_free c.entries)
  unfolding insert
  room h =
      rw (h, entries_free-snoc c.entries e)
        (Perm.trans
          (Perm.cons (of_entry Resource.memory)
            (perm_append_comm (entries_free c.entries) (map of_entry (entry_free e))))
          (Perm.append_right (entries_free c.entries) (Perm.map of_entry (entry-Perm e))))

  no_room :
      ltb (length c.entries) max_langs ≡ false
      → let x = insert addr c r (some e) in
        Perm
          (map of_entry x.freed ++ entries_free x.cache.entries)
          (map of_entry (load_lang_free e) ++ entries_free c.entries)
  unfolding insert
  no_room h = rw h (Perm.refl (map of_entry (load_lang_free e) ++ entries_free c.entries))

  gives_back :
      let x = insert addr c r (some e) in
      Perm
        (map of_entry x.freed ++ entries_free x.cache.entries)
        (map of_entry (load_lang_free e) ++ entries_free c.entries)
  gives_back = elim (Bool-cases (ltb (length c.entries) max_langs)) [
    | inl h ↦ room h
    | inr h ↦ no_room h
  ]

-- Nothing that `load_lang` acquires for an entry is lost, where its first `malloc` succeeds: what the
-- second critical section of `lang_cache_get` frees, together with what `lang_cache_free` frees for
-- the entries afterwards, is what the load has acquired and what `lang_cache_free` frees for the
-- entries before, in some order.
pub insert-keeps_resources :
    (addr : ExtLang → ℕ) (c : LangCache) (r : ExtLang) (e : LangEntry) (w : Loader) (dir : Bytes)
    (l : Load)
    → w.malloc_ok ≡ true
    → load_lang w dir r.name ≡ some l
    → l.result ≡ some e
    → let x = insert addr c r (some e) in
      Perm
        (map of_entry x.freed ++ entries_free x.cache.entries)
        (map of_entry l.acquired ++ entries_free c.entries)
insert-keeps_resources addr c r e w dir l ok load made =
    Perm.trans (gives_back addr c r e)
      (Perm.append_right (entries_free c.entries) (Perm.map of_entry (held-Perm r.name l e made b)))
  where
    b : IsBalanced r.name l
    b =
        let (m, f, balanced) = load_lang-IsBalanced w dir r.name ok in
        let same : m ≡ l = cc (f, load) in subst (IsBalanced r.name) same balanced
