-- ===== src/Tsdump/Laws.antt =====
-- What tsdump acquires and releases.
use tsag.Base.{◌≡◌, refl, List, [], ◌∷◌, Option, none, some, ◌>>=◌, Bytes, if◌then◌else◌}
use tsag.Lang.{find_extension}
use tsag.Lang.Cache.{LangCache}
use tsag.Lang.Cache.Life.{lang_cache_new}
use tsag.Tsdump.{
  Node, cache, text, parser, query_text, query, cursor, Event, acquired, released, read_file, Host,
  Run, before, stop, finish, grammar_dir, dump_tree, run_query, with_query, query_read, show,
  source_read, with_cache, start, main,
}
use tsag.Tsdump.Replay.{
  tag, release, replay, Cleans, before-Cleans, if-Cleans, Reads, read_file-Reads,
}

module _ (h : Host) (trees : (src : Bytes) → (root : Node) × (h.parsed src ≡ some root)) where
  query-Cleans :
      (src q_src : Bytes) (root : Node)
      → Cleans (cursor ∷ query ∷ query_text ∷ parser ∷ text ∷ cache ∷ []) (
          run_query h src q_src (some root) >>= λ r. before r.1 (
            finish r.0 (
              released cursor
              ∷ released query
              ∷ released query_text
              ∷ released parser
              ∷ released text
              ∷ released cache
              ∷ [])))
  unfolding run_query before finish Cleans replay release tag
  query-Cleans src q_src root = refl

  with_query-Cleans :
      (src q_src : Bytes)
      → Cleans (query_text ∷ parser ∷ text ∷ cache ∷ []) (with_query h src q_src)
  unfolding with_query stop Cleans replay release tag
  with_query-Cleans src q_src =
      let (root, e) = trees src in
      if-Cleans (h.query_ok q_src) _ _ (query_text ∷ parser ∷ text ∷ cache ∷ [])
        (before-Cleans (acquired query ∷ acquired cursor ∷ []) _
          (query_text ∷ parser ∷ text ∷ cache ∷ [])
          (cursor ∷ query ∷ query_text ∷ parser ∷ text ∷ cache ∷ []) refl
          (rw e (query-Cleans src q_src root)))
        refl

  query_read-Cleans :
      (src : Bytes) (r : Option Bytes × List Event)
      → Reads query_text (parser ∷ text ∷ cache ∷ []) r
      → Cleans (parser ∷ text ∷ cache ∷ []) (query_read h src r)
  unfolding query_read Reads stop Cleans replay release tag
  query_read-Cleans src (none, es) e =
      before-Cleans es _ (parser ∷ text ∷ cache ∷ []) (parser ∷ text ∷ cache ∷ []) e refl
  query_read-Cleans src (some q_src, es) e =
      before-Cleans es _ (parser ∷ text ∷ cache ∷ []) (query_text ∷ parser ∷ text ∷ cache ∷ []) e
        (with_query-Cleans src q_src)

  tree-Cleans :
      (src : Bytes) (parsed : Option Node)
      → Cleans (parser ∷ text ∷ cache ∷ []) (
          let r = dump_tree h src parsed in
          before r.1 (finish r.0 (released parser ∷ released text ∷ released cache ∷ [])))
  unfolding dump_tree before finish Cleans replay release tag
  tree-Cleans src none = refl
  tree-Cleans src (some root) = refl

  show-Cleans :
      (src : Bytes) (query_file : Option Bytes)
      → Cleans (parser ∷ text ∷ cache ∷ []) (show h src query_file)
  unfolding show tag
  show-Cleans src none = tree-Cleans src (h.parsed src)
  show-Cleans src (some query_file) =
      query_read-Cleans src (read_file query_text (h.input query_file))
        (read_file-Reads query_text refl (parser ∷ text ∷ cache ∷ []) (h.input query_file))

  source_read-Cleans :
      (r : Option Bytes × List Event) (query_file : Option Bytes)
      → Reads text (cache ∷ []) r
      → Cleans (cache ∷ []) (source_read h r query_file)
  unfolding source_read Reads stop Cleans replay release tag
  source_read-Cleans (none, es) query_file e = before-Cleans es _ (cache ∷ []) (cache ∷ []) e refl
  source_read-Cleans (some src, es) query_file e =
      before-Cleans es _ (cache ∷ []) (text ∷ cache ∷ []) e (
        before-Cleans (acquired parser ∷ []) _ (text ∷ cache ∷ []) (parser ∷ text ∷ cache ∷ []) refl
          (show-Cleans src query_file))

  no_entry : Cleans (cache ∷ []) (stop (released cache ∷ []))
  unfolding stop Cleans replay release tag
  no_entry = refl

  with_cache-Cleans :
      (filepath : Bytes) (query_file : Option Bytes)
      → Cleans (cache ∷ []) (with_cache h filepath query_file)
  unfolding with_cache tag
  with_cache-Cleans filepath query_file = found (find_extension filepath)
    where
      found :
          (ext : Option Bytes)
          → Cleans (cache ∷ []) (elim ext [
            | none ↦ stop (released cache ∷ [])
            | some ext ↦
                if h.entry_found (grammar_dir h.grammars) ext
                then source_read h (read_file text (h.input filepath)) query_file
                else stop (released cache ∷ [])
          ])
      found none = no_entry
      found (some ext) =
          if-Cleans (h.entry_found (grammar_dir h.grammars) ext) _ _ (cache ∷ [])
            (source_read-Cleans (read_file text (h.input filepath)) query_file
              (read_file-Reads text refl (cache ∷ []) (h.input filepath)))
            no_entry

  stopped : Cleans [] (stop [])
  unfolding stop Cleans replay
  stopped = refl

  cached : replay (acquired cache ∷ []) [] ≡ some (cache ∷ [])
  unfolding replay
  cached = refl

  start-Cleans :
      (filepath : Bytes) (query_file : Option Bytes) → Cleans [] (start h filepath query_file)
  unfolding start
  start-Cleans filepath query_file = made (lang_cache_new h.cache_setup).cache
    where
      made :
          (c : Option LangCache)
          → Cleans [] (elim c [
            | none ↦ stop []
            | some c ↦ before (acquired cache ∷ []) (with_cache h filepath query_file)
          ])
      made none = stopped
      made (some c) =
          before-Cleans (acquired cache ∷ []) _ [] (cache ∷ []) cached
            (with_cache-Cleans filepath query_file)

  main-Cleans : (args : List Bytes) → Cleans [] (main h args)
  unfolding main
  main-Cleans [] = stopped
  main-Cleans (filepath ∷ []) = start-Cleans filepath none
  main-Cleans (filepath ∷ query_file ∷ []) = start-Cleans filepath (some query_file)
  main-Cleans (filepath ∷ query_file ∷ other ∷ others) = stopped

  Cleans-run :
      (r : Option Run)
      → Cleans [] r
      → (run : Run) × (r ≡ some run) × (replay run.events [] ≡ some [])
  unfolding Cleans
  Cleans-run none c = absurd c
  Cleans-run (some run) c = (run, refl, c)

  -- On any arguments, where tree-sitter gives a tree for every source, tsdump's `main` returns, and on
  -- every path it releases each thing that it has acquired (the cache, the files, the texts, the
  -- parsers, the query, the cursor and the trees) exactly once, after it has acquired it.
  pub main-releases :
      (args : List Bytes)
      → (run : Run) × (main h args ≡ some run) × (replay run.events [] ≡ some [])
  main-releases args = Cleans-run (main h args) (main-Cleans args)
