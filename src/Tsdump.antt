-- ===== src/Tsdump.antt =====
-- tools/tsdump.c: a tool that prints the syntax tree of a file, or the matches of a query in it.
-- What the calls answer is a parameter, `digits` is what `%u` prints. The messages on stderr are left
-- out.
pub mod Lines
pub mod Dump
pub mod Replay
pub mod Laws
mod Tests
use tsag.Base.{
  ℕ, zero, suc, ◌+◌, ◌-◌, Bool, true, false, not, List, [], ◌∷◌, ◌++◌, Option, none, some, ◌>>=◌,
  Bytes, codes, take, drop, replicate, length, ltb, ◌==◌, if◌then◌else◌,
}
use tsag.Lang.{find_extension}
use tsag.Parse.Text.{newline}
use tsag.Parse.Match.{Capture, QueryMatch}
use tsag.Lang.Cache.Life.{Setup, lang_cache_new}

-- A node: its type, its range, and its children with their fields.
mutual
  pub data Node : Type 0 where
    null : Node
    node : Bytes → ℕ → ℕ → Children → Node

  pub data Children : Type 0 where
    leaf : Children
    child : Option Bytes → Node → Children → Children

-- The loop of `print_snippet`, over the bytes of the range.
unfoldable pub snippet_loop : Bytes → Bytes
snippet_loop [] = []
snippet_loop (c ∷ cs) =
    let rest = snippet_loop cs in
    if c == newline then codes "\\n" else if c == 9 then codes "\\t" ++ rest else c ∷ rest

-- The range of a node lies within the source.
unfoldable pub print_snippet : Bytes → ℕ → ℕ → Bytes
print_snippet src start end = b' ' ∷ snippet_loop (take (end - start) (drop start src))

-- `for (int i = 0; i < depth; i++) printf("  ")`
unfoldable pub indent : ℕ → Bytes
indent zero = []
indent (suc depth) = b' ' ∷ b' ' ∷ indent depth

unfoldable pub field_name : Option Bytes → Bytes
field_name none = []
field_name (some field) = field ++ codes ": "

-- `%-20.*s`
unfoldable pub padded : Bytes → Bytes
padded name = name ++ replicate (20 - length name) b' '

-- What `main` and its helpers acquire: `stream` is a file that is read, `text` the source's text,
-- `query_text` the query's.
pub data Thing : Type 0 where
  cache : Thing
  stream : Thing
  text : Thing
  parser : Thing
  query_text : Thing
  query : Thing
  cursor : Thing
  query_parser : Thing
  tree : Thing

pub data Event : Type 0 where
  acquired : Thing → Event
  released : Thing → Event

-- What the system answers to `read_file`. `size` is `none` for a negative result of `ftell`.
pub record Input : Type 0 where
  pub fopen_ok : Bool
  pub fseek_ok : Bool
  pub size : Option ℕ
  pub malloc_ok : Bool
  pub content : Bytes

-- The text, and the events; `t` is the buffer.
unfoldable pub read_file : Thing → Input → Option Bytes × List Event
read_file t f =
    if not f.fopen_ok
    then (none, [])
    else if not f.fseek_ok
    then (none, acquired stream ∷ released stream ∷ [])
    else elim f.size [
      | none ↦ (none, acquired stream ∷ released stream ∷ [])
      | some n ↦
          if not f.malloc_ok
          then (none, acquired stream ∷ released stream ∷ [])
          else (some (take n f.content), acquired stream ∷ acquired t ∷ released stream ∷ [])
    ]

module _ (digits : ℕ → Bytes) where
  -- `[%u, %u]`
  unfoldable pub range : ℕ → ℕ → Bytes
  range start end = b'[' ∷ (digits start ++ (codes ", " ++ (digits end ++ b']' ∷ [])))

  -- What is printed before the children, or before the snippet.
  unfoldable pub node_head : Bytes → ℕ → ℕ → ℕ → Option Bytes → Bytes
  node_head type start end depth field =
      indent depth ++ (field_name field ++ (b'(' ∷ (type ++ b' ' ∷ range start end)))

  unfoldable mutual
    pub dump_node : Node → Bytes → ℕ → Option Bytes → Bytes
    dump_node null src depth field = []
    dump_node (node type start end leaf) src depth field =
        node_head type start end depth field
        ++ (print_snippet src start end ++ (b')' ∷ newline ∷ []))
    dump_node (node type start end (child name first others)) src depth field =
        node_head type start end depth field
        ++ (newline
            ∷ (dump_children (child name first others) src (suc depth)
                ++ (indent depth ++ (b')' ∷ newline ∷ []))))

    pub dump_children : Children → Bytes → ℕ → Bytes
    dump_children leaf src depth = []
    dump_children (child name first others) src depth =
        dump_node first src depth name ++ dump_children others src depth

  unfoldable pub dump_capture : Bytes → Capture → Bytes
  dump_capture src cap =
      codes "  "
      ++ (padded cap.capture_name
          ++ (b' '
              ∷ (range cap.start_byte cap.end_byte
                  ++ (print_snippet src cap.start_byte cap.end_byte ++ newline ∷ []))))

  unfoldable pub dump_captures : Bytes → List Capture → Bytes
  dump_captures src [] = []
  dump_captures src (cap ∷ caps) = dump_capture src cap ++ dump_captures src caps

  -- The loop of `run_query`; `count` is `match_count`.
  unfoldable pub dump_matches : Bytes → ℕ → List QueryMatch → Bytes
  dump_matches src count [] = []
  dump_matches src count (m ∷ ms) =
      codes "match "
      ++ (digits count
          ++ (codes " (pattern "
              ++ (digits m.pattern_index
                  ++ (b')'
                      ∷ newline
                      ∷ (dump_captures src m.captures ++ dump_matches src (count + 1) ms)))))

-- What lies outside: the answers of the calls. The outer option of `parsed` is a result of
-- `ts_parser_parse_string` that is NULL.
pub record Host : Type 0 where
  pub digits : ℕ → Bytes
  pub grammars : Option Bytes
  pub cache_setup : Setup
  pub entry_found : Bytes → Bytes → Bool
  pub input : Bytes → Input
  pub query_ok : Bytes → Bool
  pub parsed : Bytes → Option Node
  pub matches : Bytes → Bytes → List QueryMatch

-- The exit code, what is printed, and the events in order.
pub record Run : Type 0 where
  pub exit : ℕ
  pub printed : Bytes
  pub events : List Event

-- The steps of a run before its end; no run where a NULL pointer is read.
unfoldable pub before : List Event → Option Run → Option Run
before es none = none
before es (some r) = some (record r { events = es ++ r.events })

unfoldable pub stop : List Event → Option Run
stop es = some (record { exit = 1; printed = []; events = es })

unfoldable pub finish : Bytes → List Event → Option Run
finish printed es = some (record { exit = 0; printed = printed; events = es })

unfoldable pub grammar_dir : Option Bytes → Bytes
grammar_dir none = codes "/home/davkk/.local/share/nvim/site/parser/"
grammar_dir (some []) = codes "/home/davkk/.local/share/nvim/site/parser/"
grammar_dir (some (c ∷ cs)) = c ∷ cs

module _ (h : Host) where
  unfoldable pub dump_tree : Bytes → Option Node → Bytes × List Event
  dump_tree src none = ([], [])
  dump_tree src (some root) =
      (dump_node h.digits root src 0 none, acquired tree ∷ released tree ∷ [])

  -- `none`: the tree is NULL, and is read.
  unfoldable pub run_query : Bytes → Bytes → Option Node → Option (Bytes × List Event)
  run_query src q_src none = none
  run_query src q_src (some root) = some (
    dump_matches h.digits src 0 (h.matches src q_src),
    acquired query_parser ∷ acquired tree ∷ released tree ∷ released query_parser ∷ [],
  )

  -- After `ts_query_new`.
  unfoldable pub with_query : Bytes → Bytes → Option Run
  with_query src q_src =
      if h.query_ok q_src
      then before (acquired query ∷ acquired cursor ∷ []) (
          run_query src q_src (h.parsed src) >>= λ r. before r.1 (
            finish r.0 (
              released cursor
              ∷ released query
              ∷ released query_text
              ∷ released parser
              ∷ released text
              ∷ released cache
              ∷ [])))
      else stop (released query_text ∷ released parser ∷ released text ∷ released cache ∷ [])

  -- The branch with a query, after it is read.
  unfoldable pub query_read : Bytes → Option Bytes × List Event → Option Run
  query_read src (none, es) =
      before es (stop (released parser ∷ released text ∷ released cache ∷ []))
  query_read src (some q_src, es) = before es (with_query src q_src)

  unfoldable pub show : Bytes → Option Bytes → Option Run
  show src none =
      let r = dump_tree src (h.parsed src) in
      before r.1 (finish r.0 (released parser ∷ released text ∷ released cache ∷ []))
  show src (some query_file) = query_read src (read_file query_text (h.input query_file))

  -- After the file is read.
  unfoldable pub source_read : Option Bytes × List Event → Option Bytes → Option Run
  source_read (none, es) query_file = before es (stop (released cache ∷ []))
  source_read (some src, es) query_file =
      before es (before (acquired parser ∷ []) (show src query_file))

  -- After the cache is made.
  unfoldable pub with_cache : Bytes → Option Bytes → Option Run
  with_cache filepath query_file = elim (find_extension filepath) [
    | none ↦ stop (released cache ∷ [])
    | some ext ↦
        if h.entry_found (grammar_dir h.grammars) ext
        then source_read (read_file text (h.input filepath)) query_file
        else stop (released cache ∷ [])
  ]

  unfoldable pub start : Bytes → Option Bytes → Option Run
  start filepath query_file = elim (lang_cache_new h.cache_setup).cache [
    | none ↦ stop []
    | some c ↦ before (acquired cache ∷ []) (with_cache filepath query_file)
  ]

  -- On the arguments behind the program's name.
  unfoldable pub main : List Bytes → Option Run
  main [] = stop []
  main (filepath ∷ []) = start filepath none
  main (filepath ∷ query_file ∷ []) = start filepath (some query_file)
  main (filepath ∷ query_file ∷ other ∷ others) = stop []
