-- ===== src/Tsdump/Tests.antt =====
-- A function and its name, and a query for which there is no memory.
use tsag.Base.{◌≡◌, refl, arith, true, Bytes, [], ◌∷◌, none, some, codes, str_eq, ℕ, Lacks}
use tsag.Parse.Text.{newline}
use tsag.Tsdump.{
  Node, node, leaf, child, Host, Run, main, dump_node, snippet_loop, print_snippet, indent,
  field_name, range, node_head,
}
use tsag.Tsdump.Lines.{shift}
use tsag.Tsdump.Dump.{IsPlain, dump_node-indents}
use tsag.Tsdump.Replay.{replay}
use tsag.Tsdump.Laws.{main-releases}

-- Every number prints as one digit.
abbrev digits : ℕ → Bytes
digits n = b'7' ∷ []

digits-Lacks : (n : ℕ) → Lacks newline (digits n)
digits-Lacks n = ((λ e. ground (arith, e)), tt)

abbrev tree : Node
tree = node (codes "f") 0 3 (child none (node (codes "id") 0 3 leaf) leaf)

abbrev source : Bytes
source = b'a' ∷ newline ∷ b'b' ∷ []

tree-IsPlain : IsPlain tree
unfolding IsPlain field_name
tree-IsPlain = (
  ((λ e. ground (arith, e)), tt),
  (tt, (((λ e. ground (arith, e)), ((λ e. ground (arith, e)), tt)), tt), tt),
)

-- The newline of the source is printed as two characters, and ends the snippet.
dumped : dump_node digits tree source 0 none ≡ codes "(f [7, 7]\n  (id [7, 7] a\\n)\n)\n"
unfolding dump_node node_head print_snippet snippet_loop indent field_name range
dumped = refl

dump_node-indents_example :
    dump_node digits tree source 1 none ≡ shift true (dump_node digits tree source 0 none)
unfolding field_name
dump_node-indents_example = dump_node-indents digits digits-Lacks tree source 0 none tree-IsPlain tt

abbrev host : Host
host = record {
  digits = digits;
  grammars = none;
  cache_setup = record { calloc_ok = true; strdup_ok = true; mutex_ok = true; cond_ok = true };
  entry_found = λ dir ext. true;
  input = λ path. record {
    fopen_ok = true;
    fseek_ok = true;
    size = some 3;
    malloc_ok = str_eq path (codes "a.c");
    content = source;
  };
  query_ok = λ text. true;
  parsed = λ text. some tree;
  matches = λ text query. [];
}

main-releases_example :
    (run : Run) × (main host (codes "a.c" ∷ codes "q.scm" ∷ []) ≡ some run)
    × (replay run.events [] ≡ some [])
main-releases_example = main-releases host (λ src. (tree, refl)) (codes "a.c" ∷ codes "q.scm" ∷ [])
