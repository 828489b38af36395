-- ===== src/Lib.antt =====
-- tsag writes a tags file for source trees. A walk of the file tree (src/discover.c) puts the paths
-- of source files into a bounded queue (src/ioqueue.c). Worker threads (src/worker.c) get them,
-- parse each file with tree-sitter (src/parse.c, with the grammar that src/lang.c finds for the
-- extension), and collect tag lines in a vector (src/linevec.c), which each worker sorts, frees of
-- duplicates and puts into a second queue. A merge thread (src/merge.c) merges these vectors by a
-- heap (src/heap.c) into the output.
--
-- Files, and the code they are about:
-- - Base: shared notation; lists as C arrays, C strings and `strcmp`, permutations.
-- - LineVec: src/linevec.h and src/linevec.c; LineVec/Dedup has the table of byte ranges.
-- - Heap: src/heap.h and src/heap.c. Merge: src/merge.c.
-- - Lang: `find_extension`, `ext_to_lang` and the tables of src/lang.c and src/queries.h. Lang/Load:
--   `load_lang` and what it acquires. Lang/Cache: the cache of grammars that the workers share, with
--   the threads inside `lang_cache_get`; Lang/Cache/Life: `lang_cache_new` and `lang_cache_free`.
-- - Parse/Text, Parse/Match, Parse/File: src/parse.c, from the text routines to
--   `parse_file_lines`.
-- - StrStack: src/strstack.h and src/strstack.c.
-- - Queue: src/ioqueue.h and src/ioqueue.c; Queue/Runs has the interleavings of threads, and
--   Queue/Threads those with the condition variables; Queue/Life: what a queue holds.
-- - Discover: src/discover.c. Worker: src/worker.c. Options: src/options.h and src/options.c.
-- - Pipeline: the workers and the merge as src/main.c puts them together;
--   Pipeline/Files, Pipeline/Once and Pipeline/Shares follow the lines of each file.
-- - Main: `main` of src/main.c, as the list of its events; Main/Replay says which lists are allowed,
--   and Main/Complete which one a run without failures is.
-- - Program: all threads over both queues, from the first put to the last join, in any interleaving;
--   Program/Invariant says what they have between them; Program/Tree starts from the file tree.
-- - Tsdump: tools/tsdump.c, what it prints and what it acquires and releases.
-- In each, a function or type of the source has the source's name; a loop or a branch of a function
-- that is a definition of its own says which in the comment above it.
--
-- Conventions. A C string is the list of its bytes before the NUL, and an array the list of its
-- slots. What lies outside the program is an input: the outcome of each allocation, the answers of
-- the file system, of tree-sitter and of the language cache. Memory that is freed is a result where
-- it matters. The outer `none` of an operation is a failed `assert`, an access out of bounds or
-- spent fuel. Machine sizes stay natural numbers where the code only compares and adds sizes of
-- objects in memory; the test of `line_vec_push` on `SIZE_MAX` and the limits of a file's size are
-- written out. The number of jobs is a natural number, also where src/main.c casts it to `int`. The
-- code is modelled with its assertions, as it is without NDEBUG.
--
-- Fuel. `heap_heapify_up` has one call more than the index and `heap_heapify_down` one more than
-- the size of the heap; the merge has one round for each line and one more, and `is_ignored` one
-- round for each byte of the path and one more. These are enough on every input that the program
-- gives them. The loop of `enqueue_path` takes its fuel as an argument, since its rounds depend on
-- the file tree. All other loops are by recursion on their input.
--
-- `qsort` is an insertion sort here; every sort gives the same lines. A critical section of a lock
-- is one step. In Queue/Runs a thread that sleeps has not taken its step; in Queue/Threads and
-- Lang/Cache/Threads the sleepers are in the state, and any of them may wake without a signal. In
-- Program a step is a critical section of a queue with what its thread then does on its own, a
-- thread that sleeps has not taken its step, and all threads are taken to be created.
--
-- Hypotheses on the outside. `lang_cache_get` compares the names of languages that are being loaded
-- by address: the theorems on it take the addresses of equal names to be equal (`IsPooled`), which
-- holds where the compiler pools equal string literals. `load_lang` is taken to get memory for its
-- entry, since it does not test the result of `malloc`.
--
-- Not modelled: the texts of the queries (src/queries.h) and messages on stderr.
pub mod Base
pub mod LineVec
pub mod Heap
pub mod Merge
pub mod Lang
pub mod Parse
pub mod StrStack
pub mod Queue
pub mod Discover
pub mod Worker
pub mod Pipeline
pub mod Main
pub mod Options
pub mod Tsdump
pub mod Program
