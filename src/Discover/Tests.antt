-- ===== src/Discover/Tests.antt =====
-- A tree of two directories, one of them ignored, and the theorems on its walk.
use tsag.Base.{
  ℕ, ◌+◌, ◌≡◌, refl, true, List, [], ◌∷◌, some, Bytes, codes, All, if◌then◌else◌, str_eq, strcmp,
  split_last, not,
}
use tsag.StrStack.{strstack_init, strstack_push, strstack_pop}
use tsag.Lang.{find_extension, ext_to_lang, ext_lang}
use tsag.Discover.{
  FileSystem, Memory, Kind, is_ignored, ignored_loop, ignored_round, go_on, skip_slashes, component,
  is_listed, full_path, is_wanted, push_entries, open_dir, visit_found, visit, loop_round,
  path_loop, enqueue_path,
}
use tsag.Discover.Ignored.{has_ignored_part, ignored_name, is_ignored-parts}
use tsag.Discover.Walk.{enqueue_path-walk}
use tsag.Discover.Tree.{Plenty, walk, walk_all, children, below, entries_of, own_file}
use tsag.Discover.Only.{IsSource, enqueue_path-All}

abbrev tree : FileSystem
tree = record {
  lstat = λ p.
      if str_eq p (codes ".")
      then some Kind.directory
      else if str_eq p (codes "build")
      then some Kind.directory
      else if str_eq p (codes "src")
      then some Kind.directory
      else some Kind.regular;
  opendir = λ p.
      if str_eq p (codes ".")
      then some (codes "." ∷ codes "build" ∷ codes "src" ∷ codes "README" ∷ [])
      else if str_eq p (codes "src")
      then some (codes "a.c" ∷ codes "b.py" ∷ codes "c.txt" ∷ [])
      else some (codes "x.c" ∷ []);
}

abbrev memory : Memory
memory = record { strdup_ok = true; malloc_ok = λ p. true; realloc_ok = λ p. true }

memory-Plenty : Plenty memory
memory-Plenty = record { strdup_ok = refl; malloc_ok = λ p. refl; realloc_ok = λ p. refl }

abbrev sources : List Bytes
sources = codes "src/b.py" ∷ codes "src/a.c" ∷ []

walks : walk tree 3 (codes ".") ≡ some sources
unfolding walk walk_all children below entries_of own_file has_ignored_part is_wanted find_extension
    ext_to_lang ext_lang full_path str_eq strcmp split_last ignored_name
walks = refl

enqueues : enqueue_path tree memory 8 (codes ".") ≡ some sources
unfolding enqueue_path path_loop loop_round visit visit_found open_dir push_entries is_ignored
    ignored_loop ignored_round go_on skip_slashes component is_listed is_wanted find_extension
    ext_to_lang ext_lang full_path str_eq strcmp split_last strstack_init strstack_push strstack_pop
enqueues = refl

is_ignored-parts_example :
    is_ignored (codes "./dist/x.c") ≡ some (has_ignored_part (codes "./dist/x.c"))
is_ignored-parts_example = is_ignored-parts (codes "./dist/x.c")

enqueue_path-walk_example :
    (n : ℕ) × ((more : ℕ) → enqueue_path tree memory (n + more) (codes ".") ≡ some sources)
enqueue_path-walk_example = enqueue_path-walk tree memory memory-Plenty 3 (codes ".") sources walks

-- A memory that has no room for `src`.
abbrev tight : Memory
tight = record {
  strdup_ok = true;
  malloc_ok = λ p. not (str_eq p (codes "src"));
  realloc_ok = λ p. true;
}

enqueue_path-All_example :
    (n : ℕ) × ((more : ℕ)
      → (outs : List Bytes) × (enqueue_path tree tight (n + more) (codes ".") ≡ some outs)
        × All (IsSource tree) outs)
enqueue_path-All_example = enqueue_path-All tree tight 3 (codes ".") sources walks
