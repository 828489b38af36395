-- ===== src/Discover.antt =====
-- src/discover.c: the walk of the file tree that puts the paths to parse into the queue. What the
-- file system answers and whether each allocation succeeds are inputs. The messages on stderr are
-- left out.
pub mod Ignored
pub mod Tree
pub mod Round
pub mod Walk
pub mod Ends
pub mod Only
mod Tests
use tsag.Base.{
  ℕ, zero, suc, ◌+◌, Bool, true, false, not, ◌&&◌, ◌||◌, List, [], ◌∷◌, ◌++◌, Option, none, some,
  ◌>>=◌, Bytes, codes, length, ◌==◌, if◌then◌else◌, str_eq,
}
use tsag.StrStack.{StrStack, strstack_init, strstack_push, strstack_pop}
use tsag.Lang.{find_extension, ext_to_lang}

abbrev pub ignored_files : List Bytes
ignored_files = codes ".git" ∷ codes "build" ∷ codes "dist" ∷ []

-- `while (*p == '/') p++`
unfoldable pub skip_slashes : Bytes → Bytes
skip_slashes [] = []
skip_slashes (c ∷ p) = let rest = skip_slashes p in if c == b'/' then rest else c ∷ p

-- The bytes before `strchr(p, '/')`, and those behind it; `none` for NULL.
unfoldable pub component : Bytes → Bytes × Option Bytes
component [] = ([], none)
component (c ∷ p) =
    let (name, rest) = component p in if c == b'/' then ([], some p) else (c ∷ name, rest)

-- The loop over `IGNORED_FILES`.
unfoldable pub is_listed : List Bytes → Bytes → Bool
is_listed [] name = false
is_listed (f ∷ files) name = (length name == length f && str_eq name f) || is_listed files name

abbrev pub is_dot : Bytes → Bool
is_dot name = length name == 1 && str_eq name (codes ".")

-- What follows a component that is not ignored: `if (end == NULL) break; p = end + 1`.
unfoldable pub go_on : (Bytes → Option Bool) → Option Bytes → Option Bool
go_on next none = some false
go_on next (some rest) = next rest

-- A round of the loop, behind the slashes it skips.
unfoldable pub ignored_round : (Bytes → Option Bool) → Bytes → Option Bool
ignored_round next p =
    let (name, end) = component p in
    if length p == 0
    then some false
    else if not (is_dot name) && is_listed ignored_files name
    then some true
    else go_on next end

unfoldable pub ignored_loop : ℕ → Bytes → Option Bool
ignored_loop zero p = none
ignored_loop (suc fuel) p = ignored_round (ignored_loop fuel) (skip_slashes p)

-- Each round takes at least a byte off the path.
unfoldable pub is_ignored : Bytes → Option Bool
is_ignored path = ignored_loop (suc (length path)) path

-- What `lstat` says of a path.
pub data Kind : Type 0 where
  directory : Kind
  regular : Kind
  other : Kind

-- `none` is an error; the names are what `readdir` returns, in its order.
pub record FileSystem : Type 0 where
  pub lstat : Bytes → Option Kind
  pub opendir : Bytes → Option (List Bytes)

-- Which allocations succeed: the copy of the root, and for each path its own and the stack's.
pub record Memory : Type 0 where
  pub strdup_ok : Bool
  pub malloc_ok : Bytes → Bool
  pub realloc_ok : Bytes → Bool

abbrev pub is_dots : Bytes → Bool
is_dots name = str_eq name (codes ".") || str_eq name (codes "..")

unfoldable pub full_path : Bytes → Bytes → Bytes
full_path path name = if str_eq path (codes ".") then name else path ++ b'/' ∷ name

-- `find_extension` and `ext_to_lang` both give a result.
unfoldable pub is_wanted : Bytes → Bool
is_wanted path = elim (find_extension path) [
  | none ↦ false
  | some ext ↦ elim (ext_to_lang ext) [ none ↦ false | some lang ↦ true ]
]

module _ (fs : FileSystem) (mem : Memory) where
  -- The loop over `readdir`.
  unfoldable pub push_entries : Bytes → List Bytes → StrStack → StrStack
  push_entries path [] stack = stack
  push_entries path (name ∷ names) stack =
      let full = full_path path name in
      let pushed = (strstack_push (mem.realloc_ok full) stack full).1 in
      push_entries path names
        (if is_dots name then stack else if mem.malloc_ok full then pushed else stack)

  -- What follows `opendir`.
  unfoldable pub open_dir :
      Option (List Bytes) → Bytes → StrStack → List Bytes → StrStack × List Bytes
  open_dir none path stack out = (stack, out)
  open_dir (some names) path stack out = (push_entries path names stack, out)

  -- What follows `lstat`.
  unfoldable pub visit_found : Option Kind → Bytes → StrStack → List Bytes → StrStack × List Bytes
  visit_found none path stack out = (stack, out)
  visit_found (some Kind.directory) path stack out = open_dir (fs.opendir path) path stack out
  visit_found (some Kind.regular) path stack out =
      (stack, if is_wanted path then out ++ path ∷ [] else out)
  visit_found (some Kind.other) path stack out = (stack, out)

  -- The body of the loop, for a path just popped: the stack, and the paths put into the queue.
  unfoldable pub visit : Bytes → StrStack → List Bytes → Option (StrStack × List Bytes)
  visit path stack out = do
    ignored ← is_ignored path
    some (if ignored then (stack, out) else visit_found (fs.lstat path) path stack out)

  -- A round of the loop, on what `strstack_pop` returns.
  unfoldable pub loop_round :
      (StrStack → List Bytes → Option (List Bytes))
      → Option Bytes × StrStack
      → List Bytes
      → Option (List Bytes)
  loop_round next (none, stack) out = some out
  loop_round next (some path, stack) out = visit path stack out >>= λ s. next s.0 s.1

  -- Each round pops a path; there is no other bound on a walk.
  unfoldable pub path_loop : ℕ → StrStack → List Bytes → Option (List Bytes)
  path_loop zero stack out = none
  path_loop (suc fuel) stack out = loop_round (path_loop fuel) (strstack_pop stack) out

  -- The paths put into the queue, in order.
  unfoldable pub enqueue_path : ℕ → Bytes → Option (List Bytes)
  enqueue_path fuel root =
      let (pushed, stack) = strstack_push (mem.realloc_ok root) strstack_init root in
      if not mem.strdup_ok then some [] else if not pushed then some [] else path_loop fuel stack []
