-- ===== src/Discover/Tree.antt =====
-- A recursive walk of the file tree, as a reference for `enqueue_path` of src/discover.c.
use tsag.Base.{
  ℕ, zero, suc, ◌≡◌, refl, true, arith, List, [], ◌∷◌, ◌++◌, Option, none, some, ◌>>=◌, Bytes,
  if◌then◌else◌, reverse,
}
use tsag.Discover.{FileSystem, Memory, Kind, is_dots, full_path, is_wanted}
use tsag.Discover.Ignored.{has_ignored_part}

-- Every allocation succeeds.
pub record Plenty (mem : Memory) : Type 0 where
  pub strdup_ok : mem.strdup_ok ≡ true
  pub malloc_ok : (p : Bytes) → mem.malloc_ok p ≡ true
  pub realloc_ok : (p : Bytes) → mem.realloc_ok p ≡ true

-- The paths of the entries of a directory, without `.` and `..`.
unfoldable pub children : Bytes → List Bytes → List Bytes
children path [] = []
children path (name ∷ names) =
    let rest = children path names in if is_dots name then rest else full_path path name ∷ rest

-- The walks of several paths, one after the other.
unfoldable pub walk_all : (Bytes → Option (List Bytes)) → List Bytes → Option (List Bytes)
walk_all f [] = some []
walk_all f (p ∷ ps) = do out ← f p; outs ← walk_all f ps; some (out ++ outs)

pub bind-inv {ℓ κ} :
    {A : Type ℓ} {B : Type κ} (m : Option A) (k : A → Option B) (b : B)
    → (m >>= k) ≡ some b
    → (a : A) × (m ≡ some a) × (k a ≡ some b)
bind-inv none k b e = absurd (ground arith)
bind-inv (some a) k b e = (a, refl, e)

module _ (fs : FileSystem) where
  -- Whether the path itself is to be parsed.
  unfoldable pub own_file : Option Kind → Bytes → List Bytes
  own_file (some Kind.regular) path = if is_wanted path then path ∷ [] else []
  own_file none path = []
  own_file (some Kind.directory) path = []
  own_file (some Kind.other) path = []

  unfoldable pub entries_of : Option (List Bytes) → Bytes → List Bytes
  entries_of none path = []
  entries_of (some names) path = children path names

  -- The paths right below it.
  unfoldable pub below : Option Kind → Bytes → List Bytes
  below (some Kind.directory) path = entries_of (fs.opendir path) path
  below none path = []
  below (some Kind.regular) path = []
  below (some Kind.other) path = []

  -- The files to parse at and below `path`, in the order of a walk that takes the entries of a
  -- directory from the last to the first; `none` for a tree of more than `depth` levels.
  unfoldable pub walk : ℕ → Bytes → Option (List Bytes)
  walk zero path = none
  walk (suc depth) path =
      let deeper = walk_all (walk depth) (reverse (below (fs.lstat path) path)) in
      if has_ignored_part path
      then some []
      else deeper >>= λ outs. some (own_file (fs.lstat path) path ++ outs)
