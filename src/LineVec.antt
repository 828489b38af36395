-- ===== src/LineVec.antt =====
-- src/linevec.h and src/linevec.c: the growable vector of output lines, and the per-file table
-- that removes duplicate byte ranges (LineVec/Dedup).
pub mod Uniq
pub mod Sort
pub mod Ascending
pub mod Count
pub mod Dedup
pub mod Bounds
mod Tests
use tsag.Base.{
  ℕ, zero, suc, ◌+◌, ◌-◌, ◌*◌, ◌/◌, ◌^◌, Bool, true, false, ◌&&◌, List, [], ◌∷◌, ◌++◌, Option, none,
  some, ◌>>=◌, Bytes, length, get_elem?, set, take, ltb, ◌==◌, if◌then◌else◌, str_eq, str_le,
}

-- `items` holds the `len` live slots; the slots between `len` and `cap` are never read.
pub record LineVec : Type 0 where
  pub items : List Bytes
  pub cap : ℕ

abbrev pub len : LineVec → ℕ
len vec = length vec.items

abbrev pub size_max : ℕ
size_max = 2 ^ 64 - 1

abbrev pub pointer_size : ℕ
pointer_size = 8

-- `calloc_ok` says of each of the two `calloc` calls whether it succeeds. An `assert` that fails
-- stops the program: that is the outer `none`; the inner one is the NULL that is returned.
unfoldable pub line_vec_new : Bool × Bool → ℕ → Option (Option LineVec)
line_vec_new (vec_ok, items_ok) cap =
    if ltb 0 cap
    then (if vec_ok && items_ok then some (some (record { items = []; cap = cap })) else some none)
    else none

-- The status is the `int` returned: `true` for 1. `realloc_ok` says whether `realloc` succeeds.
unfoldable pub line_vec_push : Bool → LineVec → Bytes → Bool × LineVec
line_vec_push realloc_ok vec line =
    if len vec == vec.cap
    then (if ltb (size_max / (2 * pointer_size)) vec.cap
        then (false, vec)
        else if realloc_ok
        then (true, record { items = vec.items ++ line ∷ []; cap = vec.cap * 2 })
        else (false, vec))
    else (true, record vec { items = vec.items ++ line ∷ [] })

-- The second component is the line that is freed. `none`: the `assert` on the index fails.
unfoldable pub line_vec_replace : LineVec → ℕ → Bytes → Option (LineVec × Bytes)
line_vec_replace vec idx line =
    if ltb idx (len vec)
    then (do
      old ← get_elem? vec.items idx
      some (record vec { items = set vec.items idx line }, old))
    else none

-- `qsort` with `compare_lines`. The C library does not say by which method it sorts; insertion is
-- chosen here, and Sort shows that every method gives the same lines.
pub insert_line : Bytes → List Bytes → List Bytes
insert_line x [] = x ∷ []
insert_line x (y ∷ ys) = if str_le x y then x ∷ y ∷ ys else y ∷ insert_line x ys

pub sort_lines : List Bytes → List Bytes
sort_lines [] = []
sort_lines (x ∷ xs) = insert_line x (sort_lines xs)

unfoldable pub line_vec_sort : LineVec → LineVec
unfolding sort_lines insert_line
line_vec_sort vec = record vec { items = sort_lines vec.items }

-- The state of the loop of `line_vec_uniq`: the array, the write index and the lines freed.
pub record UniqState : Type 0 where
  pub items : List Bytes
  pub w : ℕ
  pub freed : List Bytes

-- The body at read index `r`.
pub uniq_body : ℕ → UniqState → Option UniqState
uniq_body r s = do
  line ← get_elem? s.items r
  same ←
      if ltb 0 s.w
      then (do prev ← get_elem? s.items (s.w - 1); some (str_eq line prev))
      else some false
  some (
      if same
      then record s { freed = s.freed ++ line ∷ [] }
      else record s { items = set s.items s.w line; w = s.w + 1 })

-- `n` rounds of the loop, from read index `r` on.
pub uniq_loop : ℕ → ℕ → UniqState → Option UniqState
unfolding uniq_body
uniq_loop zero r s = some s
uniq_loop (suc n) r s = uniq_body r s >>= uniq_loop n (r + 1)

unfoldable pub line_vec_uniq : LineVec → Option (LineVec × List Bytes)
unfolding uniq_loop
line_vec_uniq vec = do
  s ← uniq_loop (len vec) 0 (record { items = vec.items; w = 0; freed = [] })
  some (record vec { items = take s.w s.items }, s.freed)

-- Every live line is freed, in order, and the vector is empty.
unfoldable pub line_vec_clear : LineVec → LineVec × List Bytes
line_vec_clear vec = (record vec { items = [] }, vec.items)

-- The lines freed; the array and the record go too.
unfoldable pub line_vec_free : LineVec → List Bytes
unfolding line_vec_clear
line_vec_free vec = (line_vec_clear vec).1
