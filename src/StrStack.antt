-- ===== src/StrStack.antt =====
-- src/strstack.h and src/strstack.c: the stack of paths that the walk of the file tree works off.
pub mod Laws
use tsag.Base.{
  ℕ, ◌+◌, ◌-◌, ◌*◌, Bool, true, false, List, [], ◌∷◌, ◌++◌, Option, none, some, Bytes, length,
  get_elem?, take, ltb, ◌==◌, if◌then◌else◌,
}

-- `items` holds the `len` live slots, the last one being the top.
pub record StrStack : Type 0 where
  pub items : List Bytes
  pub cap : ℕ

unfoldable pub strstack_init : StrStack
strstack_init = record { items = []; cap = 0 }

-- The strings themselves stay with their owners.
unfoldable pub strstack_free : StrStack → StrStack
strstack_free s = record { items = []; cap = 0 }

unfoldable pub strstack_empty : StrStack → Bool
strstack_empty s = length s.items == 0

-- `true` stands for the result 0, `false` for -1. `realloc_ok` says whether `realloc` succeeds.
unfoldable pub strstack_push : Bool → StrStack → Bytes → Bool × StrStack
strstack_push realloc_ok s str =
    if length s.items == s.cap
    then (let ncap = if s.cap == 0 then 256 else s.cap * 2 in
        if realloc_ok
        then (true, record { items = s.items ++ str ∷ []; cap = ncap })
        else (false, s))
    else (true, record s { items = s.items ++ str ∷ [] })

-- `none` is NULL.
unfoldable pub strstack_pop : StrStack → Option Bytes × StrStack
strstack_pop s = if length s.items == 0 then (none, s) else (
  get_elem? s.items (length s.items - 1),
  record s { items = take (length s.items - 1) s.items },
)
