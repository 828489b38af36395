-- ===== src/Lang.antt =====
-- src/lang.h, src/lang.c and the table of src/queries.h: which language a path is in.
pub mod Extension
pub mod Load
pub mod Cache
mod Tests
use tsag.Base.{
  ℕ, zero, suc, Bool, true, false, ◌||◌, List, [], ◌∷◌, Option, none, some, Bytes, codes, length,
  ◌==◌, if◌then◌else◌, str_eq, split_last,
}

-- One row of `EXT_LANG`.
pub record ExtLang : Type 0 where
  pub ext : Bytes
  pub name : Bytes

row : Bytes → Bytes → ExtLang
row ext name = record { ext = ext; name = name }

unfoldable pub ext_lang : List ExtLang
unfolding row
ext_lang =
    row (codes "c") (codes "c")
    ∷ row (codes "h") (codes "cpp")
    ∷ row (codes "cpp") (codes "cpp")
    ∷ row (codes "cc") (codes "cpp")
    ∷ row (codes "hpp") (codes "cpp")
    ∷ row (codes "cu") (codes "cpp")
    ∷ row (codes "cuh") (codes "cpp")
    ∷ row (codes "py") (codes "python")
    ∷ row (codes "lua") (codes "lua")
    ∷ row (codes "js") (codes "javascript")
    ∷ row (codes "ts") (codes "typescript")
    ∷ row (codes "zig") (codes "zig")
    ∷ row (codes "rs") (codes "rust")
    ∷ row (codes "go") (codes "go")
    ∷ []

-- The part of a path behind its last slash.
behind : Bytes → Option (Bytes × Bytes) → Bytes
behind path none = path
behind path (some (dir, base)) = base

unfoldable pub base_of : Bytes → Bytes
unfolding behind
base_of path = behind path (split_last b'/' path)

-- `!dot || dot == base || !dot[1]`: no dot, a dot that starts the name, a dot that ends it.
after_dot : Option (Bytes × Bytes) → Option Bytes
after_dot none = none
after_dot (some (stem, ext)) = if length stem == 0 || length ext == 0 then none else some ext

unfoldable pub find_extension : Bytes → Option Bytes
unfolding base_of after_dot
find_extension path = after_dot (split_last b'.' (base_of path))

lang_loop : List ExtLang → Bytes → Option Bytes
lang_loop [] ext = none
lang_loop (r ∷ rows) ext = if str_eq ext r.ext then some r.name else lang_loop rows ext

unfoldable pub ext_to_lang : Bytes → Option Bytes
unfolding lang_loop
ext_to_lang ext = lang_loop ext_lang ext

-- The languages of `QUERIES`, in order; the texts of the queries are data for tree-sitter.
unfoldable pub queries : List Bytes
queries =
    codes "cpp"
    ∷ codes "c"
    ∷ codes "python"
    ∷ codes "lua"
    ∷ codes "javascript"
    ∷ codes "typescript"
    ∷ codes "zig"
    ∷ codes "rust"
    ∷ codes "go"
    ∷ []

-- The loop of `load_lang` over `QUERIES`: is there a query for the language?
unfoldable pub has_query : List Bytes → Bytes → Bool
has_query [] lang = false
has_query (q ∷ qs) lang = if str_eq q lang then true else has_query qs lang
