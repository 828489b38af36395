-- ===== src/Lang/Tests.antt =====
-- Extensions of paths, and the theorems on them at `src/x.y/main.hpp`.
use tsag.Base.{◌≡◌, ◌↔◌, refl, Bytes, codes, none, some, str_eq, strcmp, split_last}
use tsag.Lang.{find_extension, ext_to_lang, ext_lang}
use tsag.Lang.Extension.{HasExtension, find_extension_iff}

abbrev path : Bytes
path = codes "src/x.y/main.hpp"

finds : find_extension path ≡ some (codes "hpp")
unfolding find_extension split_last
finds = refl

hidden : find_extension (codes "src/.hpp") ≡ none
unfolding find_extension split_last
hidden = refl

is_cpp : ext_to_lang (codes "hpp") ≡ some (codes "cpp")
unfolding ext_to_lang ext_lang str_eq strcmp
is_cpp = refl

find_extension_iff_example :
    (find_extension path ≡ some (codes "hpp")) ↔ HasExtension path (codes "hpp")
find_extension_iff_example = find_extension_iff path (codes "hpp")
