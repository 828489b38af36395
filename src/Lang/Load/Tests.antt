-- ===== src/Lang/Load/Tests.antt =====
-- A linker that has every library, and one whose symbols are missing.
use tsag.Base.{◌≡◌, refl, true, [], ◌∷◌, none, some, codes, str_eq, strcmp}
use tsag.Lang.{ext_to_lang, ext_lang}
use tsag.Lang.Load.{Loader, Load, Resource, load_lang, so_path}
use tsag.Lang.Load.Laws.{IsBalanced, load_lang-IsBalanced}

abbrev linker : Loader
linker = record {
  malloc_ok = true;
  dlopen = λ path. some 1;
  dlsym = λ lib sym. some 2;
  query_new = λ language lang. some 3;
  strdup_ok = true;
}

abbrev no_symbols : Loader
no_symbols = record linker { dlsym = λ lib sym. none }

path : so_path (codes "/p") (codes "cpp") ≡ codes "/p/cpp.so"
unfolding so_path
path = refl

hpp : ext_to_lang (codes "hpp") ≡ some (codes "cpp")
unfolding ext_to_lang ext_lang str_eq strcmp
hpp = refl

released :
    load_lang no_symbols (codes "/p") (codes "cpp")
    ≡ some (record {
      result = none;
      acquired = Resource.memory ∷ Resource.library 1 ∷ [];
      released = Resource.library 1 ∷ Resource.memory ∷ [];
    })
unfolding load_lang
released = refl

load_lang-IsBalanced_example :
    (l : Load) × (load_lang no_symbols (codes "/p") (codes "cpp") ≡ some l)
    × IsBalanced (codes "cpp") l
load_lang-IsBalanced_example = load_lang-IsBalanced no_symbols (codes "/p") (codes "cpp") refl
