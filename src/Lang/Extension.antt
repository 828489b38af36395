-- ===== src/Lang/Extension.antt =====
-- src/lang.c, `find_extension` and `ext_to_lang`.
use tsag.Base.{
  ◌≡◌, ◌≢◌, ◌↔◌, ◌⊎◌, inl, inr, refl, ap, sym, ◌∙◌, true, arith, List, [], ◌∷◌, ◌++◌, Option, none,
  some, Bytes, All, split_last, Lacks, Splits, split_last-Splits, split_last-none, split_last-some,
  append_assoc, str_eq, strcmp, Bool-cases, subst, ℕ, suc, map, get_elem?, codes, str_eq→eq,
}
use tsag.Lang.{
  ExtLang, ext_lang, behind, base_of, after_dot, find_extension, lang_loop, ext_to_lang, queries,
  has_query,
}

-- A directory part: nothing, or text that ends in a slash.
abbrev pub IsDir : Bytes → Type 0
IsDir dir = (dir ≡ []) ⊎ ((d : Bytes) × (dir ≡ d ++ b'/' ∷ []))

-- The file name of `path` is a stem, a dot and `ext`, the last two of them not empty, and no later
-- dot.
pub record HasExtension (path ext : Bytes) : Type 0 where
  pub dir : Bytes
  pub stem : Bytes
  pub is_dir : IsDir dir
  pub whole : path ≡ dir ++ (stem ++ b'.' ∷ ext)
  pub no_slash : Lacks b'/' (stem ++ b'.' ∷ ext)
  pub no_dot : Lacks b'.' ext
  pub stem_ne : stem ≢ []
  pub ext_ne : ext ≢ []

base_of-dir : (dir name : Bytes) → IsDir dir → Lacks b'/' name → base_of (dir ++ name) ≡ name
unfolding base_of
base_of-dir dir name (inl e) l = rw e (ap (behind name) (split_last-none b'/' name l))
base_of-dir dir name (inr (d, e)) l =
    rw (e, append_assoc d (b'/' ∷ []) name)
      (ap (behind (d ++ b'/' ∷ name)) (split_last-some b'/' d name l))

after_dot-some : (stem ext : Bytes) → stem ≢ [] → ext ≢ [] → after_dot (some (stem, ext)) ≡ some ext
unfolding after_dot
after_dot-some [] ext p q = absurd (p refl)
after_dot-some (x ∷ stem) [] p q = absurd (q refl)
after_dot-some (x ∷ stem) (y ∷ ext) p q = ground arith

behind-split :
    (path : Bytes) (r : Option (Bytes × Bytes))
    → Splits b'/' path r
    → (dir : Bytes) × (path ≡ dir ++ behind path r) × IsDir dir × Lacks b'/' (behind path r)
unfolding behind
behind-split path none l = ([], refl, inl refl, l)
behind-split path (some (d, b)) (e, l) =
    (d ++ b'/' ∷ [], e ∙ sym (append_assoc d (b'/' ∷ []) b), inr (d, refl), l)

after_dot-inv :
    (base ext : Bytes) (r : Option (Bytes × Bytes))
    → Splits b'.' base r
    → after_dot r ≡ some ext
    → (stem : Bytes) × (base ≡ stem ++ b'.' ∷ ext) × Lacks b'.' ext × (stem ≢ []) × (ext ≢ [])
unfolding after_dot
after_dot-inv base ext none l e = absurd (ground arith)
after_dot-inv base ext (some ([], b)) s e = absurd (ground arith)
after_dot-inv base ext (some (x ∷ stem, [])) s e = absurd (ground arith)
after_dot-inv base ext (some (x ∷ stem, y ∷ b)) (whole, l) e =
    let same : y ∷ b ≡ ext = ground arith in
    (
      x ∷ stem,
      whole ∙ ap (λ t. x ∷ (stem ++ b'.' ∷ t)) same,
      subst (Lacks b'.') same l,
      λ q. ground arith,
      λ q. ground arith,
    )

-- Where the base begins.
base_of-split :
    (path : Bytes)
    → (dir : Bytes) × (path ≡ dir ++ base_of path) × IsDir dir × Lacks b'/' (base_of path)
unfolding base_of
base_of-split path = behind-split path (split_last b'/' path) (split_last-Splits b'/' path)

-- `find_extension` returns exactly what follows the last dot of the file name: it returns `ext` if
-- and only if the part of the path behind the last slash is a stem, a dot and `ext`, where the stem
-- and `ext` are not empty and `ext` has no dot.
pub find_extension_iff :
    (path ext : Bytes) → (find_extension path ≡ some ext) ↔ HasExtension path ext
unfolding find_extension
find_extension_iff path ext = (to, from)
  where
    from : HasExtension path ext → find_extension path ≡ some ext
    from h =
        rw
          (
            h.whole,
            base_of-dir h.dir (h.stem ++ b'.' ∷ ext) h.is_dir h.no_slash,
            split_last-some b'.' h.stem ext h.no_dot,
          )
          (after_dot-some h.stem ext h.stem_ne h.ext_ne)

    to : find_extension path ≡ some ext → HasExtension path ext
    to e =
        let (dir, whole, is_dir, no_slash) = base_of-split path in
        let (stem, split, no_dot, stem_ne, ext_ne) =
          after_dot-inv (base_of path) ext (split_last b'.' (base_of path))
            (split_last-Splits b'.' (base_of path)) e in
        record {
          dir = dir;
          stem = stem;
          is_dir = is_dir;
          whole = whole ∙ ap (λ b. dir ++ b) split;
          no_slash = subst (Lacks b'/') split no_slash;
          no_dot = no_dot;
          stem_ne = stem_ne;
          ext_ne = ext_ne;
        }

lang_loop-has_query :
    (rows : List ExtLang)
    → All (λ r. has_query queries r.name ≡ true) rows
    → (ext name : Bytes) → lang_loop rows ext ≡ some name
    → has_query queries name ≡ true
unfolding lang_loop
lang_loop-has_query [] h ext name e = ground arith
lang_loop-has_query (r ∷ rows) h ext name e = elim (Bool-cases (str_eq ext r.ext)) [
  | inl found ↦
      let same : some r.name ≡ some name = rw found at e in
      let same' : r.name ≡ name = cc in rw same' at h.0
  | inr other ↦ lang_loop-has_query rows h.1 ext name (rw other at e)
]

rows-have_queries : All (λ r. has_query queries r.name ≡ true) ext_lang
unfolding ext_lang has_query queries str_eq strcmp
rows-have_queries = ground arith

-- Every language that an extension maps to has an embedded query.
pub ext_to_lang-has_query :
    (ext name : Bytes) → ext_to_lang ext ≡ some name → has_query queries name ≡ true
unfolding ext_to_lang
ext_to_lang-has_query = lang_loop-has_query ext_lang rows-have_queries

lang_loop-listed :
    (rows : List ExtLang) (ext name : Bytes)
    → lang_loop rows ext ≡ some name
    → (i : ℕ) × (get_elem? (map (λ r. r.ext) rows) i ≡ some ext)
unfolding lang_loop
lang_loop-listed [] ext name e = absurd (ground arith)
lang_loop-listed (r ∷ rows) ext name e = elim (Bool-cases (str_eq ext r.ext)) [
  | inl found ↦ (0, ap some (sym (str_eq→eq ext r.ext found)))
  | inr other ↦ let (i, f) = lang_loop-listed rows ext name (rw other at e) in (suc i, f)
]

-- The fourteen extensions.
abbrev pub extensions : List Bytes
extensions =
    codes "c"
    ∷ codes "h"
    ∷ codes "cpp"
    ∷ codes "cc"
    ∷ codes "hpp"
    ∷ codes "cu"
    ∷ codes "cuh"
    ∷ codes "py"
    ∷ codes "lua"
    ∷ codes "js"
    ∷ codes "ts"
    ∷ codes "zig"
    ∷ codes "rs"
    ∷ codes "go"
    ∷ []

ext_lang-extensions : map (λ r. r.ext) ext_lang ≡ extensions
unfolding ext_lang
ext_lang-extensions = refl

-- An extension that has a language is one of them.
pub ext_to_lang-listed :
    (ext name : Bytes) → ext_to_lang ext ≡ some name → (i : ℕ) × (get_elem? extensions i ≡ some ext)
unfolding ext_to_lang
ext_to_lang-listed ext name e =
    let (i, f) = lang_loop-listed ext_lang ext name e in
    (i, ap (λ l. get_elem? l i) (sym ext_lang-extensions) ∙ f)
