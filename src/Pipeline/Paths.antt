-- ===== src/Pipeline/Paths.antt =====
-- The path that a line of the tags file has in its second field.
use tsag.Base.{
  take, ◌≡◌, refl, sym, ap, ◌∙◌, Bool, true, false, ◌||◌, not, arith, List, [], ◌∷◌, map, Option,
  none, some, ◌>>=◌, Bytes, All, Lacks, if◌then◌else◌, Bool-cases, inl, inr,
}
use tsag.LineVec.Ascending.{has}
use tsag.LineVec.Count.{All-has, has_head}
use tsag.Lang.{find_extension}
use tsag.Parse.Text.{has_long_line}
use tsag.Parse.Match.{tab, format_line}
use tsag.Parse.Match.Line.{split_first, split_first-append, name-Lacks-tab}
use tsag.Parse.File.{Outside, read_file, max_matches_per_file}
use tsag.Parse.File.Best.{Tagged, line_for}
use tsag.Parse.File.Best.Printed.{IsPrinted, best_in-IsPrinted}
use tsag.Pipeline.Laws.{has-append}
use tsag.Pipeline.Files.{source_lines, file_lines, lines_of}

pub line_path : Bytes → Option Bytes
line_path line = do (name, r) ← split_first tab line; (file, r) ← split_first tab r; some file

line_for-path :
    (path source : Bytes) (t : Tagged)
    → Lacks tab path
    → IsPrinted t
    → line_path (line_for path source t) ≡ some path
unfolding line_path line_for format_line
line_for-path path source t l p =
    rw
      (
        split_first-append tab t.info.name _ (name-Lacks-tab t.info.name p),
        split_first-append tab path _ l,
      )
      refl

-- All lines have this path.
abbrev AreOf : Bytes → List Bytes → Type 0
AreOf path lines = All (λ l. line_path l ≡ some path) lines

lines-path :
    (path source : Bytes) (ts : List Tagged)
    → Lacks tab path
    → All IsPrinted ts
    → AreOf path (map (line_for path source) ts)
lines-path path source [] l a = tt
lines-path path source (t ∷ ts) l a =
    (line_for-path path source t l a.0, lines-path path source ts l a.1)

if-AreOf :
    (path : Bytes) (b : Bool) (lines : List Bytes)
    → AreOf path lines
    → AreOf path (if b then [] else lines)
if-AreOf path true lines a = tt
if-AreOf path false lines a = a

source_lines-path :
    (path : Bytes) (x : Outside) (source : Bytes)
    → Lacks tab path
    → AreOf path (source_lines path x source)
unfolding source_lines
source_lines-path path x source l = if-AreOf path (has_long_line source) _ (
    if-AreOf path (not x.parsed) _ (
      lines-path path source _ l
        (best_in-IsPrinted source (map (λ p. p.0) (take max_matches_per_file x.matches)))))

file_lines-path : (path : Bytes) (x : Outside) → Lacks tab path → AreOf path (file_lines path x)
unfolding file_lines
file_lines-path path x l = found (find_extension path)
  where
    read :
        (r : Option Bytes)
        → AreOf path (elim r [ none ↦ [] | some source ↦ source_lines path x source ])
    read none = tt
    read (some source) = source_lines-path path x source l

    found :
        (r : Option Bytes)
        → AreOf path (elim r [
          | none ↦ []
          | some ext ↦
              if not x.entry_found
              then []
              else if not x.language_set
              then []
              else elim (read_file x.file) [ none ↦ [] | some source ↦ source_lines path x source ]
        ])
    found none = tt
    found (some ext) =
        if-AreOf path (not x.entry_found) _
          (if-AreOf path (not x.language_set) _ (read (read_file x.file)))

-- A line of the files has the path of one of them.
pub lines_of-path :
    (l : Bytes) (jobs : List (Bytes × Outside))
    → All (λ j. Lacks tab j.0) jobs
    → has l (lines_of jobs) ≡ true
    → (p : Bytes) × (line_path l ≡ some p) × (has p (map (λ j. j.0) jobs) ≡ true)
unfolding lines_of has
lines_of-path l [] a h = absurd (cc h)
lines_of-path l ((path, x) ∷ jobs) a h = elim (Bool-cases (has l (file_lines path x))) [
  | inl here ↦ (
    path,
    All-has (λ l. line_path l ≡ some path) l (file_lines path x) (file_lines-path path x a.0) here,
    has_head path (map (λ j. j.0) jobs),
  )
  | inr there ↦
      let (p, e, in_rest) = lines_of-path l jobs a.1 (
        ap (λ b. b || has l (lines_of jobs)) (sym there)
        ∙ sym (has-append l (file_lines path x) (lines_of jobs))
        ∙ h) in
      (p, e, rw in_rest (ground arith))
]
