-- ===== src/Pipeline/Files.antt =====
-- What a worker's loop adds, file by file, where every allocation succeeds.
use tsag.Base.{
  ℕ, ◌+◌, ◌*◌, ◌^◌, ◌≤◌, ◌<◌, ◌≡◌, refl, sym, ap, ◌∙◌, Bool, true, false, not, arith, List, [], ◌∷◌,
  ◌++◌, map, Option, none, some, ◌>>=◌, Bytes, length, All, take, append_assoc, append-nil,
  if◌then◌else◌,
}
use tsag.LineVec.{LineVec, len}
use tsag.LineVec.Dedup.{dedup_init}
use tsag.Lang.{find_extension}
use tsag.Parse.Text.{has_long_line}
use tsag.Parse.File.{
  Outside, read_file, match_loop, parse_source, parse_file_lines, max_matches_per_file,
}
use tsag.Parse.File.Laws.{parse_file_lines-Parses}
use tsag.Parse.File.Best.{none_kept, all_kept, best_in, line_for}
use tsag.Parse.File.Best.Lines.{AllOk}
use tsag.Parse.File.Best.Capped.{match_loop-capped}
use tsag.Worker.{parse_loop}

-- The lines of a file that is read: those that are kept of the first 4096 matches.
unfoldable pub source_lines : Bytes → Outside → Bytes → List Bytes
source_lines path x source =
    if has_long_line source
    then []
    else if not x.parsed
    then []
    else map (line_for path source)
        (all_kept (best_in source (map (λ p. p.0) (take max_matches_per_file x.matches)) none_kept))

-- The lines of a file, none where the file has no language or cannot be read.
unfoldable pub file_lines : Bytes → Outside → List Bytes
file_lines path x = elim (find_extension path) [
  | none ↦ []
  | some ext ↦
      if not x.entry_found
      then []
      else if not x.language_set
      then []
      else elim (read_file x.file) [ none ↦ [] | some source ↦ source_lines path x source ]
]

unfoldable pub lines_of : List (Bytes × Outside) → List Bytes
lines_of [] = []
lines_of ((path, x) ∷ jobs) = file_lines path x ++ lines_of jobs

-- The allocations for the file succeed.
pub record IsTame (x : Outside) : Type 0 where
  pub all_ok : All (λ p. AllOk p.1) (take max_matches_per_file x.matches)

-- A result with these lines behind those of `vec`.
abbrev Adds : LineVec → List Bytes → Option (ℕ × LineVec) → Type 0
Adds vec lines r =
    (status : ℕ) × (out : LineVec) × (r ≡ some (status, out)) × (out.items ≡ vec.items ++ lines)

nothing : (vec : LineVec) → Adds vec [] (some (1, vec))
nothing vec = (1, vec, refl, sym (append-nil vec.items))

-- A test that skips the file.
if-Adds :
    (vec : LineVec) (b : Bool) (lines : List Bytes) (r : Option (ℕ × LineVec))
    → Adds vec lines r
    → Adds vec (if b then [] else lines) (if b then some (1, vec) else r)
if-Adds vec true lines r a = nothing vec
if-Adds vec false lines r a = a

module _ (path : Bytes) (x : Outside) (vec : LineVec) (tame : IsTame x)
    (small : len vec + 4096 < 2 ^ 59) where
  loop-Adds :
      (source : Bytes)
      → read_file x.file ≡ some source
      → Adds vec
          (map (line_for path source) (
            all_kept
              (best_in source (map (λ p. p.0) (take max_matches_per_file x.matches)) none_kept)))
          (match_loop path source x.matches 0 (record { vec = vec; seen = dedup_init }) >>= λ s.
            some (0, s.vec))
  loop-Adds source e =
      let (s, run, lines) =
        match_loop-capped path source x.matches vec tame.all_ok (omega (arith, small)) in
      (0, s.vec, ap (λ r. r >>= λ s. some (0, s.vec)) run, lines)

  source-Adds :
      (source : Bytes)
      → read_file x.file ≡ some source
      → Adds vec (source_lines path x source) (parse_source path x source vec)
  unfolding source_lines parse_source
  source-Adds source e =
      if-Adds vec (has_long_line source) _ _ (if-Adds vec (not x.parsed) _ _ (loop-Adds source e))

  read-Adds :
      (r : Option Bytes)
      → read_file x.file ≡ r
      → Adds vec
          (elim r [ none ↦ [] | some source ↦ source_lines path x source ])
          (elim r [ none ↦ some (1, vec) | some source ↦ parse_source path x source vec ])
  read-Adds none e = nothing vec
  read-Adds (some source) e = source-Adds source e

  -- Parsing a file appends its lines.
  parse_file_lines-Adds : Adds vec (file_lines path x) (parse_file_lines path x vec)
  unfolding file_lines parse_file_lines
  parse_file_lines-Adds = found (find_extension path)
    where
      found :
          (r : Option Bytes)
          → Adds vec
              (elim r [
                | none ↦ []
                | some ext ↦
                    if not x.entry_found
                    then []
                    else if not x.language_set
                    then []
                    else elim (read_file x.file) [
                      | none ↦ []
                      | some source ↦ source_lines path x source
                    ]
              ])
              (elim r [
                | none ↦ some (1, vec)
                | some ext ↦
                    if not x.entry_found
                    then some (1, vec)
                    else if not x.language_set
                    then some (1, vec)
                    else elim (read_file x.file) [
                      | none ↦ some (1, vec)
                      | some source ↦ parse_source path x source vec
                    ]
              ])
      found none = nothing vec
      found (some ext) =
          if-Adds vec (not x.entry_found) _ _
            (if-Adds vec (not x.language_set) _ _ (read-Adds (read_file x.file) refl))

-- The loop of a worker appends the lines of its files.
pub parse_loop-lines :
    (jobs : List (Bytes × Outside)) (vec : LineVec)
    → All (λ j. IsTame j.1) jobs
    → len vec + 4096 * length jobs < 2 ^ 59
    → (out : LineVec) × (parse_loop jobs vec ≡ some out) × (out.items ≡ vec.items ++ lines_of jobs)
unfolding parse_loop lines_of
parse_loop-lines [] vec tame small = (vec, refl, sym (append-nil vec.items))
parse_loop-lines ((path, x) ∷ jobs) vec tame small =
    let (status, next, e, lines) = parse_file_lines-Adds path x vec tame.0 (omega (arith, small)) in
    let (status', next', e', st, front, few) = parse_file_lines-Parses path x vec in
    let same : next' ≡ next = cc (e, e') in
    let grown : len next ≤ len vec + 4096 = rw same at few in
    let (out, r, all) = parse_loop-lines jobs next tame.1 (omega (arith, small, grown)) in
    (
      out,
      ap (λ m. m >>= λ s. parse_loop jobs s.1) e ∙ r,
      all
          ∙ ap (λ l. l ++ lines_of jobs) lines
          ∙ append_assoc vec.items (file_lines path x) (lines_of jobs),
    )
