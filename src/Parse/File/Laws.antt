-- ===== src/Parse/File/Laws.antt =====
-- src/parse.c, `parse_file_lines` as a whole.
use tsag.Base.{
  ℕ, ◌+◌, ◌≤◌, ◌≡◌, ◌⊎◌, inl, inr, refl, Bool, true, false, not, arith, Option, none, some, ◌>>=◌,
  Bytes, take, if◌then◌else◌, take_all,
}
use tsag.LineVec.{LineVec, len}
use tsag.LineVec.Dedup.{dedup_init}
use tsag.Lang.{find_extension}
use tsag.Parse.Text.{has_long_line}
use tsag.Parse.File.{
  Outside, read_file, match_loop, parse_source, parse_file_lines, max_matches_per_file,
}
use tsag.Parse.File.Frame.{match_loop-IsFramed}

-- What a call returns: a status and a vector with the old lines in front. A file that is skipped
-- leaves the vector as it is.
abbrev pub Parses : LineVec → Option (ℕ × LineVec) → Type 0
Parses vec r =
    (status : ℕ) × (vec' : LineVec) × (r ≡ some (status, vec'))
    × ((status ≡ 0) ⊎ ((status ≡ 1) × (vec' ≡ vec)))
    × (take (len vec) vec'.items ≡ vec.items)
    × (len vec' ≤ len vec + max_matches_per_file)

skip-Parses : (vec : LineVec) → Parses vec (some (1, vec))
skip-Parses vec =
    (1, vec, refl, inr (refl, refl), take_all (len vec) vec.items (omega arith), omega arith)

if-Parses :
    (vec : LineVec) (b : Bool) (x : Option (ℕ × LineVec))
    → Parses vec x
    → Parses vec (if b then some (1, vec) else x)
if-Parses vec true x p = skip-Parses vec
if-Parses vec false x p = p

loop-Parses :
    (filepath : Bytes) (x : Outside) (source : Bytes) (vec : LineVec)
    → Parses vec (
        match_loop filepath source x.matches 0 (record { vec = vec; seen = dedup_init }) >>= λ s.
        some (0, s.vec))
unfolding dedup_init
loop-Parses filepath x source vec =
    let (t, e, f, n) =
      match_loop-IsFramed vec.items filepath source x.matches 0
        (record { vec = vec; seen = dedup_init })
        (record {
          front = take_all (len vec) vec.items (omega arith);
          grown = omega arith;
          own = tt;
        })
        (omega arith) in
    rw e (0, t.vec, refl, inl refl, f.front, omega arith)

source-Parses :
    (filepath : Bytes) (x : Outside) (r : Option Bytes) (vec : LineVec)
    → Parses vec
        (elim r [ none ↦ some (1, vec) | some source ↦ parse_source filepath x source vec ])
unfolding parse_source
source-Parses filepath x none vec = skip-Parses vec
source-Parses filepath x (some source) vec =
    if-Parses vec (has_long_line source) _
      (if-Parses vec (not x.parsed) _ (loop-Parses filepath x source vec))

-- `parse_file_lines` always returns: no assertion of the vector fails and no slot is missing,
-- whatever tree-sitter, the file system and the allocator answer. The lines that were in the vector
-- before the call are still there, in front, unchanged; at most 4096 lines are added; and with
-- status 1 the vector is as it was.
pub parse_file_lines-Parses :
    (filepath : Bytes) (x : Outside) (vec : LineVec) → Parses vec (parse_file_lines filepath x vec)
unfolding parse_file_lines
parse_file_lines-Parses filepath x vec = found (find_extension filepath)
  where
    found :
        (r : Option Bytes)
        → Parses vec (elim r [
          | none ↦ some (1, vec)
          | some ext ↦
              if not x.entry_found
              then some (1, vec)
              else if not x.language_set
              then some (1, vec)
              else elim (read_file x.file) [
                | none ↦ some (1, vec)
                | some source ↦ parse_source filepath x source vec
              ]
        ])
    found none = skip-Parses vec
    found (some ext) =
        if-Parses vec (not x.entry_found) _
          (if-Parses vec (not x.language_set) _ (source-Parses filepath x (read_file x.file) vec))
