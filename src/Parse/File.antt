-- ===== src/Parse/File.antt =====
-- src/parse.c: reading a file, and the loop over its matches.
pub mod Frame
pub mod Best
pub mod Laws
mod Tests
use tsag.Base.{
  ℕ, suc, ◌+◌, ◌*◌, ◌-◌, ◌^◌, Bool, true, false, not, ◌&&◌, ◌||◌, List, [], ◌∷◌, Option, none, some,
  ◌>>=◌, Bytes, length, take, ltb, leb, ◌==◌, if◌then◌else◌,
}
use tsag.LineVec.{LineVec, len, line_vec_push, line_vec_replace}
use tsag.LineVec.Dedup.{Dedup, dedup_init, Claim, drop, survive, dedup_claim, dedup_track}
use tsag.Lang.{find_extension}
use tsag.Parse.Text.{has_long_line}
use tsag.Parse.Match.{QueryMatch, MatchInfo, Outcomes, extract_match, make_line}

abbrev pub max_file_size : ℕ
max_file_size = 2 * 1024 * 1024

abbrev pub max_matches_per_file : ℕ
max_matches_per_file = 4096

-- What the operating system answers to `read_file`. `size` is `none` for a negative `st_size`.
pub record OpenFile : Type 0 where
  pub stat_ok : Bool
  pub is_reg : Bool
  pub size : Option ℕ
  pub fdopen_ok : Bool
  pub malloc_ok : Bool
  pub content : Bytes

-- `(uintmax_t)sb.st_size > MAX_FILE_SIZE || (uintmax_t)sb.st_size > SIZE_MAX - 1`
abbrev pub too_big : ℕ → Bool
too_big n = ltb max_file_size n || ltb (2 ^ 64 - 2) n

-- `fread` reads at most `n` bytes of what is there. The outer option is `open`.
unfoldable pub read_file : Option OpenFile → Option Bytes
read_file none = none
read_file (some f) = if not f.stat_ok then none else elim f.size [
  | none ↦ none
  | some n ↦
      if not f.is_reg || too_big n
      then none
      else if not f.fdopen_ok
      then none
      else if not f.malloc_ok
      then none
      else some (take n f.content)
]

-- The state of the loop over the matches.
pub record Seen : Type 0 where
  pub vec : LineVec
  pub seen : Dedup

-- A line that is new, or that takes the slot of an earlier match of the same range.
unfoldable pub place_line : Outcomes → MatchInfo → ℕ → Bytes → ℕ → Seen → Option Seen
place_line o m pattern line slot s =
    if slot == len s.vec
    then (let (pushed, vec) = line_vec_push o.realloc_ok s.vec line in
        if pushed
        then some
            (record { vec = vec; seen = dedup_track s.seen m.start m.end pattern (len s.vec) })
        else some s)
    else (do (vec, old) ← line_vec_replace s.vec slot line; some (record s { vec = vec }))

unfoldable pub claimed :
    Bytes → Bytes → Outcomes → MatchInfo → ℕ → Claim × Dedup → Seen → Option Seen
unfolding place_line
claimed filepath source o m pattern (drop, seen) s = some (record s { seen = seen })
claimed filepath source o m pattern (survive slot, seen) s = elim (make_line o m source filepath) [
  | none ↦ some (record s { seen = seen })
  | some line ↦ place_line o m pattern line slot (record s { seen = seen })
]

-- The body of the loop, for a match within the cap.
unfoldable pub match_body : Bytes → Bytes → QueryMatch × Outcomes → Seen → Option Seen
match_body filepath source (match, o) s = elim (extract_match source match) [
  | none ↦ some s
  | some m ↦
      claimed filepath source o m match.pattern_index
        (dedup_claim s.seen m.start m.end match.pattern_index (len s.vec)) s
]

unfoldable pub match_loop : Bytes → Bytes → List (QueryMatch × Outcomes) → ℕ → Seen → Option Seen
match_loop filepath source [] examined s = some s
match_loop filepath source (m ∷ matches) examined s =
    let rest =
      match_body filepath source m s >>= match_loop filepath source matches (examined + 1) in
    if ltb max_matches_per_file (examined + 1) then some s else rest

-- What lies outside the program for one file: the cache's answer, tree-sitter's and the system's.
pub record Outside : Type 0 where
  pub entry_found : Bool
  pub language_set : Bool
  pub file : Option OpenFile
  pub parsed : Bool
  pub matches : List (QueryMatch × Outcomes)

unfoldable pub parse_source : Bytes → Outside → Bytes → LineVec → Option (ℕ × LineVec)
parse_source filepath x source vec =
    if has_long_line source then some (1, vec) else if not x.parsed then some (1, vec) else (do
      s ← match_loop filepath source x.matches 0 (record { vec = vec; seen = dedup_init })
      some (0, s.vec))

-- The `int` that is returned, and the vector.
unfoldable pub parse_file_lines : Bytes → Outside → LineVec → Option (ℕ × LineVec)
parse_file_lines filepath x vec = elim (find_extension filepath) [
  | none ↦ some (1, vec)
  | some ext ↦
      if not x.entry_found
      then some (1, vec)
      else if not x.language_set
      then some (1, vec)
      else elim (read_file x.file) [
        | none ↦ some (1, vec)
        | some source ↦ parse_source filepath x source vec
      ]
]
