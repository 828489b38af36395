-- ===== src/Parse/File/Best.antt =====
-- src/parse.c, the loop over the matches against its specification: for each byte range the match
-- of the highest pattern index, the first of them on a tie, in the order in which the ranges are
-- first seen.
mod Claim
pub mod Lines
mod Stands
pub mod Refine
pub mod Capped
pub mod Covers
pub mod Printed
use tsag.Base.{
  ℕ, ◌+◌, Bool, true, false, ◌&&◌, List, [], ◌∷◌, Option, none, some, Bytes, map, leb, ltb, length,
  ◌++◌, ◌||◌, ◌==◌, if◌then◌else◌,
}
use tsag.LineVec.Dedup.{DedupEntry, dedup_cap}
use tsag.Parse.Text.{line_of, escape_pattern}
use tsag.Parse.Match.{
  QueryMatch, MatchInfo, Outcomes, extract_match, name_is_printable, c_string, format_line,
}

-- A match with its pattern index.
pub record Tagged : Type 0 where
  pub info : MatchInfo
  pub pattern : ℕ

abbrev pub same_place : Tagged → Tagged → Bool
same_place t u = u.info.start == t.info.start && u.info.end == t.info.end

-- `t` replaces a match of its range with a lower pattern index, and is new where its range is.
unfoldable pub keep : Tagged → List Tagged → List Tagged
keep t [] = t ∷ []
keep t (u ∷ us) =
    let rest = u ∷ keep t us in
    let here = if leb t.pattern u.pattern then u ∷ us else t ∷ us in
    if same_place t u then here else rest

-- The matches that count: complete, and with a printable name.
unfoldable pub tagged : Bytes → QueryMatch → Option Tagged
tagged source match = elim (extract_match source match) [
  | none ↦ none
  | some m ↦
      if name_is_printable m.name
      then some (record { info = m; pattern = match.pattern_index })
      else none
]

unfoldable pub keep? : Option Tagged → List Tagged → List Tagged
keep? none ts = ts
keep? (some t) ts = keep t ts

unfoldable pub best : Bytes → List QueryMatch → List Tagged → List Tagged
best source [] ts = ts
best source (m ∷ matches) ts = best source matches (keep? (tagged source m) ts)

unfoldable pub has_place : Tagged → List Tagged → Bool
has_place t [] = false
has_place t (u ∷ us) = same_place t u || has_place t us

-- What the loop keeps with a table of `dedup_cap` entries: the matches in the table, and those of the
-- ranges for which it had no room.
pub record Kept : Type 0 where
  pub tracked : List Tagged
  pub extra : List Tagged

abbrev pub none_kept : Kept
none_kept = record { tracked = []; extra = [] }

abbrev pub all_kept : Kept → List Tagged
all_kept k = k.tracked ++ k.extra

-- A match of a range in the table, or of a new one for which there is room, or neither.
unfoldable pub keep_in : Tagged → Kept → Kept
keep_in t k =
    if has_place t k.tracked || ltb (length k.tracked) dedup_cap
    then record k { tracked = keep t k.tracked }
    else record k { extra = k.extra ++ t ∷ [] }

unfoldable pub keep_in? : Option Tagged → Kept → Kept
keep_in? none k = k
keep_in? (some t) k = keep_in t k

unfoldable pub best_in : Bytes → List QueryMatch → Kept → Kept
best_in source [] k = k
best_in source (m ∷ matches) k = best_in source matches (keep_in? (tagged source m) k)

-- The line of a match.
unfoldable pub line_for : Bytes → Bytes → Tagged → Bytes
line_for filepath source t =
    format_line t.info.name filepath
      (c_string (escape_pattern (line_of source t.info.start)).written) t.info.kind

-- The table that stands for the matches kept, whose lines start at slot `n`.
unfoldable pub table_of : ℕ → List Tagged → List DedupEntry
table_of n [] = []
table_of n (t ∷ ts) =
    record { start = t.info.start; end = t.info.end; pattern = t.pattern; idx = n }
    ∷ table_of (n + 1) ts
