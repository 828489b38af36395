-- ===== src/Parse/File/Tests.antt =====
-- A file of one function that two patterns match, and the theorems on the loop over its matches.
use tsag.Base.{
  ℕ, ◌≡◌, ◌++◌, refl, arith, true, List, [], ◌∷◌, Bytes, codes, some, map, length, str_eq, strcmp,
  ◌≤◌,
}
use tsag.LineVec.{LineVec}
use tsag.LineVec.Dedup.{dedup_init, dedup_cap}
use tsag.Parse.Match.{Capture, QueryMatch, Outcomes, extract_match, name_is_printable}
use tsag.Parse.File.{Outside, Seen, match_loop, parse_file_lines}
use tsag.Parse.File.Laws.{Parses, parse_file_lines-Parses}
use tsag.Parse.File.Best.Covers.{IsMatch, match_loop-Covers}
use tsag.LineVec.Ascending.{has}
use tsag.Parse.File.Best.{Tagged, same_place, best, line_for, keep, keep?, tagged}
use tsag.Parse.File.Best.Lines.{AllOk}
use tsag.Parse.File.Best.{all_kept, best_in, none_kept}
use tsag.Parse.File.Best.Capped.{match_loop-capped}

abbrev source : Bytes
source = codes "int f();\n"

abbrev named : Bytes → Capture
named kind = record { capture_name = kind; start_byte = 4; end_byte = 5 }

abbrev match_of : ℕ → Bytes → QueryMatch
match_of n kind = record { pattern_index = n; captures = named kind ∷ named (codes "name") ∷ [] }

abbrev all_ok : Outcomes
all_ok = record { pattern_ok = true; snprintf_ok = true; line_ok = true; realloc_ok = true }

abbrev found : List (QueryMatch × Outcomes)
found = (match_of 0 (codes "kind.decl"), all_ok) ∷ (match_of 1 (codes "kind.func"), all_ok) ∷ []

abbrev vec : LineVec
vec = record { items = []; cap = 128 }

abbrev outside : Outside
outside = record {
  entry_found = true;
  language_set = true;
  file = some (record {
    stat_ok = true;
    is_reg = true;
    size = some 9;
    fdopen_ok = true;
    malloc_ok = true;
    content = source;
  });
  parsed = true;
  matches = found;
}

parse_file_lines-Parses_example : Parses vec (parse_file_lines (codes "x.c") outside vec)
parse_file_lines-Parses_example = parse_file_lines-Parses (codes "x.c") outside vec

ok : AllOk all_ok
ok = record { pattern_ok = refl; snprintf_ok = refl; line_ok = refl; realloc_ok = refl }

few_ranges : length (best source (map (λ p. p.0) found) []) ≤ dedup_cap
unfolding best keep? tagged keep extract_match name_is_printable str_eq strcmp
few_ranges = omega arith

-- The pattern with the higher index wins.
one_tag : map (λ t. t.info.kind) (best source (map (λ p. p.0) found) []) ≡ codes "func" ∷ []
unfolding best keep? tagged keep extract_match name_is_printable str_eq strcmp
one_tag = refl

match_loop-capped_example :
    (s : Seen) × (match_loop (codes "x.c") source found 0 (record { vec = vec; seen = dedup_init })
      ≡ some s)
    × (s.vec.items
        ≡ []
          ++ map
              (line_for (codes "x.c") source)
              (all_kept (best_in source (map (λ p. p.0) found) none_kept)))
match_loop-capped_example =
    match_loop-capped (codes "x.c") source found vec (ok, (ok, tt)) (omega arith)

-- The match that loses.
abbrev loser : Tagged
loser = record {
  info = record { name = codes "f"; kind = codes "decl"; start = 4; end = 5 };
  pattern = 0;
}

loser-tagged : tagged source (match_of 0 (codes "kind.decl")) ≡ some loser
unfolding tagged extract_match name_is_printable str_eq strcmp
loser-tagged = refl

match_loop-Covers_example :
    (s : Seen) × (u : Tagged) × (match_loop
        (codes "x.c")
        source
        found
        0
        (record { vec = vec; seen = dedup_init })
      ≡ some s)
    × IsMatch source (map (λ p. p.0) found) u
    × (same_place loser u ≡ true)
    × (loser.pattern ≤ u.pattern)
    × (has (line_for (codes "x.c") source u) s.vec.items ≡ true)
match_loop-Covers_example =
    match_loop-Covers (codes "x.c") source found vec 0 (match_of 0 (codes "kind.decl")) loser
      (ok, (ok, tt)) (omega arith) few_ranges (omega arith) refl loser-tagged
