-- ===== src/Parse/Match.antt =====
-- src/parse.c: from a query match to a line of the tags file. What tree-sitter returns (captures
-- with their names and byte ranges) and whether each allocation succeeds are inputs.
pub mod Line
mod Tests
use tsag.Base.{
  ℕ, suc, ◌+◌, ◌-◌, Bool, true, false, not, ◌&&◌, ◌||◌, List, [], ◌∷◌, ◌++◌, Option, none, some,
  ◌>>=◌, Bytes, codes, length, take, drop, ltb, leb, ◌==◌, if◌then◌else◌, str_eq,
}
use tsag.Parse.Text.{newline, line_of, escape_pattern}

-- A capture: `ts_query_capture_name_for_id` and the byte range of its node.
pub record Capture : Type 0 where
  pub capture_name : Bytes
  pub start_byte : ℕ
  pub end_byte : ℕ

pub record QueryMatch : Type 0 where
  pub pattern_index : ℕ
  pub captures : List Capture

-- `name` and `name_len` are the bytes from `start` to `end` of the source.
pub record MatchInfo : Type 0 where
  pub name : Bytes
  pub kind : Bytes
  pub start : ℕ
  pub end : ℕ

abbrev pub slice : Bytes → ℕ → ℕ → Bytes
slice source start end = take (end - start) (drop start source)

-- The locals of `extract_match`.
pub record Found : Type 0 where
  pub name_start : ℕ
  pub name_end : ℕ
  pub kind : Bytes

unfoldable pub capture_step : Capture → Found → Found
capture_step cap s =
    if str_eq cap.capture_name (codes "name")
    then record s { name_start = cap.start_byte; name_end = cap.end_byte }
    else if ltb 5 (length cap.capture_name) && str_eq (take 5 cap.capture_name) (codes "kind.")
    then record s { kind = drop 5 cap.capture_name }
    else s

unfoldable pub capture_loop : List Capture → Found → Found
capture_loop [] s = s
capture_loop (cap ∷ caps) s = capture_loop caps (capture_step cap s)

-- The tests of the last lines: an empty name or no kind gives `false`.
unfoldable pub found_match : Bytes → Found → Option MatchInfo
found_match source s =
    if s.name_end - s.name_start == 0 || length s.kind == 0
    then none
    else some (record {
      name = slice source s.name_start s.name_end;
      kind = s.kind;
      start = s.name_start;
      end = s.name_end;
    })

unfoldable pub extract_match : Bytes → QueryMatch → Option MatchInfo
unfolding capture_loop capture_step found_match
extract_match source match =
    found_match source
      (capture_loop match.captures (record { name_start = 0; name_end = 0; kind = [] }))

-- `isprint` in the C locale, which the program never changes.
abbrev pub isprint : ℕ → Bool
isprint c = leb 0x20 c && leb c 0x7e

unfoldable pub name_is_printable : Bytes → Bool
name_is_printable [] = true
name_is_printable (c ∷ name) = isprint c && name_is_printable name

-- What `%s` prints: the bytes before the first NUL.
unfoldable pub c_string : Bytes → Bytes
c_string [] = []
c_string (c ∷ s) = if c == 0 then [] else c ∷ c_string s

abbrev pub tab : ℕ
tab = b'\t'

-- What the two calls of `snprintf` print, with the format `%.*s\t%s\t/^%s$/;"\t%s\n`.
unfoldable pub format_line : Bytes → Bytes → Bytes → Bytes → Bytes
format_line name filepath pattern kind =
    name
    ++ tab
      ∷ (filepath
          ++ tab
            ∷ b'/'
            ∷ b'^'
            ∷ (pattern ++ b'$' ∷ b'/' ∷ b';' ∷ b'"' ∷ tab ∷ (kind ++ newline ∷ [])))

-- Which of the calls that can fail succeed: `malloc` of the pattern, `snprintf`, `malloc` of the
-- line, and `realloc` of the vector.
pub record Outcomes : Type 0 where
  pub pattern_ok : Bool
  pub snprintf_ok : Bool
  pub line_ok : Bool
  pub realloc_ok : Bool

unfoldable pub make_line : Outcomes → MatchInfo → Bytes → Bytes → Option Bytes
make_line o m source filepath =
    if not (name_is_printable m.name)
    then none
    else if not o.pattern_ok
    then none
    else if not o.snprintf_ok
    then none
    else if not o.line_ok
    then none
    else some (
        format_line m.name filepath (c_string (escape_pattern (line_of source m.start)).written)
          m.kind)
