-- ===== src/Parse/Text/Tests.antt =====
-- Patterns and lines of small texts, and the theorems on them there.
use tsag.Base.{◌≡◌, refl, arith, Bytes, codes, some, length}
use tsag.Parse.Text.{escape_pattern, escape_byte, line_range, line_of, back_limit, fwd_limit}
use tsag.Parse.Text.Escape.{escape_pattern-width, unescape, unescape-escape_pattern, until_break}
use tsag.Parse.Text.Range.{IsLineAround, line_range-IsLineAround}

abbrev source : Bytes
source = codes "a/b\\c$\nd = e;"

pattern : (escape_pattern source).written ≡ codes "a\\/b\\\\c$"
unfolding escape_pattern escape_byte
pattern = refl

second_line : line_of source 9 ≡ codes "d = e;"
unfolding line_of line_range back_limit fwd_limit
second_line = refl

escape_pattern-width_example :
    (escape_pattern source).width ≡ length (escape_pattern source).written
escape_pattern-width_example = escape_pattern-width source

unescape-escape_pattern_example :
    unescape (escape_pattern source).written ≡ some (until_break source)
unescape-escape_pattern_example = unescape-escape_pattern source

line_range-IsLineAround_example :
    IsLineAround source 9 (line_range source 9).0 (line_range source 9).1
line_range-IsLineAround_example = line_range-IsLineAround source 9 (omega arith)
