-- ===== src/Parse/Match/Line.antt =====
-- src/parse.c, `make_line`: what a reader of the tags file gets back from a line. `read_tag` is such
-- a reader.
use tsag.Base.{
  ℕ, ◌≡◌, ◌≢◌, refl, true, arith, [], ◌∷◌, ◌++◌, Option, none, some, ◌>>=◌, Bytes, ◌==◌,
  if◌then◌else◌, Lacks, split_last, split_last-some, All-append, Bool-cases, inl, inr, take, drop,
  ap, ◌∙◌,
}
use tsag.Parse.Text.{newline, line_of, line_range, escape_pattern, escape_byte, is_break}
use tsag.Parse.Text.Escape.{
  slash, until_break, escaped, escape_pattern-escaped, unescape, delimit, unescape-escape_pattern,
  delimit-escape_pattern,
}
use tsag.Parse.Text.Range.{IsLineAround, IsLineAround-unique, line_range-IsLineAround}
use tsag.Parse.Match.{MatchInfo, Outcomes, name_is_printable, c_string, tab, format_line, make_line}

-- The bytes before and behind the first `c`.
pub split_first : ℕ → Bytes → Option (Bytes × Bytes)
split_first c [] = none
split_first c (x ∷ s) =
    if x == c then some ([], s) else (do (a, b) ← split_first c s; some (x ∷ a, b))

-- What stands behind `prefix`.
pub strip_prefix : Bytes → Bytes → Option Bytes
strip_prefix [] s = some s
strip_prefix (c ∷ p) [] = none
strip_prefix (c ∷ p) (x ∷ s) = if c == x then strip_prefix p s else none

pub record Tag : Type 0 where
  pub name : Bytes
  pub file : Bytes
  pub text : Bytes
  pub kind : Bytes

-- A reader of `name TAB file TAB /^pattern$/;" TAB kind NL`.
pub read_tag : Bytes → Option Tag
read_tag line = do
  (name, r) ← split_first tab line
  (file, r) ← split_first tab r
  r ← strip_prefix (b'/' ∷ b'^' ∷ []) r
  (pattern, r) ← delimit r
  (body, _) ← split_last b'$' pattern
  text ← unescape body
  r ← strip_prefix (b';' ∷ b'"' ∷ tab ∷ []) r
  (kind, _) ← split_first newline r
  some (record { name = name; file = file; text = text; kind = kind })

pub split_first-append :
    (c : ℕ) (a b : Bytes) → Lacks c a → split_first c (a ++ c ∷ b) ≡ some (a, b)
unfolding split_first
split_first-append c [] b l = ground arith
split_first-append c (x ∷ a) b l = rw (split_first-append c a b l.1) (ground (arith, l.0))

-- A printable name has no tab.
pub name-Lacks-tab : (name : Bytes) → name_is_printable name ≡ true → Lacks tab name
unfolding name_is_printable
name-Lacks-tab [] h = tt
name-Lacks-tab (c ∷ name) h = (ground arith, name-Lacks-tab name (ground arith))

c_string-id : (s : Bytes) → Lacks 0 s → c_string s ≡ s
unfolding c_string
c_string-id [] l = refl
c_string-id (c ∷ s) l = rw (c_string-id s l.1) (ground (arith, l.0))

escape_byte-Lacks_nul : (c : ℕ) (src : Bytes) → c ≢ 0 → Lacks 0 (escape_byte c src)
unfolding escape_byte
escape_byte-Lacks_nul c src h = ground arith

escaped-Lacks_nul : (src : Bytes) → Lacks 0 src → Lacks 0 (escaped src)
unfolding escaped
escaped-Lacks_nul [] l = tt
escaped-Lacks_nul (c ∷ src) l = elim (Bool-cases (is_break c)) [
  | inl e ↦ rw e tt
  | inr e ↦ rw e (
      All-append (λ x. x ≢ 0) (escape_byte c src) (escaped src) (escape_byte-Lacks_nul c src l.0)
        (escaped-Lacks_nul src l.1))
]

-- The middle of a line, read back.
read_pattern :
    (src : Bytes)
    → Lacks 0 src
    → let p = c_string (escape_pattern src).written in
      (rest : Bytes)
      → (delimit (p ++ b'$' ∷ slash ∷ rest) ≡ some (p ++ b'$' ∷ [], rest))
        × (split_last b'$' (p ++ b'$' ∷ []) ≡ some (p, []))
        × (unescape p ≡ some (until_break src))
read_pattern src l rest =
    let clean : c_string (escape_pattern src).written ≡ (escape_pattern src).written =
      c_string-id _ (rw escape_pattern-escaped (escaped-Lacks_nul src l)) in
    rw clean (
      delimit-escape_pattern src rest,
      split_last-some b'$' (escape_pattern src).written [] tt,
      unescape-escape_pattern src,
    )

make_line-format :
    (o : Outcomes) (m : MatchInfo) (source filepath : Bytes)
    → name_is_printable m.name ≡ true
    → (o.pattern_ok ≡ true) × (o.snprintf_ok ≡ true) × (o.line_ok ≡ true)
    → make_line o m source filepath
      ≡ some (
          format_line m.name filepath
            (c_string (escape_pattern (line_of source m.start)).written)
            m.kind)
unfolding make_line
make_line-format o m source filepath p (a, b, c) = rw (p, a, b, c)

read_tag-format :
    (name file src kind : Bytes)
    → Lacks tab name
    → Lacks tab file
    → Lacks newline kind
    → Lacks 0 src
    → read_tag (format_line name file (c_string (escape_pattern src).written) kind)
      ≡ some (record { name = name; file = file; text = until_break src; kind = kind })
unfolding read_tag format_line strip_prefix
read_tag-format name file src kind ln lf lk ls =
    let (found, last, text) = read_pattern src ls (b';' ∷ b'"' ∷ tab ∷ (kind ++ newline ∷ [])) in
    rw (
      split_first-append tab name _ ln,
      split_first-append tab file _ lf,
      found,
      last,
      text,
      split_first-append newline kind [] lk,
    )

-- The bytes that the line is made from are the only slice around the name.
line_of-slice :
    (source : Bytes) (start s n : ℕ)
    → IsLineAround source start s n
    → line_of source start ≡ take n (drop s source)
unfolding line_of line_range
line_of-slice source start s n around =
    let (a, b) = around.around in
    let inside = around.inside in
    let own = line_range-IsLineAround source start (omega arith) in
    let (p, q) = IsLineAround-unique source start _ _ s n own around in rw (q, p) refl

-- For a printable name and successful allocations, `make_line` returns a line, and the line can be
-- read back. Let `n` bytes from `s` on be the source line around the name, cut where it goes more
-- than 512 bytes from the start of the name to either side; it is stated without the loops of
-- `line_range`. Where the path has no tab, the kind no newline and these bytes no NUL, a reader of
-- the tags file finds the name, the path and the kind as they are, and the text of these bytes up to
-- their first line break.
pub read_tag-make_line :
    (o : Outcomes) (m : MatchInfo) (source filepath : Bytes) (s n : ℕ)
    → IsLineAround source m.start s n
    → name_is_printable m.name ≡ true
    → (o.pattern_ok ≡ true) × (o.snprintf_ok ≡ true) × (o.line_ok ≡ true)
    → Lacks tab filepath
    → Lacks newline m.kind
    → Lacks 0 (take n (drop s source))
    → (line : Bytes) × (make_line o m source filepath ≡ some line)
      × (read_tag line
          ≡ some (record {
            name = m.name;
            file = filepath;
            text = until_break (take n (drop s source));
            kind = m.kind;
          }))
read_tag-make_line o m source filepath s n around printable ok lf lk ls = (
  _,
  make_line-format o m source filepath printable ok
      ∙ ap (λ l. some (format_line m.name filepath (c_string (escape_pattern l).written) m.kind))
          (line_of-slice source m.start s n around),
  read_tag-format m.name filepath (take n (drop s source)) m.kind (name-Lacks-tab m.name printable)
      lf lk ls,
)
