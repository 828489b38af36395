-- ===== src/Parse/Text/Escape.antt =====
-- src/parse.c, `escape_pattern`: the two loops agree on the width, and what is written can be read
-- back. `unescape` and `delimit` say how a reader of the tags file takes a pattern apart.
use tsag.Base.{
  ℕ, ◌+◌, ◌≡◌, refl, sym, ap, ◌∙◌, Bool, true, false, arith, [], ◌∷◌, ◌++◌, Option, none, some,
  Bytes, length, ◌==◌, if◌then◌else◌, append_assoc, append-nil, length-append, Bool-cases, inl, inr,
}
use tsag.Parse.Text.{is_break, width_loop, escape_byte, write_loop, escape_pattern}

-- The bytes before the first line break.
unfoldable pub until_break : Bytes → Bytes
until_break [] = []
until_break (c ∷ src) = let more = c ∷ until_break src in if is_break c then [] else more

-- The pattern as a plain recursion.
unfoldable pub escaped : Bytes → Bytes
escaped [] = []
escaped (c ∷ src) = let more = escape_byte c src ++ escaped src in if is_break c then [] else more

write_loop-escaped : (src out : Bytes) → write_loop src out ≡ out ++ escaped src
unfolding write_loop escaped
write_loop-escaped [] out = sym (append-nil out)
write_loop-escaped (c ∷ src) out = ground (
  arith,
  write_loop-escaped src (out ++ escape_byte c src),
  append_assoc out (escape_byte c src) (escaped src),
  append-nil out,
)

pub escape_pattern-escaped : (src : Bytes) → (escape_pattern src).written ≡ escaped src
unfolding escape_pattern
escape_pattern-escaped src = write_loop-escaped src []

width_loop-length : (src : Bytes) (w : ℕ) → width_loop src w ≡ w + length (escaped src)
unfolding width_loop escaped escape_byte
width_loop-length [] w = omega arith
width_loop-length (c ∷ src) w = ground (
  arith,
  width_loop-length src (w + 1),
  width_loop-length src (w + 2),
  length-append (escape_byte c src) (escaped src),
)

-- The width computed by the first loop is the number of bytes that the second loop writes: no
-- write of `escape_pattern` is past the end of its buffer, and the NUL stands right behind them.
pub escape_pattern-width :
    (src : Bytes) → (escape_pattern src).width ≡ length (escape_pattern src).written
unfolding escape_pattern
escape_pattern-width src =
    let same : length (write_loop src []) ≡ length (escaped src) =
      ap length (write_loop-escaped src []) in
    omega (arith, width_loop-length src 0, same)

abbrev pub backslash : ℕ
backslash = b'\\'

abbrev pub slash : ℕ
slash = b'/'

-- What a byte behind a backslash stands for.
abbrev pub reveal : ℕ → ℕ
reveal c = if c == b't' then b'\t' else c

abbrev pub before : ℕ → Option Bytes → Option Bytes
before c none = none
before c (some s) = some (c ∷ s)

-- How a reader undoes the escapes. The flag says that a backslash has been read.
pub unescape_from : Bool → Bytes → Option Bytes
unescape_from true [] = none
unescape_from false [] = some []
unescape_from true (c ∷ s) = before (reveal c) (unescape_from false s)
unescape_from false (c ∷ s) =
    let pending = unescape_from true s in
    let plain = before c (unescape_from false s) in if c == backslash then pending else plain

unfoldable pub unescape : Bytes → Option Bytes
unfolding unescape_from
unescape s = unescape_from false s

abbrev pub before_first : ℕ → Option (Bytes × Bytes) → Option (Bytes × Bytes)
before_first c none = none
before_first c (some (s, rest)) = some (c ∷ s, rest)

-- How a reader finds the end of a pattern: the bytes before the first slash with no backslash.
pub delimit_from : Bool → Bytes → Option (Bytes × Bytes)
delimit_from pending [] = none
delimit_from true (c ∷ s) = before_first c (delimit_from false s)
delimit_from false (c ∷ s) =
    let escape = before_first c (delimit_from true s) in
    let plain = before_first c (delimit_from false s) in
    if c == slash then some ([], s) else if c == backslash then escape else plain

unfoldable pub delimit : Bytes → Option (Bytes × Bytes)
unfolding delimit_from
delimit s = delimit_from false s

unescape-escape_byte :
    (c : ℕ) (src tail : Bytes)
    → unescape_from false (escape_byte c src ++ tail) ≡ before c (unescape_from false tail)
unfolding unescape_from escape_byte
unescape-escape_byte c src tail = ground arith

unescape-nil : unescape_from false [] ≡ some []
unfolding unescape_from
unescape-nil = refl

unescape-escaped : (src : Bytes) → unescape_from false (escaped src) ≡ some (until_break src)
unfolding escaped until_break
unescape-escaped [] = unfold unescape_from in refl
unescape-escaped (c ∷ src) = elim (Bool-cases (is_break c)) [
  | inl e ↦ rw e unescape-nil
  | inr e ↦ rw e (unescape-escape_byte c src (escaped src) ∙ ap (before c) (unescape-escaped src))
]

-- Undoing the escapes of the pattern gives the source line back, up to its line break: no byte of
-- the line is lost or confused with another, whatever the line holds.
pub unescape-escape_pattern :
    (src : Bytes) → unescape (escape_pattern src).written ≡ some (until_break src)
unfolding unescape
unescape-escape_pattern src = rw escape_pattern-escaped (unescape-escaped src)

-- `xs` in front of what is delimited.
abbrev pub before_all : Bytes → Option (Bytes × Bytes) → Option (Bytes × Bytes)
before_all xs none = none
before_all xs (some (s, rest)) = some (xs ++ s, rest)

delimit-escape_byte :
    (c : ℕ) (src tail : Bytes)
    → delimit_from false (escape_byte c src ++ tail)
      ≡ before_all (escape_byte c src) (delimit_from false tail)
unfolding delimit_from escape_byte
delimit-escape_byte c src tail = ground arith

before_all-append :
    (xs ys : Bytes) (r : Option (Bytes × Bytes))
    → before_all xs (before_all ys r) ≡ before_all (xs ++ ys) r
before_all-append xs ys none = refl
before_all-append xs ys (some (s, rest)) = rw append_assoc

before_all-nil : (r : Option (Bytes × Bytes)) → r ≡ before_all [] r
before_all-nil none = refl
before_all-nil (some (s, rest)) = refl

delimit-escaped :
    (src tail : Bytes)
    → delimit_from false (escaped src ++ tail) ≡ before_all (escaped src) (delimit_from false tail)
unfolding escaped
delimit-escaped [] tail = before_all-nil (delimit_from false tail)
delimit-escaped (c ∷ src) tail = elim (Bool-cases (is_break c)) [
  | inl e ↦ rw e (before_all-nil (delimit_from false tail))
  | inr e ↦
      rw (e, append_assoc)
        (delimit-escape_byte c src (escaped src ++ tail)
          ∙ ap (before_all (escape_byte c src)) (delimit-escaped src tail)
          ∙ before_all-append (escape_byte c src) (escaped src) (delimit_from false tail))
]

-- A reader finds the end of the pattern: the first slash with no backslash in front of it is the
-- one that closes the pattern, whatever the source line and the rest of the tag line hold.
pub delimit-escape_pattern :
    (src rest : Bytes)
    → delimit ((escape_pattern src).written ++ b'$' ∷ slash ∷ rest)
      ≡ some ((escape_pattern src).written ++ b'$' ∷ [], rest)
unfolding delimit
delimit-escape_pattern src rest = rw escape_pattern-escaped (rw delimit-escaped)
