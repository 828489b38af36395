-- ===== src/Parse/Text.antt =====
-- src/parse.c: the guard on long lines, the line around a byte offset, and the search pattern.
-- A `const char*` with a length is a list of bytes; `src[i]` past the end of a file reads the NUL
-- that `read_file` puts there.
pub mod Escape
pub mod Range
pub mod Long
mod Tests
use tsag.Base.{
  ℕ, zero, suc, ◌+◌, ◌-◌, Bool, true, false, not, ◌&&◌, ◌||◌, List, [], ◌∷◌, ◌++◌, Bytes, length,
  get_or, take, drop, ltb, ◌==◌, if◌then◌else◌,
}

abbrev pub max_line_len : ℕ
max_line_len = 512

abbrev pub max_src_line_len : ℕ
max_src_line_len = 4096

abbrev pub newline : ℕ
newline = b'\n'

-- The loop of `has_long_line` on the bytes that are left.
pub long_loop : Bytes → ℕ → Bool
long_loop [] run = false
long_loop (c ∷ src) run =
    let reset = long_loop src 0 in
    let next = long_loop src (run + 1) in
    if c == newline then reset else (if ltb max_src_line_len (run + 1) then true else next)

unfoldable pub has_long_line : Bytes → Bool
unfolding long_loop
has_long_line src = long_loop src 0

-- `src[i]`
abbrev pub byte_at : Bytes → ℕ → ℕ
byte_at src i = get_or src i 0

-- `while (s > back_limit && src[s - 1] != '\n') s--`, by recursion on `s`.
pub back_loop : Bytes → ℕ → ℕ → ℕ
back_loop src limit zero = zero
back_loop src limit (suc s) =
    let further = back_loop src limit s in
    if ltb limit (suc s) && not (byte_at src s == newline) then further else suc s

-- `while (e < fwd_limit && src[e] != '\n') e++`, with as many rounds as there are bytes to the limit.
pub forward_loop : ℕ → Bytes → ℕ → ℕ → ℕ
forward_loop zero src limit e = e
forward_loop (suc rounds) src limit e =
    let further = forward_loop rounds src limit (e + 1) in
    if ltb e limit && not (byte_at src e == newline) then further else e

unfoldable pub back_limit : ℕ → ℕ
back_limit start = if ltb max_line_len start then start - max_line_len else 0

-- `src_len - start` is `size_t`; `start` is at most `src_len`, for it comes from a node of the tree.
unfoldable pub fwd_limit : ℕ → ℕ → ℕ
fwd_limit src_len start =
    if ltb max_line_len (src_len - start) then start + max_line_len else src_len

-- The offset and the length of the line, `*out - src` and `*out_len`.
unfoldable pub line_range : Bytes → ℕ → ℕ × ℕ
unfolding back_loop forward_loop back_limit fwd_limit
line_range src start =
    let limit = fwd_limit (length src) start in
    let s = back_loop src (back_limit start) start in
    let e = forward_loop (limit - start) src limit start in (s, e - s)

-- The bytes that `line_range` points at.
unfoldable pub line_of : Bytes → ℕ → Bytes
unfolding line_range
line_of src start = let (s, n) = line_range src start in take n (drop s src)

abbrev pub is_break : ℕ → Bool
is_break c = c == b'\n' || c == b'\r'

-- `c == '$' && i + 1 == len`: the dollar sign is the last byte.
abbrev pub is_last_dollar : ℕ → Bytes → Bool
is_last_dollar c rest = c == b'$' && length rest == 0

-- The first loop of `escape_pattern`: the width of the pattern.
pub width_loop : Bytes → ℕ → ℕ
width_loop [] w = w
width_loop (c ∷ rest) w =
    let wide =
      width_loop rest
        (if c == b'\t' || c == b'\\' || c == b'/' || is_last_dollar c rest then w + 2 else w + 1) in
    if is_break c then w else wide

-- The bytes that one round of the second loop writes.
unfoldable pub escape_byte : ℕ → Bytes → Bytes
escape_byte c rest =
    if c == b'\t'
    then b'\\' ∷ b't' ∷ []
    else if c == b'\\' || c == b'/'
    then b'\\' ∷ c ∷ []
    else if is_last_dollar c rest
    then b'\\' ∷ b'$' ∷ []
    else c ∷ []

-- The second loop: `out` is what is written so far.
pub write_loop : Bytes → Bytes → Bytes
unfolding escape_byte
write_loop [] out = out
write_loop (c ∷ rest) out =
    let more = write_loop rest (out ++ escape_byte c rest) in if is_break c then out else more

-- `w`, and the bytes written into the buffer of `w + 1` bytes; `dst[w]` becomes the NUL.
pub record Escaped : Type 0 where
  pub width : ℕ
  pub written : Bytes

-- When the `malloc` succeeds.
unfoldable pub escape_pattern : Bytes → Escaped
unfolding width_loop write_loop
escape_pattern src = record { width = width_loop src 0; written = write_loop src [] }
