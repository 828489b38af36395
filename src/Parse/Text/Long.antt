-- ===== src/Parse/Text/Long.antt =====
-- src/parse.c, `has_long_line`: the guard against generated files.
use tsag.Base.{
  ℕ, ◌+◌, ◌≤◌, ◌≡◌, ◌↔◌, refl, false, arith, List, [], ◌∷◌, Bytes, length, ◌==◌, if◌then◌else◌, All,
  Bool-cases, inl, inr, dec_lt, lt→ltb, le→ltb,
}
use mathlib.Core.Bool.{true≢false}
use tsag.Parse.Text.{newline, max_src_line_len, long_loop, has_long_line}

-- The lines of a text, without their newlines: the first, and the others.
pub lines_of : Bytes → Bytes × List Bytes
lines_of [] = ([], [])
lines_of (c ∷ src) =
    let (line, lines) = lines_of src in
    if c == newline then ([], line ∷ lines) else (c ∷ line, lines)

abbrev pub AreShort : List Bytes → Type 0
AreShort = All (λ l. length l ≤ max_src_line_len)

-- No line is over the limit, where `run` bytes stand before the first.
abbrev Fits : ℕ → Bytes × List Bytes → Type 0
Fits run (line, lines) = (run + length line ≤ max_src_line_len) × AreShort lines

long_loop-Fits :
    (src : Bytes) (run : ℕ)
    → run ≤ max_src_line_len
    → (long_loop src run ≡ false) ↔ Fits run (lines_of src)
unfolding long_loop lines_of
long_loop-Fits [] run h = (λ _. (omega arith, tt), λ _. refl)
long_loop-Fits (c ∷ src) run h = elim (Bool-cases (c == newline)) [
  | inl e ↦
      let (to, from) = long_loop-Fits src 0 (omega arith) in
      rw e (
        λ p. (omega arith, (omega (arith, (to p).0), (to p).1)),
        λ f. from (omega (arith, f.1.0), f.1.1),
      )
  | inr e ↦ elim (dec_lt max_src_line_len (run + 1)) [
    | yes over ↦
        rw (e, lt→ltb max_src_line_len (run + 1) over)
          (λ p. absurd (true≢false p), λ f. absurd (omega (arith, f.0)))
    | no within ↦
        let (to, from) = long_loop-Fits src (run + 1) (omega arith) in
        rw (e, le→ltb max_src_line_len (run + 1) (omega arith))
          (λ p. (omega (arith, (to p).0), (to p).1), λ f. from (omega (arith, f.0), f.1))
  ]
]

-- The guard lets a file pass exactly when each of its lines has at most 4096 bytes.
pub has_long_line_iff :
    (src : Bytes)
    → (has_long_line src ≡ false)
      ↔ ((length (lines_of src).0 ≤ max_src_line_len) × AreShort (lines_of src).1)
unfolding has_long_line
has_long_line_iff src =
    let (to, from) = long_loop-Fits src 0 (omega arith) in
    (λ p. (omega (arith, (to p).0), (to p).1), λ f. from (omega (arith, f.0), f.1))
