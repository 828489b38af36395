-- ===== src/Parse/Match/Tests.antt =====
-- The line of a C function, and what a reader gets back from it.
use tsag.Base.{ℕ, zero, suc, ◌<◌, ◌≢◌, inl, inr, ◌≡◌, refl, arith, true, Bytes, codes, some, Lacks}
use tsag.Parse.Text.{newline, byte_at}
use tsag.Parse.Text.Range.{IsLineAround}
use tsag.Parse.Text.Escape.{until_break}
use tsag.Parse.Match.{MatchInfo, Outcomes, tab, make_line, name_is_printable}
use tsag.Parse.Match.Line.{read_tag, read_tag-make_line}

abbrev source : Bytes
source = codes "int f();\n"

abbrev info : MatchInfo
info = record { name = codes "f"; kind = codes "func"; start = 4; end = 5 }

abbrev all_ok : Outcomes
all_ok = record { pattern_ok = true; snprintf_ok = true; line_ok = true; realloc_ok = true }

f-printable : name_is_printable info.name ≡ true
unfolding name_is_printable
f-printable = refl

path-Lacks : Lacks tab (codes "x.c")
path-Lacks = ground arith

kind-Lacks : Lacks newline (codes "func")
kind-Lacks = ground arith

line-Lacks : Lacks 0 (codes "int f();")
line-Lacks = ground arith

-- The first eight bytes are the line of the name.
around : IsLineAround source info.start 0 8
around = record {
  around = (omega arith, omega arith);
  inside = omega arith;
  short = (omega arith, omega arith);
  one_line = λ i lo hi. before_break i hi;
  begins = inl refl;
  ends = inr (inr refl);
}
  where
    before_break : (i : ℕ) → i < 8 → byte_at source i ≢ newline
    before_break zero h = ground arith
    before_break (suc zero) h = ground arith
    before_break (suc (suc zero)) h = ground arith
    before_break (suc (suc (suc zero))) h = ground arith
    before_break (suc (suc (suc (suc zero)))) h = ground arith
    before_break (suc (suc (suc (suc (suc zero))))) h = ground arith
    before_break (suc (suc (suc (suc (suc (suc zero)))))) h = ground arith
    before_break (suc (suc (suc (suc (suc (suc (suc zero))))))) h = ground arith
    before_break (suc (suc (suc (suc (suc (suc (suc (suc i)))))))) h = absurd (omega arith)

read_tag-make_line_example :
    (line : Bytes) × (make_line all_ok info source (codes "x.c") ≡ some line)
    × (read_tag line
        ≡ some (record {
          name = codes "f";
          file = codes "x.c";
          text = until_break (codes "int f();");
          kind = codes "func";
        }))
read_tag-make_line_example =
    read_tag-make_line all_ok info source (codes "x.c") 0 8 around f-printable (refl, refl, refl)
      path-Lacks kind-Lacks line-Lacks
