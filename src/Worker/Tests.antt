-- ===== src/Worker/Tests.antt =====
-- A worker that gets one path and finds nothing to parse there.
use tsag.Base.{split_last, ◌≡◌, refl, true, [], ◌∷◌, none, some, List, Bytes, codes}
use tsag.Parse.File.{Outside}
use tsag.LineVec.{line_vec_new, line_vec_uniq, line_vec_sort}
use tsag.Lang.{find_extension}
use tsag.Parse.File.{parse_file_lines, read_file}
use tsag.Worker.{Setup, worker, work, parse_loop}

abbrev setup : Setup
setup = record { parser_ok = true; cursor_ok = true; vec_ok = (true, true) }

abbrev outside : Outside
outside = record {
  entry_found = true;
  language_set = true;
  file = none;
  parsed = true;
  matches = [];
}

abbrev jobs : List (Bytes × Outside)
jobs = (codes "x.c", outside) ∷ []

no_lines : worker setup jobs ≡ some (record { put = some (record { items = []; cap = 128 }) })
unfolding worker line_vec_new work parse_loop parse_file_lines find_extension split_last read_file
    line_vec_uniq line_vec_sort
no_lines = refl
