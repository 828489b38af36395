-- ===== src/Pipeline/Sample.antt =====
-- A file with one function, and a worker that has all that it needs.
use tsag.Base.{refl, true, [], ◌∷◌, some, Bytes, codes}
use tsag.Parse.File.{Outside, OpenFile}
use tsag.Parse.Match.{Capture, QueryMatch, Outcomes}
use tsag.Pipeline.Files.{IsTame}
use tsag.Worker.{Setup}

abbrev source : Bytes
source = codes "int f();\n"

abbrev named : Bytes → Capture
named kind = record { capture_name = kind; start_byte = 4; end_byte = 5 }

abbrev found : QueryMatch
found = record {
  pattern_index = 0;
  captures = named (codes "kind.func") ∷ named (codes "name") ∷ [];
}

abbrev all_ok : Outcomes
all_ok = record { pattern_ok = true; snprintf_ok = true; line_ok = true; realloc_ok = true }

abbrev opened : OpenFile
opened = record {
  stat_ok = true;
  is_reg = true;
  size = some 9;
  fdopen_ok = true;
  malloc_ok = true;
  content = source;
}

abbrev pub outside : Outside
outside = record {
  entry_found = true;
  language_set = true;
  file = some opened;
  parsed = true;
  matches = (found, all_ok) ∷ [];
}

abbrev pub setup : Setup
setup = record { parser_ok = true; cursor_ok = true; vec_ok = (true, true) }

pub outside-IsTame : IsTame outside
outside-IsTame = record {
  all_ok =
      (record { pattern_ok = refl; snprintf_ok = refl; line_ok = refl; realloc_ok = refl }, tt);
}
