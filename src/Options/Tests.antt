-- ===== src/Options/Tests.antt =====
-- Two options and a path, and a number of jobs that is too low.
use tsag.Base.{◌-◌, ◌≡◌, refl, false, List, [], ◌∷◌, none, some, Bytes, codes}
use tsag.Options.{Options, Opt, Strtol, Parsed, below_one, is_bad_jobs, parse_options}
use tsag.Options.Laws.{Outcome, parse_options-Outcome}

-- The value of a digit.
abbrev digit : Bytes → Strtol
digit [] = record { failed = false; end = []; value = some 0 }
digit (c ∷ s) = record { failed = false; end = s; value = some (c - b'0') }

abbrev opts : List Opt
opts = Opt.opt_j (codes "4") ∷ Opt.opt_o (codes "-") ∷ Opt.opt_j (codes "2") ∷ []

abbrev start : Options
start = record { output = none; jobs = 0; paths = [] }

too_low : parse_options digit (Opt.opt_j (codes "0") ∷ []) [] start ≡ Parsed.bad
unfolding parse_options is_bad_jobs below_one
too_low = refl

parse_options-Outcome_example :
    Outcome digit opts (codes "src" ∷ []) start (parse_options digit opts (codes "src" ∷ []) start)
parse_options-Outcome_example = parse_options-Outcome digit opts (codes "src" ∷ []) start
