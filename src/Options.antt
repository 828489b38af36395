-- ===== src/Options.antt =====
-- src/options.h and src/options.c: the command line. The answers of `getopt` are the input, and
-- `strtol` is a parameter.
pub mod Laws
mod Tests
use tsag.Base.{
  ℕ, Bool, true, false, not, ◌||◌, List, [], ◌∷◌, Option, none, some, Bytes, length, ltb, ◌==◌,
  if◌then◌else◌,
}

pub record Options : Type 0 where
  pub output : Option Bytes
  pub jobs : ℕ
  pub paths : List Bytes

-- An answer of `getopt` for "o:j:h", with `optarg`; `unknown` is any other.
pub data Opt : Type 0 where
  opt_o : Bytes → Opt
  opt_j : Bytes → Opt
  opt_h : Opt
  unknown : Opt

-- What `strtol` leaves: whether `errno` is set, the text at `end`, and the value, `none` for a
-- negative one.
pub record Strtol : Type 0 where
  pub failed : Bool
  pub end : Bytes
  pub value : Option ℕ

-- `ok` is the result 0, `bad` the result -1, and `exits` the call of `exit(0)`.
pub data Parsed : Type 0 where
  ok : Options → Parsed
  bad : Parsed
  exits : Parsed

-- `v < 1`
unfoldable pub below_one : Option ℕ → Bool
below_one none = true
below_one (some v) = ltb v 1

unfoldable pub value_or_zero : Option ℕ → ℕ
value_or_zero none = 0
value_or_zero (some v) = v

module _ (strtol : Bytes → Strtol) where
  -- The test of the case `j`.
  unfoldable pub is_bad_jobs : Bytes → Bool
  is_bad_jobs arg = let r = strtol arg in r.failed || (not (length r.end == 0) || below_one r.value)

  -- The loop over `getopt`, and what follows it; `rest` is what `optind` leaves of `argv`.
  unfoldable pub parse_options : List Opt → List Bytes → Options → Parsed
  parse_options [] rest o = ok (record o { paths = rest })
  parse_options (opt_o arg ∷ opts) rest o = parse_options opts rest (record o { output = some arg })
  parse_options (opt_j arg ∷ opts) rest o =
      let next = parse_options opts rest (record o { jobs = value_or_zero (strtol arg).value }) in
      if is_bad_jobs arg then bad else next
  parse_options (opt_h ∷ opts) rest o = exits
  parse_options (unknown ∷ opts) rest o = bad
