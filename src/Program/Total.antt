-- ===== src/Program/Total.antt =====
-- What a worker does between two critical sections gives a result.
use tsag.Base.{
  ◌≡◌, ◌&&◌, refl, true, List, [], ◌∷◌, ◌++◌, none, some, inl, inr, arith, Bool-cases, Option-cases,
}
use tsag.LineVec.{LineVec, line_vec_new, line_vec_sort, line_vec_uniq}
use tsag.Parse.File.Laws.{parse_file_lines-Parses}
use tsag.Worker.{Setup, parse_loop, work, worker}
use tsag.Worker.Laws.{fresh_vec, worker-Works}
use tsag.Program.{Job, Worker, parses, puts, ended, begin, with_vec, parse_job, sort_batch}
use tsag.Program.Invariant.{IsParser}

pub begin-total : (setup : Setup) → (next : Worker) × (begin setup ≡ some next)
unfolding begin line_vec_new
begin-total setup = elim (Bool-cases setup.parser_ok) [
  | inr a ↦ (ended setup [], rw a refl)
  | inl a ↦ elim (Bool-cases setup.cursor_ok) [
    | inr b ↦ (ended setup [], rw (a, b) refl)
    | inl b ↦ elim (Bool-cases (setup.vec_ok.0 && setup.vec_ok.1)) [
      | inl c ↦ (with_vec setup (some fresh_vec), rw (a, b, c) refl)
      | inr c ↦ (with_vec setup none, rw (a, b, c) refl)
    ]
  ]
]

pub parse_job-total :
    (setup : Setup) (taken : List Job) (vec : LineVec) (j : Job)
    → (next : Worker) × (parse_job setup taken vec j ≡ some next)
unfolding parse_job
parse_job-total setup taken vec (path, x) =
    let (status, after, e, kind, front, few) = parse_file_lines-Parses path x vec in
    (parses setup (taken ++ (path, x) ∷ []) after, rw e refl)

-- A list that `line_vec_uniq` could not read would stop the worker.
worker-stuck :
    (setup : Setup) (taken : List Job) (vec : LineVec)
    → IsParser setup
    → line_vec_new setup.vec_ok 128 ≡ some (some fresh_vec)
    → parse_loop taken fresh_vec ≡ some vec
    → line_vec_uniq (line_vec_sort vec) ≡ none
    → worker setup taken ≡ none
unfolding worker work
worker-stuck setup taken vec p v l u =
    let a : setup.parser_ok ≡ true = ground arith in
    let b : setup.cursor_ok ≡ true = ground arith in rw (a, b, v, l, u) refl

pub sort_batch-total :
    (setup : Setup) (taken : List Job) (vec : LineVec)
    → IsParser setup
    → line_vec_new setup.vec_ok 128 ≡ some (some fresh_vec)
    → parse_loop taken fresh_vec ≡ some vec
    → (next : Worker) × (sort_batch setup taken vec ≡ some next)
unfolding sort_batch
sort_batch-total setup taken vec p v l = elim (Option-cases (line_vec_uniq (line_vec_sort vec))) [
  | inl f ↦
      let a : setup.parser_ok ≡ true = ground arith in
      let b : setup.cursor_ok ≡ true = ground arith in
      let (o, w, works) = worker-Works setup taken a b in
      absurd (cc (w, worker-stuck setup taken vec p v l f))
  | inr ((after, freed), f) ↦ (puts setup taken after, rw f refl)
]
