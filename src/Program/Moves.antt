-- ===== src/Program/Moves.antt =====
-- What a worker does between two critical sections.
use tsag.Base.{
  ℕ, ◌≡◌, ◌⊎◌, ◌&&◌, refl, true, false, List, [], ◌∷◌, ◌++◌, none, some, sym, ◌∙◌, Bool-cases,
  Option-cases, inl, inr, Bytes, arith,
}
use tsag.LineVec.{LineVec, line_vec_new, line_vec_sort, line_vec_uniq}
use tsag.Parse.File.{Outside, parse_file_lines}
use tsag.Worker.{Setup, parse_loop, work, worker}
use tsag.Worker.Laws.{fresh_vec}
use tsag.Program.{Job, Worker, parses, drains, puts, ended, with_vec, begin, parse_job, sort_batch}
use tsag.Program.Invariant.{IsParser}

pub begin-cases :
    (setup : Setup) (next : Worker)
    → begin setup ≡ some next
    → ((next ≡ ended setup []) × ((setup.parser_ok && setup.cursor_ok) ≡ false))
      ⊎ ((next ≡ drains setup []) × IsParser setup × (line_vec_new setup.vec_ok 128 ≡ some none))
      ⊎ ((next ≡ parses setup [] fresh_vec)
          × IsParser setup
          × (line_vec_new setup.vec_ok 128 ≡ some (some fresh_vec)))
unfolding begin with_vec line_vec_new
begin-cases setup next e = elim (Bool-cases setup.parser_ok) [
  | inr a ↦ ground arith
  | inl a ↦ elim (Bool-cases setup.cursor_ok) [ inr b ↦ ground arith | inl b ↦ ground arith ]
]

pub parse_job-inv :
    (setup : Setup) (taken : List Job) (vec : LineVec) (j : Job) (next : Worker)
    → parse_job setup taken vec j ≡ some next
    → (status : ℕ) × (after : LineVec) × (parse_file_lines j.0 j.1 vec ≡ some (status, after))
      × (next ≡ parses setup (taken ++ j ∷ []) after)
unfolding parse_job
parse_job-inv setup taken vec (path, x) next e = elim (Option-cases (parse_file_lines path x vec)) [
  | inl f ↦ absurd (cc (rw f at e))
  | inr ((status, after), f) ↦ (status, after, f, cc (rw f at e))
]

pub sort_batch-inv :
    (setup : Setup) (taken : List Job) (vec : LineVec) (next : Worker)
    → sort_batch setup taken vec ≡ some next
    → (after : LineVec) × (freed : List Bytes) × (line_vec_uniq (line_vec_sort vec)
        ≡ some (after, freed))
      × (next ≡ puts setup taken after)
unfolding sort_batch
sort_batch-inv setup taken vec next e = elim (Option-cases (line_vec_uniq (line_vec_sort vec))) [
  | inl f ↦ absurd (cc (rw f at e))
  | inr ((after, freed), f) ↦ (after, freed, f, cc (rw f at e))
]

after_one :
    (path : Bytes) (x : Outside) (vec next : LineVec) (status : ℕ) (taken : List Job)
    → parse_file_lines path x vec ≡ some (status, next)
    → parse_loop ((path, x) ∷ taken) vec ≡ parse_loop taken next
unfolding parse_loop
after_one path x vec next status taken e = rw e refl

-- One more file.
pub parse_loop-snoc :
    (taken : List Job) (vec after : LineVec) (j : Job) (status : ℕ) (last : LineVec)
    → parse_loop taken vec ≡ some after
    → parse_file_lines j.0 j.1 after ≡ some (status, last)
    → parse_loop (taken ++ j ∷ []) vec ≡ some last
unfolding parse_loop
parse_loop-snoc [] vec after (path, x) status last e f =
    let same : vec ≡ after = cc e in rw (same, f) refl
parse_loop-snoc ((path, x) ∷ taken) vec after j status last e f =
    elim (Option-cases (parse_file_lines path x vec)) [
      | inl g ↦ absurd (cc (rw g at e))
      | inr ((one, next), g) ↦
          after_one path x vec next one (taken ++ j ∷ []) g
          ∙ parse_loop-snoc taken next after j status last
              (sym (after_one path x vec next one taken g) ∙ e) f
    ]

pub worker-puts :
    (setup : Setup) (taken : List Job) (vec after : LineVec) (freed : List Bytes)
    → IsParser setup
    → line_vec_new setup.vec_ok 128 ≡ some (some fresh_vec)
    → parse_loop taken fresh_vec ≡ some vec
    → line_vec_uniq (line_vec_sort vec) ≡ some (after, freed)
    → worker setup taken ≡ some (record { put = some after })
unfolding worker work
worker-puts setup taken vec after freed p v l u =
    let a : setup.parser_ok ≡ true = ground arith in
    let b : setup.cursor_ok ≡ true = ground arith in rw (a, b, v, l, u) refl

pub worker-drains :
    (setup : Setup) (taken : List Job)
    → IsParser setup
    → line_vec_new setup.vec_ok 128 ≡ some none
    → worker setup taken ≡ some (record { put = none })
unfolding worker work
worker-drains setup taken p v =
    let a : setup.parser_ok ≡ true = ground arith in
    let b : setup.cursor_ok ≡ true = ground arith in rw (a, b, v) refl

pub worker-fails :
    (setup : Setup) (taken : List Job)
    → (setup.parser_ok && setup.cursor_ok) ≡ false
    → worker setup taken ≡ some (record { put = none })
unfolding worker
worker-fails setup taken e = ground arith
