-- ===== src/Worker/Laws.antt =====
-- What a worker puts out.
use tsag.Base.{
  ◌≡◌, ◌∙◌, refl, ap, true, false, List, [], ◌∷◌, none, some, ◌>>=◌, Bytes, Bool-cases, ◌&&◌,
  if◌then◌else◌, inl, inr, ◌⊎◌,
}
use tsag.LineVec.{LineVec, line_vec_new}
use tsag.LineVec.Ascending.{IsAscending, has, sort_uniq-IsAscending}
use tsag.Parse.File.{Outside}
use tsag.Parse.File.Laws.{parse_file_lines-Parses}
use tsag.Worker.{Setup, Outcome, parse_loop, work, worker}

abbrev pub fresh_vec : LineVec
fresh_vec = record { items = []; cap = 128 }

-- The loop over the paths always ends with a vector.
parse_loop-some :
    (jobs : List (Bytes × Outside)) (vec : LineVec) → (r : LineVec) × (parse_loop jobs vec ≡ some r)
unfolding parse_loop
parse_loop-some [] vec = (vec, refl)
parse_loop-some ((path, x) ∷ jobs) vec =
    let (status, next, e, st, front, few) = parse_file_lines-Parses path x vec in
    let (r, k) = parse_loop-some jobs next in (r, ap (λ m. m >>= λ s. parse_loop jobs s.1) e ∙ k)

-- What a worker does whose parser and cursor are set up.
pub record Works (setup : Setup) (jobs : List (Bytes × Outside)) (o : Outcome) : Type 0 where
  pub lines :
      (((setup.vec_ok.0 && setup.vec_ok.1) ≡ false) × (o.put ≡ none))
      ⊎ (((setup.vec_ok.0 && setup.vec_ok.1) ≡ true)
          × (parsed : LineVec) × (r : LineVec) × (parse_loop jobs fresh_vec ≡ some parsed)
          × (o.put ≡ some r)
          × IsAscending r.items
          × ((l : Bytes) → has l r.items ≡ has l parsed.items))

work-Works :
    (setup : Setup) (jobs : List (Bytes × Outside))
    → (setup.vec_ok.0 && setup.vec_ok.1) ≡ true
    → (o : Outcome) × (work jobs (some fresh_vec) ≡ some o) × Works setup jobs o
unfolding work
work-Works setup jobs ok =
    let (parsed, e) = parse_loop-some jobs fresh_vec in
    let (r, freed, u, asc, same, _) = sort_uniq-IsAscending parsed in
    (
      record { put = some r },
      rw (e, u) refl,
      record { lines = inr (ok, parsed, r, e, refl, asc, same) },
    )

work-none : (jobs : List (Bytes × Outside)) → work jobs none ≡ some (record { put = none })
unfolding work
work-none jobs = refl

worker-work :
    (setup : Setup) (jobs : List (Bytes × Outside))
    → setup.parser_ok ≡ true
    → setup.cursor_ok ≡ true
    → worker setup jobs
      ≡ work jobs (if setup.vec_ok.0 && setup.vec_ok.1 then some fresh_vec else none)
unfolding worker line_vec_new
worker-work setup jobs p c = elim (Bool-cases (setup.vec_ok.0 && setup.vec_ok.1)) [
  | inl e ↦ rw (p, c, e) refl
  | inr e ↦ rw (p, c, e) refl
]

-- A worker whose parser and cursor are set up always ends: no assertion of its vector fails,
-- whatever the outside answers. Where its vector is allocated, it puts out a vector whose lines ascend with no line twice and are those that
-- parsing its files has given.
pub worker-Works :
    (setup : Setup) (jobs : List (Bytes × Outside))
    → setup.parser_ok ≡ true
    → setup.cursor_ok ≡ true
    → (o : Outcome) × (worker setup jobs ≡ some o) × Works setup jobs o
worker-Works setup jobs p c = elim (Bool-cases (setup.vec_ok.0 && setup.vec_ok.1)) [
  | inl e ↦
      let (o, w, works) = work-Works setup jobs e in (o, worker-work setup jobs p c ∙ rw e w, works)
  | inr e ↦ (
    record { put = none },
    worker-work setup jobs p c ∙ rw e (work-none jobs),
    record { lines = inl (e, refl) },
  )
]
