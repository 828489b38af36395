-- ===== src/Pipeline/Once.antt =====
-- No line comes from two workers, where no path comes twice.
use mathlib.Core.List.Perm
use mathlib.Core.Logic.{∥∥₁_elim}
use tsag.Base.Perms.{perm-length}
use tsag.Base.{
  ◌+◌, ◌*◌, ◌^◌, ◌<◌, ◌≤◌, ◌≡◌, refl, sym, ap, ◌∙◌, true, false, ◌&&◌, ◌||◌, arith, List, [], ◌∷◌,
  ◌++◌, map, some, ◌>>=◌, Bytes, length, All, Lacks, Perm, Bool-cases, inl, inr, subst, str_lt,
}
use tsag.LineVec.{LineVec}
use tsag.LineVec.Ascending.{IsAscending, has}
use tsag.LineVec.Count.{
  count, count-append, count-perm, count-has, count-has_not, IsAscending-once, IsSorted-once,
}
use tsag.Merge.{Merged, merge, all_lines}
use tsag.Merge.Laws.{merge-sorts}
use tsag.Parse.File.{Outside}
use tsag.Parse.Match.{tab}
use tsag.Worker.{Setup, Outcome, worker}
use tsag.Worker.Laws.{fresh_vec, worker-Works}
use tsag.Pipeline.{Share, add_put, run_workers, tag_file}
use tsag.Pipeline.Laws.{is_set_up, has-append, run_workers-Puts}
use tsag.Pipeline.Files.{IsTame, lines_of, parse_loop-lines}
use tsag.Pipeline.Shares.{files, AreTame, lines_of-append}
use tsag.Pipeline.Regroup.{All-split, All-permᴰ, AreTame-perm}
use tsag.Pipeline.Paths.{lines_of-path}

abbrev pub paths_of : List (Bytes × Outside) → List Bytes
paths_of jobs = map (λ j. j.0) jobs

abbrev pub AreTabless : List (Bytes × Outside) → Type 0
AreTabless jobs = All (λ j. Lacks tab j.0) jobs

-- No path comes twice.
abbrev pub AreDistinct : List (Bytes × Outside) → Type 0
AreDistinct jobs = (p : Bytes) → count p (paths_of jobs) ≤ 1

count-paths :
    (p : Bytes) (xs ys : List (Bytes × Outside))
    → count p (paths_of (xs ++ ys)) ≡ count p (paths_of xs) + count p (paths_of ys)
unfolding count
count-paths p [] ys = omega arith
count-paths p (x ∷ xs) ys = let rest = count-paths p xs ys in omega (arith, rest)

-- A worker that is set up, and whose files' allocations succeed, ends with a vector put out, whose
-- lines ascend with no line twice and are those of all its files (`lines_of`). This takes that it has
-- fewer than 2 ^ 47 files.
pub worker-Ascending :
    (setup : Setup) (jobs : List (Bytes × Outside))
    → is_set_up setup ≡ true
    → All (λ j. IsTame j.1) jobs
    → 4096 * length jobs < 2 ^ 59
    → (o : Outcome) × (r : LineVec) × (worker setup jobs ≡ some o)
      × (o.put ≡ some r)
      × IsAscending r.items
      × ((l : Bytes) → has l r.items ≡ has l (lines_of jobs))
unfolding is_set_up
worker-Ascending setup jobs s tame small =
    let p : setup.parser_ok ≡ true = ground arith in
    let c : setup.cursor_ok ≡ true = ground arith in
    let v : (setup.vec_ok.0 && setup.vec_ok.1) ≡ true = ground arith in
    let (o, w, works) = worker-Works setup jobs p c in
    let (out, e, lines) = parse_loop-lines jobs fresh_vec tame (omega (arith, small)) in
    elim works.lines [
      | inl (bad_vec, e) ↦ absurd (cc (v, bad_vec))
      | inr (ok, parsed, r, le, pe, asc, same) ↦
          let one : parsed ≡ out = cc (e, le) in
          (o, r, w, pe, asc, λ l. same l ∙ ap (λ v. has l v.items) one ∙ ap (has l) lines)
    ]

-- What the workers put.
record Once (shares : List Share) (received : List LineVec) : Type 0 where
  once : (l : Bytes) → count l (all_lines received) ≤ 1
  found : (l : Bytes) → has l (all_lines received) ≡ has l (lines_of (files shares))

-- A line of two lists of files has a path that is in both.
apart :
    (l : Bytes) (xs ys : List (Bytes × Outside))
    → AreTabless xs
    → AreTabless ys
    → AreDistinct (xs ++ ys)
    → has l (lines_of xs) ≡ true
    → has l (lines_of ys) ≡ false
apart l xs ys tx ty once hx = elim (Bool-cases (has l (lines_of ys))) [
  | inr none_there ↦ none_there
  | inl hy ↦
      let (p, e, px) = lines_of-path l xs tx hx in
      let (q, f, qy) = lines_of-path l ys ty hy in
      let same : q ≡ p = cc (e, f) in
      let cx = count-has p (paths_of xs) px in
      let cy = count-has p (paths_of ys) (rw same at qy) in
      let sum = count-paths p xs ys in let few = once p in absurd (omega (arith, cx, cy, sum, few))
]

one_more :
    (setup : Setup) (jobs : List (Bytes × Outside)) (shares : List Share) (r : LineVec)
    (rest : List LineVec)
    → IsAscending r.items
    → ((l : Bytes) → has l r.items ≡ has l (lines_of jobs))
    → AreTabless jobs
    → AreTabless (files shares)
    → AreDistinct (jobs ++ files shares)
    → Once shares rest
    → Once ((setup, jobs) ∷ shares) (r ∷ rest)
unfolding all_lines files
one_more setup jobs shares r rest asc same tj tf once o = record {
  once = λ l.
      let sum = count-append l r.items (all_lines rest) in
      let here = IsAscending-once l r.items asc in
      let there = o.once l in
      elim (Bool-cases (has l (lines_of jobs))) [
        | inr not_here ↦
            let zero_here = count-has_not l r.items (same l ∙ not_here) in
            omega (arith, sum, there, zero_here)
        | inl is_here ↦
            let zero_there =
              count-has_not l (all_lines rest)
                (o.found l ∙ apart l jobs (files shares) tj tf once is_here) in
            omega (arith, sum, here, zero_there)
      ];
  found = λ l.
      has-append l r.items (all_lines rest)
      ∙ ap (λ b. b || has l (all_lines rest)) (same l)
      ∙ ap (λ b. has l (lines_of jobs) || b) (o.found l)
      ∙ sym (
          ap (has l) (lines_of-append jobs (files shares))
          ∙ has-append l (lines_of jobs) (lines_of (files shares)));
}

rest-AreDistinct : (xs ys : List (Bytes × Outside)) → AreDistinct (xs ++ ys) → AreDistinct ys
rest-AreDistinct xs ys once p =
    let sum = count-paths p xs ys in let few = once p in omega (arith, sum, few)

run_workers-Once :
    (shares : List Share)
    → AreTame shares
    → AreTabless (files shares)
    → AreDistinct (files shares)
    → (received : List LineVec) × (run_workers shares ≡ some received) × Once shares received
unfolding run_workers files all_lines lines_of has count add_put
run_workers-Once [] tame t d = ([], refl, record { once = λ l. omega arith; found = λ l. refl })
run_workers-Once ((setup, jobs) ∷ shares) (first, others) t d =
    let (tj, tf) = All-split (λ j. Lacks tab j.0) jobs (files shares) t in
    let (o, r, w, pe, asc, same) = worker-Ascending setup jobs first.0 first.1 first.2 in
    let (rest, e, once) =
      run_workers-Once shares others tf (rest-AreDistinct jobs (files shares) d) in
    (r ∷ rest, rw (w, e, pe) refl, one_more setup jobs shares r rest asc same tj tf d once)

tag_file-IsAscending :
    (shares : List Share)
    → AreTame shares
    → AreTabless (files shares)
    → AreDistinct (files shares)
    → (r : Merged) × (tag_file shares ≡ some r) × IsAscending r.written
unfolding tag_file
tag_file-IsAscending shares tame t d =
    let (received, e, p) = run_workers-Puts shares in
    let (received', e', once) = run_workers-Once shares tame t d in
    let (r, m, sorted, perm, freed) = merge-sorts (length shares) received p.few p.sorted in
    let one : received' ≡ received = cc (e, e') in
    (
      r,
      ap (λ x. x >>= merge (length shares)) e ∙ m,
      IsSorted-once r.written sorted (λ l.
          subst (λ n. n ≤ 1) (sym (count-perm l perm ∙ ap (λ x. count l (all_lines x)) (sym one)))
            (once.once l)),
    )

above-IsProp : (x : Bytes) (xs : List Bytes) → IsProp (All (λ y. str_lt x y ≡ true) xs)
above-IsProp x [] = hlevel
above-IsProp x (y ∷ xs) = hlevel (above-IsProp x xs)

IsAscending-IsProp : (xs : List Bytes) → IsProp (IsAscending xs)
IsAscending-IsProp [] = hlevel
IsAscending-IsProp (x ∷ xs) = hlevel (above-IsProp x xs, IsAscending-IsProp xs)

-- Where no path comes twice and no path has a tab, no line is in the tags file twice.
pub tag_file-once :
    (shares : List Share) (setups : List Setup) (all : List (Bytes × Outside)) (r : Merged)
    → Perm (map (λ s. s.0) shares) setups
    → Perm (files shares) all
    → All (λ s. is_set_up s ≡ true) setups
    → All (λ j. IsTame j.1) all
    → 4096 * length all < 2 ^ 59
    → AreTabless all
    → AreDistinct all
    → tag_file shares ≡ some r
    → IsAscending r.written
tag_file-once shares setups all r ps pf s t n tabless distinct e =
    ∥∥₁_elim pf (IsAscending-IsProp r.written) λ d.
      let long = perm-length pf in
      let (r', e', asc) =
        tag_file-IsAscending shares
          (AreTame-perm shares setups all ps d s t (omega (arith, n, long)))
          (All-permᴰ (λ j. Lacks tab j.0) d tabless)
          (λ p. subst (λ n. n ≤ 1) (sym (count-perm p (Perm.map (λ j. j.0) pf))) (distinct p)) in
      let same : r' ≡ r = cc (e, e') in subst (λ r. IsAscending r.written) same asc
