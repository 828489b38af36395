-- ===== src/Pipeline/Laws.antt =====
-- What the tags file holds in the end.
use tsag.Base.{
  ◌≤◌, ◌≡◌, refl, sym, ap, ◌∙◌, Bool, true, false, ◌&&◌, ◌||◌, arith, List, [], ◌∷◌, ◌++◌, Option,
  none, some, ◌>>=◌, Bytes, length, All, Perm, str_lt, str_le, str_lt→le, Bool-cases, inl, inr,
}
use tsag.LineVec.{LineVec}
use tsag.LineVec.Sort.{IsSorted}
use tsag.LineVec.Ascending.{IsAscending, has, has-perm}
use tsag.Merge.{Merged, merge, all_lines}
use tsag.Merge.Rest.{AreSorted}
use tsag.Merge.Laws.{merge-sorts}
use tsag.Parse.File.{Outside}
use tsag.Worker.{Setup, Outcome, parse_loop, worker}
use tsag.Worker.Laws.{fresh_vec, Works, worker-Works}
use tsag.Pipeline.{Share, add_put, run_workers, tag_file}

-- All that a worker needs is there.
unfoldable pub is_set_up : Setup → Bool
is_set_up s = s.parser_ok && (s.cursor_ok && (s.vec_ok.0 && s.vec_ok.1))

unfoldable pub items_of : Option LineVec → List Bytes
items_of none = []
items_of (some vec) = vec.items

-- Some worker that is set up finds the line `l` in its files.
unfoldable pub is_found : Bytes → List Share → Bool
unfolding items_of
is_found l [] = false
is_found l ((setup, jobs) ∷ shares) =
    (is_set_up setup && has l (items_of (parse_loop jobs fresh_vec))) || is_found l shares

IsAscending-IsSorted : (xs : List Bytes) → IsAscending xs → IsSorted xs
IsAscending-IsSorted [] a = tt
IsAscending-IsSorted (x ∷ xs) a = (above x xs a.0, IsAscending-IsSorted xs a.1)
  where
    above :
        (x : Bytes) (xs : List Bytes)
        → All (λ y. str_lt x y ≡ true) xs
        → All (λ y. str_le x y ≡ true) xs
    above x [] h = tt
    above x (y ∷ ys) h = (str_lt→le x y h.0, above x ys h.1)

pub has-append : (l : Bytes) (xs ys : List Bytes) → has l (xs ++ ys) ≡ (has l xs || has l ys)
unfolding has
has-append l [] ys = refl
has-append l (x ∷ xs) ys = ground (arith, has-append l xs ys)

has_nil : (l : Bytes) → has l [] ≡ false
unfolding has
has_nil l = refl

-- What one worker adds.
record Adds (setup : Setup) (jobs : List (Bytes × Outside)) (put : Option LineVec) : Type 0 where
  sorted : IsSorted (items_of put)
  found :
      (l : Bytes)
      → has l (items_of put) ≡ (is_set_up setup && has l (items_of (parse_loop jobs fresh_vec)))

none-Adds :
    (setup : Setup) (jobs : List (Bytes × Outside)) → is_set_up setup ≡ false → Adds setup jobs none
unfolding items_of has
none-Adds setup jobs e = record { sorted = tt; found = λ l. rw e refl }

no_vec : (s : Setup) → (s.vec_ok.0 && s.vec_ok.1) ≡ false → is_set_up s ≡ false
unfolding is_set_up
no_vec s e = ground arith

no_parser : (s : Setup) → (s.parser_ok && s.cursor_ok) ≡ false → is_set_up s ≡ false
unfolding is_set_up
no_parser s e = ground arith

all_there :
    (s : Setup)
    → s.parser_ok ≡ true
    → s.cursor_ok ≡ true
    → (s.vec_ok.0 && s.vec_ok.1) ≡ true
    → is_set_up s ≡ true
unfolding is_set_up
all_there s p c e = ground arith

found_in :
    (setup : Setup) (jobs : List (Bytes × Outside)) (parsed : LineVec)
    → is_set_up setup ≡ true
    → parse_loop jobs fresh_vec ≡ some parsed
    → (l : Bytes)
    → (is_set_up setup && has l (items_of (parse_loop jobs fresh_vec))) ≡ has l parsed.items
unfolding items_of
found_in setup jobs parsed e le l = rw (e, le) refl

Works-Adds :
    (setup : Setup) (jobs : List (Bytes × Outside)) (o : Outcome)
    → setup.parser_ok ≡ true
    → setup.cursor_ok ≡ true
    → Works setup jobs o
    → Adds setup jobs o.put
unfolding items_of
Works-Adds setup jobs o p c w = elim w.lines [
  | inl (e, pe) ↦ rw pe (none-Adds setup jobs (no_vec setup e))
  | inr (e, parsed, r, le, pe, asc, same) ↦ rw pe (record {
    sorted = IsAscending-IsSorted r.items asc;
    found = λ l. same l ∙ sym (found_in setup jobs parsed (all_there setup p c e) le l);
  })
]

worker-stops :
    (setup : Setup) (jobs : List (Bytes × Outside))
    → (setup.parser_ok && setup.cursor_ok) ≡ false
    → worker setup jobs ≡ some (record { put = none })
unfolding worker
worker-stops setup jobs e = ground arith

worker-Adds :
    (setup : Setup) (jobs : List (Bytes × Outside))
    → (o : Outcome) × (worker setup jobs ≡ some o) × Adds setup jobs o.put
worker-Adds setup jobs = elim (Bool-cases (setup.parser_ok && setup.cursor_ok)) [
  | inl e ↦
      let p : setup.parser_ok ≡ true = ground arith in
      let c : setup.cursor_ok ≡ true = ground arith in
      let (o, w, works) = worker-Works setup jobs p c in (o, w, Works-Adds setup jobs o p c works)
  | inr e ↦
      (record { put = none }, worker-stops setup jobs e, none-Adds setup jobs (no_parser setup e))
]

-- What the workers put.
pub record Puts (shares : List Share) (received : List LineVec) : Type 0 where
  pub few : length received ≤ length shares
  pub sorted : AreSorted received
  pub found : (l : Bytes) → has l (all_lines received) ≡ is_found l shares

no_shares : Puts [] []
unfolding all_lines has is_found
no_shares = record { few = omega arith; sorted = tt; found = λ l. refl }

add_put-Puts :
    (setup : Setup) (jobs : List (Bytes × Outside)) (shares : List Share) (put : Option LineVec)
    (rest : List LineVec)
    → Adds setup jobs put
    → Puts shares rest
    → Puts ((setup, jobs) ∷ shares) (add_put put rest)
unfolding add_put is_found all_lines items_of
add_put-Puts setup jobs shares none rest a p = record {
  few = omega (arith, p.few);
  sorted = p.sorted;
  found = λ l. p.found l ∙ sym (ap (λ b. b || is_found l shares) (sym (a.found l) ∙ has_nil l));
}
add_put-Puts setup jobs shares (some vec) rest a p = record {
  few = omega (arith, p.few);
  sorted = (a.sorted, p.sorted);
  found = λ l.
      has-append l vec.items (all_lines rest)
      ∙ ap (λ b. b || has l (all_lines rest)) (a.found l)
      ∙ ap (λ b. (is_set_up setup && has l (items_of (parse_loop jobs fresh_vec))) || b)
          (p.found l);
}

pub run_workers-Puts :
    (shares : List Share)
    → (received : List LineVec) × (run_workers shares ≡ some received) × Puts shares received
unfolding run_workers
run_workers-Puts [] = ([], refl, no_shares)
run_workers-Puts ((setup, jobs) ∷ shares) =
    let (o, w, adds) = worker-Adds setup jobs in
    let (rest, e, puts) = run_workers-Puts shares in
    (add_put o.put rest, rw (w, e) refl, add_put-Puts setup jobs shares o.put rest adds puts)

-- However the paths are shared out among the workers, and whatever the outside answers, the workers
-- and the merge end with no failed assertion and no access out of bounds. The lines of the tags
-- file ascend; a line is in it exactly when a worker that is set up has found it in one of its
-- files; and the lines freed are the lines written.
pub tag_file-lines :
    (shares : List Share)
    → (r : Merged) × (tag_file shares ≡ some r)
      × IsSorted r.written
      × ((l : Bytes) → has l r.written ≡ is_found l shares)
      × Perm r.written r.freed
unfolding tag_file
tag_file-lines shares =
    let (received, e, p) = run_workers-Puts shares in
    let (r, m, sorted, perm, freed) = merge-sorts (length shares) received p.few p.sorted in
    (
      r,
      ap (λ x. x >>= merge (length shares)) e ∙ m,
      sorted,
      λ l. has-perm l perm ∙ p.found l,
      rw freed perm,
    )
