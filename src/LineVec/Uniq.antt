-- ===== src/LineVec/Uniq.antt =====
-- src/linevec.c, `line_vec_uniq`: the in-place loop against a plain recursion, and what it leaves
-- of ascending lines.
use mathlib.Core.List.{append_assoc}
use native.Mathlib.Numerals.{add-one}
use tsag.Base.{
  ℕ, suc, ◌+◌, ◌-◌, ◌≤◌, ◌<◌, ◌≡◌, refl, sym, ap, ◌∙◌, Bool, false, arith, List, [], ◌∷◌, ◌++◌,
  Option, none, some, Bytes, length, get_elem?, set, take, drop, lt→ltb, str_eq, if◌then◌else◌,
  append-nil, drop-set, get_elem?-drop, drop-suc, lt-length_of_drop, take-set_next,
  get_elem?-set_self, Bool-cases, inl, inr,
}
use tsag.LineVec.{LineVec, UniqState, uniq_body, uniq_loop, line_vec_uniq}

-- Is `x` the line kept last?
unfoldable pub same_as : Option Bytes → Bytes → Bool
same_as none x = false
same_as (some q) x = str_eq x q

-- The lines that differ from the line kept before them.
unfoldable pub kept : Option Bytes → List Bytes → List Bytes
unfolding same_as
kept p [] = []
kept p (x ∷ xs) =
    let skip = kept p xs in let keep = x ∷ kept (some x) xs in if same_as p x then skip else keep

-- The lines that equal the line kept before them.
unfoldable pub repeated : Option Bytes → List Bytes → List Bytes
unfolding same_as
repeated p [] = []
repeated p (x ∷ xs) =
    let skip = x ∷ repeated p xs in
    let keep = repeated (some x) xs in if same_as p x then skip else keep

-- The slot before the write index holds the line kept last.
abbrev Last : Option Bytes → UniqState → Type 0
Last none s = s.w ≡ 0
Last (some q) s = (0 < s.w) × (get_elem? s.items (s.w - 1) ≡ some q)

-- The loop at read index `r`, with `xs` still to be read.
record At (p : Option Bytes) (r : ℕ) (xs : List Bytes) (s : UniqState) : Type 0 where
  unread : drop r s.items ≡ xs
  behind : s.w ≤ r
  last : Last p s

skipped : UniqState → Bytes → UniqState
skipped s x = record s { freed = s.freed ++ x ∷ [] }

moved : UniqState → Bytes → UniqState
moved s x = record s { items = set s.items s.w x; w = s.w + 1 }

uniq_body-At :
    (p : Option Bytes) (r : ℕ) (x : Bytes) (xs : List Bytes) (s : UniqState)
    → At p r (x ∷ xs) s
    → uniq_body r s ≡ some (if same_as p x then skipped s x else moved s x)
unfolding uniq_body same_as skipped moved
uniq_body-At none r x xs s h = rw (get_elem?-drop s.items xs r x h.unread, h.last) (ground arith)
uniq_body-At (some q) r x xs s h =
    rw (get_elem?-drop s.items xs r x h.unread, lt→ltb 0 s.w h.last.0, h.last.1)

skipped-At :
    (p : Option Bytes) (r : ℕ) (x : Bytes) (xs : List Bytes) (s : UniqState)
    → At p r (x ∷ xs) s
    → At p (r + 1) xs (skipped s x)
unfolding skipped
skipped-At none r x xs s h = record {
  unread = rw add-one (drop-suc s.items xs r x h.unread);
  behind = let b = h.behind in omega arith;
  last = h.last;
}
skipped-At (some q) r x xs s h = record {
  unread = rw add-one (drop-suc s.items xs r x h.unread);
  behind = let b = h.behind in omega arith;
  last = h.last;
}

moved-At :
    (p : Option Bytes) (r : ℕ) (x : Bytes) (xs : List Bytes) (s : UniqState)
    → At p r (x ∷ xs) s
    → At (some x) (r + 1) xs (moved s x)
unfolding moved
moved-At p r x xs s h =
    let b = h.behind in
    let lt = lt-length_of_drop s.items xs r x h.unread in
    let back : s.w + 1 - 1 ≡ s.w = omega arith in
    record {
      unread =
          rw add-one
            (drop-set s.items s.w (suc r) x (omega arith) ∙ drop-suc s.items xs r x h.unread);
      behind = omega arith;
      last = (omega arith, rw back (get_elem?-set_self s.items s.w x (omega arith)));
    }

-- What the loop leaves: the kept lines behind those kept before, and the others freed.
abbrev Leaves : Option Bytes → List Bytes → UniqState → Option UniqState → Type 0
Leaves p xs s r =
    (t : UniqState) × (r ≡ some t)
    × (take t.w t.items ≡ take s.w s.items ++ kept p xs)
    × (t.freed ≡ s.freed ++ repeated p xs)

uniq_loop-Leaves :
    (xs : List Bytes) (p : Option Bytes) (r : ℕ) (s : UniqState)
    → At p r xs s
    → Leaves p xs s (uniq_loop (length xs) r s)
unfolding uniq_loop kept repeated skipped moved
uniq_loop-Leaves [] p r s h =
    (s, refl, sym (append-nil (take s.w s.items)), sym (append-nil s.freed))
uniq_loop-Leaves (x ∷ xs) p r s h = elim (Bool-cases (same_as p x)) [
  | inl e ↦
      let (t, eq, k, f) = uniq_loop-Leaves xs p (r + 1) (skipped s x) (skipped-At p r x xs s h) in
      (
        t,
        rw (uniq_body-At p r x xs s h, e) eq,
        rw e k,
        rw e (f ∙ append_assoc s.freed (x ∷ []) (repeated p xs)),
      )
  | inr e ↦
      let (t, eq, k, f) =
        uniq_loop-Leaves xs (some x) (r + 1) (moved s x) (moved-At p r x xs s h) in
      let b = h.behind in
      let lt = lt-length_of_drop s.items xs r x h.unread in
      let grown : take (s.w + 1) (set s.items s.w x) ≡ take s.w s.items ++ x ∷ [] =
        rw add-one (take-set_next s.w s.items x (omega arith)) in
      (
        t,
        rw (uniq_body-At p r x xs s h, e) eq,
        rw e (
            k
            ∙ ap (λ l. l ++ kept (some x) xs) grown
            ∙ append_assoc (take s.w s.items) (x ∷ []) (kept (some x) xs)),
        rw e f,
      )
]

-- `line_vec_uniq` returns, with no read or write out of bounds: the vector holds the lines that
-- differ from the line kept before them, in order, and exactly the other lines are freed.
pub line_vec_uniq-kept :
    (vec : LineVec)
    → line_vec_uniq vec ≡ some (record vec { items = kept none vec.items }, repeated none vec.items)
unfolding line_vec_uniq
line_vec_uniq-kept vec =
    let (t, eq, k, f) =
      uniq_loop-Leaves vec.items none 0 (record { items = vec.items; w = 0; freed = [] })
        (record { unread = refl; behind = omega arith; last = refl }) in
    rw (eq, k, f)
