-- ===== src/Parse/File/Frame.antt =====
-- src/parse.c, `parse_file_lines`: one file never touches the lines of another, and no assertion
-- of the vector fails.
use tsag.Base.{
  ℕ, ◌+◌, ◌≤◌, ◌<◌, ◌≡◌, refl, ap, ◌∙◌, Bool, true, false, arith, List, [], ◌∷◌, ◌++◌, Option, none,
  some, Bytes, All, All-append, length, take, set, ltb, leb, ◌==◌, if◌then◌else◌, length-append,
  length-set, Bool-cases, inl, inr, dec_lt, ℕ_discrete, take-append_front, take-set_behind, lt→ltb,
  le→ltb, get_elem?-eq-get_or, get_or,
}
use tsag.LineVec.{LineVec, len, line_vec_push, line_vec_replace}
use tsag.LineVec.Dedup.{
  DedupEntry, Dedup, Claim, drop, survive, same_range, claim_loop, dedup_claim, dedup_track,
}
use tsag.Parse.Match.{QueryMatch, MatchInfo, Outcomes, extract_match, make_line}
use tsag.Parse.File.{Seen, place_line, claimed, match_body, match_loop, max_matches_per_file}

-- Every slot in the table is one that this file has filled: from `base` on, and below the length.
abbrev pub AreOwn : ℕ → ℕ → List DedupEntry → Type 0
AreOwn base size es = All (λ e. (base ≤ e.idx) × (e.idx < size)) es

-- The lines of `old` stand untouched in front, and the table has only slots behind them.
pub record IsFramed (old : List Bytes) (s : Seen) : Type 0 where
  pub front : take (length old) s.vec.items ≡ old
  pub grown : length old ≤ len s.vec
  pub own : AreOwn (length old) (len s.vec) s.seen.entries

AreOwn-mono : (base n m : ℕ) (es : List DedupEntry) → n ≤ m → AreOwn base n es → AreOwn base m es
AreOwn-mono base n m [] h a = tt
AreOwn-mono base n m (e ∷ es) h a = (omega (arith, a.0), AreOwn-mono base n m es h a.1)

-- What a claim answers: a slot of the table or the end of the vector.
abbrev SlotIn : ℕ → ℕ → Claim → Type 0
SlotIn base size drop = Unit
SlotIn base size (survive slot) = (base ≤ slot) × (slot ≤ size)

claim_loop-own :
    (base size : ℕ) (es : List DedupEntry) (start end pattern : ℕ)
    → base ≤ size
    → AreOwn base size es
    → SlotIn base size (claim_loop es start end pattern size).0
      × AreOwn base size (claim_loop es start end pattern size).1
unfolding claim_loop
claim_loop-own base size [] start end pattern h a = (omega arith, tt)
claim_loop-own base size (e ∷ es) start end pattern h a =
    elim (Bool-cases (same_range start end e)) [
      | inl same ↦ elim (Bool-cases (leb pattern e.pattern)) [
        | inl low ↦ rw (same, low) (tt, a)
        | inr high ↦ rw (same, high) (omega (arith, a.0), a)
      ]
      | inr other ↦
          let (slot, rest) = claim_loop-own base size es start end pattern h a.1 in
          rw other (slot, (a.0, rest))
    ]

-- `line_vec_push` appends the line, or leaves the vector as it is.
push-items :
    (ok : Bool) (vec : LineVec) (line : Bytes)
    → let (pushed, vec') = line_vec_push ok vec line in
      vec'.items ≡ (if pushed then vec.items ++ line ∷ [] else vec.items)
unfolding line_vec_push
push-items ok vec line = ground arith

pub replace-some :
    (vec : LineVec) (slot : ℕ) (line : Bytes)
    → slot < len vec
    → line_vec_replace vec slot line
      ≡ some (record vec { items = set vec.items slot line }, get_or vec.items slot [])
unfolding line_vec_replace
replace-some vec slot line lt =
    rw (lt→ltb slot (len vec) lt, get_elem?-eq-get_or vec.items slot [] lt)

track-own :
    (base : ℕ) (d : Dedup) (start end pattern idx : ℕ)
    → base ≤ idx
    → AreOwn base idx d.entries
    → AreOwn base (idx + 1) (dedup_track d start end pattern idx).entries
unfolding dedup_track
track-own base d start end pattern idx h a =
    let mono = AreOwn-mono base idx (idx + 1) d.entries (omega arith) a in
    elim (Bool-cases (ltb (length d.entries) 1024)) [
      | inl room ↦ rw room (All-append _ d.entries _ mono ((omega arith, omega arith), tt))
      | inr full ↦ rw full mono
    ]

module _ (old : List Bytes) where
  -- A step that keeps the frame and adds one line at most.
  abbrev Steps : Seen → Option Seen → Type 0
  Steps s r = (t : Seen) × (r ≡ some t) × IsFramed old t × (len t.vec ≤ len s.vec + 1)

  pushed-IsFramed :
      (s : Seen) (o : Outcomes) (m : MatchInfo) (pattern : ℕ) (line : Bytes) (vec : LineVec)
      → IsFramed old s
      → vec.items ≡ s.vec.items ++ line ∷ []
      → IsFramed old
          (record { vec = vec; seen = dedup_track s.seen m.start m.end pattern (len s.vec) })
  pushed-IsFramed s o m pattern line vec f e =
      let grown = f.grown in
      let size : len vec ≡ len s.vec + 1 = ap length e ∙ length-append s.vec.items (line ∷ []) in
      record {
        front = rw e (take-append_front (length old) s.vec.items (line ∷ []) grown ∙ f.front);
        grown = omega arith;
        own = rw size (track-own (length old) s.seen m.start m.end pattern (len s.vec) grown f.own);
      }

  place_line-Steps :
      (o : Outcomes) (m : MatchInfo) (pattern : ℕ) (line : Bytes) (slot : ℕ) (s : Seen)
      → IsFramed old s
      → length old ≤ slot
      → slot ≤ len s.vec
      → Steps s (place_line o m pattern line slot s)
  unfolding place_line
  place_line-Steps o m pattern line slot s f lo hi = elim (ℕ_discrete slot (len s.vec)) [
    | no inside ↦
        let other : (slot == len s.vec) ≡ false = ground arith in
        let size = length-set s.vec.items slot line in
        rw (other, replace-some s.vec slot line (omega arith))
          (
            record s { vec = record s.vec { items = set s.vec.items slot line } },
            refl,
            record {
              front = take-set_behind (length old) s.vec.items slot line lo ∙ f.front;
              grown = let g = f.grown in omega arith;
              own = rw size f.own;
            },
            omega arith,
          )
    | yes at_end ↦
        let same : (slot == len s.vec) ≡ true = ground arith in
        rw same
          (appended (line_vec_push o.realloc_ok s.vec line) (push-items o.realloc_ok s.vec line))
  ]
    where
      appended :
          (r : Bool × LineVec)
          → r.1.items ≡ (if r.0 then s.vec.items ++ line ∷ [] else s.vec.items)
          → Steps s (
              if r.0
              then some (record {
                vec = r.1;
                seen = dedup_track s.seen m.start m.end pattern (len s.vec);
              })
              else some s)
      appended (true, vec) e = (
        _,
        refl,
        pushed-IsFramed s o m pattern line vec f e,
        omega (arith, length-append s.vec.items (line ∷ []), ap length e),
      )
      appended (false, vec) e = (s, refl, f, omega arith)

  claimed-Steps :
      (filepath source : Bytes) (o : Outcomes) (m : MatchInfo) (pattern : ℕ) (c : Claim × Dedup)
      (s : Seen)
      → IsFramed old s
      → SlotIn (length old) (len s.vec) c.0
      → AreOwn (length old) (len s.vec) c.1.entries
      → Steps s (claimed filepath source o m pattern c s)
  unfolding claimed
  claimed-Steps filepath source o m pattern (drop, seen) s f slot own =
      (_, refl, record { front = f.front; grown = f.grown; own = own }, omega arith)
  claimed-Steps filepath source o m pattern (survive slot, seen) s f (lo, hi) own =
      made (make_line o m source filepath)
    where
      s' : Seen
      s' = record s { seen = seen }

      f' : IsFramed old s'
      f' = record { front = f.front; grown = f.grown; own = own }

      made :
          (r : Option Bytes)
          → Steps s (elim r [ none ↦ some s' | some line ↦ place_line o m pattern line slot s' ])
      made none = (s', refl, f', omega arith)
      made (some line) = place_line-Steps o m pattern line slot s' f' lo hi

  match_body-Steps :
      (filepath source : Bytes) (match : QueryMatch × Outcomes) (s : Seen)
      → IsFramed old s
      → Steps s (match_body filepath source match s)
  unfolding match_body dedup_claim
  match_body-Steps filepath source (match, o) s f = extracted (extract_match source match)
    where
      extracted :
          (r : Option MatchInfo)
          → Steps s (elim r [
            | none ↦ some s
            | some m ↦
                claimed filepath source o m match.pattern_index
                  (dedup_claim s.seen m.start m.end match.pattern_index (len s.vec))
                  s
          ])
      extracted none = (s, refl, f, omega arith)
      extracted (some m) =
          let (slot, own) =
            claim_loop-own (length old) (len s.vec) s.seen.entries m.start m.end match.pattern_index
              f.grown f.own in
          claimed-Steps filepath source o m match.pattern_index _ s f slot own

  -- The loop keeps the frame, and adds no more lines than matches are left under the cap.
  pub match_loop-IsFramed :
      (filepath source : Bytes) (matches : List (QueryMatch × Outcomes)) (examined : ℕ) (s : Seen)
      → IsFramed old s
      → examined ≤ max_matches_per_file
      → (t : Seen) × (match_loop filepath source matches examined s ≡ some t)
        × IsFramed old t
        × (len t.vec + examined ≤ len s.vec + max_matches_per_file)
  unfolding match_loop
  match_loop-IsFramed filepath source [] examined s f h = (s, refl, f, omega arith)
  match_loop-IsFramed filepath source (m ∷ matches) examined s f h =
      elim (dec_lt max_matches_per_file (examined + 1)) [
        | yes over ↦ rw (lt→ltb max_matches_per_file (examined + 1) over) (s, refl, f, omega arith)
        | no within ↦
            let (t, e, f', n) = match_body-Steps filepath source m s f in
            let (u, e', f'', n') =
              match_loop-IsFramed filepath source matches (examined + 1) t f' (omega arith) in
            rw (le→ltb max_matches_per_file (examined + 1) (omega arith), e)
              (u, e', f'', omega arith)
      ]
