-- ===== src/Parse/File/Best/Capped.antt =====
-- src/parse.c, the loop over the matches: what it does with any number of them.
use tsag.Base.{
  ℕ, zero, suc, ◌+◌, ◌^◌, ◌<◌, ◌≡◌, refl, ap, ◌∙◌, arith, List, [], ◌∷◌, ◌++◌, some, Bytes,
  length-take, map, All, take, ltb, if◌then◌else◌, Option-cases, inl, inr, lt→ltb,
}
use tsag.LineVec.{LineVec, len}
use tsag.LineVec.Dedup.{dedup_init}
use tsag.Parse.Match.{QueryMatch, Outcomes}
use tsag.Parse.File.{Seen, match_body, match_loop, max_matches_per_file}
use tsag.Parse.File.Best.{none_kept, all_kept, best_in, line_for}
use tsag.Parse.File.Best.Lines.{AllOk}
use tsag.Parse.File.Best.Refine.{match_loop-best_in}

match_loop-take :
    (filepath source : Bytes) (matches : List (QueryMatch × Outcomes)) (examined room : ℕ)
    (s : Seen)
    → examined + room ≡ max_matches_per_file
    → match_loop filepath source matches examined s
      ≡ match_loop filepath source (take room matches) examined s
unfolding match_loop
match_loop-take filepath source [] examined zero s e = refl
match_loop-take filepath source [] examined (suc room) s e = refl
match_loop-take filepath source (m ∷ matches) examined zero s e =
    rw (lt→ltb max_matches_per_file (examined + 1) (omega (arith, e))) refl
match_loop-take filepath source (m ∷ matches) examined (suc room) s e =
    elim (Option-cases (match_body filepath source m s)) [
      | inl f ↦ rw f refl
      | inr (next, f) ↦ rw f (
          ap (λ r. if ltb max_matches_per_file (examined + 1) then some s else r)
            (match_loop-take filepath source matches (examined + 1) room next (omega (arith, e))))
    ]

-- With every allocation successful, the loop over the matches appends to the vector exactly the
-- lines of `best_in` for the first 4096 matches: for each of the first 1024 byte ranges that are seen,
-- in that order, the line of the match with the highest pattern index, the first of them on a tie;
-- and behind these the line of every match that counts of another range. The other matches are
-- not looked at.
pub match_loop-capped :
    (filepath source : Bytes) (matches : List (QueryMatch × Outcomes)) (vec : LineVec)
    → All (λ p. AllOk p.1) (take max_matches_per_file matches)
    → len vec + max_matches_per_file < 2 ^ 59
    → (s : Seen) × (match_loop filepath source matches 0 (record { vec = vec; seen = dedup_init })
        ≡ some s)
      × (s.vec.items
          ≡ vec.items
            ++ map (line_for filepath source) (
                all_kept
                  (best_in source (map (λ p. p.0) (take max_matches_per_file matches)) none_kept)))
match_loop-capped filepath source matches vec ok small =
    let first = take max_matches_per_file matches in
    let size = length-take max_matches_per_file matches in
    let (s, e, lines) =
      match_loop-best_in filepath source first vec ok (omega (arith, size))
        (omega (arith, size, small)) in
    (
      s,
      match_loop-take filepath source matches 0 max_matches_per_file
            (record { vec = vec; seen = dedup_init }) (omega arith)
          ∙ e,
      lines,
    )
