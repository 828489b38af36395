-- ===== src/Parse/File/Best/Refine.antt =====
-- The loop refines its specification.
use tsag.Base.{
  ◌||◌, Option-cases, ℕ, ◌+◌, ◌^◌, ◌≤◌, ◌<◌, ◌≡◌, refl, ap, sym, ◌∙◌, false, arith, List, [], ◌∷◌,
  ◌++◌, Option, none, some, Bytes, All, length, ltb, Bool-cases, inl, inr, length-append, map,
  append-nil, le→ltb, subst,
}
use tsag.LineVec.{LineVec, len}
use tsag.LineVec.Dedup.{dedup_init, claim_loop, dedup_claim, dedup_cap}
use tsag.Parse.Match.{QueryMatch, MatchInfo, Outcomes, extract_match, name_is_printable}
use tsag.Parse.File.{Seen, claimed, match_body, match_loop, max_matches_per_file}
use tsag.Parse.File.Best.{
  Tagged, none_kept, Kept, all_kept, has_place, keep, keep_in, keep_in?, same_place, best_in,
  tagged, keep?, best, line_for, table_of,
}
use tsag.Parse.File.Best.Lines.{AllOk, extract_match-name, tagged-none, tagged-some, tagged-bad}
use tsag.Parse.File.Best.Claim.{
  keep_in-place, keep_in-room, Answer, claim_loop-Answer, length-best, keep-length-le,
}
use tsag.Parse.File.Best.Stands.{Stands, Stands-size, Leads, kept-Leads, skipped-Leads}

keep_in-size : (t : Tagged) (k : Kept) → length (all_kept (keep_in t k)) ≤ length (all_kept k) + 1
unfolding keep_in
keep_in-size t k =
    let more = keep-length-le t k.tracked in
    let one = length-append k.tracked k.extra in
    let two = length-append (keep t k.tracked) k.extra in
    let three = length-append k.tracked (k.extra ++ t ∷ []) in
    let four = length-append k.extra (t ∷ []) in
    elim (Bool-cases (has_place t k.tracked || ltb (length k.tracked) dedup_cap)) [
      | inl e ↦ rw e (omega (arith, more, one, two))
      | inr e ↦ rw e (omega (arith, one, three, four))
    ]

keep_in?-size :
    (t : Option Tagged) (k : Kept) → length (all_kept (keep_in? t k)) ≤ length (all_kept k) + 1
unfolding keep_in?
keep_in?-size none k = omega arith
keep_in?-size (some t) k = keep_in-size t k

module _ (base : List Bytes) (filepath source : Bytes) where
  body-none :
      (match : QueryMatch) (o : Outcomes) (s : Seen)
      → extract_match source match ≡ none
      → match_body filepath source (match, o) s ≡ some s
  unfolding match_body
  body-none match o s e = rw (e, match_body)

  body-some :
      (match : QueryMatch) (o : Outcomes) (s : Seen) (m : MatchInfo)
      → extract_match source match ≡ some m
      → let r = claim_loop s.seen.entries m.start m.end match.pattern_index (len s.vec) in
        match_body filepath source (match, o) s
        ≡ claimed filepath source o m match.pattern_index (r.0, record { entries = r.1 }) s
  unfolding match_body dedup_claim
  body-some match o s m e = rw (e, match_body)

  match_body-Leads :
      (match : QueryMatch) (o : Outcomes) (k : Kept) (s : Seen)
      → AllOk o
      → Stands base filepath source k s
      → len s.vec < 2 ^ 59
      → Leads base filepath source
          (keep_in? (tagged source match) k)
          (match_body filepath source (match, o) s)
  unfolding keep_in?
  match_body-Leads match o k s ok st small = elim (Option-cases (extract_match source match)) [
    | inl e ↦ rw (tagged-none source match e, body-none match o s e) (s, refl, st)
    | inr (m, e) ↦
        let t : Tagged = record { info = m; pattern = match.pattern_index } in
        let name = extract_match-name source match m e in
        let answer : Answer (len s.vec) (length base) k.tracked t
            (claim_loop s.seen.entries m.start m.end match.pattern_index (len s.vec)) =
          subst
            (λ es.
              Answer (len s.vec) (length base) k.tracked t
                (claim_loop es m.start m.end match.pattern_index (len s.vec)))
            (sym st.table) (claim_loop-Answer (len s.vec) (length base) k.tracked t) in
        elim (Bool-cases (name_is_printable m.name)) [
          | inl good ↦
              let eq = tagged-some source match m e good in
              rw (body-some match o s m e, eq)
                (kept-Leads base filepath source o ok t k s st _ (name, good) small answer)
          | inr bad ↦
              rw (body-some match o s m e, tagged-bad source match m e bad)
                (skipped-Leads base filepath source o ok t k s st _ name bad answer)
        ]
  ]

  match_loop-Leads :
      (matches : List (QueryMatch × Outcomes)) (examined : ℕ) (k : Kept) (s : Seen)
      → All (λ p. AllOk p.1) matches
      → Stands base filepath source k s
      → examined + length matches ≤ max_matches_per_file
      → len s.vec + length matches < 2 ^ 59
      → Leads base filepath source
          (best_in source (map (λ p. p.0) matches) k)
          (match_loop filepath source matches examined s)
  unfolding match_loop best_in
  match_loop-Leads [] examined k s ok st few small = (s, refl, st)
  match_loop-Leads ((match, o) ∷ matches) examined k s ok st few small =
      let k' = keep_in? (tagged source match) k in
      let (s', e, st') = match_body-Leads match o k s ok.0 st (omega arith) in
      let one : len s'.vec ≤ len s.vec + 1 = omega (
        arith,
        Stands-size base filepath source k s st,
        Stands-size base filepath source k' s' st',
        keep_in?-size (tagged source match) k,
      ) in
      rw (le→ltb max_matches_per_file (examined + 1) (omega arith), e)
        (match_loop-Leads matches (examined + 1) k' s' ok.1 st' (omega arith) (omega arith))

-- With every allocation successful and at most 4096 matches, the loop over the matches appends to
-- the vector exactly the lines of `best_in`.
pub match_loop-best_in :
    (filepath source : Bytes) (matches : List (QueryMatch × Outcomes)) (vec : LineVec)
    → All (λ p. AllOk p.1) matches
    → length matches ≤ max_matches_per_file
    → len vec + length matches < 2 ^ 59
    → (s : Seen) × (match_loop filepath source matches 0 (record { vec = vec; seen = dedup_init })
        ≡ some s)
      × (s.vec.items
          ≡ vec.items
            ++ map
                (line_for filepath source)
                (all_kept (best_in source (map (λ p. p.0) matches) none_kept)))
unfolding dedup_init
match_loop-best_in filepath source matches vec ok few small =
    let start : Stands vec.items filepath source none_kept
        (record { vec = vec; seen = dedup_init }) =
      record {
        lines = sym (append-nil vec.items);
        table = unfold table_of in refl;
        named = tt;
        fits = omega arith;
        full = inl refl;
      } in
    let (s, e, st) =
      match_loop-Leads vec.items filepath source matches 0 none_kept _ ok start (omega arith)
        small in
    (s, e, st.lines)

keep-new : (t : Tagged) (ts : List Tagged) → has_place t ts ≡ false → keep t ts ≡ ts ++ t ∷ []
unfolding keep has_place
keep-new t [] h = refl
keep-new t (u ∷ us) h = elim (Bool-cases (same_place t u)) [
  | inl same ↦ absurd (cc (rw same at h))
  | inr other ↦ rw other (ap (λ l. u ∷ l) (keep-new t us (rw other at h)))
]

keep_in?-room :
    (t : Option Tagged) (ts : List Tagged)
    → length (keep? t ts) ≤ dedup_cap
    → keep_in? t (record { tracked = ts; extra = [] }) ≡ record { tracked = keep? t ts; extra = [] }
unfolding keep? keep_in?
keep_in?-room none ts few = refl
keep_in?-room (some t) ts few = elim (Bool-cases (has_place t ts)) [
  | inl h ↦ keep_in-place t (record { tracked = ts; extra = [] }) h
  | inr h ↦
      let more : length (keep t ts) ≡ length ts + 1 =
        ap length (keep-new t ts h) ∙ length-append ts (t ∷ []) in
      keep_in-room t (record { tracked = ts; extra = [] }) (omega (arith, few, more))
]

-- The table has room for all.
best_in-best :
    (source : Bytes) (matches : List QueryMatch) (ts : List Tagged)
    → length (best source matches ts) ≤ dedup_cap
    → best_in source matches (record { tracked = ts; extra = [] })
      ≡ record { tracked = best source matches ts; extra = [] }
unfolding best best_in
best_in-best source [] ts few = refl
best_in-best source (m ∷ matches) ts few =
    let grow = length-best source matches (keep? (tagged source m) ts) in
    ap (best_in source matches) (keep_in?-room (tagged source m) ts (omega (arith, few, grow)))
    ∙ best_in-best source matches (keep? (tagged source m) ts) few

-- With every allocation successful, at most 4096 matches and at most 1024 byte ranges among those
-- that count, the loop over the matches appends to the vector exactly the lines of `best`: one for
-- each byte range, in the order in which the ranges are first seen, of the match with the highest
-- pattern index, the first of them on a tie.
pub match_loop-best :
    (filepath source : Bytes) (matches : List (QueryMatch × Outcomes)) (vec : LineVec)
    → All (λ p. AllOk p.1) matches
    → length matches ≤ max_matches_per_file
    → length (best source (map (λ p. p.0) matches) []) ≤ dedup_cap
    → len vec + length matches < 2 ^ 59
    → (s : Seen) × (match_loop filepath source matches 0 (record { vec = vec; seen = dedup_init })
        ≡ some s)
      × (s.vec.items
          ≡ vec.items ++ map (line_for filepath source) (best source (map (λ p. p.0) matches) []))
match_loop-best filepath source matches vec ok few ranges small =
    let (s, e, lines) = match_loop-best_in filepath source matches vec ok few small in
    let same = best_in-best source (map (λ p. p.0) matches) [] ranges in
    (
      s,
      e,
      lines
          ∙ ap (λ k. vec.items ++ map (line_for filepath source) (all_kept k)) same
          ∙ ap (λ l. vec.items ++ map (line_for filepath source) l)
              (append-nil (best source (map (λ p. p.0) matches) [])),
    )
