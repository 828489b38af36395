-- ===== src/Parse/File/Best/Lines.antt =====
-- What the steps of the loop do: the line of a match, the slots of the vector, the matches that count.
use tsag.Base.{
  ℕ, zero, suc, ◌+◌, ◌-◌, ◌*◌, ◌/◌, ◌^◌, ◌≤◌, ◌<◌, ◌≡◌, refl, ap, ◌∙◌, true, false, arith, List, [],
  ◌∷◌, ◌++◌, none, some, Bytes, length, set, ◌==◌, Bool-cases, inl, inr, length-append, map,
  append_assoc, le→ltb, ◌||◌, ==→eq,
}
use tsag.LineVec.{LineVec, len, line_vec_push}
use tsag.Parse.Match.{
  QueryMatch, MatchInfo, Outcomes, Found, slice, capture_loop, extract_match, found_match,
  name_is_printable, make_line,
}
use tsag.Parse.File.Best.{Tagged, tagged, line_for}

-- Every call succeeds.
pub record AllOk (o : Outcomes) : Type 0 where
  pub pattern_ok : o.pattern_ok ≡ true
  pub snprintf_ok : o.snprintf_ok ≡ true
  pub line_ok : o.line_ok ≡ true
  pub realloc_ok : o.realloc_ok ≡ true

-- The name of a kept match is the source text of its range, and printable.
abbrev pub IsNamed : Bytes → Tagged → Type 0
IsNamed source t =
    (t.info.name ≡ slice source t.info.start t.info.end) × (name_is_printable t.info.name ≡ true)

pub found_match-name :
    (source : Bytes) (s : Found) (m : MatchInfo)
    → found_match source s ≡ some m
    → m.name ≡ slice source m.start m.end
unfolding found_match
found_match-name source s m e =
    elim (Bool-cases (s.name_end - s.name_start == 0 || length s.kind == 0)) [
      | inl stop ↦ absurd (ground arith)
      | inr go ↦ ground arith
    ]

pub extract_match-name :
    (source : Bytes) (match : QueryMatch) (m : MatchInfo)
    → extract_match source match ≡ some m
    → m.name ≡ slice source m.start m.end
unfolding extract_match
extract_match-name source match m e =
    found_match-name source
      (capture_loop match.captures (record { name_start = 0; name_end = 0; kind = [] })) m e

pub make_line-line_for :
    (o : Outcomes) (t : Tagged) (source filepath : Bytes)
    → AllOk o
    → name_is_printable t.info.name ≡ true
    → make_line o t.info source filepath ≡ some (line_for filepath source t)
unfolding make_line line_for
make_line-line_for o t source filepath ok p = rw (p, ok.pattern_ok, ok.snprintf_ok, ok.line_ok)

pub make_line-none :
    (o : Outcomes) (m : MatchInfo) (source filepath : Bytes)
    → name_is_printable m.name ≡ false
    → make_line o m source filepath ≡ none
unfolding make_line
make_line-none o m source filepath p = rw p

pub tagged-none :
    (source : Bytes) (match : QueryMatch)
    → extract_match source match ≡ none
    → tagged source match ≡ none
unfolding tagged
tagged-none source match e = rw (e, tagged)

module _ (source : Bytes) (match : QueryMatch) (m : MatchInfo)
    (e : extract_match source match ≡ some m) where
  pub tagged-some :
      name_is_printable m.name ≡ true
      → tagged source match ≡ some (record { info = m; pattern = match.pattern_index })
  unfolding tagged
  tagged-some p = rw (e, tagged, p)

  pub tagged-bad : name_is_printable m.name ≡ false → tagged source match ≡ none
  unfolding tagged
  tagged-bad p = rw (e, tagged, p)

-- The vector's lines and the slots behind `base`.
pub length-lines :
    (base : List Bytes) (f : Tagged → Bytes) (ts : List Tagged)
    → length (base ++ map f ts) ≡ length base + length ts
length-lines base f ts = length-append base (map f ts) ∙ ap (λ k. length base + k) (length-map f ts)
  where
    length-map : (f : Tagged → Bytes) (ts : List Tagged) → length (map f ts) ≡ length ts
    length-map f [] = refl
    length-map f (t ∷ ts) = ap suc (length-map f ts)

pub set-lines :
    (base : List Bytes) (f : Tagged → Bytes) (ts : List Tagged) (i : ℕ) (t : Tagged)
    → set (base ++ map f ts) (length base + i) (f t) ≡ base ++ map f (set ts i t)
set-lines [] f [] i t = refl
set-lines [] f (u ∷ us) zero t = refl
set-lines [] f (u ∷ us) (suc i) t =
    let here : 0 + suc i ≡ suc i = omega arith in
    let there : 0 + i ≡ i = omega arith in
    rw here (ap (◌∷◌ (f u)) (rw there at (set-lines [] f us i t)))
set-lines (b ∷ base) f ts i t =
    let shift : suc (length base) + i ≡ suc (length base + i) = omega arith in
    rw shift (ap (◌∷◌ b) (set-lines base f ts i t))

pub map-snoc :
    (base : List Bytes) (f : Tagged → Bytes) (ts : List Tagged) (t : Tagged)
    → (base ++ map f ts) ++ f t ∷ [] ≡ base ++ map f (ts ++ t ∷ [])
map-snoc base f ts t = rw (append_assoc) (ap (λ l. base ++ l) (go ts))
  where
    go : (ts : List Tagged) → map f ts ++ f t ∷ [] ≡ map f (ts ++ t ∷ [])
    go [] = refl
    go (u ∷ us) = ap (◌∷◌ (f u)) (go us)

pub push-ok :
    (vec : LineVec) (line : Bytes)
    → len vec < 2 ^ 59
    → (vec' : LineVec) × (line_vec_push true vec line ≡ (true, vec'))
      × (vec'.items ≡ vec.items ++ line ∷ [])
unfolding line_vec_push
push-ok vec line lt = elim (Bool-cases (len vec == vec.cap)) [
  | inl full ↦
      let fits : vec.cap ≤ (2 ^ 64 - 1) / (2 * 8) = omega (arith, ==→eq (len vec) vec.cap full) in
      rw (full, le→ltb ((2 ^ 64 - 1) / (2 * 8)) vec.cap fits) (_, refl, refl)
  | inr room ↦ rw room (_, refl, refl)
]
