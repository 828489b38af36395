-- ===== src/Parse/File/Best/Printed.antt =====
-- The matches that count have printable names.
use tsag.Base.{
  ◌||◌, ltb, length, All-append, ◌≡◌, true, List, [], ◌∷◌, Bytes, All, Bool-cases, Option-cases,
  inl, inr,
}
use tsag.Parse.Match.{QueryMatch, name_is_printable, extract_match}
use tsag.Parse.File.Best.{
  none_kept, Tagged, Kept, all_kept, has_place, keep_in, keep_in?, tagged, best_in,
}
use tsag.LineVec.Dedup.{dedup_cap}
use tsag.Parse.File.Best.Claim.{keep-All}
use tsag.Parse.File.Best.Lines.{tagged-none, tagged-some, tagged-bad}

abbrev pub IsPrinted : Tagged → Type 0
IsPrinted t = name_is_printable t.info.name ≡ true

-- All matches kept have printable names.
abbrev ArePrinted : Kept → Type 0
ArePrinted k = All IsPrinted k.tracked × All IsPrinted k.extra

keep_in-ArePrinted : (t : Tagged) (k : Kept) → IsPrinted t → ArePrinted k → ArePrinted (keep_in t k)
unfolding keep_in
keep_in-ArePrinted t k p a =
    elim (Bool-cases (has_place t k.tracked || ltb (length k.tracked) dedup_cap)) [
      | inl e ↦ rw e (keep-All IsPrinted t k.tracked p a.0, a.1)
      | inr e ↦ rw e (a.0, All-append IsPrinted k.extra (t ∷ []) a.1 (p, tt))
    ]

keep_in?-ArePrinted :
    (source : Bytes) (match : QueryMatch) (k : Kept)
    → ArePrinted k
    → ArePrinted (keep_in? (tagged source match) k)
unfolding keep_in?
keep_in?-ArePrinted source match k a = elim (Option-cases (extract_match source match)) [
  | inl e ↦ rw (tagged-none source match e) a
  | inr (m, e) ↦ elim (Bool-cases (name_is_printable m.name)) [
    | inl p ↦ rw (tagged-some source match m e p) (keep_in-ArePrinted _ k p a)
    | inr p ↦ rw (tagged-bad source match m e p) a
  ]
]

best_in-ArePrinted :
    (source : Bytes) (matches : List QueryMatch) (k : Kept)
    → ArePrinted k
    → ArePrinted (best_in source matches k)
unfolding best_in
best_in-ArePrinted source [] k a = a
best_in-ArePrinted source (m ∷ matches) k a =
    best_in-ArePrinted source matches (keep_in? (tagged source m) k)
      (keep_in?-ArePrinted source m k a)

pub best_in-IsPrinted :
    (source : Bytes) (matches : List QueryMatch)
    → All IsPrinted (all_kept (best_in source matches none_kept))
best_in-IsPrinted source matches =
    let k = best_in source matches none_kept in
    let (a, b) = best_in-ArePrinted source matches none_kept (tt, tt) in
    All-append IsPrinted k.tracked k.extra a b
