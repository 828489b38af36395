-- ===== src/Parse/File/Best/Stands.antt =====
-- What one match does to the vector and the table.
use native.Mathlib.Decide.{dec_lt}
use tsag.Base.{
  ◌⊎◌, length-set, append_assoc, ℕ, ◌+◌, ◌^◌, ◌≤◌, ◌<◌, ◌≡◌, refl, ap, sym, ◌∙◌, true, false, arith,
  List, [], ◌∷◌, ◌++◌, Option, some, Bytes, All, All-get_or, length, set, get_or, ltb, ◌==◌, inl,
  inr, length-append, map, append-nil, lt→ltb, le→ltb,
}
use tsag.LineVec.{len}
use tsag.LineVec.Dedup.{DedupEntry, Claim, dedup_track, dedup_cap}
use tsag.Parse.Match.{Outcomes, slice, name_is_printable}
use tsag.Parse.File.{Seen, place_line, claimed}
use tsag.Parse.File.Frame.{replace-some}
use mathlib.Core.Path.{ap₂}
use mathlib.Core.Bool.{false≢true}
use tsag.Parse.File.Best.{Tagged, Kept, all_kept, has_place, keep, keep_in, line_for, table_of}
use tsag.Parse.File.Best.Lines.{
  AllOk, IsNamed, make_line-line_for, make_line-none, length-lines, set-lines, map-snoc, push-ok,
}
use tsag.Parse.File.Best.Claim.{
  set-front, keep_in-place, keep_in-room, keep_in-extra, Answer, fresh, low, over, keep-All,
  length-table_of, table_of-append,
}

module _ (base : List Bytes) (filepath source : Bytes) where
  -- The vector holds the lines of the matches kept behind `base`, and the table stands for those that
  -- it tracks; there are others only when it is full.
  pub record Stands (k : Kept) (s : Seen) : Type 0 where
    pub lines : s.vec.items ≡ base ++ map (line_for filepath source) (all_kept k)
    pub table : s.seen.entries ≡ table_of (length base) k.tracked
    pub named : All (IsNamed source) k.tracked
    pub fits : length k.tracked ≤ dedup_cap
    pub full : (k.extra ≡ []) ⊎ (length k.tracked ≡ dedup_cap)

  pub Stands-size :
      (k : Kept) (s : Seen) → Stands k s → len s.vec ≡ length base + length (all_kept k)
  Stands-size k s st =
      ap length st.lines ∙ length-lines base (line_for filepath source) (all_kept k)

  abbrev pub Leads : Kept → Option Seen → Type 0
  Leads k r = (s' : Seen) × (r ≡ some s') × Stands k s'

  module _ (o : Outcomes) (ok : AllOk o) (t : Tagged) (k : Kept) (s : Seen) (st : Stands k s) where
    abbrev place : ℕ → List DedupEntry → Option Seen
    place slot es =
        place_line o t.info t.pattern (line_for filepath source t) slot
          (record s { seen = record { entries = es } })

    size : len s.vec ≡ length base + length (all_kept k)
    size = Stands-size k s st

    -- A new range, and there is room for it.
    room-Leads :
        IsNamed source t
        → length k.tracked < dedup_cap
        → len s.vec < 2 ^ 59
        → keep t k.tracked ≡ k.tracked ++ t ∷ []
        → Leads (keep_in t k) (place (len s.vec) (table_of (length base) k.tracked))
    unfolding place_line dedup_track
    room-Leads named room small e =
        let line = line_for filepath source t in
        let (vec, pushed, grown) = push-ok s.vec line small in
        let here : (len s.vec == len s.vec) ≡ true = ground arith in
        let table : ltb (length (table_of (length base) k.tracked)) dedup_cap ≡ true =
          rw length-table_of (lt→ltb (length k.tracked) dedup_cap room) in
        let none_extra : k.extra ≡ [] = none_beyond room in
        let all : all_kept k ≡ k.tracked =
          ap (λ l. k.tracked ++ l) none_extra ∙ append-nil k.tracked in
        let more : length (k.tracked ++ t ∷ []) ≡ length k.tracked + 1 =
          length-append k.tracked (t ∷ []) in
        rw (here, ok.realloc_ok, pushed, table, keep_in-room t k room, e)
          (
            _,
            refl,
            record {
              lines =
                  grown
                  ∙ ap (λ l. l ++ line ∷ [])
                      (st.lines ∙ ap (λ l. base ++ map (line_for filepath source) l) all)
                  ∙ map-snoc base (line_for filepath source) k.tracked t
                  ∙ ap (λ l. base ++ map (line_for filepath source) l)
                      (sym (
                        ap (λ l. (k.tracked ++ t ∷ []) ++ l) none_extra
                        ∙ append-nil (k.tracked ++ t ∷ [])));
              table = rw (table_of-append, size, all) refl;
              named = rw e at (keep-All (IsNamed source) t k.tracked named st.named);
              fits = omega (arith, more, room);
              full = inl none_extra;
            },
          )
      where
        none_beyond : length k.tracked < dedup_cap → k.extra ≡ []
        none_beyond room = elim st.full [ inl e ↦ e | inr e ↦ absurd (omega (arith, e, room)) ]

    -- A new range, and the table is full.
    extra-Leads :
        has_place t k.tracked ≡ false
        → dedup_cap ≤ length k.tracked
        → len s.vec < 2 ^ 59
        → Leads (keep_in t k) (place (len s.vec) (table_of (length base) k.tracked))
    unfolding place_line dedup_track
    extra-Leads new full small =
        let line = line_for filepath source t in
        let (vec, pushed, grown) = push-ok s.vec line small in
        let here : (len s.vec == len s.vec) ≡ true = ground arith in
        let fits = st.fits in
        let table : ltb (length (table_of (length base) k.tracked)) dedup_cap ≡ false =
          rw length-table_of (le→ltb (length k.tracked) dedup_cap full) in
        rw (here, ok.realloc_ok, pushed, table, keep_in-extra t k new full)
          (
            _,
            refl,
            record {
              lines =
                  grown
                  ∙ ap (λ l. l ++ line ∷ []) st.lines
                  ∙ map-snoc base (line_for filepath source) (all_kept k) t
                  ∙ ap (λ l. base ++ map (line_for filepath source) l)
                      (append_assoc k.tracked k.extra (t ∷ []));
              table = refl;
              named = st.named;
              fits = fits;
              full = inr (omega (arith, full, fits));
            },
          )

    over-Leads :
        IsNamed source t
        → (i : ℕ) → i < length k.tracked
        → keep t k.tracked ≡ set k.tracked i t
        → has_place t k.tracked ≡ true
        → Leads (keep_in t k) (place (length base + i) (table_of (length base) (set k.tracked i t)))
    unfolding place_line
    over-Leads named i lt e h =
        let line = line_for filepath source t in
        let slot = length base + i in
        let long = length-append k.tracked k.extra in
        let other : (slot == len s.vec) ≡ false = ground (arith, size, long) in
        let same : length (set k.tracked i t) ≡ length k.tracked = length-set k.tracked i t in
        let fits = st.fits in
        rw (other, replace-some s.vec slot line (omega (arith, size, long)), keep_in-place t k h, e)
          (
            _,
            refl,
            record {
              lines =
                  ap (λ l. set l slot line) st.lines
                  ∙ set-lines base (line_for filepath source) (all_kept k) i t
                  ∙ ap (λ l. base ++ map (line_for filepath source) l)
                      (set-front k.tracked k.extra i t lt);
              table = refl;
              named = rw e at (keep-All (IsNamed source) t k.tracked named st.named);
              fits = omega (arith, same, fits);
              full = elim st.full [ inl e ↦ inl e | inr e ↦ inr (same ∙ e) ];
            },
          )

    -- A match with a printable name.
    pub kept-Leads :
        (r : Claim × List DedupEntry)
        → IsNamed source t
        → len s.vec < 2 ^ 59
        → Answer (len s.vec) (length base) k.tracked t r
        → Leads
            (keep_in t k)
            (claimed filepath source o t.info t.pattern (r.0, record { entries = r.1 }) s)
    unfolding claimed
    kept-Leads r named small (fresh e a new) =
        rw (e, make_line-line_for o t source filepath ok named.1)
          (elim (dec_lt (length k.tracked) dedup_cap) [
            | yes room ↦ room-Leads named room small a
            | no full ↦ extra-Leads new (omega (arith, full)) small
          ])
    kept-Leads r named small (low e a h) =
        rw (e, keep_in-place t k h, a)
          (
            _,
            refl,
            record {
              lines = st.lines;
              table = refl;
              named = st.named;
              fits = st.fits;
              full = st.full;
            },
          )
    kept-Leads r named small (over i lt e a same h) =
        rw (e, make_line-line_for o t source filepath ok named.1) (over-Leads named i lt a h)

    -- A match whose name is not printable changes nothing: its range is not in the table.
    pub skipped-Leads :
        (r : Claim × List DedupEntry)
        → t.info.name ≡ slice source t.info.start t.info.end
        → name_is_printable t.info.name ≡ false
        → Answer (len s.vec) (length base) k.tracked t r
        → Leads k (claimed filepath source o t.info t.pattern (r.0, record { entries = r.1 }) s)
    unfolding claimed
    skipped-Leads r named bad (fresh e a new) =
        rw (e, make_line-none o t.info source filepath bad)
          (
            _,
            refl,
            record {
              lines = st.lines;
              table = refl;
              named = st.named;
              fits = st.fits;
              full = st.full;
            },
          )
    skipped-Leads r named bad (low e a h) = rw e (
      _,
      refl,
      record { lines = st.lines; table = refl; named = st.named; fits = st.fits; full = st.full },
    )
    skipped-Leads r named bad (over i lt e a same h) =
        let u = get_or k.tracked i t in
        let known = All-get_or (IsNamed source) k.tracked i t st.named lt in
        let starts : u.info.start ≡ t.info.start = ground arith in
        let ends : u.info.end ≡ t.info.end = ground arith in
        let names : u.info.name ≡ t.info.name =
          known.0 ∙ ap₂ (slice source) starts ends ∙ sym named in
        absurd (false≢true (sym bad ∙ ap name_is_printable (sym names) ∙ known.1))
