-- ===== src/Pipeline/Shares.antt =====
-- The lines of the tags file, and how the files are shared out among the workers.
use mathlib.Core.Logic.{∥∥₁_elim}
use mathlib.Core.List.{Permᴰ}
use mathlib.Core.Bool.{Bool-set}
use tsag.Base.{
  ◌*◌, ◌^◌, ◌<◌, ◌≡◌, refl, sym, ap, ◌∙◌, true, ◌||◌, arith, List, [], ◌∷◌, ◌++◌, some, Bytes,
  length, All, Perm, append_assoc,
}
use tsag.LineVec.Sort.{IsSorted}
use tsag.LineVec.Ascending.{has}
use tsag.Merge.{Merged}
use tsag.Parse.File.{Outside}
use tsag.Worker.Laws.{fresh_vec}
use tsag.Pipeline.{Share, tag_file}
use tsag.Pipeline.Laws.{is_set_up, is_found, items_of, has-append, tag_file-lines}
use tsag.Pipeline.Files.{IsTame, file_lines, lines_of, parse_loop-lines}

-- All the files, worker after worker.
unfoldable pub files : List Share → List (Bytes × Outside)
files [] = []
files ((setup, jobs) ∷ shares) = jobs ++ files shares

-- Every worker is set up, and its files are tame and not too many for its vector.
abbrev pub AreTame : List Share → Type 0
AreTame shares =
    All (λ s. (is_set_up s.0 ≡ true) × All (λ j. IsTame j.1) s.1 × (4096 * length s.1 < 2 ^ 59))
      shares

pub lines_of-append :
    (xs ys : List (Bytes × Outside)) → lines_of (xs ++ ys) ≡ lines_of xs ++ lines_of ys
unfolding lines_of
lines_of-append [] ys = refl
lines_of-append ((path, x) ∷ xs) ys =
    ap (λ l. file_lines path x ++ l) (lines_of-append xs ys)
    ∙ sym (append_assoc (file_lines path x) (lines_of xs) (lines_of ys))

pub found-in_files :
    (l : Bytes) (shares : List Share)
    → AreTame shares
    → is_found l shares ≡ has l (lines_of (files shares))
unfolding is_found files items_of lines_of has
found-in_files l [] tame = refl
found-in_files l ((setup, jobs) ∷ shares) (first, rest) =
    let (out, e, lines) = parse_loop-lines jobs fresh_vec first.1 (omega (arith, first.2)) in
    rw (first.0, e, lines, found-in_files l shares rest)
      (sym (
        ap (has l) (lines_of-append jobs (files shares))
        ∙ has-append l (lines_of jobs) (lines_of (files shares))))

has-file :
    (l : Bytes) (j : Bytes × Outside) (jobs : List (Bytes × Outside))
    → has l (lines_of (j ∷ jobs)) ≡ (has l (file_lines j.0 j.1) || has l (lines_of jobs))
unfolding lines_of
has-file l (path, x) jobs = has-append l (file_lines path x) (lines_of jobs)

has-two :
    (l : Bytes) (a b : Bytes × Outside) (jobs : List (Bytes × Outside))
    → has l (lines_of (a ∷ b ∷ jobs)) ≡ has l (lines_of (b ∷ a ∷ jobs))
has-two l a b jobs =
    ground (
      arith,
      has-file l a (b ∷ jobs),
      has-file l b jobs,
      has-file l b (a ∷ jobs),
      has-file l a jobs,
    )

permᴰ-lines :
    (l : Bytes) {xs ys : List (Bytes × Outside)}
    → Permᴰ xs ys
    → has l (lines_of xs) ≡ has l (lines_of ys)
permᴰ-lines l Permᴰ.nil = refl
permᴰ-lines l (Permᴰ.cons {a = a} {b = b} {l₁ = xs} {l₂ = ys} e p) =
    has-file l a xs
    ∙ ap (λ r. has l (file_lines a.0 a.1) || r) (permᴰ-lines l p)
    ∙ sym (has-file l a ys)
    ∙ ap (λ j. has l (lines_of (j ∷ ys))) e
permᴰ-lines l (Permᴰ.swap {a = a} {b = b} {a' = c} {b' = d} {l = jobs} e f) =
    has-two l a b jobs
    ∙ ap (λ j. has l (lines_of (b ∷ j ∷ jobs))) e
    ∙ ap (λ j. has l (lines_of (j ∷ d ∷ jobs))) f
permᴰ-lines l (Permᴰ.trans p q) = permᴰ-lines l p ∙ permᴰ-lines l q

pub perm-lines :
    (l : Bytes) {xs ys : List (Bytes × Outside)}
    → Perm xs ys
    → has l (lines_of xs) ≡ has l (lines_of ys)
perm-lines l p = ∥∥₁_elim p (Bool-set _ _) (permᴰ-lines l)

-- As a set, the lines of the tags file are those of the files, whichever worker gets which of them
-- and in whichever order; they are written in ascending order. The lines of a file are none where
-- it has no language, cannot be read, has a line that is too long or is not parsed; else they are
-- those that `best_in` keeps of its first 4096 matches. This takes that every worker is set up, that
-- all allocations succeed, and that each worker has fewer than 2 ^ 47 files.
pub tag_file-of_files :
    (shares : List Share) (all : List (Bytes × Outside))
    → AreTame shares
    → Perm (files shares) all
    → (r : Merged) × (tag_file shares ≡ some r)
      × IsSorted r.written
      × ((l : Bytes) → has l r.written ≡ has l (lines_of all))
tag_file-of_files shares all tame same =
    let (r, e, sorted, found, freed) = tag_file-lines shares in
    (r, e, sorted, λ l. found l ∙ found-in_files l shares tame ∙ perm-lines l same)
