-- ===== src/Pipeline/Regroup.antt =====
-- Workers in another order: their files are the same, in another order.
use mathlib.Core.List.Perm
use mathlib.Core.List.{Permᴰ, perm_append_comm}
use mathlib.Core.Logic.{∥∥₁_elim}
use mathlib.Core.Bool.{Bool-set}
use tsag.Base.{
  ◌*◌, ◌^◌, ◌<◌, ◌≡◌, refl, sym, ◌∙◌, true, List, [], ◌∷◌, ◌++◌, length, arith, map, Bytes, Perm,
  append_assoc, All, length-append, subst,
}
use tsag.Base.Perms.{All-perm, perm-length}
use tsag.LineVec.Ascending.{has}
use tsag.Parse.File.{Outside}
use tsag.Worker.{Setup}
use tsag.Pipeline.{Share}
use tsag.Pipeline.Laws.{is_set_up, is_found}
use tsag.Pipeline.Files.{IsTame, lines_of}
use tsag.Pipeline.Shares.{files, AreTame, found-in_files, perm-lines}

files-cons : (s : Share) (shares : List Share) → files (s ∷ shares) ≡ s.1 ++ files shares
unfolding files
files-cons (setup, jobs) shares = refl

files-two :
    (s t : Share) (shares : List Share) → Perm (files (s ∷ t ∷ shares)) (files (t ∷ s ∷ shares))
files-two s t shares =
    rw
      (
        files-cons s (t ∷ shares),
        files-cons t shares,
        files-cons t (s ∷ shares),
        files-cons s shares,
        ← append_assoc s.1 t.1 (files shares),
        ← append_assoc t.1 s.1 (files shares),
      )
      (Perm.append_right (files shares) (perm_append_comm s.1 t.1))

permᴰ-files : {xs ys : List Share} → Permᴰ xs ys → Perm (files xs) (files ys)
permᴰ-files Permᴰ.nil = Perm.refl (files [])
permᴰ-files (Permᴰ.cons {a = a} {b = b} {l₁ = xs} {l₂ = ys} e p) =
    rw (files-cons a xs, files-cons b ys, e) (Perm.append_left b.1 (permᴰ-files p))
permᴰ-files (Permᴰ.swap {a = a} {b = b} {a' = c} {b' = d} {l = shares} e f) =
    rw (e, f) (files-two d c shares)
permᴰ-files (Permᴰ.trans p q) = Perm.trans (permᴰ-files p) (permᴰ-files q)

pub perm-files : {xs ys : List Share} → Perm xs ys → Perm (files xs) (files ys)
perm-files p = ∥∥₁_elim p (hlevel) permᴰ-files

module _ {A : Type 0} (P : A → Type 0) where
  pub All-split : (xs ys : List A) → All P (xs ++ ys) → All P xs × All P ys
  All-split [] ys h = (tt, h)
  All-split (x ∷ xs) ys h = let (a, b) = All-split xs ys h.1 in ((h.0, a), b)

  pub All-permᴰ : {xs ys : List A} → Permᴰ xs ys → All P ys → All P xs
  All-permᴰ Permᴰ.nil h = tt
  All-permᴰ (Permᴰ.cons e p) h = (subst P (sym e) h.0, All-permᴰ p h.1)
  All-permᴰ (Permᴰ.swap e f) h = (subst P (sym e) h.1.0, (subst P (sym f) h.0, h.1.1))
  All-permᴰ (Permᴰ.trans p q) h = All-permᴰ p (All-permᴰ q h)

-- The files, without the split among the workers.
AreTame-files :
    (shares : List Share)
    → All (λ s. is_set_up s ≡ true) (map (λ s. s.0) shares)
    → All (λ j. IsTame j.1) (files shares)
    → 4096 * length (files shares) < 2 ^ 59
    → AreTame shares
unfolding files
AreTame-files [] s t n = tt
AreTame-files ((setup, jobs) ∷ shares) s t n =
    let long = length-append jobs (files shares) in
    let (first, rest) = All-split (λ j. IsTame j.1) jobs (files shares) t in
    ((s.0, first, omega (arith, n, long)), AreTame-files shares s.1 rest (omega (arith, n, long)))

pub AreTame-perm :
    (shares : List Share) (setups : List Setup) (all : List (Bytes × Outside))
    → Perm (map (λ s. s.0) shares) setups
    → Permᴰ (files shares) all
    → All (λ s. is_set_up s ≡ true) setups
    → All (λ j. IsTame j.1) all
    → 4096 * length (files shares) < 2 ^ 59
    → AreTame shares
AreTame-perm shares setups all ps d s t n =
    AreTame-files shares (All-perm is_set_up (Perm.symm ps) s) (All-permᴰ (λ j. IsTame j.1) d t) n

-- A line that the workers find is a line of the files, however they are split.
pub found-all :
    (l : Bytes) (shares : List Share) (setups : List Setup) (all : List (Bytes × Outside))
    → Perm (map (λ s. s.0) shares) setups
    → Perm (files shares) all
    → All (λ s. is_set_up s ≡ true) setups
    → All (λ j. IsTame j.1) all
    → 4096 * length all < 2 ^ 59
    → is_found l shares ≡ has l (lines_of all)
found-all l shares setups all ps pf s t n = ∥∥₁_elim pf (Bool-set _ _) λ d.
    let long = perm-length pf in
    found-in_files l shares (
      AreTame-files shares (All-perm is_set_up (Perm.symm ps) s) (All-permᴰ (λ j. IsTame j.1) d t)
        (omega (arith, n, long)))
    ∙ perm-lines l pf
