-- ===== src/LineVec/Tests.antt =====
-- The vector's theorems at a vector with a line twice.
use tsag.Base.{
  arith, true, false, ◌⊎◌, ◌<◌, ◌*◌, ◌≡◌, refl, List, [], ◌∷◌, ◌++◌, Bytes, codes, some, Perm,
  str_le, strcmp,
}
use tsag.LineVec.Bounds.{IsValid, line_vec_push-IsValid}
use tsag.LineVec.{line_vec_push, len, size_max, pointer_size, LineVec, line_vec_sort, line_vec_uniq}
use tsag.LineVec.Ascending.{IsAscending, has, sort_uniq-IsAscending}

abbrev vec : LineVec
vec = record { items = codes "b" ∷ codes "a" ∷ codes "b" ∷ []; cap = 4 }

sorts : (line_vec_sort vec).items ≡ codes "a" ∷ codes "b" ∷ codes "b" ∷ []
unfolding line_vec_sort str_le strcmp
sorts = refl

sort_uniq-IsAscending_example :
    (r : LineVec) × (freed : List Bytes) × (line_vec_uniq (line_vec_sort vec) ≡ some (r, freed))
    × IsAscending r.items
    × ((l : Bytes) → has l r.items ≡ has l vec.items)
    × Perm (r.items ++ freed) vec.items
sort_uniq-IsAscending_example = sort_uniq-IsAscending vec

abbrev full : LineVec
full = record { items = codes "a" ∷ []; cap = 1 }

full-IsValid : IsValid full
full-IsValid = record { fits = omega arith; positive = omega arith; bytes = omega arith }

line_vec_push-IsValid_example :
    ((line_vec_push true full (codes "b") ≡ (false, full))
      × (len full ≡ full.cap)
      × ((true ≡ false) ⊎ (size_max < full.cap * 2 * pointer_size)))
    ⊎ ((r : LineVec) × (line_vec_push true full (codes "b") ≡ (true, r))
        × (r.items ≡ full.items ++ codes "b" ∷ [])
        × IsValid r)
line_vec_push-IsValid_example = line_vec_push-IsValid true full (codes "b") full-IsValid
