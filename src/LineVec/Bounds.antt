-- ===== src/LineVec/Bounds.antt =====
-- src/linevec.c, `line_vec_new` and `line_vec_push`: the size of the array never wraps around.
use tsag.Base.{
  ℕ, ◌+◌, ◌*◌, ◌/◌, ◌≤◌, ◌<◌, ◌≡◌, ◌⊎◌, inl, inr, refl, Bool, true, false, arith, List, [], ◌∷◌,
  ◌++◌, Bytes, length, length-append, Bool-cases, ==→eq, ltb, ltb→le, ltb→lt, ◌==◌,
}
use tsag.LineVec.{LineVec, len, size_max, pointer_size, line_vec_push}

-- The live slots fit the array, and its size in bytes fits `size_t`.
pub record IsValid (vec : LineVec) : Type 0 where
  pub fits : len vec ≤ vec.cap
  pub positive : 0 < vec.cap
  pub bytes : vec.cap * pointer_size ≤ size_max

doubled : (n : ℕ) → n ≤ size_max / (2 * pointer_size) → n * 2 * pointer_size ≤ size_max
doubled n h = omega arith

appended : (xs : List Bytes) (x : Bytes) → length (xs ++ x ∷ []) ≡ length xs + 1
appended xs x = omega (arith, length-append xs (x ∷ []))

too_large : (n : ℕ) → size_max / (2 * pointer_size) < n → size_max < n * 2 * pointer_size
too_large n h = omega arith

-- A full array that can grow.
grown :
    (ok : Bool) (vec : LineVec) (line : Bytes)
    → IsValid vec
    → (len vec == vec.cap) ≡ true
    → ltb (size_max / (2 * pointer_size)) vec.cap ≡ false
    → ((line_vec_push ok vec line ≡ (false, vec))
        × (len vec ≡ vec.cap)
        × ((ok ≡ false) ⊎ (size_max < vec.cap * 2 * pointer_size)))
      ⊎ ((r : LineVec) × (line_vec_push ok vec line ≡ (true, r))
          × (r.items ≡ vec.items ++ line ∷ [])
          × IsValid r)
unfolding line_vec_push
grown false vec line v p q = inl (rw (p, q) refl, ==→eq (len vec) vec.cap p, inl refl)
grown true vec line v p q = inr (
  record { items = vec.items ++ line ∷ []; cap = vec.cap * 2 },
  rw (p, q) refl,
  refl,
  record {
    fits = omega (arith, appended vec.items line, v.fits, v.positive);
    positive = omega (arith, v.positive);
    bytes = doubled vec.cap (ltb→le (size_max / (2 * pointer_size)) vec.cap q);
  },
)

-- On a valid vector, `line_vec_push` fails and leaves the vector as it is, or succeeds and leaves a
-- valid vector with the line behind the others. It fails only on a full array, when `realloc` does
-- or when twice the array's size would not fit `size_t`: the product that it computes never wraps.
pub line_vec_push-IsValid :
    (ok : Bool) (vec : LineVec) (line : Bytes)
    → IsValid vec
    → ((line_vec_push ok vec line ≡ (false, vec))
        × (len vec ≡ vec.cap)
        × ((ok ≡ false) ⊎ (size_max < vec.cap * 2 * pointer_size)))
      ⊎ ((r : LineVec) × (line_vec_push ok vec line ≡ (true, r))
          × (r.items ≡ vec.items ++ line ∷ [])
          × IsValid r)
unfolding line_vec_push
line_vec_push-IsValid ok vec line v = elim (Bool-cases (len vec == vec.cap)) [
  | inr p ↦ inr (
    record vec { items = vec.items ++ line ∷ [] },
    rw p refl,
    refl,
    record {
      fits = ground (arith, appended vec.items line, v.fits);
      positive = v.positive;
      bytes = v.bytes;
    },
  )
  | inl p ↦ elim (Bool-cases (ltb (size_max / (2 * pointer_size)) vec.cap)) [
    | inl q ↦ inl (
      rw (p, q) refl,
      ==→eq (len vec) vec.cap p,
      inr (too_large vec.cap (ltb→lt (size_max / (2 * pointer_size)) vec.cap q)),
    )
    | inr q ↦ grown ok vec line v p q
  ]
]
