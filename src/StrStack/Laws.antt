-- ===== src/StrStack/Laws.antt =====
-- What a client of the stack relies on.
use tsag.Base.{
  get_elem?-last, ℕ, ◌-◌, ◌≤◌, ◌<◌, ◌≡◌, ◌⊎◌, suc, ap, Bool, true, false, arith, List, [], ◌∷◌,
  ◌++◌, some, Bytes, length, length-append, take-append, Bool-cases, inl, inr,
}
use tsag.StrStack.{StrStack, strstack_push, strstack_pop}

-- The live slots fit the array.
abbrev pub IsValid : StrStack → Type 0
IsValid s = length s.items ≤ s.cap

-- What a push that succeeds does.
pub pushed-items :
    (ok : Bool) (s : StrStack) (str : Bytes)
    → (strstack_push ok s str).0 ≡ true
    → (strstack_push ok s str).1.items ≡ s.items ++ str ∷ []
unfolding strstack_push
pushed-items ok s str e = ground arith

pushed-cap :
    (ok : Bool) (s : StrStack) (str : Bytes)
    → length s.items ≤ s.cap
    → (strstack_push ok s str).0 ≡ true
    → length s.items < (strstack_push ok s str).1.cap
unfolding strstack_push
pushed-cap ok s str v e = ground arith

pub failed :
    (ok : Bool) (s : StrStack) (str : Bytes)
    → (strstack_push ok s str).0 ≡ false
    → strstack_push ok s str ≡ (false, s)
unfolding strstack_push
failed ok s str e = ground arith

length-snoc : (xs : List Bytes) (x : Bytes) → length (xs ++ x ∷ []) ≡ suc (length xs)
length-snoc xs x = omega (arith, length-append xs (x ∷ []))

suc-pred : (n : ℕ) → suc n - 1 ≡ n
suc-pred n = omega arith

-- A stack whose live slots end in `str`.
pub popped :
    (items : List Bytes) (room : ℕ) (xs : List Bytes) (str : Bytes)
    → items ≡ xs ++ str ∷ []
    → strstack_pop (record { items = items; cap = room })
      ≡ (some str, record { items = xs; cap = room })
unfolding strstack_pop
popped items room xs str e =
    rw
      (
        e,
        length-snoc xs str,
        suc-pred (length xs),
        take-append xs (str ∷ []),
        get_elem?-last xs str,
      )
      (ground arith)

-- A push either fails and changes nothing, or succeeds, keeps the live slots inside the array, and
-- the next pop returns the string that was pushed and leaves the slots that were there before.
pub pop-push :
    (ok : Bool) (s : StrStack) (str : Bytes)
    → IsValid s
    → let (success, t) = strstack_push ok s str in
      ((success ≡ false) × (t ≡ s))
      ⊎ (IsValid t × (strstack_pop t ≡ (some str, record t { items = s.items })))
pop-push ok s str v = elim (Bool-cases (strstack_push ok s str).0) [
  | inl p ↦ inr (
    omega (
      arith,
      pushed-cap ok s str v p,
      ap length (pushed-items ok s str p),
      length-append s.items (str ∷ []),
    ),
    popped (strstack_push ok s str).1.items (strstack_push ok s str).1.cap s.items str
        (pushed-items ok s str p),
  )
  | inr p ↦ inl (p, ap (λ r. r.1) (failed ok s str p))
]
