-- ===== src/Queue/Laws.antt =====
-- The queue is a bounded FIFO: what each operation does to the list of waiting items.
use tsag.Base.{
  ℕ, ◌+◌, ◌-◌, ◌%◌, ◌≤◌, ◌<◌, ◌≡◌, ◌⊎◌, refl, sym, subst, ap, ◌∙◌, inl, inr, true, false, List, [],
  ◌∷◌, ◌++◌, none, some, length, set, ◌==◌, arith, length-append, length-set, length-replicate,
  Bool-cases, ==→eq,
}
use tsag.Queue.{IoQueue, Got, put_item, drop_item, new_queue, io_queue_put, io_queue_get}
use tsag.Queue.Ring.{Window, Window-extend, step_index}
use native.Mathlib.Nat.{mod-lt, mod-eq_of_lt, mod-add-mod}

module _ {ℓ} {A : Type ℓ} where
  -- The ring is in order and holds `xs`, oldest first.
  pub record Holds (q : IoQueue A) (xs : List A) : Type ℓ where
    pub size : length q.buf ≡ q.cap
    pub head_in : q.head < q.cap
    pub fits : length xs ≤ q.cap
    pub counted : q.count ≡ length xs
    pub ends : q.tail ≡ (q.head + q.count) % q.cap
    pub window : Window q.buf q.cap q.head xs

  -- A new queue holds nothing.
  pub new_queue-Holds : (n : ℕ) → 0 < n → Holds (new_queue n) []
  unfolding new_queue
  new_queue-Holds n h = record {
    size = length-replicate n none;
    head_in = h;
    fits = omega arith;
    counted = refl;
    ends = sym (mod-eq_of_lt h);
    window = tt;
  }

  put_item-Holds :
      (q : IoQueue A) (xs : List A) (x : A)
      → Holds q xs
      → length xs < q.cap
      → Holds (put_item q x) (xs ++ x ∷ [])
  put_item-Holds q xs x h lt = record {
    size = length-set q.buf q.tail (some x) ∙ h.size;
    head_in = h.head_in;
    fits = omega (arith, length-append xs (x ∷ []));
    counted = omega (arith, h.counted, length-append xs (x ∷ []));
    ends =
        ap (λ t. (t + 1) % q.cap) h.ends
        ∙ mod-add-mod (q.head + q.count) q.cap 1
        ∙ ap (λ n. n % q.cap) (omega arith);
    window =
        subst (λ t. Window (set q.buf t (some x)) q.cap q.head (xs ++ x ∷ []))
          (ap (λ n. (q.head + n) % q.cap) (sym h.counted) ∙ sym h.ends)
          (Window-extend q.buf q.cap q.head xs x h.size h.head_in lt h.window);
  }

  -- A put on a full queue sleeps; on any other queue it adds its item behind the ones that wait.
  pub io_queue_put-Holds :
      (q : IoQueue A) (xs : List A) (x : A)
      → Holds q xs
      → ((length xs ≡ q.cap) × (io_queue_put q x ≡ none))
        ⊎ ((length xs < q.cap)
            × (r : IoQueue A) × (io_queue_put q x ≡ some r)
            × Holds r (xs ++ x ∷ []))
  unfolding io_queue_put
  io_queue_put-Holds q xs x h = elim (Bool-cases (q.count == q.cap)) [
    | inl p ↦ inl (sym h.counted ∙ ==→eq q.count q.cap p, rw p)
    | inr p ↦
        let lt : length xs < q.cap = ground (arith, h.counted, h.fits) in
        inr (lt, put_item q x, rw p, put_item-Holds q xs x h lt)
  ]

  drop_item-Holds :
      (q : IoQueue A) (x : A) (xs : List A) → Holds q (x ∷ xs) → Holds (drop_item q) xs
  drop_item-Holds q x xs h = record {
    size = h.size;
    head_in = mod-lt (q.head + 1) (omega (arith, h.head_in));
    fits = omega (arith, h.fits);
    counted = omega (arith, h.counted);
    ends =
        h.ends
        ∙ ap (λ n. (q.head + n) % q.cap) (omega (arith, h.counted))
        ∙ sym (step_index q.cap q.head (q.count - 1));
    window = h.window.1;
  }

  get_item :
      (q : IoQueue A) (x : A) (xs : List A)
      → Holds q (x ∷ xs)
      → io_queue_get q ≡ Got.item (some x) (drop_item q)
  unfolding io_queue_get
  get_item q x xs h = rw h.window.0 (ground (arith, h.counted))

  -- A get returns the oldest item and leaves the others; on an empty queue it sleeps, or returns
  -- NULL once the queue is closed. It never reads outside the array.
  pub io_queue_get-Holds :
      (q : IoQueue A) (xs : List A)
      → Holds q xs
      → ((xs ≡ []) × (q.closed ≡ false) × (io_queue_get q ≡ Got.waits))
        ⊎ ((xs ≡ []) × (q.closed ≡ true) × (io_queue_get q ≡ Got.drained))
        ⊎ ((x : A) × (rest : List A) × (r : IoQueue A) × (xs ≡ x ∷ rest)
            × (io_queue_get q ≡ Got.item (some x) r)
            × Holds r rest
            × (r.closed ≡ q.closed))
  unfolding io_queue_get
  io_queue_get-Holds q [] h = elim (Bool-cases q.closed) [
    | inl p ↦ inr (inl (refl, p, ground (arith, h.counted)))
    | inr p ↦ inl (refl, p, ground (arith, h.counted))
  ]
  io_queue_get-Holds q (x ∷ xs) h =
      inr (inr (x, xs, drop_item q, refl, get_item q x xs h, drop_item-Holds q x xs h, refl))
