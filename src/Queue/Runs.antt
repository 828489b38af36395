-- ===== src/Queue/Runs.antt =====
-- Any interleaving of the threads' critical sections, as a sequence of steps.
use tsag.Base.{
  ℕ, ◌<◌, ◌≡◌, refl, sym, subst, ap, ◌∙◌, inl, inr, true, List, [], ◌∷◌, ◌++◌, some, append_assoc,
  append-nil,
}
use tsag.Queue.{IoQueue, Got, new_queue, io_queue_put, io_queue_get, io_queue_close}
use tsag.Queue.Laws.{Holds, new_queue-Holds, io_queue_put-Holds, io_queue_get-Holds}

-- `Run n ins outs q`: from a new queue of capacity `n`, threads have put `ins` and got `outs`, in
-- the order of their critical sections, and the queue is now `q`. Sleeping threads take no step.
pub data Run {ℓ} {A : Type ℓ} (n : ℕ) : List A → List A → IoQueue A → Type ℓ where
  start : Run n [] [] (new_queue n)
  put :
      {ins outs : List A} {q r : IoQueue A} (x : A)
      → Run n ins outs q
      → io_queue_put q x ≡ some r
      → Run n (ins ++ x ∷ []) outs r
  get :
      {ins outs : List A} {q r : IoQueue A} {x : A}
      → Run n ins outs q
      → io_queue_get q ≡ Got.item (some x) r
      → Run n ins (outs ++ x ∷ []) r
  close : {ins outs : List A} {q : IoQueue A} → Run n ins outs q → Run n ins outs (io_queue_close q)

module _ {ℓ} {A : Type ℓ} where
  pub io_queue_close-Holds :
      (q : IoQueue A) (xs : List A) → Holds q xs → Holds (io_queue_close q) xs
  unfolding io_queue_close
  io_queue_close-Holds q xs h = record {
    size = h.size;
    head_in = h.head_in;
    fits = h.fits;
    counted = h.counted;
    ends = h.ends;
    window = h.window;
  }

  pub after_put :
      (q r : IoQueue A) (xs : List A) (x : A)
      → Holds q xs
      → io_queue_put q x ≡ some r
      → Holds r (xs ++ x ∷ [])
  after_put q r xs x h e = elim (io_queue_put-Holds q xs x h) [
    | inl p ↦ absurd (cc p.1)
    | inr p ↦
        let (lt, s, f, k) = p in
        let same : s ≡ r = cc f in subst (λ t. Holds t (xs ++ x ∷ [])) same k
  ]

  pub after_get :
      (q r : IoQueue A) (xs : List A) (x : A)
      → Holds q xs
      → io_queue_get q ≡ Got.item (some x) r
      → (rest : List A) × (xs ≡ x ∷ rest) × Holds r rest
  after_get q r xs x h e = elim (io_queue_get-Holds q xs h) [
    | inl p ↦ absurd (cc p.2)
    | inr (inl p) ↦ absurd (cc p.2)
    | inr (inr p) ↦
        let (y, rest, s, xe, f, k, same_closed) = p in
        let same : s ≡ r = cc f in
        let same_item : y ≡ x = cc f in
        (rest, xe ∙ ap (λ z. z ∷ rest) same_item, subst (λ t. Holds t rest) same k)
  ]

  -- In every interleaving of puts, gets and closes on a queue of positive capacity, what was put
  -- is what was got, in the same order, followed by the items that wait; these never exceed the
  -- capacity.
  pub Run-fifo :
      (n : ℕ) (ins outs : List A) (q : IoQueue A)
      → 0 < n
      → Run n ins outs q
      → (xs : List A) × Holds q xs × (ins ≡ outs ++ xs)
  Run-fifo n _ _ _ pos start = ([], new_queue-Holds n pos, refl)
  Run-fifo n _ outs r pos (put {ins = came} {outs = gone} {q = q} {r = next} x run e) =
      let (xs, h, p) = Run-fifo n came gone q pos run in
      (
        xs ++ x ∷ [],
        after_put q next xs x h e,
        ap (λ l. l ++ x ∷ []) p ∙ append_assoc gone xs (x ∷ []),
      )
  Run-fifo n ins _ r pos (get {ins = came} {outs = outs} {q = q} {r = next} {x = x} run e) =
      let (xs, h, p) = Run-fifo n came outs q pos run in
      let (rest, s, k) = after_get q next xs x h e in
      (rest, k, p ∙ ap (λ l. outs ++ l) s ∙ sym (append_assoc outs (x ∷ []) rest))
  Run-fifo n ins outs _ pos (close {ins = came} {outs = gone} {q = q} run) =
      let (xs, h, p) = Run-fifo n came gone q pos run in (xs, io_queue_close-Holds q xs h, p)

  -- A getter is told that the queue is drained only when the queue is closed and every item that
  -- was put has been got.
  pub Run-drained :
      (n : ℕ) (ins outs : List A) (q : IoQueue A)
      → 0 < n
      → Run n ins outs q
      → io_queue_get q ≡ Got.drained
      → (q.closed ≡ true) × (outs ≡ ins)
  Run-drained n ins outs q pos run e =
      let (xs, h, p) = Run-fifo n ins outs q pos run in
      elim (io_queue_get-Holds q xs h) [
        | inl k ↦ absurd (cc k.2)
        | inr (inl k) ↦ (k.1, sym (p ∙ ap (λ l. outs ++ l) k.0 ∙ append-nil outs))
        | inr (inr k) ↦ let (y, rest, s, xe, f, m, same_closed) = k in absurd (cc f)
      ]
