-- ===== src/Queue/Threads/Laws.antt =====
-- The invariant of the queue's sleepers: for each item or free slot that they wait for, one of them
-- has been woken.
use tsag.Base.{
  ℕ, ◌+◌, ◌≤◌, ◌<◌, ◌≡◌, ◌⊎◌, refl, Option-cases, ◌≢◌, get_elem?, inl, inr, true, false, arith,
  List, [], ◌∷◌, subst, Option, none, some, ◌++◌,
}
use tsag.Queue.{
  IoQueue, Got, new_queue, io_queue_put, io_queue_get, io_queue_close, put_item, drop_item,
}
use tsag.Queue.Laws.{Holds, new_queue-Holds, io_queue_get-Holds}
use tsag.Queue.Runs.{io_queue_close-Holds, after_put}
use tsag.Queue.Threads.{
  resume, signal, broadcast, System, put_result, put_try, get_result, get_try, close_all, Step,
  Reach, put, put_again, get, get_again, close, stray_getter, stray_putter, start, later, nobody,
}

module _ {ℓ} {A : Type ℓ} where
  -- For each item that waits while a getter sleeps, a getter has been woken; for each free slot while
  -- a putter sleeps, a putter has been woken; and no getter sleeps on a closed queue.
  pub record IsAwake (s : System A) : Type ℓ where
    pub getters :
        (s.getters.asleep ≡ 0) ⊎ ((s.queue.count ≤ s.getters.woken) × (s.queue.closed ≡ false))
    pub putters : (s.putters.asleep ≡ 0) ⊎ (s.queue.cap ≤ s.queue.count + s.putters.woken)
    pub bounded : (0 < s.queue.cap) × (s.queue.count ≤ s.queue.cap)

  -- While a getter sleeps, at least as many have been woken as items wait, but for `g`, and the queue
  -- is open; while a putter sleeps, at least as many have been woken as slots are free, but for `p`.
  pub record IsNear (g p : ℕ) (s : System A) : Type ℓ where
    pub getters :
        (s.getters.asleep ≡ 0) ⊎ ((s.queue.count ≤ s.getters.woken + g) × (s.queue.closed ≡ false))
    pub putters : (s.putters.asleep ≡ 0) ⊎ (s.queue.cap ≤ s.queue.count + s.putters.woken + p)
    pub holds : (xs : List A) × Holds s.queue xs

  put_effect :
      (q r : IoQueue A) (x : A) → io_queue_put q x ≡ some r → (put_item q x ≡ r) × (q.count ≢ q.cap)
  unfolding io_queue_put
  put_effect q r x e = (ground arith, ground arith)

  full : (q : IoQueue A) (x : A) → io_queue_put q x ≡ none → q.count ≡ q.cap
  unfolding io_queue_put
  full q x e = ground arith

  get_effect :
      (q r : IoQueue A) (x : Option A)
      → io_queue_get q ≡ Got.item x r
      → (drop_item q ≡ r) × (q.count ≢ 0)
  unfolding io_queue_get
  get_effect q r x e = elim (Option-cases (get_elem? q.buf q.head)) [
    | inl f ↦ absurd (ground (arith, f))
    | inr (y, f) ↦ (ground (arith, f), ground (arith, f))
  ]

  empty : (q : IoQueue A) → io_queue_get q ≡ Got.waits → (q.count ≡ 0) × (q.closed ≡ false)
  unfolding io_queue_get
  empty q e = ground arith

  drained : (q : IoQueue A) → io_queue_get q ≡ Got.drained → q.closed ≡ true
  unfolding io_queue_get
  drained q e = elim (Option-cases (get_elem? q.buf q.head)) [
    | inl f ↦ ground (arith, f)
    | inr (y, f) ↦ ground (arith, f)
  ]

  never_faults : (q : IoQueue A) (xs : List A) → Holds q xs → io_queue_get q ≢ Got.fault
  never_faults q xs h e = elim (io_queue_get-Holds q xs h) [
    | inl p ↦ absurd (cc p.2)
    | inr (inl p) ↦ absurd (cc p.2)
    | inr (inr (y, rest, s, xe, f, k, same)) ↦ absurd (cc f)
  ]

  after_got :
      (q r : IoQueue A) (xs : List A) (x : Option A)
      → Holds q xs
      → io_queue_get q ≡ Got.item x r
      → (rest : List A) × Holds r rest
  after_got q r xs x h e = elim (io_queue_get-Holds q xs h) [
    | inl p ↦ absurd (cc p.2)
    | inr (inl p) ↦ absurd (cc p.2)
    | inr (inr (y, rest, s, xe, f, k, same)) ↦
        let next : s ≡ r = cc f in (rest, subst (λ t. Holds t rest) next k)
  ]

  put_result-IsNear :
      (s : System A) (x : A) (r : Option (IoQueue A))
      → io_queue_put s.queue x ≡ r
      → IsNear 0 1 s
      → IsNear 0 0 (put_result s r)
  unfolding put_result signal
  put_result-IsNear s x none e h =
      let f = full s.queue x e in
      record { getters = h.getters; putters = ground arith; holds = h.holds }
  put_result-IsNear s x (some q) e h =
      let (f, room) = put_effect s.queue q x e in
      let (xs, v) = h.holds in
      record {
        getters = rw (← f) (ground (arith, h.getters));
        putters = rw (← f) (ground (arith, h.putters));
        holds = (xs ++ x ∷ [], after_put s.queue q xs x v e);
      }

  get_result-IsNear :
      (s : System A) (r : Got A)
      → io_queue_get s.queue ≡ r
      → IsNear 1 0 s
      → IsNear 0 0 (get_result s r)
  unfolding get_result signal
  get_result-IsNear s Got.waits e h =
      let (c, o) = empty s.queue e in
      record { getters = ground arith; putters = h.putters; holds = h.holds }
  get_result-IsNear s Got.drained e h =
      let c = drained s.queue e in
      record { getters = ground (arith, h.getters); putters = h.putters; holds = h.holds }
  get_result-IsNear s (Got.item x q) e h =
      let (f, item) = get_effect s.queue q x e in
      let (xs, v) = h.holds in
      record {
        getters = rw (← f) (ground (arith, h.getters));
        putters = rw (← f) (ground (arith, h.putters));
        holds = after_got s.queue q xs x v e;
      }
  get_result-IsNear s Got.fault e h = absurd (never_faults s.queue h.holds.0 h.holds.1 e)

  loosen : (g p : ℕ) (s : System A) → IsNear 0 0 s → IsNear g p s
  loosen g p s h = record {
    getters = ground (arith, h.getters);
    putters = ground (arith, h.putters);
    holds = h.holds;
  }

  closed_putters :
      (s : System A)
      → IsNear 0 0 s
      → (s.putters.asleep ≡ 0)
        ⊎ ((io_queue_close s.queue).cap ≤ (io_queue_close s.queue).count + s.putters.woken + 0)
  unfolding io_queue_close
  closed_putters s h = h.putters

  Step-IsNear : {s t : System A} → Step s t → IsNear 0 0 s → IsNear 0 0 t
  unfolding put_try get_try close_all signal broadcast
  Step-IsNear {s} (put x) h = put_result-IsNear s x (io_queue_put s.queue x) refl (loosen 0 1 s h)
  Step-IsNear {s} (put_again x w) h =
      put_result-IsNear (record s { putters = resume s.putters }) x (io_queue_put s.queue x) refl
        (record { getters = h.getters; putters = ground (arith, h.putters); holds = h.holds })
  Step-IsNear {s} get h = get_result-IsNear s (io_queue_get s.queue) refl (loosen 1 0 s h)
  Step-IsNear {s} (get_again w) h =
      get_result-IsNear (record s { getters = resume s.getters }) (io_queue_get s.queue) refl
        (record { getters = ground (arith, h.getters); putters = h.putters; holds = h.holds })
  Step-IsNear {s} close h = record {
    getters = inl refl;
    putters = closed_putters s h;
    holds = (h.holds.0, io_queue_close-Holds s.queue h.holds.0 h.holds.1);
  }
  Step-IsNear {s} (stray_getter w) h = record {
    getters = ground (arith, h.getters);
    putters = h.putters;
    holds = h.holds;
  }
  Step-IsNear {s} (stray_putter w) h = record {
    getters = h.getters;
    putters = ground (arith, h.putters);
    holds = h.holds;
  }

  start-IsNear :
      (n : ℕ)
      → 0 < n
      → IsNear 0 0 (record { queue = new_queue {A = A} n; getters = nobody; putters = nobody })
  start-IsNear n h = record {
    getters = inl refl;
    putters = inl refl;
    holds = ([], new_queue-Holds n h);
  }

  pub Reach-IsNear : {n : ℕ} {s : System A} → 0 < n → Reach n s → IsNear 0 0 s
  Reach-IsNear {n} h start = start-IsNear n h
  Reach-IsNear h (later r st) = Step-IsNear st (Reach-IsNear h r)

  -- No wake-up is lost. In every state that threads can bring a queue of positive capacity to, while
  -- getters sleep the queue is open, and for each waiting item a getter has been woken that has not
  -- taken the lock again; while putters sleep, a putter has been woken for each free slot.
  pub Reach-IsAwake : (n : ℕ) (s : System A) → 0 < n → Reach n s → IsAwake s
  Reach-IsAwake n s h r =
      let near = Reach-IsNear h r in
      let v = near.holds.1 in
      record {
        getters = ground (arith, near.getters);
        putters = ground (arith, near.putters);
        bounded = omega (arith, v.fits, v.counted, v.head_in);
      }
