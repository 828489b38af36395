-- ===== src/Queue/Threads/Blocked.antt =====
-- What can be when every thread that is inside the queue sleeps.
use tsag.Base.{ℕ, ◌<◌, ◌≡◌, ◌⊎◌, ap, inl, inr, false, arith, List, length}
use native.Mathlib.Decide.{dec_lt}
use tsag.Queue.Laws.{Holds, io_queue_put-Holds, io_queue_get-Holds}
use tsag.Queue.Threads.{System, signal, put_result, put_try, get_result, get_try, Reach}
use tsag.Queue.Threads.Laws.{Reach-IsAwake, Reach-IsNear}

module _ {ℓ} {A : Type ℓ} where
  -- A put on a queue that is not full wakes a getter.
  put_wakes :
      (s : System A) (xs : List A) (x : A)
      → Holds s.queue xs
      → s.queue.count < s.queue.cap
      → 0 < s.getters.asleep
      → s.getters.woken ≡ 0
      → (put_try s x).getters.woken ≡ 1
  unfolding put_try put_result signal
  put_wakes s xs x v room asleep none_woken = elim (io_queue_put-Holds s.queue xs x v) [
    | inl (full, e) ↦ absurd (omega (arith, full, v.counted, room))
    | inr (lt, q, e, holds) ↦ rw e (ground arith)
  ]

  -- A get on a queue that is not empty wakes a putter.
  get_wakes :
      (s : System A) (xs : List A)
      → Holds s.queue xs
      → 0 < s.queue.count
      → 0 < s.putters.asleep
      → s.putters.woken ≡ 0
      → (get_try s).putters.woken ≡ 1
  unfolding get_try get_result signal
  get_wakes s xs v some_item asleep none_woken = elim (io_queue_get-Holds s.queue xs v) [
    | inl (nil, closed, e) ↦ absurd (omega (arith, ap length nil, v.counted, some_item))
    | inr (inl (nil, closed, e)) ↦ absurd (omega (arith, ap length nil, v.counted, some_item))
    | inr (inr (x, rest, r, split, e, holds, same)) ↦ rw e (ground arith)
  ]

  -- The threads of a queue of positive capacity never all sleep with nobody to wake them. In every
  -- reachable state where no thread has been woken, nobody sleeps; or some getters sleep and no
  -- putter does, on a queue that is empty and open, and the next put wakes one; or some putters
  -- sleep and no getter does, on a queue that is full, and the next get wakes one.
  pub Reach-blocked :
      (n : ℕ) (s : System A)
      → 0 < n
      → Reach n s
      → s.getters.woken ≡ 0
      → s.putters.woken ≡ 0
      → ((s.getters.asleep ≡ 0) × (s.putters.asleep ≡ 0))
        ⊎ ((0 < s.getters.asleep)
            × (s.putters.asleep ≡ 0)
            × (s.queue.count ≡ 0)
            × (s.queue.closed ≡ false)
            × ((x : A) → (put_try s x).getters.woken ≡ 1))
        ⊎ ((0 < s.putters.asleep)
            × (s.getters.asleep ≡ 0)
            × (s.queue.count ≡ s.queue.cap)
            × ((get_try s).putters.woken ≡ 1))
  Reach-blocked n s h r a b =
      let awake = Reach-IsAwake n s h r in
      let (xs, v) = (Reach-IsNear h r).holds in
      elim (dec_lt 0 s.getters.asleep) [
        | yes g ↦
            let (empty, open_queue) : (s.queue.count ≡ 0) × (s.queue.closed ≡ false) =
              ground (arith, awake.getters) in
            inr (
              inl (
                g,
                ground (arith, awake.putters, awake.bounded),
                empty,
                open_queue,
                λ x. put_wakes s xs x v (omega (arith, empty, awake.bounded)) g a,
              ))
        | no g ↦ elim (dec_lt 0 s.putters.asleep) [
          | yes p ↦
              let full : s.queue.count ≡ s.queue.cap =
                ground (arith, awake.putters, awake.bounded) in
              inr (
                inr (
                  p,
                  omega (arith, g),
                  full,
                  get_wakes s xs v (omega (arith, full, awake.bounded)) p b,
                ))
          | no p ↦ inl (omega (arith, g), omega (arith, p))
        ]
      ]
