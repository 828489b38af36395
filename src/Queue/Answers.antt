-- ===== src/Queue/Answers.antt =====
-- What an answer of a queue says of the queue, and what is the same in it after.
use tsag.Base.{
  ◌+◌, ◌<◌, ◌≡◌, sym, ap, true, Option, none, some, get_elem?, ◌==◌, arith, Bool-cases, inl, inr,
  ==→eq,
}
use tsag.Queue.{IoQueue, Got, put_item, drop_item, take_item, io_queue_put, io_queue_get}

module _ {ℓ} {A : Type ℓ} where
  pub put-inv :
      (q r : IoQueue A) (x : A)
      → io_queue_put q x ≡ some r
      → (r.closed ≡ q.closed) × (r.cap ≡ q.cap) × (r.count ≡ q.count + 1)
  unfolding io_queue_put
  put-inv q r x e = elim (Bool-cases (q.count == q.cap)) [
    | inl p ↦ absurd (cc (rw p at e))
    | inr p ↦
        let same : put_item q x ≡ r = cc (rw p at e) in
        (ap (λ s. s.closed) (sym same), ap (λ s. s.cap) (sym same), ap (λ s. s.count) (sym same))
  ]

  take_item-inv :
      (q r : IoQueue A) (x : Option A) (found : Option (Option A))
      → take_item q found ≡ Got.item x r
      → drop_item q ≡ r
  take_item-inv q r x none e = absurd (cc e)
  take_item-inv q r x (some y) e = cc e

  take_item-not_drained :
      (q : IoQueue A) (found : Option (Option A)) → ¬ (take_item q found ≡ Got.drained)
  take_item-not_drained q none e = cc e
  take_item-not_drained q (some y) e = cc e

  pub get_item-inv :
      (q r : IoQueue A) (x : Option A)
      → io_queue_get q ≡ Got.item x r
      → (r.closed ≡ q.closed) × (r.cap ≡ q.cap) × (q.count ≡ r.count + 1)
  unfolding io_queue_get
  get_item-inv q r x e = elim (Bool-cases (q.count == 0)) [
    | inl p ↦ elim (Bool-cases q.closed) [
      | inl c ↦ absurd (cc (rw (p, c) at e))
      | inr c ↦ absurd (cc (rw (p, c) at e))
    ]
    | inr p ↦
        let same = take_item-inv q r x (get_elem? q.buf q.head) (rw p at e) in
        let pos : 0 < q.count = ground arith in
        (
          ap (λ s. s.closed) (sym same),
          ap (λ s. s.cap) (sym same),
          (let less = ap (λ s. s.count) same in omega (arith, pos, less)),
        )
  ]

  pub get_drained-inv :
      (q : IoQueue A) → io_queue_get q ≡ Got.drained → (q.closed ≡ true) × (q.count ≡ 0)
  unfolding io_queue_get
  get_drained-inv q e = elim (Bool-cases (q.count == 0)) [
    | inl p ↦ elim (Bool-cases q.closed) [
      | inl c ↦ (c, ==→eq q.count 0 p)
      | inr c ↦ absurd (cc (rw (p, c) at e))
    ]
    | inr p ↦ absurd (take_item-not_drained q (get_elem? q.buf q.head) (rw p at e))
  ]
