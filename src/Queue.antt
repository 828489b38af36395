-- ===== src/Queue.antt =====
-- src/ioqueue.h and src/ioqueue.c: the bounded queue between the walk of the file tree and the
-- workers, and between the workers and the merge. Each operation is one critical section of the
-- lock: a thread that finds its loop's condition true sleeps and changes nothing. Queue/Threads has
-- the condition variables; in Queue/Runs a thread that sleeps has not taken its step yet.
pub mod Ring
pub mod Laws
pub mod Answers
pub mod Runs
pub mod Threads
pub mod Life
mod Tests
use tsag.Base.{
  ℕ, ◌+◌, ◌-◌, ◌%◌, Bool, true, false, not, ◌&&◌, List, Option, none, some, ◌>>=◌, get_elem?, set,
  replicate, ◌==◌, if◌then◌else◌,
}

-- `none` in `buf` is the NULL that `calloc` leaves.
pub record IoQueue {ℓ} (A : Type ℓ) : Type ℓ where
  pub buf : List (Option A)
  pub head : ℕ
  pub tail : ℕ
  pub cap : ℕ
  pub count : ℕ
  pub closed : Bool

-- What one try at `io_queue_get` does: sleep, return NULL, or return the item.
pub data Got {ℓ} (A : Type ℓ) : Type ℓ where
  waits : Got A
  drained : Got A
  item : Option A → IoQueue A → Got A
  fault : Got A

module _ {ℓ} {A : Type ℓ} where
  unfoldable pub new_queue : ℕ → IoQueue A
  new_queue size = record {
    buf = replicate size none;
    head = 0;
    tail = 0;
    cap = size;
    count = 0;
    closed = false;
  }

  -- NULL where one of the two `calloc` calls fails.
  unfoldable pub io_queue_new : Bool × Bool → ℕ → Option (IoQueue A)
  unfolding new_queue
  io_queue_new (queue_ok, buf_ok) size =
      if not queue_ok then none else if not buf_ok then none else some (new_queue size)

  abbrev pub put_item : IoQueue A → A → IoQueue A
  put_item q x = record q {
    buf = set q.buf q.tail (some x);
    tail = (q.tail + 1) % q.cap;
    count = q.count + 1;
  }

  -- `none` is a thread that sleeps on `not_full`.
  unfoldable pub io_queue_put : IoQueue A → A → Option (IoQueue A)
  io_queue_put q x = if q.count == q.cap then none else some (put_item q x)

  abbrev pub drop_item : IoQueue A → IoQueue A
  drop_item q = record q { head = (q.head + 1) % q.cap; count = q.count - 1 }

  abbrev pub take_item : IoQueue A → Option (Option A) → Got A
  take_item q none = fault
  take_item q (some x) = item x (drop_item q)

  -- `waits` is a thread that sleeps on `not_empty`; `fault` is a read out of the array.
  unfoldable pub io_queue_get : IoQueue A → Got A
  io_queue_get q =
      if (q.count == 0) && not q.closed
      then waits
      else if q.count == 0
      then drained
      else take_item q (get_elem? q.buf q.head)

  unfoldable pub io_queue_close : IoQueue A → IoQueue A
  io_queue_close q = record q { closed = true }
