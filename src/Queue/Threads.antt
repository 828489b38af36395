-- ===== src/Queue/Threads.antt =====
-- src/ioqueue.c with its condition variables: how many threads sleep on `not_empty` and `not_full`,
-- and how many have been woken and have not taken the lock again. A thread that finds its loop's
-- condition true goes to sleep; one that does not does its work and signals the other side.
pub mod Laws
pub mod Blocked
mod Tests
use tsag.Base.{ℕ, ◌+◌, ◌-◌, ◌<◌, ◌≡◌, Option, none, some, ◌==◌, if◌then◌else◌}
use tsag.Queue.{IoQueue, Got, new_queue, io_queue_put, io_queue_get, io_queue_close}

-- The threads at one condition variable.
pub record Waiters : Type 0 where
  pub asleep : ℕ
  pub woken : ℕ

abbrev pub nobody : Waiters
nobody = record { asleep = 0; woken = 0 }

abbrev pub sleep : Waiters → Waiters
sleep w = record w { asleep = w.asleep + 1 }

-- A woken thread takes the lock again.
abbrev pub resume : Waiters → Waiters
resume w = record w { woken = w.woken - 1 }

-- `pthread_cond_signal` wakes one thread, if any sleeps.
unfoldable pub signal : Waiters → Waiters
signal w = if w.asleep == 0 then w else record { asleep = w.asleep - 1; woken = w.woken + 1 }

-- `pthread_cond_broadcast` wakes all.
unfoldable pub broadcast : Waiters → Waiters
broadcast w = record { asleep = 0; woken = w.woken + w.asleep }

pub record System {ℓ} (A : Type ℓ) : Type ℓ where
  pub queue : IoQueue A
  pub getters : Waiters
  pub putters : Waiters

module _ {ℓ} {A : Type ℓ} where
  -- A round of the loop of `io_queue_put`, and what follows the loop.
  unfoldable pub put_result : System A → Option (IoQueue A) → System A
  put_result s none = record s { putters = sleep s.putters }
  put_result s (some q) = record s { queue = q; getters = signal s.getters }

  unfoldable pub put_try : System A → A → System A
  unfolding put_result
  put_try s x = put_result s (io_queue_put s.queue x)

  -- A round of the loop of `io_queue_get`, and what follows the loop.
  unfoldable pub get_result : System A → Got A → System A
  get_result s Got.waits = record s { getters = sleep s.getters }
  get_result s Got.drained = s
  get_result s (Got.item x q) = record s { queue = q; putters = signal s.putters }
  get_result s Got.fault = s

  unfoldable pub get_try : System A → System A
  unfolding get_result
  get_try s = get_result s (io_queue_get s.queue)

  unfoldable pub close_all : System A → System A
  close_all s = record s { queue = io_queue_close s.queue; getters = broadcast s.getters }

  -- One critical section of one thread, of a call that begins or of one that was woken. A thread may
  -- also wake with no signal.
  pub data Step (s : System A) : System A → Type ℓ where
    put : (x : A) → Step s (put_try s x)
    put_again :
        (x : A) → 0 < s.putters.woken → Step s (put_try (record s { putters = resume s.putters }) x)
    get : Step s (get_try s)
    get_again : 0 < s.getters.woken → Step s (get_try (record s { getters = resume s.getters }))
    close : Step s (close_all s)
    stray_getter : 0 < s.getters.asleep → Step s (record s { getters = signal s.getters })
    stray_putter : 0 < s.putters.asleep → Step s (record s { putters = signal s.putters })

  pub data Reach (n : ℕ) : System A → Type ℓ where
    start : Reach n (record { queue = new_queue n; getters = nobody; putters = nobody })
    later : {s t : System A} → Reach n s → Step s t → Reach n t
