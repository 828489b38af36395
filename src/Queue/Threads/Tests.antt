-- ===== src/Queue/Threads/Tests.antt =====
-- A getter that sleeps, and a put that wakes it.
use tsag.Base.{ℕ, ◌<◌, ◌≡◌, ◌⊎◌, refl, arith, false}
use tsag.Queue.{new_queue, io_queue_put, io_queue_get}
use tsag.Queue.Threads.{
  System, nobody, signal, put_result, put_try, get_result, get_try, Reach, start, later, put, get,
}
use tsag.Queue.Threads.Laws.{IsAwake, Reach-IsAwake}
use tsag.Queue.Threads.Blocked.{Reach-blocked}

abbrev empty_system : System ℕ
empty_system = record { queue = new_queue 2; getters = nobody; putters = nobody }

abbrev sleeping : System ℕ
sleeping = get_try empty_system

abbrev woken : System ℕ
woken = put_try sleeping 7

sleeping-Reach : Reach 2 sleeping
sleeping-Reach = later start get

woken-Reach : Reach 2 woken
woken-Reach = later sleeping-Reach (put 7)

one_woken : (sleeping.getters.asleep ≡ 1) × (woken.getters.asleep ≡ 0) × (woken.getters.woken ≡ 1)
unfolding get_try put_try get_result put_result io_queue_get io_queue_put signal new_queue
one_woken = (refl, refl, refl)

none_woken : (sleeping.getters.woken ≡ 0) × (sleeping.putters.woken ≡ 0)
unfolding get_try get_result io_queue_get new_queue
none_woken = (refl, refl)

Reach-IsAwake_example : IsAwake woken
Reach-IsAwake_example = Reach-IsAwake 2 woken (omega arith) woken-Reach

Reach-blocked_example :
    ((sleeping.getters.asleep ≡ 0) × (sleeping.putters.asleep ≡ 0))
    ⊎ ((0 < sleeping.getters.asleep)
        × (sleeping.putters.asleep ≡ 0)
        × (sleeping.queue.count ≡ 0)
        × (sleeping.queue.closed ≡ false)
        × ((x : ℕ) → (put_try sleeping x).getters.woken ≡ 1))
    ⊎ ((0 < sleeping.putters.asleep)
        × (sleeping.getters.asleep ≡ 0)
        × (sleeping.queue.count ≡ sleeping.queue.cap)
        × ((get_try sleeping).putters.woken ≡ 1))
Reach-blocked_example =
    Reach-blocked 2 sleeping (omega arith) sleeping-Reach none_woken.0 none_woken.1
