-- ===== src/Queue/Tests.antt =====
-- A run of two puts and a get on a queue of two slots, and the queue's theorems there.
use tsag.Base.{ℕ, ◌≡◌, refl, List, [], ◌∷◌, ◌++◌, true, false, none, some, arith}
use tsag.Queue.{IoQueue, Got, new_queue, io_queue_put, io_queue_get, io_queue_close}
use tsag.Queue.Laws.{Holds}
use tsag.Queue.Runs.{Run, start, put, get, close, Run-fifo, Run-drained}

abbrev empty_queue : IoQueue ℕ
empty_queue = record {
  buf = none ∷ none ∷ [];
  head = 0;
  tail = 0;
  cap = 2;
  count = 0;
  closed = false;
}

abbrev one_item : IoQueue ℕ
one_item = record {
  buf = some 7 ∷ none ∷ [];
  head = 0;
  tail = 1;
  cap = 2;
  count = 1;
  closed = false;
}

-- Both slots are in use and the window goes around the end of the array.
abbrev wrapped : IoQueue ℕ
wrapped = record {
  buf = some 9 ∷ some 8 ∷ [];
  head = 1;
  tail = 1;
  cap = 2;
  count = 2;
  closed = false;
}

abbrev finished : IoQueue ℕ
finished = record {
  buf = some 7 ∷ none ∷ [];
  head = 1;
  tail = 1;
  cap = 2;
  count = 0;
  closed = true;
}

abbrev waiting : List ℕ
waiting = 8 ∷ 9 ∷ []

abbrev seven : List ℕ
seven = 7 ∷ []

wrapped-Holds : Holds wrapped (8 ∷ 9 ∷ [])
wrapped-Holds = record {
  size = refl;
  head_in = omega arith;
  fits = omega arith;
  counted = refl;
  ends = refl;
  window = (refl, (refl, tt));
}

one_item-Holds : Holds one_item seven
one_item-Holds = record {
  size = refl;
  head_in = omega arith;
  fits = omega arith;
  counted = refl;
  ends = refl;
  window = (refl, tt);
}

one_put : Run 2 seven [] one_item
unfolding new_queue io_queue_put
one_put = put 7 start refl

all_got : Run 2 seven seven finished
unfolding io_queue_get io_queue_close
all_got = close (get one_put refl)

Run-fifo_example : (xs : List ℕ) × Holds finished xs × (seven ≡ seven ++ xs)
Run-fifo_example = Run-fifo 2 seven seven finished (omega arith) all_got

is_drained : io_queue_get finished ≡ Got.drained
unfolding io_queue_get
is_drained = refl

Run-drained_example : (true ≡ true) × (seven ≡ seven)
Run-drained_example = Run-drained 2 seven seven finished (omega arith) all_got is_drained
