-- ===== src/Main/Replay.antt =====
-- What `main` may do when: a check of its events that does not know how `main` is written.
use tsag.Base.{
  ℕ, suc, Bool, true, false, not, ◌&&◌, List, [], ◌∷◌, ◌++◌, Option, none, some, ◌>>=◌, ltb, ◌==◌,
  if◌then◌else◌, ◌≡◌, ap, ◌∙◌,
}
use tsag.Main.{
  Thing, cache, output, paths, batches, threads, Event, acquired, released, worker_created,
  merger_created, walked, paths_closed, batches_closed, worker_joined, merger_joined, Ending,
  before,
}

-- What is held, which queues are closed, and which threads were created and joined.
pub record Play : Type 0 where
  pub cache_held : Bool
  pub output_held : Bool
  pub paths_held : Bool
  pub batches_held : Bool
  pub threads_held : Bool
  pub paths_ended : Bool
  pub batches_ended : Bool
  pub created : ℕ
  pub joined : ℕ
  pub merging : Bool

unfoldable pub is_held : Thing → Play → Bool
is_held cache p = p.cache_held
is_held output p = p.output_held
is_held paths p = p.paths_held
is_held batches p = p.batches_held
is_held threads p = p.threads_held

unfoldable pub hold : Thing → Bool → Play → Play
hold cache b p = record p { cache_held = b }
hold output b p = record p { output_held = b }
hold paths b p = record p { paths_held = b }
hold batches b p = record p { batches_held = b }
hold threads b p = record p { threads_held = b }

-- No worker runs.
unfoldable pub is_quiet : Play → Bool
is_quiet p = not (ltb p.joined p.created)

-- No thread that runs uses the thing.
unfoldable pub is_free : Thing → Play → Bool
is_free cache p = is_quiet p
is_free output p = not p.merging
is_free paths p = is_quiet p
is_free batches p = is_quiet p && not p.merging
is_free threads p = is_quiet p

-- Nothing is acquired twice or released while a thread may use it; a worker starts when all that it
-- uses is there; paths go only into a queue that is open; the batches end after the last worker; and
-- `main` waits for a thread only after it has closed the queue that the thread reads.
unfoldable pub perform : Event → Play → Option Play
perform (acquired t) p = if not (is_held t p) then some (hold t true p) else none
perform (released t) p = if is_held t p && is_free t p then some (hold t false p) else none
perform (worker_created i) p =
    if (i == p.created) && (p.cache_held && (p.paths_held && (p.batches_held && p.threads_held)))
    then some (record p { created = suc p.created })
    else none
perform merger_created p =
    if p.batches_held && not p.merging then some (record p { merging = true }) else none
perform (walked dir) p = if p.paths_held && not p.paths_ended then some p else none
perform paths_closed p = if p.paths_held then some (record p { paths_ended = true }) else none
perform batches_closed p =
    if p.batches_held && is_quiet p then some (record p { batches_ended = true }) else none
perform (worker_joined i) p =
    if (i == p.joined) && (ltb i p.created && p.paths_ended)
    then some (record p { joined = suc p.joined })
    else none
perform merger_joined p =
    if p.merging && p.batches_ended then some (record p { merging = false }) else none

unfoldable pub replay : List Event → Play → Option Play
replay [] p = some p
replay (e ∷ es) p = perform e p >>= replay es

-- Nothing is held and no thread runs.
unfoldable pub is_over : Play → Bool
is_over p =
    not p.cache_held
    && (not p.output_held
        && (not p.paths_held
            && (not p.batches_held && (not p.threads_held && (is_quiet p && not p.merging)))))

abbrev pub at_start : Play
at_start = record {
  cache_held = false;
  output_held = false;
  paths_held = false;
  batches_held = false;
  threads_held = false;
  paths_ended = false;
  batches_ended = false;
  created = 0;
  joined = 0;
  merging = false;
}

-- The events are allowed from `p` on, and lead to the end.
abbrev pub IsLegal : Play → Ending → Type 0
IsLegal p e = (q : Play) × (replay e.events p ≡ some q) × (is_over q ≡ true)

pub replay-append :
    (xs ys : List Event) (p q : Play) → replay xs p ≡ some q → replay (xs ++ ys) p ≡ replay ys q
unfolding replay
replay-append [] ys p q e = ap (λ r. r >>= replay ys) e
replay-append (x ∷ xs) ys p q e = later (perform x p) (λ t. replay-append xs ys t q) e
  where
    later :
        (r : Option Play)
        → ((t : Play) → replay xs t ≡ some q → replay (xs ++ ys) t ≡ replay ys q)
        → (r >>= replay xs) ≡ some q
        → (r >>= replay (xs ++ ys)) ≡ replay ys q
    later none next h = absurd (cc h)
    later (some t) next h = next t h

pub before-IsLegal :
    (es : List Event) (e : Ending) (p q : Play)
    → replay es p ≡ some q
    → IsLegal q e
    → IsLegal p (before es e)
unfolding before
before-IsLegal es e p q h (r, legal, over) = (r, replay-append es e.events p q h ∙ legal, over)
