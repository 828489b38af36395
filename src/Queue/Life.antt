-- ===== src/Queue/Life.antt =====
-- src/ioqueue.c, `io_queue_new` and `io_queue_free`: what they acquire and release.
use mathlib.Core.List.Perm
use tsag.Base.{
  ℕ, Bool, true, false, not, List, [], ◌∷◌, ◌++◌, Perm, Option, none, some, if◌then◌else◌,
}
use tsag.Base.Perms.{perm-snoc}
use tsag.Queue.{IoQueue, io_queue_new}

pub data Part : Type 0 where
  queue_memory : Part
  buffer : Part
  lock : Part
  not_full : Part
  not_empty : Part

-- What `io_queue_new` acquires, and what it releases where the second `calloc` fails.
unfoldable pub acquired_parts : Bool × Bool → List Part
acquired_parts (queue_ok, buf_ok) =
    if not queue_ok
    then []
    else if not buf_ok
    then queue_memory ∷ []
    else queue_memory ∷ buffer ∷ lock ∷ not_full ∷ not_empty ∷ []

unfoldable pub released_parts : Bool × Bool → List Part
released_parts (queue_ok, buf_ok) =
    if queue_ok then (if buf_ok then [] else queue_memory ∷ []) else []

module _ {ℓ} {A : Type ℓ} where
  -- Nothing for NULL. The items that are left are not freed.
  unfoldable pub io_queue_free : Option (IoQueue A) → List Part
  io_queue_free none = []
  io_queue_free (some q) = buffer ∷ lock ∷ not_full ∷ not_empty ∷ queue_memory ∷ []

module _ {ℓ} (A : Type ℓ) where
  -- What `io_queue_new` acquires is what it releases itself and what `io_queue_free` releases on its
  -- result.
  io_queue_free-io_queue_new :
      (queue_ok buf_ok : Bool) (size : ℕ)
      → Perm
          (released_parts (queue_ok, buf_ok)
            ++ io_queue_free (io_queue_new {A = A} (queue_ok, buf_ok) size))
          (acquired_parts (queue_ok, buf_ok))
  unfolding released_parts acquired_parts io_queue_free io_queue_new
  io_queue_free-io_queue_new false buf_ok size = Perm.refl []
  io_queue_free-io_queue_new true false size = Perm.refl (queue_memory ∷ [])
  io_queue_free-io_queue_new true true size =
      perm-snoc (buffer ∷ lock ∷ not_full ∷ not_empty ∷ []) queue_memory
