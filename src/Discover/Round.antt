-- ===== src/Discover/Round.antt =====
-- src/discover.c, `enqueue_path`: one round of the loop over the stack, with every allocation
-- successful.
use tsag.Base.{
  ℕ, suc, ◌≡◌, refl, ap, ◌∙◌, sym, true, false, arith, List, [], ◌∷◌, ◌++◌, Option, none, some,
  ◌>>=◌, Bytes, if◌then◌else◌, append_assoc, append-nil, Bool-cases, inl, inr,
}
use tsag.StrStack.{StrStack, strstack_init, strstack_push, strstack_pop}
use tsag.StrStack.Laws.{popped}
use tsag.Discover.{
  FileSystem, Memory, Kind, is_dots, full_path, is_wanted, push_entries, open_dir, visit_found,
  visit, loop_round, path_loop,
}
use tsag.Discover.Ignored.{has_ignored_part, is_ignored-parts}
use tsag.Discover.Tree.{Plenty, children, own_file, entries_of, below}

pub push-items :
    (stack : StrStack) (str : Bytes)
    → (strstack_push true stack str).1.items ≡ stack.items ++ str ∷ []
unfolding strstack_push
push-items stack str = ground arith

pub push-ok : (root : Bytes) → (strstack_push true strstack_init root).0 ≡ true
unfolding strstack_push strstack_init
push-ok root = refl

pub pop-empty :
    (items : List Bytes) (room : ℕ)
    → items ≡ []
    → strstack_pop (record { items = items; cap = room })
      ≡ (none, record { items = items; cap = room })
unfolding strstack_pop
pop-empty items room e = rw e refl

module _ (fs : FileSystem) (mem : Memory) (plenty : Plenty mem) where
  push_entries-items :
      (path : Bytes) (names : List Bytes) (stack : StrStack)
      → (push_entries fs mem path names stack).items ≡ stack.items ++ children path names
  unfolding push_entries children
  push_entries-items path [] stack = sym (append-nil stack.items)
  push_entries-items path (name ∷ names) stack =
      let full = full_path path name in
      elim (Bool-cases (is_dots name)) [
        | inl e ↦ rw (e, push_entries) (push_entries-items path names stack)
        | inr e ↦
            rw (e, plenty.malloc_ok full, plenty.realloc_ok full, push_entries)
              (push_entries-items path names (strstack_push true stack full).1
                ∙ ap (λ s. s ++ children path names) (push-items stack full)
                ∙ append_assoc stack.items (full ∷ []) (children path names))
      ]

  open_dir-items :
      (d : Option (List Bytes)) (path : Bytes) (stack : StrStack) (out : List Bytes)
      → ((open_dir fs mem d path stack out).0.items ≡ stack.items ++ entries_of fs d path)
        × ((open_dir fs mem d path stack out).1 ≡ out)
  unfolding open_dir entries_of
  open_dir-items none path stack out = (sym (append-nil stack.items), refl)
  open_dir-items (some names) path stack out = (push_entries-items path names stack, refl)

  pub visit_found-items :
      (r : Option Kind) (path : Bytes) (stack : StrStack) (out : List Bytes)
      → ((visit_found fs mem r path stack out).0.items ≡ stack.items ++ below fs r path)
        × ((visit_found fs mem r path stack out).1 ≡ out ++ own_file fs r path)
  unfolding visit_found below own_file
  visit_found-items none path stack out = (sym (append-nil stack.items), sym (append-nil out))
  visit_found-items (some Kind.directory) path stack out =
      let (a, b) = open_dir-items (fs.opendir path) path stack out in (a, b ∙ sym (append-nil out))
  visit_found-items (some Kind.regular) path stack out = (
    sym (append-nil stack.items),
    elim (Bool-cases (is_wanted path)) [ inl e ↦ rw e refl | inr e ↦ rw e (sym (append-nil out)) ],
  )
  visit_found-items (some Kind.other) path stack out =
      (sym (append-nil stack.items), sym (append-nil out))

  -- One round.
  pub round :
      (more : ℕ) (stack : StrStack) (front : List Bytes) (path : Bytes) (out : List Bytes)
      → stack.items ≡ front ++ path ∷ []
      → path_loop fs mem (suc more) stack out ≡ (
          visit fs mem path (record { items = front; cap = stack.cap }) out >>= λ s.
          path_loop fs mem more s.0 s.1)
  unfolding path_loop loop_round
  round more stack front path out e =
      ap (λ r. loop_round fs mem (path_loop fs mem more) r out)
        (popped stack.items stack.cap front path e)

  pub visit-some :
      (path : Bytes) (stack : StrStack) (out : List Bytes)
      → visit fs mem path stack out
        ≡ some (
            if has_ignored_part path
            then (stack, out)
            else visit_found fs mem (fs.lstat path) path stack out)
  unfolding visit
  visit-some path stack out = rw (is_ignored-parts path) refl

  pub visit-found :
      (path : Bytes) (stack : StrStack) (out : List Bytes)
      → has_ignored_part path ≡ false
      → visit fs mem path stack out ≡ some (visit_found fs mem (fs.lstat path) path stack out)
  visit-found path stack out e = rw (visit-some path stack out, e) refl
