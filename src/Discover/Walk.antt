-- ===== src/Discover/Walk.antt =====
-- src/discover.c, `enqueue_path`: the loop over the stack against a recursive walk of the tree.
use tsag.Base.{
  ℕ, zero, suc, ◌+◌, ◌≡◌, refl, ap, ◌∙◌, sym, true, false, arith, List, [], ◌∷◌, ◌++◌, Option, some,
  ◌>>=◌, Bytes, append_assoc, append-nil, subst, Bool-cases, inl, inr, reverse,
}
use mathlib.Core.List.{reverse-reverse, reverse-cons}
use tsag.StrStack.{StrStack, strstack_init, strstack_push}
use tsag.Discover.{FileSystem, Memory, visit_found, loop_round, path_loop, enqueue_path}
use tsag.Discover.Ignored.{has_ignored_part}
use tsag.Discover.Tree.{Plenty, walk_all, bind-inv, own_file, below, walk}
use tsag.Discover.Round.{
  push-items, push-ok, pop-empty, visit_found-items, round, visit-some, visit-found,
}

module _ (fs : FileSystem) (mem : Memory) (plenty : Plenty mem) where
  -- From a stack that ends in the paths `ps`, `n` rounds take these off and add `outs`.
  abbrev Walks : List Bytes → List Bytes → Type 0
  Walks ps outs =
      (n : ℕ) × ((more : ℕ) (stack : StrStack) (front : List Bytes) (out : List Bytes)
        → stack.items ≡ front ++ reverse ps
        → (t : StrStack) × (t.items ≡ front)
          × (path_loop fs mem (n + more) stack out ≡ path_loop fs mem more t (out ++ outs)))

  Walks-nil : Walks [] []
  Walks-nil = (
    0,
    λ more stack front out e. (
      stack,
      e ∙ append-nil front,
      ap (λ k. path_loop fs mem k stack out) (omega arith)
          ∙ ap (path_loop fs mem more stack) (sym (append-nil out)),
    ),
  )

  -- A path that is ignored.
  ignored-Walks : (path : Bytes) → has_ignored_part path ≡ true → Walks (path ∷ []) []
  ignored-Walks path e = (
    1,
    λ more stack front out q. (
      record { items = front; cap = stack.cap },
      refl,
      ap (λ k. path_loop fs mem k stack out) (omega arith)
          ∙ round fs mem plenty more stack front path out q
          ∙ rw
              (
                visit-some fs mem plenty path (record { items = front; cap = stack.cap }) out,
                e,
                append-nil out,
              )
              refl,
    ),
  )

  -- A path whose entries have been walked.
  found-Walks :
      (path : Bytes) (outs : List Bytes)
      → has_ignored_part path ≡ false
      → Walks (reverse (below fs (fs.lstat path) path)) outs
      → Walks (path ∷ []) (own_file fs (fs.lstat path) path ++ outs)
  found-Walks path outs e (m, f) = (
    suc m,
    λ more stack front out q.
        let r = fs.lstat path in
        let s : StrStack = record { items = front; cap = stack.cap } in
        let (u, o) = visit_found fs mem r path s out in
        let (items, own) = visit_found-items fs mem plenty r path s out in
        let (t, te, le) =
          f more u front o
            (items ∙ ap (λ ps. front ++ ps) (sym (reverse-reverse (below fs r path)))) in
        (
          t,
          te,
          ap (λ k. path_loop fs mem k stack out) (omega arith)
              ∙ round fs mem plenty (m + more) stack front path out q
              ∙ ap (λ v. v >>= λ w. path_loop fs mem (m + more) w.0 w.1)
                  (visit-found fs mem plenty path s out e)
              ∙ le
              ∙ ap (path_loop fs mem more t)
                  (ap (λ l. l ++ outs) own ∙ append_assoc out (own_file fs r path) outs),
        ),
  )

  Walks-cons :
      (p : Bytes) (ps outs rest : List Bytes)
      → Walks (p ∷ []) outs
      → Walks ps rest
      → Walks (p ∷ ps) (outs ++ rest)
  Walks-cons p ps outs rest (m, f) (n, g) = (
    m + n,
    λ more stack front out q.
        let (t, te, le) = f (n + more) stack (front ++ reverse ps) out (
          q
          ∙ ap (λ l. front ++ l) (reverse-cons p ps)
          ∙ sym (append_assoc front (reverse ps) (p ∷ []))) in
        let (u, ue, ke) = g more t front (out ++ outs) te in
        (
          u,
          ue,
          ap (λ k. path_loop fs mem k stack out) (omega arith)
              ∙ le
              ∙ ke
              ∙ ap (path_loop fs mem more u) (append_assoc out outs rest),
        ),
  )

  walk_all-Walks :
      (f : Bytes → Option (List Bytes))
      → ((p : Bytes) (outs : List Bytes) → f p ≡ some outs → Walks (p ∷ []) outs)
      → (ps outs : List Bytes) → walk_all f ps ≡ some outs
      → Walks ps outs
  unfolding walk_all
  walk_all-Walks f h [] outs e = subst (Walks []) (cc e) Walks-nil
  walk_all-Walks f h (p ∷ ps) outs e =
      let (a, ea, e') = bind-inv (f p) _ outs e in
      let (b, eb, e'') = bind-inv (walk_all f ps) _ outs e' in
      subst (Walks (p ∷ ps)) (cc e'') (Walks-cons p ps a b (h p a ea) (walk_all-Walks f h ps b eb))

  walk-ignored :
      (depth : ℕ) (path : Bytes) → has_ignored_part path ≡ true → walk fs (suc depth) path ≡ some []
  unfolding walk
  walk-ignored depth path i = rw i refl

  walk-found :
      (depth : ℕ) (path : Bytes)
      → has_ignored_part path ≡ false
      → walk fs (suc depth) path ≡ (
          walk_all (walk fs depth) (reverse (below fs (fs.lstat path) path)) >>= λ outs.
          some (own_file fs (fs.lstat path) path ++ outs))
  unfolding walk
  walk-found depth path i = rw i refl

  none_walk : (path : Bytes) (outs : List Bytes) → ¬ (walk fs zero path ≡ some outs)
  unfolding walk
  none_walk path outs e = ground arith

  walk-Walks :
      (depth : ℕ) (path : Bytes) (outs : List Bytes)
      → walk fs depth path ≡ some outs
      → Walks (path ∷ []) outs
  walk-Walks zero path outs e = absurd (none_walk path outs e)
  walk-Walks (suc depth) path outs e = elim (Bool-cases (has_ignored_part path)) [
    | inl i ↦
        let same : some [] ≡ some outs = sym (walk-ignored depth path i) ∙ e in
        subst (Walks (path ∷ [])) (cc same) (ignored-Walks path i)
    | inr i ↦
        let (kids, ek, e') = bind-inv _ _ outs (sym (walk-found depth path i) ∙ e) in
        subst (Walks (path ∷ [])) (cc e')
          (found-Walks path kids i (walk_all-Walks (walk fs depth) (walk-Walks depth) _ kids ek))
  ]

  path_loop-empty :
      (more : ℕ) (stack : StrStack) (out : List Bytes)
      → stack.items ≡ []
      → path_loop fs mem (suc more) stack out ≡ some out
  unfolding path_loop loop_round
  path_loop-empty more stack out e =
      ap (λ r. loop_round fs mem (path_loop fs mem more) r out) (pop-empty stack.items stack.cap e)

  enqueue_path-loop :
      (fuel : ℕ) (root : Bytes)
      → (s : StrStack) × (s.items ≡ root ∷ [])
        × (enqueue_path fs mem fuel root ≡ path_loop fs mem fuel s [])
  unfolding enqueue_path strstack_init
  enqueue_path-loop fuel root = (
    (strstack_push true strstack_init root).1,
    push-items strstack_init root,
    rw (plenty.strdup_ok, plenty.realloc_ok root, push-ok root) refl,
  )

  -- On a tree of finitely many levels, with every allocation successful, `enqueue_path` returns
  -- for every fuel from some number of rounds on, and puts exactly the files of the recursive
  -- walk into the queue, in its order.
  pub enqueue_path-walk :
      (depth : ℕ) (root : Bytes) (outs : List Bytes)
      → walk fs depth root ≡ some outs
      → (n : ℕ) × ((more : ℕ) → enqueue_path fs mem (n + more) root ≡ some outs)
  enqueue_path-walk depth root outs e =
      let (n, f) = walk-Walks depth root outs e in
      (
        n + 1,
        λ more.
            let (s, se, le) = enqueue_path-loop (n + 1 + more) root in
            let (t, te, ke) = f (suc more) s [] [] se in
            le
            ∙ ap (λ k. path_loop fs mem k s []) (omega arith)
            ∙ ke
            ∙ path_loop-empty more t outs te,
      )
