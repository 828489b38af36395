-- ===== src/Discover/Only.antt =====
-- src/discover.c, `enqueue_path`: what it never puts into the queue, whichever allocations fail.
use tsag.Base.{
  ℕ, zero, suc, ◌≡◌, refl, ap, ◌∙◌, sym, Bool, true, false, arith, List, [], ◌∷◌, Option, none,
  some, not, ◌>>=◌, Bytes, All, All-append, if◌then◌else◌, Bool-cases, inl, inr, subst, ◌+◌, ◌<◌,
  ◌⊎◌, get_elem?, Option-cases, ◌++◌,
}
use tsag.StrStack.{StrStack, strstack_init, strstack_push}
use tsag.StrStack.Laws.{popped}
use tsag.Lang.{find_extension, ext_to_lang}
use tsag.Lang.Extension.{HasExtension, find_extension_iff, extensions, ext_to_lang-listed}
use tsag.Discover.Round.{pop-empty}
use tsag.Discover.Tree.{walk}
use tsag.Discover.Ends.{
  kids, Takes, nil, Takes-mono, Takes-split, Takes-kids, walk-Takes, push-Takes, visit_found-Takes,
}
use tsag.Discover.{
  FileSystem, Memory, Kind, is_wanted, visit, open_dir, visit_found, loop_round, path_loop,
  enqueue_path,
}
use tsag.Discover.Ignored.{has_ignored_part, is_ignored-parts}

wanted-known :
    (path : Bytes)
    → is_wanted path ≡ true
    → (ext : Bytes) × (i : ℕ) × HasExtension path ext × (get_elem? extensions i ≡ some ext)
unfolding is_wanted
wanted-known path w = elim (Option-cases (find_extension path)) [
  | inl e ↦ absurd (cc (rw (e, is_wanted) at w))
  | inr (ext, e) ↦ elim (Option-cases (ext_to_lang ext)) [
    | inl f ↦ absurd (cc (rw (e, f, is_wanted) at w))
    | inr (lang, f) ↦
        let (i, listed) = ext_to_lang-listed ext lang f in
        (ext, i, (find_extension_iff path ext).0 e, listed)
  ]
]

-- A list is empty or has a last element.
last-cases :
    (xs : List Bytes) → (xs ≡ []) ⊎ ((front : List Bytes) × (x : Bytes) × (xs ≡ front ++ x ∷ []))
last-cases [] = inl refl
last-cases (x ∷ xs) = inr (elim (last-cases xs) [
  | inl e ↦ ([], x, ap (◌∷◌ x) e)
  | inr (front, y, e) ↦ (x ∷ front, y, ap (◌∷◌ x) e)
])

module _ (fs : FileSystem) where
  -- A regular file whose name has one of the extensions, no part of whose path is ignored.
  pub record IsSource (path : Bytes) : Type 0 where
    pub kept : has_ignored_part path ≡ false
    pub is_reg : fs.lstat path ≡ some Kind.regular
    pub known :
        (ext : Bytes) × (i : ℕ) × HasExtension path ext × (get_elem? extensions i ≡ some ext)

  module _ (mem : Memory) where
    open_dir-out :
        (d : Option (List Bytes)) (path : Bytes) (stack : StrStack) (out : List Bytes)
        → (open_dir fs mem d path stack out).1 ≡ out
    unfolding open_dir
    open_dir-out none path stack out = refl
    open_dir-out (some names) path stack out = refl

    visit_found-All :
        (r : Option Kind) (path : Bytes) (stack : StrStack) (out : List Bytes)
        → has_ignored_part path ≡ false
        → fs.lstat path ≡ r
        → All IsSource out
        → All IsSource (visit_found fs mem r path stack out).1
    unfolding visit_found
    visit_found-All none path stack out k e h = h
    visit_found-All (some Kind.directory) path stack out k e h =
        subst (All IsSource) (sym (open_dir-out (fs.opendir path) path stack out)) h
    visit_found-All (some Kind.regular) path stack out k e h = elim (Bool-cases (is_wanted path)) [
      | inl w ↦ rw w (
          All-append IsSource out (path ∷ []) h
            (record { kept = k; is_reg = e; known = wanted-known path w }, tt))
      | inr w ↦ rw w h
    ]
    visit_found-All (some Kind.other) path stack out k e h = h

    visit-All :
        (path : Bytes) (stack : StrStack) (out : List Bytes)
        → All IsSource out
        → (s : StrStack × List Bytes) × (visit fs mem path stack out ≡ some s) × All IsSource s.1
    unfolding visit
    visit-All path stack out h = elim (Bool-cases (has_ignored_part path)) [
      | inl e ↦ ((stack, out), rw (is_ignored-parts path, e) refl, h)
      | inr e ↦ (
        visit_found fs mem (fs.lstat path) path stack out,
        rw (is_ignored-parts path, e) refl,
        visit_found-All (fs.lstat path) path stack out e refl h,
      )
    ]

    visit-some :
        (path : Bytes) (stack : StrStack) (out : List Bytes)
        → visit fs mem path stack out
          ≡ some (
              if has_ignored_part path
              then (stack, out)
              else visit_found fs mem (fs.lstat path) path stack out)
    unfolding visit
    visit-some path stack out = rw (is_ignored-parts path) refl

    -- A visit, with the bound on what is left to do.
    visit-Takes :
        (path : Bytes) (stack : StrStack) (out : List Bytes) (a b : ℕ)
        → All IsSource out
        → Takes fs stack.items a
        → Takes fs (kids fs path) b
        → (s : StrStack × List Bytes) × (visit fs mem path stack out ≡ some s)
          × All IsSource s.1
          × Takes fs s.0.items (a + b)
    visit-Takes path stack out a b h t u =
        let (s, e, k) = visit-All path stack out h in
        (
          s,
          e,
          k,
          elim (Bool-cases (has_ignored_part path)) [
            | inl i ↦
                let same : s ≡ (stack, out) = cc (e, rw i at (visit-some path stack out)) in
                rw same (Takes-mono fs stack.items a (a + b) (omega arith) t)
            | inr i ↦
                let same : s ≡ visit_found fs mem (fs.lstat path) path stack out =
                  cc (e, rw i at (visit-some path stack out)) in
                rw same (visit_found-Takes fs mem (fs.lstat path) path stack out a b t (rw i at u))
          ],
        )

    path_loop-All :
        (fuel : ℕ) (stack : StrStack) (out : List Bytes) (n : ℕ)
        → Takes fs stack.items n
        → n < fuel
        → All IsSource out
        → (outs : List Bytes) × (path_loop fs mem fuel stack out ≡ some outs) × All IsSource outs
    unfolding path_loop loop_round
    path_loop-All zero stack out n t lt h = absurd (omega arith)
    path_loop-All (suc fuel) stack out n t lt h = elim (last-cases stack.items) [
      | inl e ↦ (
        out,
        ap (λ r. loop_round fs mem (path_loop fs mem fuel) r out)
            (pop-empty stack.items stack.cap e),
        h,
      )
      | inr (front, path, e) ↦
          let (a, b, u, v, le) =
            Takes-split fs front (path ∷ []) n (subst (λ l. Takes fs l n) e t) in
          let rest : StrStack = record { items = front; cap = stack.cap } in
          let (c, less, below) = Takes-kids fs path b v in
          let (s, run, all, w) = visit-Takes path rest out a c h u below in
          let (outs, more, found) = path_loop-All fuel s.0 s.1 (a + c) w (omega arith) all in
          (
            outs,
            ap (λ r. loop_round fs mem (path_loop fs mem fuel) r out)
                  (popped stack.items stack.cap front path e)
                ∙ ap (λ m. m >>= λ q. path_loop fs mem fuel q.0 q.1) run
                ∙ more,
            found,
          )
    ]

    started-All :
        (ok pushed : Bool) (r : Option (List Bytes))
        → ((outs : List Bytes) × (r ≡ some outs) × All IsSource outs)
        → (outs : List Bytes) × ((if not ok then some [] else if not pushed then some [] else r)
            ≡ some outs)
          × All IsSource outs
    started-All true true r f = f
    started-All true false r f = ([], refl, tt)
    started-All false pushed r f = ([], refl, tt)

    -- On a tree of finite depth (the recursive walk ends), whichever allocations fail, enough rounds
    -- end the loop, and each path that is then in the queue is a regular file with one of the fourteen
    -- extensions behind the last dot of its name, and no part of it is ignored. The walk is not
    -- otherwise used: where an allocation fails, paths are left out.
    pub enqueue_path-All :
        (depth : ℕ) (root : Bytes) (files : List Bytes)
        → walk fs depth root ≡ some files
        → (n : ℕ) × ((more : ℕ)
            → (outs : List Bytes) × (enqueue_path fs mem (n + more) root ≡ some outs)
              × All IsSource outs)
    unfolding enqueue_path strstack_init
    enqueue_path-All depth root files e =
        let (n, t) = walk-Takes fs depth root files e in
        let (pushed, stack) = strstack_push (mem.realloc_ok root) strstack_init root in
        (
          suc n,
          λ more. started-All mem.strdup_ok pushed (path_loop fs mem (suc n + more) stack []) (
              path_loop-All (suc n + more) stack [] (0 + n)
                (push-Takes fs (mem.realloc_ok root) strstack_init root 0 n nil t) (omega arith)
                tt),
        )
