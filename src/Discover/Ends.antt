-- ===== src/Discover/Ends.antt =====
-- src/discover.c, `enqueue_path`: how many rounds the loop over the stack can take, whichever
-- allocations fail.
use tsag.Base.{
  ℕ, zero, suc, ◌+◌, ◌≤◌, ◌≡◌, sym, arith, List, [], ◌∷◌, ◌++◌, Option, none, some, Bytes, subst,
  Bool, Bool-cases, inl, inr, reverse, if◌then◌else◌,
}
use mathlib.Core.List.{reverse-reverse, reverse-cons}
use tsag.StrStack.{StrStack, strstack_push}
use tsag.StrStack.Laws.{pushed-items, failed}
use tsag.Discover.{
  FileSystem, Memory, Kind, is_dots, full_path, push_entries, open_dir, visit_found,
}
use tsag.Discover.Ignored.{has_ignored_part}
use tsag.Discover.Tree.{walk_all, bind-inv, children, entries_of, below, walk}

module _ (fs : FileSystem) where
  -- The paths that a visit can push.
  abbrev pub kids : Bytes → List Bytes
  kids path = if has_ignored_part path then [] else below fs (fs.lstat path) path

  -- The paths of a list and what can be pushed below them are at most `n`.
  pub data Takes : List Bytes → ℕ → Type 0 where
    nil : {n : ℕ} → Takes [] n
    cons :
        {p : Bytes} {ps : List Bytes} {n : ℕ} (a b : ℕ)
        → suc (a + b) ≤ n
        → Takes (kids p) a
        → Takes ps b
        → Takes (p ∷ ps) n

  pub Takes-mono : (ps : List Bytes) (a b : ℕ) → a ≤ b → Takes ps a → Takes ps b
  Takes-mono ps a b le nil = nil
  Takes-mono ps a b le (cons c d h x y) = cons c d (omega arith) x y

  Takes-append : (ps qs : List Bytes) (a b : ℕ) → Takes ps a → Takes qs b → Takes (ps ++ qs) (a + b)
  Takes-append [] qs a b t u = Takes-mono qs b (a + b) (omega arith) u
  Takes-append (p ∷ ps) qs a b (cons c d h x y) u =
      cons c (d + b) (omega arith) x (Takes-append ps qs d b y u)

  pub Takes-split :
      (ps qs : List Bytes) (n : ℕ)
      → Takes (ps ++ qs) n
      → (a : ℕ) × (b : ℕ) × Takes ps a × Takes qs b × (a + b ≤ n)
  Takes-split [] qs n t = (0, n, nil, t, omega arith)
  Takes-split (p ∷ ps) qs n (cons c d h x y) =
      let (a, b, u, v, le) = Takes-split ps qs d y in
      (suc (c + a), b, cons c a (omega arith) x u, v, omega arith)

  Takes-reverse : (ps : List Bytes) (n : ℕ) → Takes ps n → Takes (reverse ps) n
  Takes-reverse [] n t = nil
  Takes-reverse (p ∷ ps) n (cons c d h x y) =
      subst (λ l. Takes l n) (sym (reverse-cons p ps))
        (Takes-mono _ (d + suc c) n (omega arith) (
          Takes-append (reverse ps) (p ∷ []) d (suc c) (Takes-reverse ps d y)
            (cons c 0 (omega arith) x nil)))

  walk_all-Takes :
      (f : Bytes → Option (List Bytes))
      → ((p : Bytes) (outs : List Bytes) → f p ≡ some outs → (n : ℕ) × Takes (p ∷ []) n)
      → (ps outs : List Bytes) → walk_all f ps ≡ some outs
      → (n : ℕ) × Takes ps n
  unfolding walk_all
  walk_all-Takes f h [] outs e = (0, nil)
  walk_all-Takes f h (p ∷ ps) outs e =
      let (a, ea, e') = bind-inv (f p) _ outs e in
      let (b, eb, e'') = bind-inv (walk_all f ps) _ outs e' in
      let (m, t) = h p a ea in
      let (n, u) = walk_all-Takes f h ps b eb in (m + n, Takes-append (p ∷ []) ps m n t u)

  none_walk : (path : Bytes) (outs : List Bytes) → ¬ (walk fs zero path ≡ some outs)
  unfolding walk
  none_walk path outs e = ground arith

  one-Takes : (path : Bytes) (n : ℕ) → Takes (kids path) n → Takes (path ∷ []) (suc n)
  one-Takes path n t = cons n 0 (omega arith) t nil

  -- A tree of finite depth.
  pub walk-Takes :
      (depth : ℕ) (path : Bytes) (outs : List Bytes)
      → walk fs depth path ≡ some outs
      → (n : ℕ) × Takes (path ∷ []) n
  unfolding walk
  walk-Takes zero path outs e = absurd (none_walk path outs e)
  walk-Takes (suc depth) path outs e = elim (Bool-cases (has_ignored_part path)) [
    | inl i ↦ (1, one-Takes path 0 (rw i nil))
    | inr i ↦
        let (found, f, rest) =
          bind-inv (walk_all (walk fs depth) (reverse (below fs (fs.lstat path) path))) _ outs
            (rw i at e) in
        let (n, t) = walk_all-Takes (walk fs depth) (walk-Takes depth) _ found f in
        let back =
          subst (λ l. Takes l n) (reverse-reverse (below fs (fs.lstat path) path))
            (Takes-reverse (reverse (below fs (fs.lstat path) path)) n t) in
        (suc n, one-Takes path n (rw i back))
  ]

  pub Takes-kids :
      (path : Bytes) (n : ℕ) → Takes (path ∷ []) n → (a : ℕ) × (suc a ≤ n) × Takes (kids path) a
  Takes-kids path n (cons a b h x y) = (a, omega arith, x)

  pub push-Takes :
      (ok : Bool) (s : StrStack) (str : Bytes) (a b : ℕ)
      → Takes s.items a
      → Takes (str ∷ []) b
      → Takes (strstack_push ok s str).1.items (a + b)
  push-Takes ok s str a b t u = elim (Bool-cases (strstack_push ok s str).0) [
    | inl e ↦
        subst (λ l. Takes l (a + b)) (sym (pushed-items ok s str e))
          (Takes-append s.items (str ∷ []) a b t u)
    | inr e ↦ rw (failed ok s str e) (Takes-mono s.items a (a + b) (omega arith) t)
  ]

  module _ (mem : Memory) where
    push_entries-Takes :
        (path : Bytes) (names : List Bytes) (stack : StrStack) (a b : ℕ)
        → Takes stack.items a
        → Takes (children path names) b
        → Takes (push_entries fs mem path names stack).items (a + b)
    unfolding push_entries children
    push_entries-Takes path [] stack a b t u = Takes-mono stack.items a (a + b) (omega arith) t
    push_entries-Takes path (name ∷ names) stack a b t u = elim (Bool-cases (is_dots name)) [
      | inl e ↦ rw (e, push_entries) (push_entries-Takes path names stack a b t (rw e at u))
      | inr e ↦ rw (e, push_entries) (behind (push_entries-Takes path names) (rw e at u))
    ]
      where
        behind :
            ((s : StrStack) (m k : ℕ)
              → Takes s.items m
              → Takes (children path names) k
              → Takes (push_entries fs mem path names s).items (m + k))
            → Takes (full_path path name ∷ children path names) b
            → Takes
                (push_entries fs mem path names (
                  if mem.malloc_ok (full_path path name)
                  then (strstack_push
                      (mem.realloc_ok (full_path path name))
                      stack
                      (full_path path name)).1
                  else stack)).items
                (a + b)
        behind next (cons c d h x y) =
            let full = full_path path name in
            elim (Bool-cases (mem.malloc_ok full)) [
              | inl m ↦ rw m (
                  Takes-mono _ (a + suc c + d) (a + b) (omega arith) (
                    next _ (a + suc c) d
                      (push-Takes (mem.realloc_ok full) stack full a (suc c) t (one-Takes full c x))
                      y))
              | inr m ↦ rw m (Takes-mono _ (a + d) (a + b) (omega arith) (next stack a d t y))
            ]

    open_dir-Takes :
        (d : Option (List Bytes)) (path : Bytes) (stack : StrStack) (out : List Bytes) (a b : ℕ)
        → Takes stack.items a
        → Takes (entries_of fs d path) b
        → Takes (open_dir fs mem d path stack out).0.items (a + b)
    unfolding open_dir entries_of
    open_dir-Takes none path stack out a b t u = Takes-mono stack.items a (a + b) (omega arith) t
    open_dir-Takes (some names) path stack out a b t u = push_entries-Takes path names stack a b t u

    pub visit_found-Takes :
        (r : Option Kind) (path : Bytes) (stack : StrStack) (out : List Bytes) (a b : ℕ)
        → Takes stack.items a
        → Takes (below fs r path) b
        → Takes (visit_found fs mem r path stack out).0.items (a + b)
    unfolding visit_found below
    visit_found-Takes none path stack out a b t u = Takes-mono stack.items a (a + b) (omega arith) t
    visit_found-Takes (some Kind.directory) path stack out a b t u =
        open_dir-Takes (fs.opendir path) path stack out a b t u
    visit_found-Takes (some Kind.regular) path stack out a b t u =
        Takes-mono stack.items a (a + b) (omega arith) t
    visit_found-Takes (some Kind.other) path stack out a b t u =
        Takes-mono stack.items a (a + b) (omega arith) t
