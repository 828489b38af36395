-- ===== src/Tsdump/Replay.antt =====
-- What is held after a list of events, and the stages that release what they hold.
use tsag.Base.{
  ℕ, take, ◌≡◌, refl, ap, ◌∙◌, Bool, true, false, not, List, [], ◌∷◌, ◌++◌, Option, none, some,
  ◌>>=◌, Bytes, ◌==◌, if◌then◌else◌,
}
use tsag.Tsdump.{
  Thing, cache, stream, text, parser, query_text, query, cursor, query_parser, tree, Event,
  acquired, released, Input, read_file, Run, before,
}

unfoldable pub tag : Thing → ℕ
tag cache = 0
tag stream = 1
tag text = 2
tag parser = 3
tag query_text = 4
tag query = 5
tag cursor = 6
tag query_parser = 7
tag tree = 8

-- A thing is released once: the first of that kind is taken out.
unfoldable pub release : Thing → List Thing → Option (List Thing)
release t [] = none
release t (x ∷ held) = if tag t == tag x then some held else release t held >>= λ r. some (x ∷ r)

-- What is held after the events; nothing where a thing is released that is not held.
unfoldable pub replay : List Event → List Thing → Option (List Thing)
replay [] held = some held
replay (acquired t ∷ es) held = replay es (t ∷ held)
replay (released t ∷ es) held = release t held >>= replay es

-- From these things on, the run releases all.
abbrev pub IsClean : List Thing → Run → Type 0
IsClean held r = replay r.events held ≡ some []

pub replay-append :
    (xs ys : List Event) (p q : List Thing)
    → replay xs p ≡ some q
    → replay (xs ++ ys) p ≡ replay ys q
unfolding replay
replay-append [] ys p q e = ap (λ r. r >>= replay ys) e
replay-append (acquired t ∷ xs) ys p q e = replay-append xs ys (t ∷ p) q e
replay-append (released t ∷ xs) ys p q e = later (release t p) (λ t. replay-append xs ys t q) e
  where
    later :
        (r : Option (List Thing))
        → ((t : List Thing) → replay xs t ≡ some q → replay (xs ++ ys) t ≡ replay ys q)
        → (r >>= replay xs) ≡ some q
        → (r >>= replay (xs ++ ys)) ≡ replay ys q
    later none next h = absurd (cc h)
    later (some t) next h = next t h

-- There is a run, and it is clean.
unfoldable pub Cleans : List Thing → Option Run → Type 0
Cleans held none = ⊥
Cleans held (some r) = IsClean held r

pub before-Cleans :
    (es : List Event) (r : Option Run) (p q : List Thing)
    → replay es p ≡ some q
    → Cleans q r
    → Cleans p (before es r)
unfolding Cleans before
before-Cleans es none p q e c = c
before-Cleans es (some r) p q e c = replay-append es r.events p q e ∙ c

pub if-Cleans :
    (b : Bool) (x y : Option Run) (held : List Thing)
    → Cleans held x
    → Cleans held y
    → Cleans held (if b then x else y)
if-Cleans true x y held left right = left
if-Cleans false x y held left right = right

-- A file that is read leaves its text, and one that is not leaves nothing.
unfoldable pub Reads : Thing → List Thing → Option Bytes × List Event → Type 0
Reads t held (none, es) = replay es held ≡ some held
Reads t held (some content, es) = replay es held ≡ some (t ∷ held)

if-Reads :
    (b : Bool) (t : Thing) (held : List Thing) (x y : Option Bytes × List Event)
    → Reads t held x
    → Reads t held y
    → Reads t held (if b then x else y)
if-Reads true t held x y left right = left
if-Reads false t held x y left right = right

module _ (t : Thing) (other : (tag stream == tag t) ≡ false) (held : List Thing) where
  closed : Reads t held (none, acquired stream ∷ released stream ∷ [])
  unfolding Reads replay release tag
  closed = refl

  kept :
      (content : Bytes)
      → Reads t held (some content, acquired stream ∷ acquired t ∷ released stream ∷ [])
  unfolding Reads replay release tag
  kept content = rw other refl

  pub read_file-Reads : (f : Input) → Reads t held (read_file t f)
  unfolding read_file Reads replay
  read_file-Reads f =
      if-Reads (not f.fopen_ok) t held _ _ refl
        (if-Reads (not f.fseek_ok) t held _ _ closed (sized f.size))
    where
      sized :
          (size : Option ℕ)
          → Reads t held (elim size [
            | none ↦ (none, acquired stream ∷ released stream ∷ [])
            | some n ↦
                if not f.malloc_ok
                then (none, acquired stream ∷ released stream ∷ [])
                else (some (take n f.content), acquired stream ∷ acquired t ∷ released stream ∷ [])
          ])
      sized none = closed
      sized (some n) = if-Reads (not f.malloc_ok) t held _ _ closed (kept (take n f.content))
