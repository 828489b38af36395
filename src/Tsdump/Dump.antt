-- ===== src/Tsdump/Dump.antt =====
-- What `dump_node` prints at one depth and at the next.
use tsag.Base.{
  ℕ, suc, ◌-◌, ◌≡◌, ◌≢◌, refl, sym, ap, ◌∙◌, true, arith, [], ◌∷◌, ◌++◌, Option, Bytes, take, drop,
  Lacks, All-append, append_assoc, append-nil,
}
use tsag.Parse.Text.{newline}
use tsag.Tsdump.{
  Node, null, node, Children, leaf, child, snippet_loop, print_snippet, indent, field_name, range,
  node_head, dump_node, dump_children,
}
use tsag.Tsdump.Lines.{shift, shift-line, indent-Lacks, snippet_loop-Lacks, ne-append}

-- No type and no field of the tree has a newline.
unfoldable mutual
  pub IsPlain : Node → Type 0
  IsPlain null = Unit
  IsPlain (node type start end children) = Lacks newline type × ArePlain children

  pub ArePlain : Children → Type 0
  ArePlain leaf = Unit
  ArePlain (child field first others) =
      Lacks newline (field_name field) × IsPlain first × ArePlain others

module _ (digits : ℕ → Bytes) (plain : (n : ℕ) → Lacks newline (digits n)) where
  range-Lacks : (start end : ℕ) → Lacks newline (range digits start end)
  unfolding range
  range-Lacks start end = (
    (λ e. ground (arith, e)),
    All-append _ (digits start) _ (plain start) (
      (λ e. ground (arith, e)),
      (
        (λ e. ground (arith, e)),
        All-append _ (digits end) _ (plain end) ((λ e. ground (arith, e)), tt),
      ),
    ),
  )

  node_head-Lacks :
      (type : Bytes) (start end depth : ℕ) (field : Option Bytes)
      → Lacks newline type
      → Lacks newline (field_name field)
      → Lacks newline (node_head digits type start end depth field)
  unfolding node_head
  node_head-Lacks type start end depth field t f =
      All-append _ (indent depth) _ (indent-Lacks depth) (
        All-append _ (field_name field) _ f (
          (λ e. ground (arith, e)),
          All-append _ type _ t ((λ e. ground (arith, e)), range-Lacks start end),
        ))

  node_head_ne :
      (type : Bytes) (start end depth : ℕ) (field : Option Bytes)
      → node_head digits type start end depth field ≢ []
  unfolding node_head
  node_head_ne type start end depth field =
      ne-append (indent depth) _ (ne-append (field_name field) _ (λ e. cc e))

  -- What comes before the end of a leaf's line.
  leaf_line : Bytes → ℕ → ℕ → Bytes → ℕ → Option Bytes → Bytes
  leaf_line type start end src depth field =
      node_head digits type start end depth field ++ (print_snippet src start end ++ b')' ∷ [])

  leaf_line-eq :
      (type : Bytes) (start end : ℕ) (src : Bytes) (depth : ℕ) (field : Option Bytes) (rest : Bytes)
      → dump_node digits (node type start end leaf) src depth field ++ rest
        ≡ leaf_line type start end src depth field ++ newline ∷ rest
  unfolding dump_node leaf_line
  leaf_line-eq type start end src depth field rest =
      let head = node_head digits type start end depth field in
      let snippet = print_snippet src start end in
      append_assoc head (snippet ++ b')' ∷ newline ∷ []) rest
      ∙ ap (λ t. head ++ t)
          (append_assoc snippet (b')' ∷ newline ∷ []) rest
            ∙ sym (append_assoc snippet (b')' ∷ []) (newline ∷ rest)))
      ∙ sym (append_assoc head (snippet ++ b')' ∷ []) (newline ∷ rest))

  leaf-shift :
      (type : Bytes) (start end : ℕ) (src : Bytes) (depth : ℕ) (field : Option Bytes) (rest : Bytes)
      → Lacks newline type
      → Lacks newline (field_name field)
      → shift true (dump_node digits (node type start end leaf) src depth field ++ rest)
        ≡ dump_node digits (node type start end leaf) src (suc depth) field ++ shift true rest
  unfolding leaf_line print_snippet node_head indent
  leaf-shift type start end src depth field rest t f =
      let head = node_head digits type start end depth field in
      ap (shift true) (leaf_line-eq type start end src depth field rest)
      ∙ shift-line (leaf_line type start end src depth field) rest
          (All-append _ head _ (node_head-Lacks type start end depth field t f) (
            (λ e. ground (arith, e)),
            All-append _ (snippet_loop (take (end - start) (drop start src))) _
                (snippet_loop-Lacks (take (end - start) (drop start src)))
                ((λ e. ground (arith, e)), tt),
          ))
          (ne-append head _ (λ e. cc e))
      ∙ sym (leaf_line-eq type start end src (suc depth) field (shift true rest))

  -- What follows the children: the closing bracket.
  close : ℕ → Bytes → Bytes
  close depth rest = (indent depth ++ b')' ∷ []) ++ newline ∷ rest

  close-shift :
      (depth : ℕ) (rest : Bytes)
      → shift true (close depth rest) ≡ close (suc depth) (shift true rest)
  unfolding close indent
  close-shift depth rest =
      shift-line (indent depth ++ b')' ∷ []) rest
        (All-append _ (indent depth) _ (indent-Lacks depth) ((λ e. ground (arith, e)), tt))
        (ne-append (indent depth) _ (λ e. cc e))

  module _ (name : Option Bytes) (first : Node) (others : Children) (type : Bytes) (start end : ℕ)
      (src : Bytes) where
    inner-eq :
        (depth : ℕ) (field : Option Bytes) (rest : Bytes)
        → dump_node digits (node type start end (child name first others)) src depth field ++ rest
          ≡ node_head digits type start end depth field
            ++ newline
              ∷ (dump_children digits (child name first others) src (suc depth) ++ close depth rest)
    unfolding dump_node close
    inner-eq depth field rest =
        let head = node_head digits type start end depth field in
        let inside = dump_children digits (child name first others) src (suc depth) in
        append_assoc head (newline ∷ (inside ++ (indent depth ++ b')' ∷ newline ∷ []))) rest
        ∙ ap (λ t. head ++ newline ∷ t)
            (append_assoc inside (indent depth ++ b')' ∷ newline ∷ []) rest
              ∙ ap (λ t. inside ++ t)
                  (append_assoc (indent depth) (b')' ∷ newline ∷ []) rest
                    ∙ sym (append_assoc (indent depth) (b')' ∷ []) (newline ∷ rest))))

    inner-shift :
        (depth : ℕ) (field : Option Bytes) (rest : Bytes)
        → Lacks newline type
        → Lacks newline (field_name field)
        → shift true
            (dump_children digits (child name first others) src (suc depth) ++ close depth rest)
          ≡ dump_children digits (child name first others) src (suc (suc depth))
            ++ shift true (close depth rest)
        → shift true (
            dump_node digits (node type start end (child name first others)) src depth field
            ++ rest)
          ≡ dump_node digits (node type start end (child name first others)) src (suc depth) field
            ++ shift true rest
    unfolding node_head indent
    inner-shift depth field rest t f below =
        let head = node_head digits type start end depth field in
        let inside = dump_children digits (child name first others) src (suc depth) in
        let deeper = dump_children digits (child name first others) src (suc (suc depth)) in
        ap (shift true) (inner-eq depth field rest)
        ∙ shift-line head (inside ++ close depth rest)
            (node_head-Lacks type start end depth field t f)
            (node_head_ne type start end depth field)
        ∙ ap (λ t. b' ' ∷ b' ' ∷ (head ++ newline ∷ t))
            (below ∙ ap (λ t. deeper ++ t) (close-shift depth rest))
        ∙ sym (inner-eq (suc depth) field (shift true rest))

  mutual
    unfolding IsPlain dump_node

    node-shift :
        (n : Node) (src : Bytes) (depth : ℕ) (field : Option Bytes) (rest : Bytes)
        → IsPlain n
        → Lacks newline (field_name field)
        → shift true (dump_node digits n src depth field ++ rest)
          ≡ dump_node digits n src (suc depth) field ++ shift true rest
    node-shift null src depth field rest n f = refl
    node-shift (node type start end leaf) src depth field rest n f =
        leaf-shift type start end src depth field rest n.0 f
    node-shift (node type start end (child name first others)) src depth field rest n f =
        inner-shift name first others type start end src depth field rest n.0 f
          (children-shift (child name first others) src (suc depth) (close depth rest) n.1)

    children-shift :
        (ns : Children) (src : Bytes) (depth : ℕ) (rest : Bytes)
        → ArePlain ns
        → shift true (dump_children digits ns src depth ++ rest)
          ≡ dump_children digits ns src (suc depth) ++ shift true rest
    children-shift leaf src depth rest n = refl
    children-shift (child name first others) src depth rest (f, p, ps) =
        ap (shift true) (
          append_assoc (dump_node digits first src depth name)
            (dump_children digits others src depth) rest)
        ∙ node-shift first src depth name (dump_children digits others src depth ++ rest) p f
        ∙ ap (λ t. dump_node digits first src (suc depth) name ++ t)
            (children-shift others src depth rest ps)
        ∙ sym (
            append_assoc (dump_node digits first src (suc depth) name)
              (dump_children digits others src (suc depth)) (shift true rest))

  -- Where no number, type or field prints with a newline, `dump_node` prints a tree one level deeper
  -- as the same text with two spaces in front of every line, whatever the source holds.
  pub dump_node-indents :
      (n : Node) (src : Bytes) (depth : ℕ) (field : Option Bytes)
      → IsPlain n
      → Lacks newline (field_name field)
      → dump_node digits n src (suc depth) field ≡ shift true (dump_node digits n src depth field)
  unfolding shift
  dump_node-indents n src depth field p f =
      sym (append-nil (dump_node digits n src (suc depth) field))
      ∙ sym (node-shift n src depth field [] p f)
      ∙ ap (shift true) (append-nil (dump_node digits n src depth field))
