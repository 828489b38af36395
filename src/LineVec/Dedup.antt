-- ===== src/LineVec/Dedup.antt =====
-- src/linevec.h and src/linevec.c, `Dedup`: the table of the byte ranges seen in one file.
use tsag.Base.{ℕ, Bool, ◌&&◌, List, [], ◌∷◌, ◌++◌, length, ltb, leb, ◌==◌, if◌then◌else◌}

abbrev pub dedup_cap : ℕ
dedup_cap = 1024

-- `start`, `end` and `pattern` are `uint32_t`, which are only compared.
pub record DedupEntry : Type 0 where
  pub start : ℕ
  pub end : ℕ
  pub pattern : ℕ
  pub idx : ℕ

-- The first `count` entries of the array.
pub record Dedup : Type 0 where
  pub entries : List DedupEntry

unfoldable pub dedup_init : Dedup
dedup_init = record { entries = [] }

-- `drop` is the result 0; `survive slot` is the result 1 with `*slot`.
pub data Claim : Type 0 where
  drop : Claim
  survive : ℕ → Claim

abbrev pub same_range : ℕ → ℕ → DedupEntry → Bool
same_range start end e = e.start == start && e.end == end

-- The loop of `dedup_claim` over the entries, with the entries as it leaves them.
unfoldable pub claim_loop : List DedupEntry → ℕ → ℕ → ℕ → ℕ → Claim × List DedupEntry
claim_loop [] start end pattern vec_len = (survive vec_len, [])
claim_loop (e ∷ es) start end pattern vec_len =
    let (c, rest) = claim_loop es start end pattern vec_len in
    if same_range start end e
    then (if leb pattern e.pattern
        then (drop, e ∷ es)
        else (survive e.idx, record e { pattern = pattern } ∷ es))
    else (c, e ∷ rest)

unfoldable pub dedup_claim : Dedup → ℕ → ℕ → ℕ → ℕ → Claim × Dedup
unfolding claim_loop
dedup_claim d start end pattern vec_len =
    let (c, es) = claim_loop d.entries start end pattern vec_len in (c, record { entries = es })

unfoldable pub dedup_track : Dedup → ℕ → ℕ → ℕ → ℕ → Dedup
dedup_track d start end pattern idx =
    if ltb (length d.entries) dedup_cap
    then record {
      entries = d.entries ++ record { start = start; end = end; pattern = pattern; idx = idx } ∷ [];
    }
    else d
