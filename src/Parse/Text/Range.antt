-- ===== src/Parse/Text/Range.antt =====
-- src/parse.c, `line_range`: the line around an offset, cut at 512 bytes on either side.
use tsag.Base.{
  ℕ, zero, suc, ◌+◌, ◌-◌, ◌<◌, ◌≤◌, ◌≡◌, ◌≢◌, ◌⊎◌, inl, inr, false, arith, Bytes, length, ◌==◌,
  Bool-cases, dec_lt, lt→ltb, le→ltb, ==→eq, ◌∙◌,
}
use tsag.Parse.Text.{
  newline, max_line_len, byte_at, back_loop, forward_loop, back_limit, fwd_limit, line_range,
}

-- A byte that the loop has passed over, or one passed over before.
clear_or :
    (src : Bytes) (i s : ℕ)
    → (byte_at src s == newline) ≡ false
    → (i < s → byte_at src i ≢ newline)
    → i ≤ s
    → byte_at src i ≢ newline
clear_or src i s e before le = elim (dec_lt i s) [
  | yes lt ↦ before lt
  | no ge ↦ let same : i ≡ s = omega arith in rw same (λ q. ground arith)
]

-- What the loop backwards finds from `start` on.
record IsBack (src : Bytes) (limit start s : ℕ) : Type 0 where
  below : s ≤ start
  above : limit ≤ s
  clear : (i : ℕ) → s ≤ i → i < start → byte_at src i ≢ newline
  stop : (s ≡ limit) ⊎ (byte_at src (s - 1) ≡ newline)

back_loop-IsBack :
    (src : Bytes) (limit start : ℕ)
    → limit ≤ start
    → IsBack src limit start (back_loop src limit start)
unfolding back_loop
back_loop-IsBack src limit zero h = record {
  below = omega arith;
  above = h;
  clear = λ i p q. elim q [ ];
  stop = inl (omega arith);
}
back_loop-IsBack src limit (suc s) h = elim (dec_lt limit (suc s)) [
  | no at_limit ↦ rw (le→ltb limit (suc s) (omega arith)) (record {
    below = omega arith;
    above = h;
    clear = λ i p q. absurd (omega arith);
    stop = inl (omega arith);
  })
  | yes over ↦ elim (Bool-cases (byte_at src s == newline)) [
    | inl e ↦
        rw (lt→ltb limit (suc s) over, e)
          (record {
            below = omega arith;
            above = h;
            clear = λ i p q. absurd (omega arith);
            stop =
                let back : suc s - 1 ≡ s = omega arith in
                rw back (inr (==→eq (byte_at src s) newline e));
          })
    | inr e ↦
        let ih = back_loop-IsBack src limit s (omega arith) in
        rw (lt→ltb limit (suc s) over, e)
          (record {
            below = let b = ih.below in omega arith;
            above = ih.above;
            clear = λ i p q. clear_or src i s e (ih.clear i p) (omega arith);
            stop = ih.stop;
          })
  ]
]

-- What the loop forwards finds.
record IsForward (src : Bytes) (limit start e : ℕ) : Type 0 where
  above : start ≤ e
  below : e ≤ limit
  clear : (i : ℕ) → start ≤ i → i < e → byte_at src i ≢ newline
  stop : (e ≡ limit) ⊎ (byte_at src e ≡ newline)

forward_loop-IsForward :
    (rounds : ℕ) (src : Bytes) (limit start : ℕ)
    → start + rounds ≡ limit
    → IsForward src limit start (forward_loop rounds src limit start)
unfolding forward_loop
forward_loop-IsForward zero src limit start h = record {
  above = omega arith;
  below = omega arith;
  clear = λ i p q. absurd (omega arith);
  stop = inl (omega arith);
}
forward_loop-IsForward (suc rounds) src limit start h =
    let within : start < limit = omega arith in
    elim (Bool-cases (byte_at src start == newline)) [
      | inl e ↦
          rw (lt→ltb start limit within, e)
            (record {
              above = omega arith;
              below = omega arith;
              clear = λ i p q. absurd (omega arith);
              stop = inr (==→eq (byte_at src start) newline e);
            })
      | inr e ↦
          let ih = forward_loop-IsForward rounds src limit (start + 1) (omega arith) in
          rw (lt→ltb start limit within, e)
            (record {
              above = let a = ih.above in omega arith;
              below = ih.below;
              clear = λ i p q. elim (dec_lt start i) [
                | yes past ↦ ih.clear i (omega arith) q
                | no here ↦ let same : i ≡ start = omega arith in rw same (λ k. ground arith)
              ];
              stop = ih.stop;
            })
    ]

-- The slice of `line_range` around an offset inside the source.
pub record IsLineAround (src : Bytes) (start s n : ℕ) : Type 0 where
  pub around : (s ≤ start) × (start ≤ s + n)
  pub inside : s + n ≤ length src
  pub short : (start ≤ s + 512) × (s + n ≤ start + 512)
  pub one_line : (i : ℕ) → s ≤ i → i < s + n → byte_at src i ≢ newline
  pub begins : (s ≡ 0) ⊎ ((s + 512 ≡ start) ⊎ (byte_at src (s - 1) ≡ newline))
  pub ends : (s + n ≡ length src) ⊎ ((s + n ≡ start + 512) ⊎ (byte_at src (s + n) ≡ newline))

back_limit_bounds :
    (start : ℕ)
    → (back_limit start ≤ start)
      × (start ≤ back_limit start + max_line_len)
      × ((back_limit start ≡ 0) ⊎ (back_limit start + max_line_len ≡ start))
unfolding back_limit
back_limit_bounds start = ground arith

fwd_limit_bounds :
    (src_len start : ℕ)
    → start ≤ src_len
    → (start ≤ fwd_limit src_len start)
      × (fwd_limit src_len start ≤ src_len)
      × (fwd_limit src_len start ≤ start + max_line_len)
      × ((fwd_limit src_len start ≡ src_len) ⊎ (fwd_limit src_len start ≡ start + max_line_len))
unfolding fwd_limit
fwd_limit_bounds src_len start h = ground arith

-- The two loops together.
line_around :
    (src : Bytes) (start s e : ℕ)
    → start ≤ length src
    → IsBack src (back_limit start) start s
    → IsForward src (fwd_limit (length src) start) start e
    → IsLineAround src start s (e - s)
line_around src start s e h back ahead =
    let (b0, b1, b2) = back_limit_bounds start in
    let (f0, f1, f2, f3) = fwd_limit_bounds (length src) start h in
    let p = back.below in
    let q = back.above in
    let r = ahead.above in
    let t = ahead.below in
    let whole : s + (e - s) ≡ e = omega arith in
    record {
      around = omega arith;
      inside = omega arith;
      short = omega arith;
      one_line = λ i lo hi. elim (dec_lt i start) [
        | yes lt ↦ back.clear i lo lt
        | no ge ↦ ahead.clear i (omega arith) (omega arith)
      ];
      begins = elim back.stop [
        | inl at_limit ↦ elim b2 [
          | inl zero_limit ↦ inl (at_limit ∙ zero_limit)
          | inr cut ↦ inr (inl (omega arith))
        ]
        | inr line_start ↦ inr (inr line_start)
      ];
      ends = rw whole (elim ahead.stop [
        | inl at_limit ↦ elim f3 [
          | inl whole_file ↦ inl (at_limit ∙ whole_file)
          | inr cut ↦ inr (inl (at_limit ∙ cut))
        ]
        | inr line_end ↦ inr (inr line_end)
      ]);
    }

-- For an offset inside the source or at its end, the slice lies inside the source, holds the
-- offset, goes at most 512 bytes from it either way and holds no newline; and it begins and ends at
-- a newline, at an end of the source, or 512 bytes from the offset.
pub line_range-IsLineAround :
    (src : Bytes) (start : ℕ)
    → start ≤ length src
    → IsLineAround src start (line_range src start).0 (line_range src start).1
unfolding line_range
line_range-IsLineAround src start h =
    let limit = fwd_limit (length src) start in
    let bounds = fwd_limit_bounds (length src) start h in
    let back = back_loop-IsBack src (back_limit start) start (back_limit_bounds start).0 in
    let ahead = forward_loop-IsForward (limit - start) src limit start (omega arith) in
    line_around src start (back_loop src (back_limit start) start)
      (forward_loop (limit - start) src limit start) h back ahead

-- Two such slices are the same.
not_later :
    (src : Bytes) (start s n s' n' : ℕ)
    → IsLineAround src start s n
    → IsLineAround src start s' n'
    → (s' ≤ s) × (s' + n' ≤ s + n)
not_later src start s n s' n' a b =
    let (a0, a1) = a.around in
    let (b0, b1) = b.around in
    let (a2, a3) = a.short in
    let (b2, b3) = b.short in
    let inside = b.inside in
    (
      elim (dec_lt s s') [
        | no ge ↦ omega arith
        | yes lt ↦ elim b.begins [
          | inl top ↦ absurd (omega arith)
          | inr (inl cut) ↦ absurd (omega arith)
          | inr (inr break) ↦ absurd (a.one_line (s' - 1) (omega arith) (omega arith) break)
        ]
      ],
      elim (dec_lt (s + n) (s' + n')) [
        | no ge ↦ omega arith
        | yes lt ↦ elim a.ends [
          | inl bottom ↦ absurd (omega arith)
          | inr (inl cut) ↦ absurd (omega arith)
          | inr (inr break) ↦ absurd (b.one_line (s + n) (omega arith) lt break)
        ]
      ],
    )

pub IsLineAround-unique :
    (src : Bytes) (start s n s' n' : ℕ)
    → IsLineAround src start s n
    → IsLineAround src start s' n'
    → (s ≡ s') × (n ≡ n')
IsLineAround-unique src start s n s' n' a b =
    let (p, q) = not_later src start s n s' n' a b in
    let (r, t) = not_later src start s' n' s n b a in (omega arith, omega arith)
