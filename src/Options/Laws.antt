-- ===== src/Options/Laws.antt =====
-- src/options.c, `parse_options`: the first answer that stops it decides, and else the last of each
-- option wins.
use tsag.Base.{
  ℕ, ◌<◌, ◌≡◌, ◌⊎◌, refl, ap, true, false, List, [], ◌∷◌, ◌++◌, Option, none, some, Bytes, length,
  All, arith, Bool-cases, inl, inr, ltb, ◌==◌,
}
use tsag.Options.{
  Options, Opt, Strtol, Parsed, below_one, value_or_zero, is_bad_jobs, parse_options,
}

below_one-inv : (v : Option ℕ) → below_one v ≡ false → (n : ℕ) × (v ≡ some n) × (0 < n)
unfolding below_one
below_one-inv none e = absurd (cc e)
below_one-inv (some n) e = (n, refl, ground arith)

empty_text : (s : Bytes) → (length s == 0) ≡ true → s ≡ []
empty_text [] e = refl
empty_text (c ∷ s) e = absurd (ground arith)

module _ (strtol : Bytes → Strtol) where
  -- `strtol` reads the whole text without an error, as `n`.
  pub record IsNumber (arg : Bytes) (n : ℕ) : Type 0 where
    pub read : (strtol arg).failed ≡ false
    pub whole : (strtol arg).end ≡ []
    pub value : (strtol arg).value ≡ some n

  -- An option that does not stop the loop: an output, or a number of jobs that is at least 1.
  abbrev pub IsFine : Opt → Type 0
  IsFine (Opt.opt_o arg) = Unit
  IsFine (Opt.opt_j arg) = (n : ℕ) × IsNumber arg n × (0 < n)
  IsFine Opt.opt_h = ⊥
  IsFine Opt.unknown = ⊥

  abbrev pub IsOutput : Opt → Type 0
  IsOutput (Opt.opt_o arg) = Unit
  IsOutput (Opt.opt_j arg) = ⊥
  IsOutput Opt.opt_h = ⊥
  IsOutput Opt.unknown = ⊥

  abbrev pub IsJobs : Opt → Type 0
  IsJobs (Opt.opt_o arg) = ⊥
  IsJobs (Opt.opt_j arg) = Unit
  IsJobs Opt.opt_h = ⊥
  IsJobs Opt.unknown = ⊥

  -- The output is that of the last `-o`, or as it was where there is none.
  abbrev pub IsLastOutput : List Opt → Option Bytes → Option Bytes → Type 0
  IsLastOutput opts old new =
      (All (λ x. ¬ (IsOutput x)) opts × (new ≡ old))
      ⊎ ((front : List Opt) × (arg : Bytes) × (back : List Opt) × (opts
            ≡ front ++ Opt.opt_o arg ∷ back)
          × All (λ x. ¬ (IsOutput x)) back
          × (new ≡ some arg))

  -- The jobs are the number of the last `-j`, or as they were where there is none.
  abbrev pub IsLastJobs : List Opt → ℕ → ℕ → Type 0
  IsLastJobs opts old new =
      (All (λ x. ¬ (IsJobs x)) opts × (new ≡ old))
      ⊎ ((front : List Opt) × (arg : Bytes) × (back : List Opt) × (opts
            ≡ front ++ Opt.opt_j arg ∷ back)
          × All (λ x. ¬ (IsJobs x)) back
          × IsNumber arg new)

  -- `-h` exits; an unknown option, or a `-j` that is not fine, is an error.
  abbrev pub Stops : Opt → Parsed → Type 0
  Stops (Opt.opt_o arg) p = ⊥
  Stops (Opt.opt_j arg) p = (¬ (IsFine (Opt.opt_j arg))) × (p ≡ Parsed.bad)
  Stops Opt.opt_h p = p ≡ Parsed.exits
  Stops Opt.unknown p = p ≡ Parsed.bad

  -- What `parse_options` makes of the options.
  pub data Outcome (opts : List Opt) (rest : List Bytes) (old : Options) : Parsed → Type 0 where
    ends_well :
        (new : Options)
        → All IsFine opts
        → IsLastOutput opts old.output new.output
        → IsLastJobs opts old.jobs new.jobs
        → new.paths ≡ rest
        → Outcome opts rest old (Parsed.ok new)
    stops :
        (front : List Opt) (x : Opt) (back : List Opt) (p : Parsed)
        → opts ≡ front ++ x ∷ back
        → All IsFine front
        → Stops x p
        → Outcome opts rest old p

  -- The test of the code says whether the number is fine.
  IsFine-jobs : (arg : Bytes) → is_bad_jobs strtol arg ≡ false → IsFine (Opt.opt_j arg)
  unfolding is_bad_jobs
  IsFine-jobs arg e =
      let r = strtol arg in
      let read : r.failed ≡ false = ground arith in
      let whole : (length r.end == 0) ≡ true = ground arith in
      let low : below_one r.value ≡ false = ground arith in
      let (n, v, pos) = below_one-inv r.value low in
      (n, record { read = read; whole = empty_text r.end whole; value = v }, pos)

  bad_jobs : (arg : Bytes) → is_bad_jobs strtol arg ≡ true → ¬ (IsFine (Opt.opt_j arg))
  unfolding is_bad_jobs below_one
  bad_jobs arg e (n, is_number, pos) =
      let off : ltb n 1 ≡ false = ground arith in
      absurd (cc (rw (is_number.read, is_number.whole, is_number.value, off) at e))

  value-IsNumber : (arg : Bytes) (n : ℕ) → IsNumber arg n → value_or_zero (strtol arg).value ≡ n
  unfolding value_or_zero
  value-IsNumber arg n h = rw h.value refl

  none_more :
      (opts : List Opt) (arg : Bytes) (old : Option Bytes) (new : Option Bytes)
      → IsLastOutput opts (some arg) new
      → IsLastOutput (Opt.opt_o arg ∷ opts) old new
  none_more opts arg old new (inl (none_there, e)) = inr ([], arg, opts, refl, none_there, e)
  none_more opts arg old new (inr (front, a, back, e, n, v)) =
      inr (Opt.opt_o arg ∷ front, a, back, ap (λ l. Opt.opt_o arg ∷ l) e, n, v)

  output_past :
      (opts : List Opt) (x : Opt) (old new : Option Bytes)
      → ¬ (IsOutput x)
      → IsLastOutput opts old new
      → IsLastOutput (x ∷ opts) old new
  output_past opts x old new other (inl (none_there, e)) = inl ((other, none_there), e)
  output_past opts x old new other (inr (front, a, back, e, n, v)) =
      inr (x ∷ front, a, back, ap (λ l. x ∷ l) e, n, v)

  jobs_past :
      (opts : List Opt) (x : Opt) (old new : ℕ)
      → ¬ (IsJobs x)
      → IsLastJobs opts old new
      → IsLastJobs (x ∷ opts) old new
  jobs_past opts x old new other (inl (none_there, e)) = inl ((other, none_there), e)
  jobs_past opts x old new other (inr (front, a, back, e, n, v)) =
      inr (x ∷ front, a, back, ap (λ l. x ∷ l) e, n, v)

  jobs_now :
      (opts : List Opt) (arg : Bytes) (n old new : ℕ)
      → IsNumber arg n
      → IsLastJobs opts n new
      → IsLastJobs (Opt.opt_j arg ∷ opts) old new
  jobs_now opts arg n old new h (inl (none_there, e)) =
      inr ([], arg, opts, refl, none_there, rw e h)
  jobs_now opts arg n old new h (inr (front, a, back, e, m, v)) =
      inr (Opt.opt_j arg ∷ front, a, back, ap (λ l. Opt.opt_j arg ∷ l) e, m, v)

  output-Outcome :
      (opts : List Opt) (rest : List Bytes) (old : Options) (arg : Bytes) (p : Parsed)
      → Outcome opts rest (record old { output = some arg }) p
      → Outcome (Opt.opt_o arg ∷ opts) rest old p
  output-Outcome opts rest old arg _ (ends_well new fine o j e) =
      ends_well new (tt, fine) (none_more opts arg old.output new.output o)
        (jobs_past opts (Opt.opt_o arg) old.jobs new.jobs (λ z. z) j) e
  output-Outcome opts rest old arg p (stops front x back _ e fine st) =
      stops (Opt.opt_o arg ∷ front) x back p (ap (λ l. Opt.opt_o arg ∷ l) e) (tt, fine) st

  jobs-Outcome :
      (opts : List Opt) (rest : List Bytes) (old : Options) (arg : Bytes) (n : ℕ) (p : Parsed)
      → IsNumber arg n
      → 0 < n
      → Outcome opts rest (record old { jobs = n }) p
      → Outcome (Opt.opt_j arg ∷ opts) rest old p
  jobs-Outcome opts rest old arg n _ h pos (ends_well new fine o j e) =
      ends_well new ((n, h, pos), fine)
        (output_past opts (Opt.opt_j arg) old.output new.output (λ z. z) o)
        (jobs_now opts arg n old.jobs new.jobs h j) e
  jobs-Outcome opts rest old arg n p h pos (stops front x back _ e fine st) =
      stops (Opt.opt_j arg ∷ front) x back p (ap (λ l. Opt.opt_j arg ∷ l) e) ((n, h, pos), fine) st

  -- `parse_options` ends well when every option is an output or a number of jobs that `strtol` reads
  -- whole, without an error and as at least 1: then with the output of the last `-o`, the number of the
  -- last `-j`, each as it was where there is none, and the other arguments as paths. Else the
  -- first other option decides: at `-h` it exits, and any other is an error.
  pub parse_options-Outcome :
      (opts : List Opt) (rest : List Bytes) (old : Options)
      → Outcome opts rest old (parse_options strtol opts rest old)
  unfolding parse_options
  parse_options-Outcome [] rest old =
      ends_well (record old { paths = rest }) tt (inl (tt, refl)) (inl (tt, refl)) refl
  parse_options-Outcome (Opt.opt_o arg ∷ opts) rest old =
      output-Outcome opts rest old arg _
        (parse_options-Outcome opts rest (record old { output = some arg }))
  parse_options-Outcome (Opt.opt_j arg ∷ opts) rest old =
      elim (Bool-cases (is_bad_jobs strtol arg)) [
        | inl e ↦ rw e (stops [] (Opt.opt_j arg) opts Parsed.bad refl tt (bad_jobs arg e, refl))
        | inr e ↦
            let (n, h, pos) = IsFine-jobs arg e in
            let same = value-IsNumber arg n h in
            rw (e, same)
              (jobs-Outcome opts rest old arg n _ h pos
                (parse_options-Outcome opts rest (record old { jobs = n })))
      ]
  parse_options-Outcome (Opt.opt_h ∷ opts) rest old =
      stops [] Opt.opt_h opts Parsed.exits refl tt refl
  parse_options-Outcome (Opt.unknown ∷ opts) rest old =
      stops [] Opt.unknown opts Parsed.bad refl tt refl
