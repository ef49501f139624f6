-- ===== src/Harness/Finish.antt =====
-- The measuring child of src/lib_timing.c comes to its end.
use qnx_lmbench_mods.Base.{
  ℕ, ◌+◌, ◌<◌, ◌≡◌, inl, inr, refl, ap, subst, ◌∙◌, Bool, true, false, ◌&&◌, List, [], ◌∷◌, ◌++◌,
  length, if◌then◌else◌, arith, ltb, leb, Bool-cases, ◌≤◌,
}
use qnx_lmbench_mods.Clock.{start}
use qnx_lmbench_mods.Double.{Double}
use qnx_lmbench_mods.Results.{Timing}
use qnx_lmbench_mods.Harness.{
  warmup, timing_interval, cooldown, Effect, Child, Inputs, Next, go_on, exited, fault,
  call_initialize, is_cooldown, clean_up, child_start, measure, warm, resume, dispatch,
  unless_orphaned, after_measure, benchmp_interval, intervals,
}
use qnx_lmbench_mods.Harness.Room.{Fits, Sound, SameRun, Safe, resume-Safe, warm-Fits}
use qnx_lmbench_mods.Harness.Safety.{child_start-Fits}
use qnx_lmbench_mods.Harness.Messages.{count, is_done, Says, Speaks}
use qnx_lmbench_mods.Harness.Protocol.{benchmp_interval-Speaks, child_start-Says}
use qnx_lmbench_mods.Harness.Counted.{Measures, counted_round}

module _ (d : Double) (t_overhead : ℕ) (l_overhead : d.D) where
  -- Rounds in which the clock is read in range, and the parent lives.
  pub data Undisturbed : List Inputs → Type 0 where
    no_round : Undisturbed []
    one_round :
        {e : Inputs} {es : List Inputs}
        → Sound e
        → e.orphaned ≡ false
        → Undisturbed es
        → Undisturbed (e ∷ es)

  no_more :
      (es : List Inputs) (c : Child) (seen : List Effect)
      → length es ≡ 0
      → intervals d t_overhead l_overhead es c seen ≡ go_on 0 c seen
  unfolding intervals
  no_more [] c seen e = refl
  no_more (x ∷ es) c seen e = absurd (omega arith)

  rounds-finish :
      (es : List Inputs) (c : Child) (seen : List Effect)
      → Undisturbed es
      → Measures d t_overhead l_overhead c
      → c.state ≡ timing_interval
      → c.i + length es ≡ c.repetitions
      → Says c seen
      → (n : ℕ) × (c' : Child) × (seen' : List Effect) × (intervals d t_overhead l_overhead es c
            seen
          ≡ go_on n c' seen')
        × (c'.state ≡ cooldown)
        × (c'.i ≡ c.repetitions)
        × Says c' seen'
  unfolding intervals Speaks
  rounds-finish [] c seen calm s now count says = elim s.fits.active [
    | inl done ↦ ground (arith, now, done)
    | inr going ↦ absurd (omega (arith, going, count))
  ]
  rounds-finish (e ∷ es) c seen (one_round sound parent calm) s now count says =
      let (n, c', effects, run, s', i', reps', state') =
        counted_round d t_overhead l_overhead c e s now sound parent in
      let says' : Says c' (seen ++ effects) =
        subst (Speaks seen) run (benchmp_interval-Speaks d t_overhead l_overhead c e seen says) in
      let step : intervals d t_overhead l_overhead (e ∷ es) c seen
          ≡ intervals d t_overhead l_overhead es c' (seen ++ effects) =
        ap
          (λ (o : Next). elim o as (λ _. Next) [
            | fault ↦ fault
            | exited x ↦ exited (seen ++ x)
            | go_on k x y ↦ intervals d t_overhead l_overhead es x (seen ++ y)
          ])
          run in
      elim (Bool-cases (leb c.repetitions (c.i + 1))) [
        | inl last ↦
            let over : length es ≡ 0 = ground (arith, count, last) in
            (
              0,
              c',
              seen ++ effects,
              step ∙ no_more es c' (seen ++ effects) over,
              state' ∙ ap (λ b. if b then cooldown else timing_interval) last,
              omega (arith, i', count, over),
              says',
            )
        | inr more ↦
            let now' : c'.state ≡ timing_interval =
              state' ∙ ap (λ b. if b then cooldown else timing_interval) more in
            let (n2, c2, seen2, run2, done, all, says2) =
              rounds-finish es c' (seen ++ effects) calm s' now' (omega (arith, i', reps', count))
                says' in
            (n2, c2, seen2, step ∙ run2, done, all ∙ reps', says2)
      ]

  -- The first round, in which the signal to start has come.
  first_round :
      (c : Child) (e : Inputs)
      → Fits c
      → c.need_warmup ≡ true
      → c.state ≡ warmup
      → Sound e
      → e.orphaned ≡ false
      → e.start_ready ≡ true
      → (n : ℕ) × (c' : Child) × (effects : List Effect) × (benchmp_interval d t_overhead l_overhead
            c e
          ≡ go_on n c' effects)
        × Fits c'
        × (c'.state ≡ timing_interval)
        × SameRun c c'
  unfolding benchmp_interval dispatch resume warm Safe SameRun
  first_round c e f first now sound parent ready =
      let next = warm d t_overhead l_overhead c e in
      (
        next.0,
        record next.1 {
          timing = record next.1.timing { clock = start e.restarted next.1.timing.clock };
        },
        [] ++ next.2 ++ (if next.1.initialize then call_initialize next.0 ∷ [] else []),
        ap
              (λ b.
                if b
                then unless_orphaned d t_overhead l_overhead c e (d.of_u64 c.enough) []
                else after_measure d t_overhead l_overhead e
                    (clean_up c
                      (elim c.state [ timing_interval ↦ c.iterations | _ ↦ c.iterations_batch ]))
                    (measure d t_overhead l_overhead c e))
              first
            ∙ ap
                (λ b.
                  if b && c.cleanup
                  then exited ([] ++ clean_up c 0)
                  else dispatch d t_overhead l_overhead c.state c e (d.of_u64 c.enough) [])
                parent
            ∙ ap (λ p. dispatch d t_overhead l_overhead p c e (d.of_u64 c.enough) []) now,
        resume-Safe d t_overhead l_overhead e [] next.2 next.0 next.1 sound
            (warm-Fits d t_overhead l_overhead c e f now),
        ap (λ b. if b then timing_interval else c.state) ready,
        (refl, refl, refl, refl),
      )

  -- A child with others beside it and at least one repetition, room for all of them in its table, whose signal to start has come at its
  -- first round, and whose clock is read in range while its parent lives, needs one round for each
  -- repetition behind the first one, however long the rounds take: then it cools down, has counted
  -- every repetition, and has told its parent once that it is done.
  pub child_finishes :
      (t : Timing) (r : ℕ) (init clean default : Bool) (enough iterations parallel reps : ℕ)
      → (e : Inputs) (es : List Inputs) → 0 < reps
      → 1 < parallel
      → reps ≤ length (t.tables r).v
      → Sound e
      → e.orphaned ≡ false
      → e.start_ready ≡ true
      → Undisturbed es
      → length es ≡ reps
      → (n : ℕ) × (c' : Child) × (seen : List Effect) × (intervals d t_overhead l_overhead
            (e ∷ es)
            (child_start t r init clean default enough iterations parallel reps)
            []
          ≡ go_on n c' seen)
        × (c'.state ≡ cooldown)
        × (c'.i ≡ reps)
        × (count is_done seen ≡ 1)
  unfolding intervals child_start Speaks SameRun
  child_finishes t r init clean default enough iterations parallel reps e es pos many room sound
        parent ready calm len =
      let c = child_start t r init clean default enough iterations parallel reps in
      let f =
        child_start-Fits d t_overhead l_overhead t r init clean default enough iterations parallel
          reps pos room in
      let (n, c1, effects, run, f1, now, (i1, reps1, parallel1, _)) =
        first_round c e f refl refl sound parent ready in
      let says : Says c1 ([] ++ effects) = subst (Speaks []) run (
        benchmp_interval-Speaks d t_overhead l_overhead c e [] (
          child_start-Says d t_overhead l_overhead t r init clean default enough iterations parallel
            reps)) in
      let beside : ltb 1 c1.parallel ≡ true = ap (ltb 1) parallel1 ∙ ground arith in
      let step : intervals d t_overhead l_overhead (e ∷ es) c []
          ≡ intervals d t_overhead l_overhead es c1 ([] ++ effects) =
        ap
          (λ (o : Next). elim o as (λ _. Next) [
            | fault ↦ fault
            | exited x ↦ exited ([] ++ x)
            | go_on k x y ↦ intervals d t_overhead l_overhead es x ([] ++ y)
          ])
          run in
      let (n2, c2, seen2, run2, done, all, says2) =
        rounds-finish es c1 ([] ++ effects) calm (record { fits = f1; beside = beside }) now
          (omega (arith, i1, reps1, len)) says in
      (
        n2,
        c2,
        seen2,
        step ∙ run2,
        done,
        all ∙ reps1,
        says2.done ∙ ap (λ p. if is_cooldown p then 1 else 0) done,
      )
