-- ===== src/Harness/Counted.antt =====
-- One round of the measuring child of src/lib_timing.c beside other children: each measurement counts.
use qnx_lmbench_mods.Base.{
  ℕ, ◌+◌, ◌<◌, ◌≡◌, inl, inr, refl, ap, ap₂, ◌∙◌, true, false, ◌&&◌, some, none, Option, ◌||◌, List,
  [], ◌∷◌, ◌++◌, if◌then◌else◌, arith, ltb, leb, ◌==◌,
}
use qnx_lmbench_mods.Clock.{start}
use qnx_lmbench_mods.Double.{Double, gt}
use qnx_lmbench_mods.Harness.{
  timing_interval, cooldown, Effect, Child, Inputs, Next, go_on, exited, fault, call_initialize,
  clean_up, measure, record_result, adjust, settle, time_interval, resume, dispatch,
  unless_orphaned, after_measure, benchmp_interval,
}
use qnx_lmbench_mods.Harness.Room.{
  Fits, Sound, SameRun, Safe, resume-Safe, measuring, measure-Fits, record_result-Fits, settle-Fits,
}

module _ (d : Double) (t_overhead : ℕ) (l_overhead : d.D) where
  -- A child that measures beside others, in order.
  pub record Measures (c : Child) : Type 0 where
    pub fits : Fits c
    pub beside : ltb 1 c.parallel ≡ true

  -- With other children beside it, a child keeps its number of iterations.
  adjust-beside :
      (c : Child) (r : d.D)
      → ltb 1 c.parallel ≡ true
      → adjust d t_overhead l_overhead c r ≡ (c.iterations, false)
  unfolding adjust
  adjust-beside c r beside = let more : (c.parallel == 1) ≡ false = ground arith in rw more refl

  -- What a round does that starts with a measurement.
  round-measured :
      (c c1 : Child) (e : Inputs) (r : d.D)
      → c.need_warmup ≡ false
      → e.orphaned ≡ false
      → c1.state ≡ timing_interval
      → measure d t_overhead l_overhead c e ≡ some (r, c1)
      → (n : ℕ) × (benchmp_interval d t_overhead l_overhead c e
          ≡ dispatch d t_overhead l_overhead timing_interval c1 e r (clean_up c n))
  unfolding benchmp_interval after_measure
  round-measured c c1 e r later parent now run =
      let n : ℕ = elim c.state [ timing_interval ↦ c.iterations | _ ↦ c.iterations_batch ] in
      let before = clean_up c n in
      (
        n,
        ap
              (λ b.
                if b
                then unless_orphaned d t_overhead l_overhead c e (d.of_u64 c.enough) []
                else after_measure d t_overhead l_overhead e before
                    (measure d t_overhead l_overhead c e))
              later
            ∙ ap (after_measure d t_overhead l_overhead e before) run
            ∙ ap
                (λ b.
                  if b && c1.cleanup
                  then exited (before ++ clean_up c1 0)
                  else dispatch d t_overhead l_overhead c1.state c1 e r before)
                parent
            ∙ ap (λ p. dispatch d t_overhead l_overhead p c1 e r before) now,
      )

  time_interval-beside :
      (c c' : Child) (r : d.D)
      → ltb 1 c.parallel ≡ true
      → record_result d t_overhead l_overhead c ≡ some c'
      → time_interval d t_overhead l_overhead c r
        ≡ some (settle d t_overhead l_overhead c' (c.iterations, false))
  unfolding time_interval
  time_interval-beside c c' r beside entered =
      let finish = λ (o : Option Child). elim o as (λ _. Option (ℕ × Child × List Effect)) [
        | none ↦ none
        | some x ↦ some (settle d t_overhead l_overhead x (adjust d t_overhead l_overhead c r))
      ] in
      ap
        (λ b. finish (
          if b || gt d r (d.mul (d.lit 95 100) (d.of_u64 c.enough))
          then record_result d t_overhead l_overhead c
          else some c))
        beside
      ∙ ap finish entered
      ∙ ap (λ a. some (settle d t_overhead l_overhead c' a)) (adjust-beside c r beside)

  -- One round while the child measures: the measurement is counted, and the child cools down with the
  -- last one.
  pub counted_round :
      (c : Child) (e : Inputs)
      → Measures c
      → c.state ≡ timing_interval
      → Sound e
      → e.orphaned ≡ false
      → (n : ℕ) × (c' : Child) × (effects : List Effect) × (benchmp_interval d t_overhead l_overhead
            c e
          ≡ go_on n c' effects)
        × Measures c'
        × (c'.i ≡ c.i + 1)
        × (c'.repetitions ≡ c.repetitions)
        × (c'.state ≡ (if leb c.repetitions (c.i + 1) then cooldown else timing_interval))
  unfolding SameRun resume settle Safe dispatch
  counted_round c e s now sound parent =
      let f = s.fits in
      let later = measuring d t_overhead l_overhead c f now in
      let (r, c1, run, f1, time, same, (i1, reps1, parallel1, cleanup1)) =
        measure-Fits d t_overhead l_overhead c e sound f in
      let now1 = same ∙ now in
      let beside1 : ltb 1 c1.parallel ≡ true = ap (ltb 1) parallel1 ∙ s.beside in
      let lt : c1.i < c1.repetitions = elim f1.active [
        | inl done ↦ ground (arith, now1, done)
        | inr going ↦ going
      ] in
      let (c2, entered, f2, i2, reps2, state2, later2, parallel2, cleanup2) =
        record_result-Fits d t_overhead l_overhead c1 f1 lt now1 time in
      let next = settle d t_overhead l_overhead c2 (c1.iterations, false) in
      let (n, run2) = round-measured c c1 e r later parent now1 run in
      let before = clean_up c n in
      let run3 =
        ap
          (λ (o : Option (ℕ × Child × List Effect)). elim o as (λ _. Next) [
            | none ↦ fault
            | some x ↦ resume d t_overhead l_overhead e before x
          ])
          (time_interval-beside c1 c2 r beside1 entered) in
      let safe : Safe (resume d t_overhead l_overhead e before next) =
        resume-Safe d t_overhead l_overhead e before next.2 next.0 next.1 sound (
          settle-Fits d t_overhead l_overhead c2 c1.iterations false f2
            (later2 ∙ measuring d t_overhead l_overhead c1 f1 now1)) in
      (
        next.0,
        record next.1 {
          timing = record next.1.timing { clock = start e.restarted next.1.timing.clock };
        },
        before ++ next.2 ++ (if next.1.initialize then call_initialize next.0 ∷ [] else []),
        run2 ∙ run3,
        record { fits = safe; beside = ap (ltb 1) (parallel2 ∙ parallel1) ∙ s.beside },
        i2 ∙ ap (λ k. k + 1) i1,
        reps2 ∙ reps1,
        state2
            ∙ ap₂ (λ reps i. if leb reps (i + 1) then cooldown else c1.state) reps1 i1
            ∙ ap (λ p. if leb c.repetitions (c.i + 1) then cooldown else p) now1,
      )
