-- ===== src/Harness/Safety.antt =====
-- From `benchmp_child` on, no call of `benchmp_interval` in src/lib_timing.c fails an `assert` or
-- writes outside the table.
use qnx_lmbench_mods.Base.{
  ℕ, ◌+◌, ◌*◌, ◌^◌, ◌<◌, ◌≤◌, ◌≡◌, ◌⊎◌, inl, inr, refl, sym, subst, Bool, true, ◌&&◌, none, some,
  List, [], ◌∷◌, ◌++◌, length, ◌==◌, arith,
}
use qnx_lmbench_mods.Clock.{settime}
use qnx_lmbench_mods.Clock.Delta.{zero_tv-IsNormal}
use qnx_lmbench_mods.Double.{Double}
use qnx_lmbench_mods.Results.{Timing, current, insertinit, set_results, sizeof_result}
use qnx_lmbench_mods.Harness.{
  Phase, warmup, timing_interval, cooldown, Effect, Child, Inputs, Next, go_on, exited, fault,
  clean_up, child_start, measure, warm, deliver, resume, dispatch, unless_orphaned, after_measure,
  benchmp_interval, intervals,
}
use qnx_lmbench_mods.Harness.Room.{
  Fits, Sound, SetTime, Safe, Safe-exited, Safe-if, resume-Safe, measure-Fits, time_interval-Fits,
  warm-Fits,
}
use qnx_lmbench_mods.Results.{sizeof_value_t, tries}
use qnx_lmbench_mods.Results.Choice.{sizeof_result_room}

-- What safety comes to.
read :
    (x : Next)
    → Safe x
    → ((seen : List Effect) × (x ≡ exited seen))
      ⊎ ((n : ℕ) × (c : Child) × (seen : List Effect) × (x ≡ go_on n c seen)
          × ((current c.timing).count ≤ c.i)
          × (c.i ≤ c.repetitions)
          × (c.repetitions ≤ length (current c.timing).v))
unfolding Safe
read (exited seen) s = inl (seen, refl)
read (go_on n c seen) f = inr (n, c, seen, refl, f.count, f.bound, f.room)
read fault s = absurd s

module _ (d : Double) (t_overhead : ℕ) (l_overhead : d.D) where
  module _ (c : Child) (e : Inputs) (r : d.D) (before : List Effect) where
    dispatch-Safe :
        (p : Phase)
        → c.state ≡ p
        → Sound e
        → Fits c
        → (c.state ≡ warmup) ⊎ SetTime c.timing.clock
        → Safe (dispatch d t_overhead l_overhead p c e r before)
    unfolding dispatch
    dispatch-Safe warmup now s f set_time =
        resume-Safe d t_overhead l_overhead e before (warm d t_overhead l_overhead c e).2
          (warm d t_overhead l_overhead c e).0 (warm d t_overhead l_overhead c e).1 s
          (warm-Fits d t_overhead l_overhead c e f now)
    dispatch-Safe timing_interval now s f (inl w) = ground (arith, w, now)
    dispatch-Safe timing_interval now s f (inr time) =
        let (next, run, f') = time_interval-Fits d t_overhead l_overhead c r f now time in
        subst
          (λ o. Safe (elim o [ none ↦ fault | some x ↦ resume d t_overhead l_overhead e before x ]))
          (sym run) (resume-Safe d t_overhead l_overhead e before next.2 next.0 next.1 s f')
    dispatch-Safe cooldown now s f set_time =
        Safe-if e.result_ready (exited (before ++ deliver d t_overhead l_overhead c))
          (resume d t_overhead l_overhead e before (c.iterations_batch, c, []))
          (λ _. Safe-exited (before ++ deliver d t_overhead l_overhead c))
          (λ _. resume-Safe d t_overhead l_overhead e before [] c.iterations_batch c s f)

    unless_orphaned-Safe :
        Sound e
        → Fits c
        → (c.state ≡ warmup) ⊎ SetTime c.timing.clock
        → Safe (unless_orphaned d t_overhead l_overhead c e r before)
    unless_orphaned-Safe s f set_time =
        Safe-if (e.orphaned && c.cleanup) (exited (before ++ clean_up c 0))
          (dispatch d t_overhead l_overhead c.state c e r before)
          (λ _. Safe-exited (before ++ clean_up c 0)) (λ _. dispatch-Safe c.state refl s f set_time)

  -- A call that finds room does not fault, and leaves room.
  benchmp_interval-Safe :
      (c : Child) (e : Inputs)
      → Sound e
      → Fits c
      → Safe (benchmp_interval d t_overhead l_overhead c e)
  unfolding benchmp_interval after_measure
  benchmp_interval-Safe c e s f =
      let iterations : ℕ = elim c.state [
        | timing_interval ↦ c.iterations
        | _ ↦ c.iterations_batch
      ] in
      Safe-if c.need_warmup (unless_orphaned d t_overhead l_overhead c e (d.of_u64 c.enough) [])
        (after_measure d t_overhead l_overhead e (clean_up c iterations)
          (measure d t_overhead l_overhead c e))
        (λ first. begin first) (λ later. go_on_measured iterations)
    where
      begin :
          c.need_warmup ≡ true
          → Safe (unless_orphaned d t_overhead l_overhead c e (d.of_u64 c.enough) [])
      begin first =
          let w : c.state ≡ warmup = elim f.fresh [
            | inl later ↦ ground (arith, later, first)
            | inr w ↦ w
          ] in
          unless_orphaned-Safe c e (d.of_u64 c.enough) [] s f (inl w)

      go_on_measured :
          (n : ℕ)
          → Safe (
              after_measure d t_overhead l_overhead e
                (clean_up c n)
                (measure d t_overhead l_overhead c e))
      go_on_measured n =
          let (r, c', run, f', time, _, _) = measure-Fits d t_overhead l_overhead c e s f in
          subst (λ o. Safe (after_measure d t_overhead l_overhead e (clean_up c n) o)) (sym run)
            (unless_orphaned-Safe c' e r (clean_up c n) s f' (inr time))

  pub data AllSound : List Inputs → Type 0 where
    none_left : AllSound []
    one_more : {e : Inputs} {es : List Inputs} → Sound e → AllSound es → AllSound (e ∷ es)

  intervals-Safe :
      (es : List Inputs) (c : Child) (seen : List Effect)
      → AllSound es
      → Fits c
      → Safe (intervals d t_overhead l_overhead es c seen)
  unfolding intervals Safe
  intervals-Safe [] c seen none_left f = f
  intervals-Safe (e ∷ es) c seen (one_more s ss) f =
      next (benchmp_interval d t_overhead l_overhead c e) (benchmp_interval-Safe c e s f)
        (λ c' l f'. intervals-Safe es c' l ss f')
    where
      next :
          (n : Next)
          → Safe n
          → ((c' : Child) (l : List Effect)
              → Fits c'
              → Safe (intervals d t_overhead l_overhead es c' l))
          → Safe (elim n [
            | fault ↦ fault
            | exited effects ↦ exited (seen ++ effects)
            | go_on m c' effects ↦ intervals d t_overhead l_overhead es c' (seen ++ effects)
          ])
      next (go_on m c' effects) f' rest = rest c' (seen ++ effects) f'
      next (exited effects) f' rest = tt
      next fault f' rest = f'

  pub child_start-Fits :
      (t : Timing) (r : ℕ) (init clean default : Bool) (enough iterations parallel reps : ℕ)
      → 0 < reps
      → reps ≤ length (t.tables r).v
      → Fits (child_start t r init clean default enough iterations parallel reps)
  unfolding child_start set_results insertinit settime
  child_start-Fits t r init clean default enough iterations parallel reps pos room =
      let same : (r == r) ≡ true = ground arith in
      record {
        room = rw same room;
        count = rw same (omega arith);
        bound = omega arith;
        active = inr pos;
        begun = zero_tv-IsNormal;
        fresh = inr refl;
      }

  -- With room for all repetitions in the table.
  pub intervals_room :
      (t : Timing) (r : ℕ) (init clean default : Bool) (enough iterations parallel reps : ℕ)
      → (es : List Inputs) → 0 < reps
      → reps ≤ length (t.tables r).v
      → AllSound es
      → ((seen : List Effect) × (intervals d t_overhead l_overhead es
              (child_start t r init clean default enough iterations parallel reps)
              []
            ≡ exited seen))
        ⊎ ((n : ℕ) × (c : Child) × (seen : List Effect) × (intervals d t_overhead l_overhead es
                (child_start t r init clean default enough iterations parallel reps)
                []
              ≡ go_on n c seen)
            × ((current c.timing).count ≤ c.i)
            × (c.i ≤ c.repetitions)
            × (c.repetitions ≤ length (current c.timing).v))
  intervals_room t r init clean default enough iterations parallel reps es pos room ss =
      read
        (intervals d t_overhead l_overhead es
          (child_start t r init clean default enough iterations parallel reps) [])
        (intervals-Safe es (child_start t r init clean default enough iterations parallel reps) []
          ss (child_start-Fits t r init clean default enough iterations parallel reps pos room))

  -- Whatever the clock reads (in range), the parent does and the pipes hold: from `benchmp_child` on,
  -- with a table in memory of `sizeof_result(repetitions)` bytes for at least one repetition and less
  -- than 2 ^ 27 - 11, so that the `int` that `sizeof_result` returns holds the size, no
  -- sequence of calls of `benchmp_interval` fails an `assert` or writes outside the table; after it the
  -- child has exited, or the table holds at most as many measurements as were counted, and at most
  -- `repetitions` were.
  pub intervals_in_room :
      (t : Timing) (r : ℕ) (init clean default : Bool) (enough iterations parallel reps : ℕ)
      → (es : List Inputs) → 0 < reps
      → reps + tries < 2 ^ 27
      → sizeof_result reps ≡ 8 + length (t.tables r).v * sizeof_value_t
      → AllSound es
      → ((seen : List Effect) × (intervals d t_overhead l_overhead es
              (child_start t r init clean default enough iterations parallel reps)
              []
            ≡ exited seen))
        ⊎ ((n : ℕ) × (c : Child) × (seen : List Effect) × (intervals d t_overhead l_overhead es
                (child_start t r init clean default enough iterations parallel reps)
                []
              ≡ go_on n c seen)
            × ((current c.timing).count ≤ c.i)
            × (c.i ≤ c.repetitions)
            × (c.repetitions ≤ length (current c.timing).v))
  intervals_in_room t r init clean default enough iterations parallel reps es pos small size ss =
      let (room, _, _) = sizeof_result_room reps small in
      intervals_room t r init clean default enough iterations parallel reps es pos
        (omega (arith, size)) ss
