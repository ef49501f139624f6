-- ===== src/Harness.antt =====
-- The measuring child of `benchmp` in src/lib_timing.c: `benchmp_child` up to its loop, and
-- `benchmp_interval`, which the benchmark calls between two rounds of its work.
pub mod Room
pub mod Safety
pub mod Messages
pub mod Rounds
pub mod Protocol
pub mod Counted
pub mod Finish
mod Tests
use qnx_lmbench_mods.Base.{
  ℕ, ◌+◌, ◌-◌, ◌*◌, ◌/◌, ◌%◌, ◌^◌, Bool, true, false, ◌&&◌, ◌||◌, not, Option, none, some, List, [],
  ◌∷◌, ◌++◌, ltb, leb, ◌==◌, if◌then◌else◌,
}
use qnx_lmbench_mods.Clock.{Clock, Timeval, u64, start, stop, settime, gettime, save_n, get_n}
use qnx_lmbench_mods.Double.{Double, gt}
use qnx_lmbench_mods.Results.{
  Table, Timing, current, insertinit, insertsort, set_results, get_results, sizeof_result,
}

-- `benchmp_state`.
pub data Phase : Type 0 where
  warmup : Phase
  timing_interval : Phase
  cooldown : Phase

-- `state->state == cooldown`
abbrev pub is_cooldown : Phase → Bool
is_cooldown p = elim p [ cooldown ↦ true | _ ↦ false ]

-- What the child does besides changing its state: messages on the pipes, calls of the benchmark's
-- functions with their first argument, and the reset of the handler for SIGCHLD.
pub data Effect : Type 0 where
  send_ready : Effect
  read_start : Effect
  send_done : Effect
  read_result : Effect
  send_results : ℕ → Effect
  read_exit : Effect
  reset_sigchld : Effect
  call_cleanup : ℕ → Effect
  call_initialize : ℕ → Effect

-- `benchmp_child_state`, with the statics of the clock and the results. `sigchld_default` says that
-- `benchmp_sigchld_handler` is SIG_DFL.
pub record Child : Type 0 where
  pub state : Phase
  pub initialize : Bool
  pub cleanup : Bool
  pub sigchld_default : Bool
  pub enough : ℕ
  pub iterations : ℕ
  pub iterations_batch : ℕ
  pub parallel : ℕ
  pub repetitions : ℕ
  pub need_warmup : Bool
  pub i : ℕ
  pub r_size : ℕ
  pub timing : Timing

-- What one call of `benchmp_interval` meets: two readings of the clock, whether `getppid()` is 1, and
-- whether the pipes for `start` and for `result` are ready.
pub record Inputs : Type 0 where
  pub stopped : Timeval
  pub restarted : Timeval
  pub orphaned : Bool
  pub start_ready : Bool
  pub result_ready : Bool

-- How a call ends: the child goes on with a number of iterations, it exits, or an `assert` failed or
-- memory outside the table was written.
pub data Next : Type 0 where
  go_on : ℕ → Child → List Effect → Next
  exited : List Effect → Next
  fault : Next

-- `if (cleanup) { … signal(SIGCHLD, SIG_DFL); (*cleanup)(iterations, cookie); }`
abbrev pub clean_up : Child → ℕ → List Effect
clean_up c n =
    if c.cleanup
    then (if c.sigchld_default then reset_sigchld ∷ [] else []) ++ (call_cleanup n ∷ [])
    else []

-- The table at `p` replaced.
abbrev pub put : ℕ → Table → Timing → Timing
put p r t = record t { tables = λ (q : ℕ). if q == p then r else t.tables q }

-- `benchmp_child` up to its loop: the state that the first call of `benchmp_interval` finds, in memory
-- where the table of results is `r`. The array behind `r` has room for `sizeof_result(repetitions)`
-- bytes. The first call of the benchmark's `initialize` and the signal handlers do not touch the state.
pub child_start :
    (c : Timing) (r : ℕ) (initialize cleanup sigchld_default : Bool)
    → (enough iterations parallel repetitions : ℕ) → Child
child_start c r initialize cleanup sigchld_default enough iterations parallel repetitions =
    let empty = put r (insertinit (c.tables r)) c in
    let chosen = set_results r empty in
    record {
      state = warmup;
      initialize = initialize;
      cleanup = cleanup;
      sigchld_default = sigchld_default;
      enough = enough;
      iterations = iterations;
      iterations_batch = if ltb 1 parallel then get_n c.clock else 1;
      parallel = parallel;
      repetitions = repetitions;
      need_warmup = true;
      i = 0;
      r_size = sizeof_result repetitions;
      timing = put r (insertinit (chosen.tables r)) chosen;
    }

module _ (d : Double) (t_overhead : ℕ) (l_overhead : d.D) where
  -- The time that the round took, less the overhead, in microseconds; and the state after it.
  pub measure : Child → Inputs → Option (d.D × Child)
  measure c e =
      let (spent, clock) = stop e.stopped c.timing.clock in
      let counted = save_n c.iterations clock in
      elim spent [
        | none ↦ none
        | some u ↦
            let overhead =
              d.add (d.of_u64 t_overhead) (d.mul (d.of_u64 (get_n counted)) l_overhead) in
            let result = d.sub (d.of_u64 u) overhead in
            let time = if d.less_eq (d.lit 0 1) result then d.to_u64 result else 0 in
            some (result, record c { timing = record c.timing { clock = settime time counted } })
      ]

  -- `case warmup`.
  pub warm : Child → Inputs → ℕ × Child × List Effect
  warm c e = (
    if e.start_ready then c.iterations else c.iterations_batch,
    record c { state = if e.start_ready then timing_interval else c.state; need_warmup = false },
    (if e.start_ready then read_start ∷ [] else [])
        ++ (if c.need_warmup then send_ready ∷ [] else []),
  )

  -- `state->parallel > 1 || result > 0.95 * state->enough`
  abbrev pub long_enough : Child → d.D → Bool
  long_enough c result = ltb 1 c.parallel || gt d result (d.mul (d.lit 95 100) (d.of_u64 c.enough))

  -- The measurement is entered into the table, and counted.
  pub record_result : Child → Option Child
  record_result c = elim (gettime c.timing.clock) [
    | none ↦ none
    | some u ↦ elim (insertsort d u (get_n c.timing.clock) (current c.timing)) [
      | none ↦ none
      | some t ↦
          let state = if leb c.repetitions (c.i + 1) then cooldown else c.state in
          some (record c { timing = put c.timing.results t c.timing; i = c.i + 1; state = state })
    ]
  ]

  -- The choice of the next number of iterations; whether to give up.
  pub adjust : Child → d.D → ℕ × Bool
  adjust c result =
      let off =
        d.less result (d.mul (d.lit 99 100) (d.of_u64 c.enough))
        || gt d result (d.mul (d.lit 12 10) (d.of_u64 c.enough)) in
      let tmp =
        d.mul (d.div (d.of_u64 c.iterations) result) (d.mul (d.lit 11 10) (d.of_u64 c.enough)) in
      let more = c.iterations * 8 % u64 in
      if (c.parallel == 1) && off
      then (if gt d result (d.lit 150 1)
          then (d.to_u64 (d.add tmp (d.lit 1 1)), false)
          else (more, ltb (2 ^ 27) more || (d.less result (d.lit 0 1) && ltb (2 ^ 20) more)))
      else (c.iterations, false)

  -- The end of `case timing_interval`: the number of iterations is kept, and the child that has its
  -- results, or gives up, says so.
  pub settle : Child → ℕ × Bool → ℕ × Child × List Effect
  settle c (iterations, give_up) =
      let state = if give_up then cooldown else c.state in
      let c' = record c { state = state; iterations = iterations } in
      (
        if is_cooldown state then c.iterations_batch else iterations,
        c',
        if is_cooldown state then send_done ∷ [] else [],
      )

  -- `case timing_interval`.
  pub time_interval : Child → d.D → Option (ℕ × Child × List Effect)
  unfolding record_result adjust
  time_interval c result = elim (if long_enough c result then record_result c else some c) [
    | none ↦ none
    | some c' ↦ some (settle c' (adjust c result))
  ]

  -- The effects of the last call.
  abbrev pub deliver : Child → List Effect
  deliver c = (read_result ∷ send_results c.timing.results ∷ clean_up c 0) ++ (read_exit ∷ [])

  -- `if (state->initialize) (*initialize)(iterations, cookie); start(0); return iterations;`
  pub resume : Inputs → List Effect → ℕ × Child × List Effect → Next
  resume e before (iterations, c, seen) =
      go_on iterations
        (record c { timing = record c.timing { clock = start e.restarted c.timing.clock } })
        (before ++ seen ++ (if c.initialize then call_initialize iterations ∷ [] else []))

  -- The cases of the `switch`, after the measurement.
  pub dispatch : Phase → Child → Inputs → d.D → List Effect → Next
  unfolding time_interval
  dispatch warmup c e result before = resume e before (warm c e)
  dispatch timing_interval c e result before = elim (time_interval c result) [
    | none ↦ fault
    | some next ↦ resume e before next
  ]
  dispatch cooldown c e result before =
      if e.result_ready
      then exited (before ++ deliver c)
      else resume e before (c.iterations_batch, c, [])

  -- `if (getppid() == 1 && state->cleanup) … exit(0);`
  abbrev pub unless_orphaned : Child → Inputs → d.D → List Effect → Next
  unless_orphaned c e result before =
      if e.orphaned && c.cleanup
      then exited (before ++ clean_up c 0)
      else dispatch c.state c e result before

  -- What follows a measurement.
  pub after_measure : Inputs → List Effect → Option (d.D × Child) → Next
  unfolding dispatch
  after_measure e before none = fault
  after_measure e before (some (result, c)) = unless_orphaned c e result before

  -- `benchmp_interval(state)`.
  pub benchmp_interval : Child → Inputs → Next
  benchmp_interval c e =
      let iterations : ℕ = elim c.state [
        | timing_interval ↦ c.iterations
        | _ ↦ c.iterations_batch
      ] in
      if c.need_warmup
      then unless_orphaned c e (d.of_u64 c.enough) []
      else after_measure e (clean_up c iterations) (measure c e)

  -- One call after the other, with all effects.
  pub intervals : List Inputs → Child → List Effect → Next
  unfolding benchmp_interval
  intervals [] c seen = go_on 0 c seen
  intervals (e ∷ es) c seen = elim (benchmp_interval c e) [
    | fault ↦ fault
    | exited effects ↦ exited (seen ++ effects)
    | go_on n c' effects ↦ intervals es c' (seen ++ effects)
  ]
