-- ===== src/Parent/Launch.antt =====
-- `benchmp` of src/lib_timing.c: the children are forked, run by `benchmp_parent`, and reaped.
pub mod Whole
use qnx_lmbench_mods.Base.{
  ℕ, zero, suc, ◌+◌, ◌-◌, ◌*◌, ◌/◌, ◌%◌, Bool, true, false, not, ◌||◌, Option, none, some, List, [],
  ◌∷◌, ◌++◌, map, ltb, leb, ◌==◌, if◌then◌else◌,
}
use qnx_lmbench_mods.Clock.{u64, settime, gettime, save_n, get_n}
use qnx_lmbench_mods.Double.{Double}
use qnx_lmbench_mods.Results.{Table, Timing, tries}
use qnx_lmbench_mods.Parent.{
  Round, Act, Ending, finished, failed, no_memory, waits, out_of_bounds, benchmp_parent,
}

-- What `benchmp` does: it forks a child, kills one and waits for it, acts in `benchmp_parent`, or waits
-- for a child, for some seconds before SIGALRM kills it.
pub data Step : Type 0 where
  fork_child : ℕ → Step
  stop_child : ℕ → Step
  in_parent : Act → Step
  reap_child : (i timeout : ℕ) → Step
  kill_late : ℕ → Step

-- What a call meets: whether the pipes can be made and the table of process ids allocated, whether
-- SIGTERM has come before the i-th fork, whether that fork succeeds, what `benchmp_parent` meets, and
-- whether the alarm rings before the i-th child has died.
pub record Host : Type 0 where
  pub pipes_made : Bool
  pub pids_fit : Bool
  pub terminated : ℕ → Bool
  pub forks : ℕ → Bool
  pub early : Bool
  pub late : ℕ → Bool
  pub results_fit : Bool
  pub rounds : List Round
  pub pipe : List ℕ

-- How a call ends: it returns, it waits on when the rounds are over, or memory outside a table was
-- touched.
pub data Launched : Type 0 where
  returned : Timing → List Step → Launched
  hangs : List Step → Launched
  fault : Launched

-- `for (i = 0; i < parallel; ++i)`, with `left` children to fork: how many there are then, and whether
-- the loop was left by `goto error_exit`.
pub fork_children : Host → (left i : ℕ) → ℕ × Bool
fork_children h zero i = (i, false)
fork_children h (suc left) i =
    let rest = fork_children h left (i + 1) in
    if h.terminated i || not (h.forks i) then (i, true) else rest

-- The children that were forked, in order.
unfoldable pub forked : (left i : ℕ) → List Step
forked zero i = []
forked (suc left) i = fork_child i ∷ forked left (i + 1)

-- `while (--i >= 0) { kill(pids[i], SIGTERM); waitpid(pids[i], NULL, 0); }`
pub stop_all : ℕ → List Step
stop_all zero = []
stop_all (suc i) = stop_child i ∷ stop_all i

-- `benchmp_sigalrm_timeout`.
abbrev pub timeout_of : ℕ → ℕ
timeout_of enough = if ltb (2 * enough / 1000000 + 2) 5 then 5 else 2 * enough / 1000000 + 2

-- `while (i-- > 0) { … alarm(benchmp_sigalrm_timeout); waitpid(pids[i], NULL, 0); … }` with the handler
-- `benchmp_sigalrm`, which kills the child and leaves the others a second.
unfoldable pub reap_all : (late : ℕ → Bool) (timeout i : ℕ) → List Step
reap_all late timeout zero = []
reap_all late timeout (suc i) =
    reap_child i timeout
    ∷ ((if late i then kill_late i ∷ [] else []) ++ reap_all late (if late i then 1 else timeout) i)

-- `settime(0); save_n(1);`
abbrev pub no_result : Timing → Timing
no_result t = record t { clock = save_n 1 (settime 0 t.clock) }

-- `SHORT`.
abbrev pub short : ℕ
short = 1000000

module _ (d : Double) (decode : List ℕ → Table) where
  -- What follows `benchmp_parent`. `error_exit` of the parent leaves the statics as they are.
  abbrev pub after_parent :
      (late : ℕ → Bool) (enough parallel : ℕ) → Timing → (before : List Step) → Ending → Launched
  after_parent late enough parallel t before r =
      let reaped = reap_all late (timeout_of enough) parallel in
      elim r [
        | finished t' acts ↦ returned t' (before ++ map in_parent acts ++ reaped)
        | failed acts ↦ returned t (before ++ map in_parent acts ++ reaped)
        | no_memory ↦ returned t (before ++ reaped)
        | waits acts ↦ hangs (before ++ map in_parent acts)
        | out_of_bounds ↦ fault
      ]

  -- `benchmp` from the pipes to its end. `m` is where the merged results are.
  pub benchmp_run :
      Host → (enough parallel warmup repetitions m : ℕ) → Timing → (before : List Step) → Launched
  benchmp_run h enough parallel warmup repetitions m t before =
      let (i, stopped) = fork_children h parallel 0 in
      let before' = before ++ forked i 0 in
      if not h.pipes_made
      then returned t before
      else if not h.pids_fit
      then returned t before
      else if stopped
      then returned t (before' ++ stop_all i)
      else after_parent h.late enough parallel t before' (
          benchmp_parent d decode h.early h.results_fit h.rounds h.pipe parallel warmup repetitions
            m t)

  -- The number of iterations for a second, after a baseline of `n` iterations in `u` microseconds.
  abbrev pub iterations_for : (enough u n : ℕ) → ℕ
  iterations_for enough u n =
      let tmp = d.div (d.mul (d.of_u64 short) (d.of_u64 n)) (d.of_u64 u) in
      if ltb enough short then (d.to_u64 tmp + 1) % u64 else n

  -- `if (repetitions < 0) repetitions = (1 < parallel || 1000000 <= enough ? 1 : TRIES);`, where `none`
  -- is a negative number.
  abbrev pub repetitions_of : (enough parallel : ℕ) → Option ℕ → ℕ
  repetitions_of enough parallel repetitions = elim repetitions [
    | some n ↦ n
    | none ↦ if ltb 1 parallel || leb 1000000 enough then 1 else tries
  ]

  -- `benchmp(…)`: the number of iterations that the children are given, and how the call ends.
  -- `get_enough` is the function of that name, `alone` what the baseline meets, whose merged results are
  -- at `m'`, and `h` what the children together meet.
  pub benchmp :
      (get_enough : ℕ → ℕ) (alone h : Host) (enough parallel warmup : ℕ)
      → Option ℕ
      → (m' m : ℕ) → Timing
      → ℕ × Launched
  benchmp get_enough alone h enough parallel warmup repetitions m' m t =
      let enough' = get_enough enough in
      let repetitions' = repetitions_of enough' parallel repetitions in
      let baseline =
        benchmp_run alone (get_enough enough') 1 warmup repetitions' m' (no_result (no_result t))
          [] in
      if ltb 1 parallel
      then elim baseline [
        | fault ↦ (1, fault)
        | hangs steps ↦ (1, hangs steps)
        | returned t1 steps ↦ elim (gettime t1.clock) [
          | none ↦ (1, fault)
          | some u ↦
              let n = iterations_for enough' u (get_n t1.clock) in
              if u == 0
              then (1, returned t1 steps)
              else (n, benchmp_run h enough' parallel warmup repetitions' m (no_result t1) steps)
        ]
      ]
      else (1, benchmp_run h enough' parallel warmup repetitions' m (no_result t) [])
