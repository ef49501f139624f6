-- ===== src/Calibrate.antt =====
-- How src/lib_timing.c finds out how long a measurement has to last: `time_N`, `find_N`, `test_time`,
-- `compute_enough`, `init_timing` and `get_enough`.
pub mod Total
mod Tests
use qnx_lmbench_mods.Base.{
  ℕ, zero, suc, ◌+◌, ◌-◌, ◌*◌, ◌/◌, ◌%◌, Bool, true, false, ◌&&◌, Option, none, some, List, [], ◌∷◌,
  ltb, ◌==◌, if◌then◌else◌,
}
use qnx_lmbench_mods.Clock.{u64, gettime}
use qnx_lmbench_mods.Double.{Double, gt}
use qnx_lmbench_mods.Harness.{put}
use qnx_lmbench_mods.Parent.Launch.{short}
use qnx_lmbench_mods.Results.{
  Timing, insertinit, insertsort, get_results, set_results, save_minimum, tries,
}

-- The statics: those of the results, `N` and `usecs` of `find_N`, `long_enough`, and `done` of
-- `init_timing`; and how often `duration` was called.
pub record Calibration : Type 0 where
  pub timing : Timing
  pub n : ℕ
  pub usecs : ℕ
  pub long_enough : ℕ
  pub done : Bool
  pub calls : ℕ

-- `spent` gives the microseconds of each call of `duration`, by its number and its work; `r` is where
-- the table of `time_N` is.
module _ (d : Double) (spent : ℕ → ℕ → ℕ) (r : ℕ) where
  -- `for (i = 1; i < TRIES; ++i)`, with `left` rounds to go. The readings of the clock are left out:
  -- `set_results` overwrites them.
  pub time_tries : (left n : ℕ) → Calibration → Option Calibration
  time_tries zero n c = some c
  time_tries (suc left) n c = elim (insertsort d (spent c.calls n) n (c.timing.tables r)) [
    | none ↦ none
    | some t ↦ time_tries left n (record c { timing = put r t c.timing; calls = c.calls + 1 })
  ]

  -- `time_N(N)`: the least time, and the statics after it.
  pub time_N : (n : ℕ) → Calibration → Option (ℕ × Calibration)
  time_N n c =
      let empty = put r (insertinit (c.timing.tables r)) c.timing in
      elim (time_tries (tries - 1) n (record c { timing = empty })) [
        | none ↦ none
        | some c1 ↦
            let least = save_minimum (set_results r c1.timing) in
            elim (gettime least.clock) [
              | none ↦ none
              | some u ↦ some (u, record c1 { timing = set_results (get_results c.timing) least })
            ]
      ]

  -- `0.98 * enough < usecs && usecs < 1.02 * enough`
  abbrev pub is_close : (enough usecs : ℕ) → Bool
  is_close enough usecs =
      d.less (d.mul (d.lit 98 100) (d.of_u64 enough)) (d.of_u64 usecs)
      && d.less (d.of_u64 usecs) (d.mul (d.lit 102 100) (d.of_u64 enough))

  -- The next `N` of `find_N`.
  abbrev pub next_work : (enough n usecs : ℕ) → ℕ
  next_work enough n usecs =
      if ltb usecs 1000
      then n * 10 % u64
      else d.to_u64
          (d.add (d.mul (d.div (d.of_u64 n) (d.of_u64 usecs)) (d.of_u64 enough)) (d.lit 1 1))

  -- `for (tries = 0; tries < 10; ++tries)`, with `left` rounds to go.
  pub find_tries : (left enough : ℕ) → Calibration → Option (ℕ × Calibration)
  find_tries zero enough c = some (0, c)
  find_tries (suc left) enough c =
      let n = next_work enough c.n c.usecs in
      if is_close enough c.usecs then some (c.n, c) else elim (time_N n (record c { n = n })) [
        | none ↦ none
        | some timed ↦ find_tries left enough (record timed.1 { usecs = timed.0 })
      ]

  -- `find_N(enough)`.
  pub find_N : (enough : ℕ) → Calibration → Option (ℕ × Calibration)
  find_N enough c =
      if c.usecs == 0
      then elim (time_N c.n c) [
        | none ↦ none
        | some timed ↦ find_tries 10 enough (record timed.1 { usecs = timed.0 })
      ]
      else find_tries 10 enough c

  -- `test_points`.
  abbrev pub test_points : List d.D
  test_points = d.lit 1015 1000 ∷ d.lit 102 100 ∷ d.lit 1035 1000 ∷ []

  -- `diff / (double)expected > 0.0025`
  abbrev pub is_off : (expected usecs : ℕ) → Bool
  is_off expected usecs =
      let diff = if ltb usecs expected then expected - usecs else usecs - expected in
      gt d (d.div (d.of_u64 diff) (d.of_u64 expected)) (d.lit 25 10000)

  -- The `for` over the test points. The work of a test is taken to fit an `int`.
  pub check_points : List d.D → (n baseline : ℕ) → Calibration → Option (Bool × Calibration)
  check_points [] n baseline c = some (true, c)
  check_points (p ∷ points) n baseline c = elim (time_N (d.to_u64 (d.mul (d.of_u64 n) p)) c) [
    | none ↦ none
    | some timed ↦
        let expected = d.to_u64 (d.mul (d.of_u64 baseline) p) in
        if is_off expected timed.0
        then some (false, timed.1)
        else check_points points n baseline timed.1
  ]

  -- `test_time(enough)`.
  pub test_time : (enough : ℕ) → Calibration → Option (Bool × Calibration)
  test_time enough c = elim (find_N enough c) [
    | none ↦ none
    | some work ↦ if work.0 == 0 then some (false, work.1) else elim (time_N work.0 work.1) [
      | none ↦ none
      | some timed ↦ check_points test_points work.0 timed.0 timed.1
    ]
  ]

  -- `possibilities`.
  abbrev pub possibilities : List ℕ
  possibilities = 5000 ∷ 10000 ∷ 50000 ∷ 100000 ∷ []

  -- The `for` over the possibilities, and the default behind it.
  pub first_accurate : List ℕ → Calibration → Option (ℕ × Calibration)
  first_accurate [] c = some (short, c)
  first_accurate (x ∷ xs) c = elim (test_time x c) [
    | none ↦ none
    | some verdict ↦ if verdict.0 then some (x, verdict.1) else first_accurate xs verdict.1
  ]

  -- `compute_enough()`; `enough_given` is the value of the variable ENOUGH, if it is set.
  pub compute_enough : (enough_given : Option ℕ) → Calibration → Option (ℕ × Calibration)
  compute_enough enough_given c = elim enough_given [
    | some n ↦ some (n, c)
    | none ↦ first_accurate possibilities c
  ]

  -- `init_timing()`, but for the overheads that it computes last.
  pub init_timing : (enough_given : Option ℕ) → Calibration → Option Calibration
  init_timing enough_given c =
      if c.done then some c else elim (compute_enough enough_given (record c { done = true })) [
        | none ↦ none
        | some found ↦ some (record found.1 { long_enough = found.0 })
      ]

  -- `get_enough(e)`.
  pub get_enough : (enough_given : Option ℕ) (e : ℕ) → Calibration → Option (ℕ × Calibration)
  get_enough enough_given e c = elim (init_timing enough_given c) [
    | none ↦ none
    | some c' ↦ some (if ltb e c'.long_enough then c'.long_enough else e, c')
  ]
