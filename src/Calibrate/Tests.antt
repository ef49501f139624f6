-- ===== src/Calibrate/Tests.antt =====
-- The calibration at a concrete clock.
use qnx_lmbench_mods.Base.{
  ℕ, ◌/◌, ◌≤◌, ◌≡◌, refl, false, some, none, replicate, arith, ltb, if◌then◌else◌,
}
use qnx_lmbench_mods.Clock.{zero_tv}
use qnx_lmbench_mods.Double.Whole.{whole}
use qnx_lmbench_mods.Parent.Launch.{short}
use qnx_lmbench_mods.Results.{unset}
use qnx_lmbench_mods.Calibrate.{Calibration, get_enough}
use qnx_lmbench_mods.Calibrate.Total.{Roomy, get_enough_settles}

-- Before the first call.
abbrev fresh : Calibration
fresh = record {
  timing = record {
    clock = record { start_tv = zero_tv; stop_tv = zero_tv; iterations = 1 };
    tables = λ p. record { count = 0; v = replicate 11 unset };
    results = 0;
  };
  n = 10000;
  usecs = 0;
  long_enough = 0;
  done = false;
  calls = 0;
}

-- A clock that shows a microsecond for two units of work.
abbrev half : ℕ → ℕ → ℕ
half k n = n / 2

fresh-Roomy : Roomy whole half 5 fresh
unfolding Roomy
fresh-Roomy = omega arith

get_enough_settles_example :
    (c' : Calibration) × (get_enough whole half 5 none 0 fresh
      ≡ some (if ltb 0 c'.long_enough then c'.long_enough else 0, c'))
    × (5000 ≤ c'.long_enough)
    × (c'.long_enough ≤ short)
    × (get_enough whole half 5 none 200000 c'
        ≡ some (if ltb 200000 c'.long_enough then c'.long_enough else 200000, c'))
    × (get_enough whole half 5 none (if ltb 0 c'.long_enough then c'.long_enough else 0) c'
        ≡ get_enough whole half 5 none 0 fresh)
get_enough_settles_example = get_enough_settles whole half 5 0 200000 fresh fresh-Roomy refl
