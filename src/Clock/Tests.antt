-- ===== src/Clock/Tests.antt =====
-- Runs of the clock functions, and the theorems at concrete inputs.
use qnx_lmbench_mods.Base.{◌≡◌, refl, none, some, arith}
use qnx_lmbench_mods.Base.Int.{pos, ◌+ℤ◌, ◌-ℤ◌}
use qnx_lmbench_mods.Clock.{Timeval, Clock, zero_tv, tvsub, tvdelta, delta}
use qnx_lmbench_mods.Clock.Delta.{tvdelta_lem}

-- 10.9 s, then 12.1 s.
abbrev early : Timeval
early = record { tv_sec = pos 10; tv_usec = pos 900000 }

abbrev late : Timeval
late = record { tv_sec = pos 12; tv_usec = pos 100000 }

abbrev idle : Clock
idle = record { start_tv = zero_tv; stop_tv = zero_tv; iterations = 1 }

borrow : tvsub late early ≡ some (record { tv_sec = pos 1; tv_usec = pos 200000 })
unfolding tvsub ◌+ℤ◌ ◌-ℤ◌
borrow = refl

backwards : tvdelta late early ≡ some 0
unfolding tvdelta tvsub ◌+ℤ◌ ◌-ℤ◌
backwards = refl

-- Microseconds far out of range trip the `assert`.
assert_fails : tvsub late (record { tv_sec = pos 1; tv_usec = pos 9000000 }) ≡ none
unfolding tvsub ◌+ℤ◌ ◌-ℤ◌
assert_fails = refl

tvdelta_lem_example : tvdelta early late ≡ some 1200000
unfolding ◌-ℤ◌
tvdelta_lem_example =
    tvdelta_lem {begin = early} {end = late}
      (record { usec = 900000; usec_eq = refl; usec_lt = omega arith })
      (record { usec = 100000; usec_eq = refl; usec_lt = omega arith }) (omega arith)

-- Behind a call at a whole second, `delta` starts anew: no time has passed.
delta_restarts : delta (record { tv_sec = pos 10; tv_usec = pos 0 }) late ≡ some (0, late)
unfolding delta
delta_restarts = refl
