-- ===== src/Clock.antt =====
-- The time arithmetic of src/lib_timing.c: `tvsub`, `tvdelta`, and the static variables `start_tv`,
-- `stop_tv` and `iterations` with the functions that read and write them.
pub mod Delta
mod Tests
use qnx_lmbench_mods.Base.{
  ℕ, ◌+◌, ◌-◌, ◌*◌, ◌/◌, ◌%◌, ◌^◌, Bool, true, false, ◌&&◌, ◌||◌, Option, none, some, ◌==◌,
  if◌then◌else◌,
}
use qnx_lmbench_mods.Base.Int.{ℤ, pos, negsuc, ◌+ℤ◌, ◌-ℤ◌, ltb_ℤ}

-- The size of `uint64`.
abbrev pub u64 : ℕ
u64 = 2 ^ 64

-- `(uint64)x` of a signed value.
abbrev pub to_u64 : ℤ → ℕ
to_u64 (pos n) = n % u64
to_u64 (negsuc n) = (u64 + n / u64 * u64 + u64 - 1 - n) % u64

-- `struct timeval`.
pub record Timeval : Type 0 where
  pub tv_sec : ℤ
  pub tv_usec : ℤ

abbrev pub zero_tv : Timeval
zero_tv = record { tv_sec = pos 0; tv_usec = pos 0 }

-- The second test of `tvsub`: a time that went backwards counts as no time.
tv_clamp : Timeval → Timeval → Timeval → Timeval
tv_clamp d t1 t0 = if ltb_ℤ d.tv_usec (pos 0) || ltb_ℤ t1.tv_sec t0.tv_sec then zero_tv else d

-- `tvsub(tdiff, t1, t0)`, with the difference as the result. `none` is the failed `assert`.
pub tvsub : Timeval → Timeval → Option Timeval
unfolding tv_clamp
tvsub t1 t0 =
    let sec = t1.tv_sec -ℤ t0.tv_sec in
    let usec = t1.tv_usec -ℤ t0.tv_usec in
    let d : Timeval = record { tv_sec = sec; tv_usec = usec } in
    let carried : Timeval = record { tv_sec = sec -ℤ pos 1; tv_usec = usec +ℤ pos 1000000 } in
    if ltb_ℤ usec (pos 0) && ltb_ℤ (pos 0) sec
    then (if ltb_ℤ (usec +ℤ pos 1000000) (pos 0) then none else some (tv_clamp carried t1 t0))
    else some (tv_clamp d t1 t0)

-- `usecs = tv_sec; usecs *= 1000000; usecs += tv_usec`, in `uint64`.
pub tv_usecs : Timeval → ℕ
tv_usecs d = (to_u64 d.tv_sec * 1000000 % u64 + to_u64 d.tv_usec) % u64

-- `tvdelta(start, stop)`.
pub tvdelta : Timeval → Timeval → Option ℕ
unfolding tv_usecs
tvdelta start stop = elim (tvsub stop start) [ none ↦ none | some d ↦ some (tv_usecs d) ]

-- The static variables of src/lib_timing.c that the clock functions share.
pub record Clock : Type 0 where
  pub start_tv : Timeval
  pub stop_tv : Timeval
  pub iterations : ℕ

unfoldable pub save_n : ℕ → Clock → Clock
save_n n c = record c { iterations = n }

unfoldable pub get_n : Clock → ℕ
get_n c = c.iterations

-- `settime(usecs)`: `start_tv` is cleared, and `stop_tv` takes the time.
unfoldable pub settime : ℕ → Clock → Clock
settime usecs c = record c {
  start_tv = zero_tv;
  stop_tv = record { tv_sec = pos (usecs / 1000000); tv_usec = pos (usecs % 1000000) };
}

-- `gettime()`.
pub gettime : Clock → Option ℕ
gettime c = tvdelta c.start_tv c.stop_tv

-- `start(tv)` with a null pointer; `now` is what `gettimeofday` gives.
unfoldable pub start : Timeval → Clock → Clock
start now c = record c { start_tv = now }

-- `stop(begin, end)` with null pointers.
unfoldable pub stop : Timeval → Clock → Option ℕ × Clock
stop now c = (tvdelta c.start_tv now, record c { stop_tv = now })

-- `now()`, of the time that `gettimeofday` gives.
pub now : Timeval → ℕ
unfolding tv_usecs
now t = tv_usecs t

-- The truth of `last.tv_usec` in C.
abbrev pub is_set : ℤ → Bool
is_set (pos n) = if n == 0 then false else true
is_set (negsuc n) = true

-- `delta()`: the time since the last call, and the static `last` after it.
pub delta : (last t : Timeval) → Option (ℕ × Timeval)
unfolding tv_usecs
delta last t =
    if is_set last.tv_usec
    then elim (tvsub t last) [ none ↦ none | some d ↦ some (tv_usecs d, t) ]
    else some (0, t)
