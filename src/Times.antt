-- ===== src/Times.antt =====
-- src/TIMES.c: the differences of times of QNX's clocks, with sign.
pub mod Diff
use qnx_lmbench_mods.Base.{ℕ, ◌+◌, ◌*◌, ◌/◌, Bool, true, false, if◌then◌else◌}
use qnx_lmbench_mods.Base.Int.{ℤ, pos, negsuc, ◌+ℤ◌, ◌-ℤ◌, ◌*ℤ◌, ltb_ℤ, sub_ℕ}
use qnx_lmbench_mods.Clock.{Timeval}

-- `struct timespec`.
pub record Timespec : Type 0 where
  pub tv_sec : ℤ
  pub tv_nsec : ℤ

-- Division of a signed number, towards zero.
unfoldable pub quot : ℤ → ℕ → ℤ
quot (pos n) k = pos (n / k)
quot (negsuc n) k = sub_ℕ 0 ((n + 1) / k)

-- `diff_tv(diff, tv_start, tv_end)`, with the difference as the result.
pub diff_tv : Timeval → Timeval → Timeval
diff_tv start end =
    if ltb_ℤ end.tv_usec start.tv_usec
    then record {
      tv_sec = end.tv_sec -ℤ start.tv_sec -ℤ pos 1;
      tv_usec = pos 1000000 -ℤ (start.tv_usec -ℤ end.tv_usec);
    }
    else record { tv_sec = end.tv_sec -ℤ start.tv_sec; tv_usec = end.tv_usec -ℤ start.tv_usec }

-- `diff_tp(diff, tp_start, tp_end)`.
pub diff_tp : Timespec → Timespec → Timespec
diff_tp start end =
    if ltb_ℤ end.tv_nsec start.tv_nsec
    then record {
      tv_sec = end.tv_sec -ℤ start.tv_sec -ℤ pos 1;
      tv_nsec = pos 1000000000 -ℤ (start.tv_nsec -ℤ end.tv_nsec);
    }
    else record { tv_sec = end.tv_sec -ℤ start.tv_sec; tv_nsec = end.tv_nsec -ℤ start.tv_nsec }

-- `diff_tp_ns`, `diff_tp_us` and `diff_tp_ms`, while the result fits 64 bits.
pub diff_tp_ns : Timespec → Timespec → ℤ
diff_tp_ns start end = let diff = diff_tp start end in diff.tv_sec *ℤ pos 1000000000 +ℤ diff.tv_nsec

pub diff_tp_us : Timespec → Timespec → ℤ
unfolding quot
diff_tp_us start end =
    let diff = diff_tp start end in diff.tv_sec *ℤ pos 1000000 +ℤ quot diff.tv_nsec 1000

pub diff_tp_ms : Timespec → Timespec → ℤ
unfolding quot
diff_tp_ms start end =
    let diff = diff_tp start end in diff.tv_sec *ℤ pos 1000 +ℤ quot diff.tv_nsec 1000000
