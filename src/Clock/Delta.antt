-- ===== src/Clock/Delta.antt =====
-- What `tvdelta`, `settime` and `gettime` of src/lib_timing.c compute, against plain subtraction of
-- times in microseconds.
use qnx_lmbench_mods.Base.{ℕ, ◌+◌, ◌*◌, ◌/◌, ◌%◌, ◌<◌, ◌≡◌, refl, some, arith}
use qnx_lmbench_mods.Base.Int.{ℤ, pos, ◌+ℤ◌, ◌-ℤ◌, pos_part, neg_part, sub_ℕ, -ℤ_parts, +ℤ_parts}
use qnx_lmbench_mods.Clock.{
  Timeval, zero_tv, Clock, u64, tvsub, tv_clamp, tvdelta, settime, gettime, save_n, get_n, start,
  stop, tv_usecs,
}

-- `tv_usec` lies in its documented range.
pub record IsNormal (t : Timeval) : Type 0 where
  pub usec : ℕ
  pub usec_eq : t.tv_usec ≡ pos usec
  pub usec_lt : usec < 1000000

-- The time in microseconds.
abbrev pub micros : Timeval → ℤ
micros t =
    sub_ℕ (pos_part t.tv_sec * 1000000 + pos_part t.tv_usec)
      (neg_part t.tv_sec * 1000000 + neg_part t.tv_usec)

module _ {begin end : Timeval} (hb : IsNormal begin) (he : IsNormal end) where
  -- The time from `begin` to `end` in microseconds, 0 if the clock went backwards.
  abbrev gap : ℕ
  gap = pos_part (micros end -ℤ micros begin)

  tvsub-normal :
      tvsub end begin
      ≡ some (record { tv_sec = pos (gap / 1000000); tv_usec = pos (gap % 1000000) })
  unfolding tvsub tv_clamp
  tvsub-normal = ground (
    arith,
    -ℤ_parts end.tv_sec begin.tv_sec,
    -ℤ_parts end.tv_usec begin.tv_usec,
    -ℤ_parts (end.tv_sec -ℤ begin.tv_sec) (pos 1),
    -ℤ_parts (micros end) (micros begin),
    +ℤ_parts (end.tv_usec -ℤ begin.tv_usec) (pos 1000000),
  )

  -- The difference of two normal times that `tvdelta` returns is their distance in microseconds,
  -- if that fits 64 bits, and 0 if the clock went backwards. The `assert` holds.
  pub tvdelta_lem :
      pos_part (micros end -ℤ micros begin) < u64
      → tvdelta begin end ≡ some (pos_part (micros end -ℤ micros begin))
  unfolding tvdelta tv_usecs
  tvdelta_lem small = rw (tvsub-normal, tvdelta) (ground arith)

  -- No `assert` fails on normal times.
  pub tvdelta-normal : (u : ℕ) × (tvdelta begin end ≡ some u)
  unfolding tvdelta
  tvdelta-normal = (
    tv_usecs (record { tv_sec = pos (gap / 1000000); tv_usec = pos (gap % 1000000) }),
    rw (tvsub-normal, tvdelta),
  )

  -- `stop` returns the time since `start`, and leaves it to be read by `gettime`; nothing that
  -- `start` and `stop` do changes the count of iterations.
  pub stop-start :
      (c : Clock)
      → pos_part (micros end -ℤ micros begin) < u64
      → ((stop end (start begin c)).0 ≡ some (pos_part (micros end -ℤ micros begin)))
        × (gettime (stop end (start begin c)).1 ≡ some (pos_part (micros end -ℤ micros begin)))
        × (get_n (stop end (start begin c)).1 ≡ get_n c)
  unfolding start stop gettime get_n
  stop-start c small = (tvdelta_lem small, tvdelta_lem small, refl)

-- `gettime` reads back what `settime` stores, for every 64-bit time, and `get_n` what `save_n`
-- stores; neither disturbs the other.
pub gettime-settime :
    (u n : ℕ) (c : Clock)
    → u < u64
    → (gettime (settime u (save_n n c)) ≡ some u)
      × (gettime (save_n n (settime u c)) ≡ some u)
      × (get_n (settime u (save_n n c)) ≡ n)
unfolding gettime settime save_n get_n tvdelta tv_usecs tvsub ◌-ℤ◌ ◌+ℤ◌
gettime-settime u n c h = (ground arith, ground arith, refl)

pub zero_tv-IsNormal : IsNormal zero_tv
zero_tv-IsNormal = record { usec = 0; usec_eq = refl; usec_lt = omega arith }

-- A time that was set is read back without a failed `assert`, also one of more than 64 bits.
pub gettime-settime-some : (u : ℕ) (c : Clock) → (v : ℕ) × (gettime (settime u c) ≡ some v)
unfolding gettime settime
gettime-settime-some u c =
    tvdelta-normal zero_tv-IsNormal
      (record { usec = u % 1000000; usec_eq = refl; usec_lt = omega arith })
