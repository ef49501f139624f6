-- ===== src/Times/Diff.antt =====
-- The differences of src/TIMES.c against plain subtraction.
use qnx_lmbench_mods.Base.{
  ℕ, ◌+◌, ◌-◌, ◌*◌, ◌/◌, ◌%◌, ◌<◌, ◌≤◌, ◌≡◌, sym, ap, ◌∙◌, arith, inl, inr, Bool-cases,
}
use qnx_lmbench_mods.Base.Int.{
  ℤ, pos, ◌+ℤ◌, ◌-ℤ◌, ◌*ℤ◌, ltb_ℤ, -ℤ_parts, +ℤ_parts, *ℤ_parts, eq_of_parts,
}
use qnx_lmbench_mods.Times.{Timespec, quot, diff_tp, diff_tp_ns, diff_tp_us, diff_tp_ms}

-- The time in nanoseconds.
abbrev pub nanos : Timespec → ℤ
nanos t = t.tv_sec *ℤ pos 1000000000 +ℤ t.tv_nsec

-- Distances of times, where the second has a carry of `c` and `n` nanoseconds to it.
sec_nsec :
    (s e : ℤ) (a b c n : ℕ)
    → n + a ≡ b + c * 1000000000
    → (e -ℤ s -ℤ pos c) *ℤ pos 1000000000 +ℤ pos n
      ≡ e *ℤ pos 1000000000 +ℤ pos b -ℤ (s *ℤ pos 1000000000 +ℤ pos a)
sec_nsec s e a b c n h =
    eq_of_parts ((e -ℤ s -ℤ pos c) *ℤ pos 1000000000 +ℤ pos n)
      (e *ℤ pos 1000000000 +ℤ pos b -ℤ (s *ℤ pos 1000000000 +ℤ pos a))
      (omega (
        arith,
        -ℤ_parts e s,
        -ℤ_parts (e -ℤ s) (pos c),
        *ℤ_parts (e -ℤ s -ℤ pos c) 1000000000,
        +ℤ_parts ((e -ℤ s -ℤ pos c) *ℤ pos 1000000000) (pos n),
        *ℤ_parts e 1000000000,
        *ℤ_parts s 1000000000,
        +ℤ_parts (e *ℤ pos 1000000000) (pos b),
        +ℤ_parts (s *ℤ pos 1000000000) (pos a),
        -ℤ_parts (e *ℤ pos 1000000000 +ℤ pos b) (s *ℤ pos 1000000000 +ℤ pos a),
      ))

sub_none : (x : ℤ) → x -ℤ pos 0 ≡ x
unfolding ◌-ℤ◌
sub_none x = ground arith

-- The difference of normal times has its nanoseconds in range, and is the distance of the times.
diff_tp_lem :
    (s e : ℤ) (a b : ℕ)
    → a < 1000000000
    → b < 1000000000
    → (n : ℕ) × ((diff_tp
          (record { tv_sec = s; tv_nsec = pos a })
          (record { tv_sec = e; tv_nsec = pos b })).tv_nsec
        ≡ pos n)
      × (n < 1000000000)
      × (nanos (
            diff_tp
              (record { tv_sec = s; tv_nsec = pos a })
              (record { tv_sec = e; tv_nsec = pos b }))
          ≡ e *ℤ pos 1000000000 +ℤ pos b -ℤ (s *ℤ pos 1000000000 +ℤ pos a))
unfolding diff_tp
diff_tp_lem s e a b ha hb = elim (Bool-cases (ltb_ℤ (pos b) (pos a))) [
  | inl less ↦
      let n : ℕ = b + 1000000000 - a in
      let nsec : pos 1000000000 -ℤ (pos a -ℤ pos b) ≡ pos n = carried in
      (
        n,
        rw (less, diff_tp) nsec,
        ground arith,
        rw (less, diff_tp) (rw nsec (sec_nsec s e a b 1 n (ground arith))),
      )
  | inr more ↦
      let n : ℕ = b - a in
      let nsec : pos b -ℤ pos a ≡ pos n = plain (ground arith) in
      let distance =
        ap (λ x. x *ℤ pos 1000000000 +ℤ pos n) (sym (sub_none (e -ℤ s)))
        ∙ sec_nsec s e a b 0 n (ground arith) in
      (n, rw (more, diff_tp) nsec, ground arith, rw (more, diff_tp) (rw nsec distance))
]
  where
    carried : pos 1000000000 -ℤ (pos a -ℤ pos b) ≡ pos (b + 1000000000 - a)
    carried =
        eq_of_parts (pos 1000000000 -ℤ (pos a -ℤ pos b)) (pos (b + 1000000000 - a))
          (omega (arith, -ℤ_parts (pos a) (pos b), -ℤ_parts (pos 1000000000) (pos a -ℤ pos b)))

    plain : a ≤ b → pos b -ℤ pos a ≡ pos (b - a)
    plain le = eq_of_parts (pos b -ℤ pos a) (pos (b - a)) (omega (arith, -ℤ_parts (pos b) (pos a)))

-- Units of 1000 and of 1000000 nanoseconds in a time.
units_us :
    (x : ℤ) (n : ℕ)
    → (x *ℤ pos 1000000 +ℤ pos (n / 1000)) *ℤ pos 1000 +ℤ pos (n % 1000)
      ≡ x *ℤ pos 1000000000 +ℤ pos n
units_us x n =
    eq_of_parts ((x *ℤ pos 1000000 +ℤ pos (n / 1000)) *ℤ pos 1000 +ℤ pos (n % 1000))
      (x *ℤ pos 1000000000 +ℤ pos n)
      (omega (
        arith,
        *ℤ_parts x 1000000,
        +ℤ_parts (x *ℤ pos 1000000) (pos (n / 1000)),
        *ℤ_parts (x *ℤ pos 1000000 +ℤ pos (n / 1000)) 1000,
        +ℤ_parts ((x *ℤ pos 1000000 +ℤ pos (n / 1000)) *ℤ pos 1000) (pos (n % 1000)),
        *ℤ_parts x 1000000000,
        +ℤ_parts (x *ℤ pos 1000000000) (pos n),
      ))

units_ms :
    (x : ℤ) (n : ℕ)
    → (x *ℤ pos 1000 +ℤ pos (n / 1000000)) *ℤ pos 1000000 +ℤ pos (n % 1000000)
      ≡ x *ℤ pos 1000000000 +ℤ pos n
units_ms x n =
    eq_of_parts ((x *ℤ pos 1000 +ℤ pos (n / 1000000)) *ℤ pos 1000000 +ℤ pos (n % 1000000))
      (x *ℤ pos 1000000000 +ℤ pos n)
      (omega (
        arith,
        *ℤ_parts x 1000,
        +ℤ_parts (x *ℤ pos 1000) (pos (n / 1000000)),
        *ℤ_parts (x *ℤ pos 1000 +ℤ pos (n / 1000000)) 1000000,
        +ℤ_parts ((x *ℤ pos 1000 +ℤ pos (n / 1000000)) *ℤ pos 1000000) (pos (n % 1000000)),
        *ℤ_parts x 1000000000,
        +ℤ_parts (x *ℤ pos 1000000000) (pos n),
      ))

module _ (s e : ℤ) (a b : ℕ) (ha : a < 1000000000) (hb : b < 1000000000) where
  abbrev start : Timespec
  start = record { tv_sec = s; tv_nsec = pos a }

  abbrev end : Timespec
  end = record { tv_sec = e; tv_nsec = pos b }

  -- For times with their nanoseconds in range `diff_tp_ns` is the distance of the times in nanoseconds,
  -- with its sign, and `diff_tp_us` and `diff_tp_ms` are that distance rounded down to microseconds and
  -- milliseconds, also where it is negative.
  pub diff_tp_units :
      (diff_tp_ns start end ≡ nanos end -ℤ nanos start)
      × ((r : ℕ) × (r < 1000)
          × (diff_tp_us start end *ℤ pos 1000 +ℤ pos r ≡ nanos end -ℤ nanos start))
      × ((r : ℕ) × (r < 1000000)
          × (diff_tp_ms start end *ℤ pos 1000000 +ℤ pos r ≡ nanos end -ℤ nanos start))
  unfolding diff_tp_ns diff_tp_us diff_tp_ms quot
  diff_tp_units =
      let (n, nsec, small, distance) = diff_tp_lem s e a b ha hb in
      let x = (diff_tp start end).tv_sec in
      let whole : x *ℤ pos 1000000000 +ℤ pos n ≡ nanos end -ℤ nanos start = rw nsec at distance in
      (
        distance,
        (n % 1000, omega arith, rw nsec (units_us x n ∙ whole)),
        (n % 1000000, omega arith, rw nsec (units_ms x n ∙ whole)),
      )
