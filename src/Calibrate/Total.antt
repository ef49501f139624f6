-- ===== src/Calibrate/Total.antt =====
-- The calibration of src/lib_timing.c always comes to an interval, and only once.
use qnx_lmbench_mods.Base.{
  ℕ, zero, suc, ◌+◌, ◌-◌, ◌≤◌, ◌≡◌, refl, sym, ap, ◌∙◌, Bool, true, false, Option, some, none, List,
  [], ◌∷◌, length, arith, ltb, Bool-cases, inl, inr, ◌==◌, if◌then◌else◌,
}
use qnx_lmbench_mods.Double.{Double}
use qnx_lmbench_mods.Harness.{put}
use qnx_lmbench_mods.Harness.Room.{insertsort-room}
use qnx_lmbench_mods.Results.{
  Table, Timing, insertinit, get_results, set_results, save_median, save_minimum, tries,
}
use qnx_lmbench_mods.Results.Choice.{save_minimum-reads}
use qnx_lmbench_mods.Parent.Launch.{short}
use qnx_lmbench_mods.Calibrate.{
  Calibration, time_tries, time_N, is_close, is_off, next_work, find_tries, find_N, check_points,
  test_time, first_accurate, possibilities, compute_enough, init_timing, get_enough, test_points,
}

module _ (d : Double) (spent : ℕ → ℕ → ℕ) (r : ℕ) where
  -- The table of `time_N` has room for `TRIES` measurements.
  unfoldable pub Roomy : Calibration → Type 0
  Roomy c = tries ≤ length (c.timing.tables r).v

  put_at : (t : Table) (x : Timing) → (put r t x).tables r ≡ t
  put_at t x = let here : (r == r) ≡ true = ground arith in rw here refl

  time_tries-runs :
      (left n : ℕ) (c : Calibration)
      → (c.timing.tables r).count + left ≤ length (c.timing.tables r).v
      → Roomy c
      → (c' : Calibration) × (time_tries d spent r left n c ≡ some c')
        × Roomy c'
        × (c'.done ≡ c.done)
  unfolding time_tries Roomy
  time_tries-runs zero n c room fits = (c, refl, fits, refl)
  time_tries-runs (suc left) n c room fits =
      let (t, entered, one, same) =
        insertsort-room d 0 (d.lit 0 1) (spent c.calls n) n (c.timing.tables r) (omega arith) in
      let c1 = record c { timing = put r t c.timing; calls = c.calls + 1 } in
      let now = put_at t c.timing in
      let count = ap (λ (x : Table). x.count) now in
      let len = ap (λ (x : Table). length x.v) now in
      let (c', run, fits', kept) =
        time_tries-runs left n c1 (omega (arith, count, len, one, same, room))
          (omega (arith, len, same, fits)) in
      (c', rw (time_tries, entered) run, fits', kept)

  time_N-runs :
      (n : ℕ) (c : Calibration)
      → Roomy c
      → (x : ℕ × Calibration) × (time_N d spent r n c ≡ some x) × Roomy x.1 × (x.1.done ≡ c.done)
  unfolding time_N Roomy set_results save_median insertinit
  time_N-runs n c fits =
      let start = record c { timing = put r (insertinit (c.timing.tables r)) c.timing } in
      let now = put_at (insertinit (c.timing.tables r)) c.timing in
      let count = ap (λ (x : Table). x.count) now in
      let len = ap (λ (x : Table). length x.v) now in
      let (c1, run, fits1, kept) =
        time_tries-runs (tries - 1) n start (omega (arith, count, len, fits))
          (omega (arith, len, fits)) in
      let chosen = set_results r c1.timing in
      let least = save_minimum chosen in
      let (u, read, tables, _) = save_minimum-reads chosen in
      let left = set_results (get_results c.timing) least in
      let same : length (left.tables r).v ≡ length (c1.timing.tables r).v =
        ap (λ (f : ℕ → Table). length (f r).v) tables in
      ((u, record c1 { timing = left }), rw (time_N, run, read) refl, rw same fits1, kept)

  find_tries-runs :
      (left enough : ℕ) (c : Calibration)
      → Roomy c
      → (x : ℕ × Calibration) × (find_tries d spent r left enough c ≡ some x)
        × Roomy x.1
        × (x.1.done ≡ c.done)
  unfolding find_tries Roomy
  find_tries-runs zero enough c fits = ((0, c), refl, fits, refl)
  find_tries-runs (suc left) enough c fits = elim (Bool-cases (is_close d spent r enough c.usecs)) [
    | inl close ↦ ((c.n, c), rw (close, find_tries) refl, fits, refl)
    | inr far ↦
        let n = next_work d spent r enough c.n c.usecs in
        let (timed, run, fits', kept) = time_N-runs n (record c { n = n }) fits in
        let (x, found, fits2, kept2) =
          find_tries-runs left enough (record timed.1 { usecs = timed.0 }) fits' in
        (x, rw (far, run, find_tries) found, fits2, kept2 ∙ kept)
  ]

  find_N-runs :
      (enough : ℕ) (c : Calibration)
      → Roomy c
      → (x : ℕ × Calibration) × (find_N d spent r enough c ≡ some x)
        × Roomy x.1
        × (x.1.done ≡ c.done)
  unfolding find_N Roomy
  find_N-runs enough c fits = elim (Bool-cases (c.usecs == 0)) [
    | inl first ↦
        let (timed, run, fits', kept) = time_N-runs c.n c fits in
        let (x, found, fits2, kept2) =
          find_tries-runs 10 enough (record timed.1 { usecs = timed.0 }) fits' in
        (x, rw (find_N, first, run) found, fits2, kept2 ∙ kept)
    | inr again ↦
        let (x, found, fits2, kept2) = find_tries-runs 10 enough c fits in
        (x, rw (find_N, again) found, fits2, kept2)
  ]

  check_points-runs :
      (points : List d.D) (n baseline : ℕ) (c : Calibration)
      → Roomy c
      → (x : Bool × Calibration) × (check_points d spent r points n baseline c ≡ some x)
        × Roomy x.1
        × (x.1.done ≡ c.done)
  unfolding check_points
  check_points-runs [] n baseline c fits = ((true, c), refl, fits, refl)
  check_points-runs (p ∷ points) n baseline c fits =
      let (timed, run, fits', kept) = time_N-runs (d.to_u64 (d.mul (d.of_u64 n) p)) c fits in
      let expected = d.to_u64 (d.mul (d.of_u64 baseline) p) in
      elim (Bool-cases (is_off d spent r expected timed.0)) [
        | inl off ↦ ((false, timed.1), rw (run, off, check_points) refl, fits', kept)
        | inr on ↦
            let (x, rest, fits2, kept2) = check_points-runs points n baseline timed.1 fits' in
            (x, rw (run, on, check_points) rest, fits2, kept2 ∙ kept)
      ]

  test_time-runs :
      (enough : ℕ) (c : Calibration)
      → Roomy c
      → (x : Bool × Calibration) × (test_time d spent r enough c ≡ some x)
        × Roomy x.1
        × (x.1.done ≡ c.done)
  unfolding test_time
  test_time-runs enough c fits =
      let (work, found, fits', kept) = find_N-runs enough c fits in
      elim (Bool-cases (work.0 == 0)) [
        | inl failed ↦ ((false, work.1), rw (test_time, found, failed) refl, fits', kept)
        | inr some_work ↦
            let (timed, run, fits2, kept2) = time_N-runs work.0 work.1 fits' in
            let (x, checked, fits3, kept3) =
              check_points-runs (test_points d spent r) work.0 timed.0 timed.1 fits2 in
            (x, rw (test_time, found, some_work, run) checked, fits3, kept3 ∙ kept2 ∙ kept)
      ]

  -- All intervals of a list lie between the least possibility and SHORT.
  abbrev Sensible : List ℕ → Type 0
  Sensible [] = Unit
  Sensible (x ∷ xs) = (5000 ≤ x) × (x ≤ short) × Sensible xs

  first_accurate-runs :
      (xs : List ℕ) (c : Calibration)
      → Sensible xs
      → Roomy c
      → (x : ℕ × Calibration) × (first_accurate d spent r xs c ≡ some x)
        × (5000 ≤ x.0)
        × (x.0 ≤ short)
        × (x.1.done ≡ c.done)
  unfolding first_accurate
  first_accurate-runs [] c ok fits = ((short, c), refl, omega arith, omega arith, refl)
  first_accurate-runs (x ∷ xs) c (lo, hi, ok) fits =
      let (verdict, run, fits', kept) = test_time-runs x c fits in
      elim (Bool-cases verdict.0) [
        | inl accurate ↦ ((x, verdict.1), rw (run, accurate, first_accurate) refl, lo, hi, kept)
        | inr inaccurate ↦
            let (y, rest, lo', hi', kept') = first_accurate-runs xs verdict.1 ok fits' in
            (y, rw (run, inaccurate, first_accurate) rest, lo', hi', kept' ∙ kept)
      ]

  -- Behind the first call nothing is computed any more.
  get_enough-done :
      (given : Option ℕ) (e : ℕ) (c : Calibration)
      → c.done ≡ true
      → get_enough d spent r given e c ≡ some (if ltb e c.long_enough then c.long_enough else e, c)
  unfolding get_enough init_timing
  get_enough-done given e c done =
      ap
        (λ b.
          elim (if b
              then some c
              else elim (compute_enough d spent r given (record c { done = true }))
                  as (λ _. Option Calibration) [
                    | none ↦ none
                    | some found ↦ some (record found.1 { long_enough = found.0 })
                  ])
            as (λ _. Option (ℕ × Calibration)) [
              | none ↦ none
              | some y ↦ some (if ltb e y.long_enough then y.long_enough else e, y)
            ])
        done

  longest :
      (e l : ℕ)
      → (if ltb (if ltb e l then l else e) l then l else (if ltb e l then l else e))
        ≡ (if ltb e l then l else e)
  longest e l = ground arith

  -- If the variable ENOUGH is not set and the table of `time_N` has room for `TRIES` measurements, the
  -- first call of `get_enough` comes to an end, whatever the clock shows: it computes an interval of
  -- 5000 microseconds at least and a second at most, and returns that or the interval asked for,
  -- whichever is longer. A later call returns the same way by the same interval and changes nothing, so
  -- that `get_enough` of its own result is that result.
  pub get_enough_settles :
      (e e' : ℕ) (c : Calibration)
      → Roomy c
      → c.done ≡ false
      → (c' : Calibration) × (get_enough d spent r none e c
          ≡ some (if ltb e c'.long_enough then c'.long_enough else e, c'))
        × (5000 ≤ c'.long_enough)
        × (c'.long_enough ≤ short)
        × (get_enough d spent r none e' c'
            ≡ some (if ltb e' c'.long_enough then c'.long_enough else e', c'))
        × (get_enough d spent r none (if ltb e c'.long_enough then c'.long_enough else e) c'
            ≡ get_enough d spent r none e c)
  unfolding get_enough init_timing compute_enough Roomy
  get_enough_settles e e' c fits fresh =
      let (x, run, lo, hi, kept) =
        first_accurate-runs (possibilities d spent r) (record c { done = true })
          (
            omega arith,
            omega arith,
            (omega arith, omega arith, (omega arith, omega arith, (omega arith, omega arith, tt))),
          )
          fits in
      let c' = record x.1 { long_enough = x.0 } in
      let first : init_timing d spent r none c ≡ some c' =
        ap
          (λ b.
            if b
            then some c
            else elim (compute_enough d spent r none (record c { done = true }))
                as (λ _. Option Calibration) [
                  | none ↦ none
                  | some found ↦ some (record found.1 { long_enough = found.0 })
                ])
          fresh
        ∙ ap
            (λ (o : Option (ℕ × Calibration)). elim o as (λ _. Option Calibration) [
              | none ↦ none
              | some found ↦ some (record found.1 { long_enough = found.0 })
            ])
            run in
      let longer = λ (a : ℕ). if ltb a x.0 then x.0 else a in
      let now : get_enough d spent r none e c ≡ some (longer e, c') =
        ap
          (λ (o : Option Calibration). elim o as (λ _. Option (ℕ × Calibration)) [
            | none ↦ none
            | some y ↦ some (if ltb e y.long_enough then y.long_enough else e, y)
          ])
          first in
      (
        c',
        now,
        lo,
        hi,
        get_enough-done none e' c' kept,
        get_enough-done none (longer e) c' kept ∙ ap (λ a. some (a, c')) (longest e x.0) ∙ sym now,
      )
