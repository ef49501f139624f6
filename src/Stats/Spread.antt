-- ===== src/Stats/Spread.antt =====
-- The spread of src/lib_stats.c: variance, moments, standard error, skew and kurtosis of arrays of `int`,
-- `uint64` and `double`, their bootstrap estimates, and the linear regression. The conversion of an `int`
-- to `double` and `sqrt` are parameters beside the type. The tables that `malloc` gives are there.
pub mod Wraps
use mathlib.Core.Option
use qnx_lmbench_mods.Base.{
  ℕ, zero, suc, ◌+◌, ◌-◌, ◌*◌, ◌%◌, Bool, true, false, if◌then◌else◌, Option, none, some, List, [],
  ◌∷◌, map, length, get_elem?,
}
use qnx_lmbench_mods.Base.Int.{ℤ, pos, ◌-ℤ◌, ◌*ℤ◌}
use qnx_lmbench_mods.Clock.{u64}
use qnx_lmbench_mods.Double.{Double}
use qnx_lmbench_mods.Stats.{uint64_mean, double_mean}
use qnx_lmbench_mods.Stats.Medians.{int_mean}

-- `values[i] - mean` in `uint64`, and its square.
unfoldable pub diff : (v mean : ℕ) → ℕ
diff v mean = (v + u64 - mean) % u64

unfoldable pub square_diff : (v mean : ℕ) → ℕ
square_diff v mean = diff v mean * diff v mean % u64

module _ (d : Double) (of_int : ℤ → d.D) (sqrt : d.D → d.D) where
  abbrev pub whole : ℕ → d.D
  whole n = d.lit n 1

  -- `for (i = 0; i < size; ++i) sum += …;`
  pub add_up : d.D → List d.D → d.D
  add_up sum [] = sum
  add_up sum (t ∷ ts) = add_up (d.add sum t) ts

  -- `sum / (double)(size - 1)`, `sum / (double)size`
  abbrev pub over_less_one : {A : Type 0} → List A → d.D → d.D
  over_less_one xs sum = d.div sum (of_int (pos (length xs) -ℤ pos 1))

  abbrev pub over_size : {A : Type 0} → List A → d.D → d.D
  over_size xs sum = d.div sum (of_int (pos (length xs)))

  pub int_variance : List ℤ → Option d.D
  int_variance xs =
      Option.map
        (λ mean.
          over_less_one xs (add_up (whole 0) (map (λ v. of_int ((v -ℤ mean) *ℤ (v -ℤ mean))) xs)))
        (int_mean xs)

  pub uint64_variance : List ℕ → Option d.D
  uint64_variance xs =
      Option.map
        (λ mean. over_less_one xs (add_up (whole 0) (map (λ v. d.of_u64 (square_diff v mean)) xs)))
        (uint64_mean xs)

  pub double_variance : List d.D → d.D
  double_variance xs =
      let mean = double_mean d xs in
      over_less_one xs (add_up (whole 0) (map (λ v. d.mul (d.sub v mean) (d.sub v mean)) xs))

  -- `for (j = 1; j < moment; ++j) m *= diff;`, with `left` rounds to go.
  pub power : (left : ℕ) (diff m : d.D) → d.D
  power zero diff m = m
  power (suc left) diff m = power left diff (d.mul m diff)

  abbrev pub moment_of : {A : Type 0} → (moment : ℕ) → List A → (A → d.D) → d.D
  moment_of moment xs diff =
      over_size xs (add_up (whole 0) (map (λ v. power (moment - 1) (diff v) (diff v)) xs))

  pub int_moment : (moment : ℕ) → List ℤ → Option d.D
  int_moment moment xs =
      Option.map (λ mean. moment_of moment xs (λ v. of_int (v -ℤ mean))) (int_mean xs)

  pub uint64_moment : (moment : ℕ) → List ℕ → Option d.D
  uint64_moment moment xs =
      Option.map (λ mean. moment_of moment xs (λ v. d.of_u64 (diff v mean))) (uint64_mean xs)

  pub double_moment : (moment : ℕ) → List d.D → d.D
  double_moment moment xs = let mean = double_mean d xs in moment_of moment xs (λ v. d.sub v mean)

  pub int_stderr : List ℤ → Option d.D
  int_stderr xs = Option.map sqrt (int_variance xs)

  pub uint64_stderr : List ℕ → Option d.D
  uint64_stderr xs = Option.map sqrt (uint64_variance xs)

  pub double_stderr : List d.D → d.D
  double_stderr xs = sqrt (double_variance xs)

  -- `moment3 / (sigma * sigma * sigma)`, `moment4 / (variance * variance) - 3`
  pub skew_of : (sigma moment3 : d.D) → d.D
  skew_of sigma moment3 = d.div moment3 (d.mul (d.mul sigma sigma) sigma)

  pub kurtosis_of : (variance moment4 : d.D) → d.D
  kurtosis_of variance moment4 = d.sub (d.div moment4 (d.mul variance variance)) (whole 3)

  abbrev both : (d.D → d.D → d.D) → Option d.D → Option d.D → Option d.D
  both f o p = elim o [ none ↦ none | some a ↦ Option.map (f a) p ]

  pub int_skew : List ℤ → Option d.D
  int_skew xs = both skew_of (int_stderr xs) (int_moment 3 xs)

  pub uint64_skew : List ℕ → Option d.D
  uint64_skew xs = both skew_of (uint64_stderr xs) (uint64_moment 3 xs)

  pub double_skew : List d.D → d.D
  double_skew xs = skew_of (double_stderr xs) (double_moment 3 xs)

  pub int_kurtosis : List ℤ → Option d.D
  int_kurtosis xs = both kurtosis_of (int_variance xs) (int_moment 4 xs)

  pub uint64_kurtosis : List ℕ → Option d.D
  uint64_kurtosis xs = both kurtosis_of (uint64_variance xs) (uint64_moment 4 xs)

  pub double_kurtosis : List d.D → d.D
  double_kurtosis xs = kurtosis_of (double_variance xs) (double_moment 4 xs)

  abbrev one : d.D
  one = whole 1

  -- The bootstrap: `i` counts the samples, of the values at `rand() % size` each. `rand` is what the k-th
  -- call gives; `stat` is the statistic of a sample.
  module _ {A : Type 0} (rand : ℕ → ℕ) (xs : List A) (stat : List A → d.D) where
    pub sample : (left calls : ℕ) → List A
    sample zero calls = []
    sample (suc left) calls = elim (get_elem? xs (rand calls % length xs)) [
      | none ↦ []
      | some v ↦ v ∷ sample left (calls + 1)
    ]

    pub samples : (left calls : ℕ) → List d.D
    samples zero calls = []
    samples (suc left) calls = stat (sample (length xs) calls) ∷ samples left (calls + length xs)

    pub bootstrap_stderr : d.D
    bootstrap_stderr =
        let s = samples 200 0 in
        let mean = d.div (add_up (whole 0) s) (whole 200) in
        let sum = add_up (whole 0) (map (λ t. d.mul (d.sub t mean) (d.sub t mean)) s) in
        sqrt (d.div sum (whole (200 - 1)))

  -- `regression(x, y, sig, n, …)`: its points, the sums of the first loop, and the result. The standard
  -- deviations are used only where they are `given`.
  pub record Point : Type 0 where
    pub x : d.D
    pub y : d.D
    pub sig : d.D

  pub record Sums : Type 0 where
    pub s : d.D
    pub sx : d.D
    pub sy : d.D

  pub record Fit : Type 0 where
    pub a : d.D
    pub b : d.D
    pub sig_a : d.D
    pub sig_b : d.D
    pub chi2 : d.D

  module _ (given : Bool) where
    abbrev sigma : Point → d.D
    sigma p = if given then p.sig else one

    pub weight : Point → d.D
    weight p = d.div one (if given then d.mul p.sig p.sig else one)

    pub sum_points : Sums → List Point → Sums
    sum_points t [] = t
    sum_points t (p ∷ ps) =
        sum_points
          (record {
            s = d.add t.s (weight p);
            sx = d.add t.sx (d.mul (weight p) p.x);
            sy = d.add t.sy (d.mul (weight p) p.y);
          })
          ps

    -- `Stt` and the sum for `*b`, for the mean `sx_s`.
    pub sum_slope : (sx_s stt b : d.D) → List Point → d.D × d.D
    sum_slope sx_s stt b [] = (stt, b)
    sum_slope sx_s stt b (p ∷ ps) =
        let t = d.div (d.sub p.x sx_s) (sigma p) in
        sum_slope sx_s (d.add stt (d.mul t t)) (d.add b (d.div (d.mul t p.y) (sigma p))) ps

    pub sum_merit : (a b chi2 : d.D) → List Point → d.D
    sum_merit a b chi2 [] = chi2
    sum_merit a b chi2 (p ∷ ps) =
        let merit = d.div (d.sub p.y (d.add a (d.mul b p.x))) (sigma p) in
        sum_merit a b (d.add chi2 (d.mul merit merit)) ps

    pub regression : List Point → Fit
    regression ps =
        let zero_d = whole 0 in
        let t = sum_points (record { s = zero_d; sx = zero_d; sy = zero_d }) ps in
        let (stt, sum) = sum_slope (d.div t.sx t.s) zero_d zero_d ps in
        let b = d.div sum stt in
        let a = d.div (d.sub t.sy (d.mul b t.sx)) t.s in
        let sig_a = sqrt (d.div (d.add one (d.div (d.mul t.sx t.sx) (d.mul t.s stt))) t.s) in
        let sig_b = sqrt (d.div one stt) in
        let chi2 = sum_merit a b zero_d ps in
        let spread = sqrt (d.div chi2 (of_int (pos (length ps) -ℤ pos 2))) in
        record {
          a = a;
          b = b;
          sig_a = if given then sig_a else d.mul sig_a spread;
          sig_b = if given then sig_b else d.mul sig_b spread;
          chi2 = chi2;
        }
