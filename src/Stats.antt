-- ===== src/Stats.antt =====
-- src/lib_stats.c: comparison, mean, minimum and maximum of arrays of `int`, `uint64` and `double`.
-- An array is the list of its values, and `size` its length. The sum of `int` values stays within an
-- `int` in the model.
pub mod Extremes
pub mod Mean
pub mod Medians
pub mod Spread
mod Tests
use qnx_lmbench_mods.Base.{
  ℕ, ◌+◌, ◌/◌, ◌%◌, Bool, true, false, Option, none, some, List, [], ◌∷◌, length, ltb, ◌==◌,
  if◌then◌else◌,
}
use qnx_lmbench_mods.Base.Int.{ℤ, pos, negsuc, ltb_ℤ}
use qnx_lmbench_mods.Clock.{u64}
use qnx_lmbench_mods.Double.{Double}

module _ {A : Type 0} (less : A → A → Bool) where
  -- `if (a < b) return -1; if (a > b) return 1; return 0;`
  unfoldable pub compare_by : A → A → ℤ
  compare_by a b = if less a b then negsuc 0 else (if less b a then pos 1 else pos 0)

  -- `for (i = 1; i < size; ++i) if (values[i] < min) min = values[i];`
  unfoldable pub scan : A → List A → A
  scan best [] = best
  scan best (x ∷ xs) = scan (if less x best then x else best) xs

  -- The scan from `values[0]` on; `none` is its read where there is no value.
  unfoldable pub first_least : List A → Option A
  first_least [] = none
  first_least (x ∷ xs) = some (scan x xs)

unfoldable pub int_compare : ℤ → ℤ → ℤ
int_compare = compare_by ltb_ℤ

unfoldable pub uint64_compare : ℕ → ℕ → ℤ
uint64_compare = compare_by ltb

unfoldable pub int_min : List ℤ → Option ℤ
int_min = first_least ltb_ℤ

unfoldable pub int_max : List ℤ → Option ℤ
int_max = first_least (λ a b. ltb_ℤ b a)

unfoldable pub uint64_min : List ℕ → Option ℕ
uint64_min = first_least ltb

unfoldable pub uint64_max : List ℕ → Option ℕ
uint64_max = first_least (λ a b. ltb b a)

-- `for (i = 0; i < size; ++i) sum += values[i];` in `uint64`.
unfoldable pub uint64_sum : ℕ → List ℕ → ℕ
uint64_sum sum [] = sum
uint64_sum sum (x ∷ xs) = uint64_sum ((sum + x) % u64) xs

-- `uint64_mean(values, size)`; `none` is the division by zero.
unfoldable pub uint64_mean : List ℕ → Option ℕ
uint64_mean xs = if length xs == 0 then none else some (uint64_sum 0 xs / length xs)

module _ (d : Double) where
  pub double_compare : d.D → d.D → ℤ
  double_compare = compare_by d.less

  pub double_min : List d.D → Option d.D
  double_min = first_least d.less

  pub double_max : List d.D → Option d.D
  double_max = first_least (λ a b. d.less b a)

  pub double_sum : d.D → List d.D → d.D
  double_sum sum [] = sum
  double_sum sum (x ∷ xs) = double_sum (d.add sum x) xs

  pub double_mean : List d.D → d.D
  unfolding double_sum
  double_mean xs = d.div (double_sum (d.lit 0 1) xs) (d.of_u64 (length xs))
