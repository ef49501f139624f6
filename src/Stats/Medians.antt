-- ===== src/Stats/Medians.antt =====
-- The medians of src/lib_stats.c. `qsort` is a parameter: it returns the array in the order that its
-- comparison gives.
pub mod Middle
use qnx_lmbench_mods.Base.{
  ℕ, suc, ◌+◌, ◌-◌, ◌/◌, ◌%◌, Option, none, some, List, [], ◌∷◌, length, get_elem?, ◌==◌,
  if◌then◌else◌,
}
use qnx_lmbench_mods.Base.Int.{ℤ, pos, negsuc, ◌+ℤ◌, ◌-ℤ◌}
use qnx_lmbench_mods.Clock.{u64}
use qnx_lmbench_mods.Double.{Double}
use qnx_lmbench_mods.Stats.{int_compare, uint64_compare, double_compare}

-- The middle of a sorted array, or what `half` makes of the two values there. `none` is a read outside.
pub middle : {A : Type 0} → (nothing : A) (half : A → A → A) → List A → Option A
middle nothing half xs =
    let h = length xs / 2 in
    if length xs == 0
    then some nothing
    else if length xs % 2 == 1
    then get_elem? xs h
    else elim (get_elem? xs (h - 1)) [
      | none ↦ none
      | some a ↦ elim (get_elem? xs h) [ none ↦ none | some b ↦ some (half a b) ]
    ]

-- `n / k` of an int and a positive one: towards 0.
pub quot_int : ℤ → ℕ → ℤ
quot_int (pos n) k = pos (n / k)
quot_int (negsuc n) k = pos 0 -ℤ pos (suc n / k)

pub int_median : (qsort : (ℤ → ℤ → ℤ) → List ℤ → List ℤ) → List ℤ → Option ℤ
int_median qsort xs = middle (pos 0) (λ a b. quot_int (a +ℤ b) 2) (qsort int_compare xs)

pub uint64_median : (qsort : (ℕ → ℕ → ℤ) → List ℕ → List ℕ) → List ℕ → Option ℕ
uint64_median qsort xs = middle 0 (λ a b. (a + b) % u64 / 2) (qsort uint64_compare xs)

pub int_sum : ℤ → List ℤ → ℤ
int_sum sum [] = sum
int_sum sum (x ∷ xs) = int_sum (sum +ℤ x) xs

-- `int_mean(values, size)`; `none` is the division by zero.
pub int_mean : List ℤ → Option ℤ
int_mean xs = if length xs == 0 then none else some (quot_int (int_sum (pos 0) xs) (length xs))

module _ (d : Double) where
  pub double_median : (qsort : (d.D → d.D → ℤ) → List d.D → List d.D) → List d.D → Option d.D
  double_median qsort xs =
      middle (d.lit 0 1) (λ a b. d.div (d.add a b) (d.lit 2 1)) (qsort (double_compare d) xs)
