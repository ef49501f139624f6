-- ===== src/Lmdd/Histogram.antt =====
-- The histograms of src/lmdd.c: twelve counters for the times of reads or writes in milliseconds. An
-- `int` is an integer; the time of one read or write and the limits are far from its bounds.
pub mod Labels
pub mod Lost
pub mod Printed
pub mod Named
use qnx_lmbench_mods.Base.{
  ℕ, zero, suc, ◌+◌, ◌*◌, ◌/◌, Option, none, some, List, [], ◌∷◌, ◌++◌, get_or, set, ltb, ◌==◌,
  if◌then◌else◌,
}
use qnx_lmbench_mods.Base.Int.{ℤ, pos, pos_part, ◌+ℤ◌, ◌-ℤ◌, ltb_ℤ}

-- `step = (max - min) / 10`, where max is not below min.
unfoldable pub step_of : (max min : ℤ) → ℕ
step_of max min = pos_part (max -ℤ min) / 10

-- `for (i = 1; i <= 10; ++i) if (mills < i * step + min)`, with `left` rounds to go.
pub bucket_from : (left i step : ℕ) (mills min : ℤ) → Option ℕ
bucket_from zero i step mills min = none
bucket_from (suc left) i step mills min =
    if ltb_ℤ mills (pos (i * step) +ℤ min) then some i else bucket_from left (i + 1) step mills min

-- The counter that a time goes to, if any.
pub bucket : (mills max min : ℤ) → Option ℕ
unfolding step_of bucket_from
bucket mills max min =
    if ltb_ℤ mills max
    then (if ltb_ℤ mills min then some 0 else bucket_from 10 1 (step_of max min) mills min)
    else some 11

-- `hist[i]++`, where there is such a counter.
pub count_at : Option ℕ → List ℕ → List ℕ
count_at none hist = hist
count_at (some i) hist = set hist i (get_or hist i 0 + 1)

pub count_time : (mills max min : ℤ) → List ℕ → List ℕ
count_time mills max min hist = count_at (bucket mills max min) hist

-- A line of the histogram that `done` prints: the times that it says are counted, and their number. A
-- line "max+" has no upper end, a line "min-" no lower one.
pub data Line : Type 0 where
  below : (min : ℤ) (n : ℕ) → Line
  within : (first last : ℤ) (n : ℕ) → Line
  from : (max : ℤ) (n : ℕ) → Line

-- `for (i = 1, size = min; i <= 10; i++, size += step)`, with `left` rounds to go.
pub lines_from : (left i step : ℕ) (size : ℤ) → List ℕ → List Line
lines_from zero i step size hist = []
lines_from (suc left) i step size hist =
    let rest = lines_from left (i + 1) step (size +ℤ pos step) hist in
    if get_or hist i 0 == 0
    then rest
    else within size (size +ℤ pos step -ℤ pos 1) (get_or hist i 0) ∷ rest

-- The lines of one histogram.
pub print_lines : (max min : ℤ) → List ℕ → List Line
unfolding step_of lines_from
print_lines max min hist =
    let last = if get_or hist 11 0 == 0 then [] else from max (get_or hist 11 0) ∷ [] in
    let middle = lines_from 10 1 (step_of max min) min hist in
    let rest = middle ++ last in
    if get_or hist 0 0 == 0 then rest else below min (get_or hist 0 0) ∷ rest
