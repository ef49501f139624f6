-- ===== src/Sizes.antt =====
-- Sizes with a unit, as the options of the benchmarks give them: `last` and `bytes` of
-- src/lib_timing.c.
mod Tests
use qnx_lmbench_mods.Base.{
  ℕ, zero, suc, ◌*◌, ◌%◌, ◌^◌, Option, none, some, List, [], ◌∷◌, ◌==◌, if◌then◌else◌,
}
use qnx_lmbench_mods.Clock.{u64}

-- `last(s)`: the character before the NUL; `none` is the read before the start of an empty string.
pub last : List ℕ → Option ℕ
last [] = none
last (c ∷ []) = some c
last (c ∷ (c' ∷ s)) = last (c' ∷ s)

-- The `switch` on the unit: k, K, m, M, g, G.
pub scale : (unit n : ℕ) → ℕ
scale unit n =
    if unit == 107
    then n * 2 ^ 10 % u64
    else if unit == 75
    then n * 1000 % u64
    else if unit == 109
    then n * 2 ^ 20 % u64
    else if unit == 77
    then n * 1000000 % u64
    else if unit == 103
    then n * 2 ^ 30 % u64
    else if unit == 71
    then n * 1000000000 % u64
    else n

-- `bytes(s)`; `scan` is what `sscanf` reads as a number at the start of a string, if it reads one.
pub bytes : (scan : List ℕ → Option ℕ) (s : List ℕ) → Option ℕ
unfolding last scale
bytes scan s = elim (scan s) [
  | none ↦ some 0
  | some n ↦ elim (last s) [ none ↦ none | some unit ↦ some (scale unit n) ]
]
