-- ===== src/Stats/Mean.antt =====
-- The mean of src/lib_stats.c, between the minimum and the maximum.
use native.Mathlib.Nat.{mod-eq_of_lt, le-div_iff_mul-le, div-le_of_le-mul}
use qnx_lmbench_mods.Base.{
  ℕ, ◌+◌, ◌*◌, ◌/◌, ◌%◌, ◌<◌, ◌≤◌, ◌≡◌, refl, ◌∙◌, false, some, List, [], ◌∷◌, length, ltb, ◌==◌,
  if◌then◌else◌, arith,
}
use qnx_lmbench_mods.Clock.{u64}
use qnx_lmbench_mods.Stats.{scan, first_least, uint64_min, uint64_max, uint64_sum, uint64_mean}

-- The sum, of any size.
unfoldable pub total : List ℕ → ℕ
total [] = 0
total (x ∷ xs) = x + total xs

uint64_sum-total :
    (sum : ℕ) (xs : List ℕ) → sum + total xs < u64 → uint64_sum sum xs ≡ sum + total xs
unfolding uint64_sum total
uint64_sum-total sum [] h = omega arith
uint64_sum-total sum (x ∷ xs) h =
    let small : (sum + x) % u64 ≡ sum + x = mod-eq_of_lt (omega arith) in
    rw small (uint64_sum-total (sum + x) xs (omega arith) ∙ omega arith)

-- The scans bound the sum.
scan_min-total :
    (best : ℕ) (xs : List ℕ) → (scan ltb best xs ≤ best) × (length xs * scan ltb best xs ≤ total xs)
unfolding scan total
scan_min-total best [] = (omega arith, omega arith)
scan_min-total best (x ∷ xs) =
    let b = if ltb x best then x else best in
    let (lo, sum) = scan_min-total b xs in
    let first : b ≤ best = ground arith in
    let second : b ≤ x = ground arith in (omega arith, omega (arith, sum))

scan_max-total :
    (best : ℕ) (xs : List ℕ)
    → (best ≤ scan (λ a b. ltb b a) best xs)
      × (total xs ≤ length xs * scan (λ a b. ltb b a) best xs)
unfolding scan total
scan_max-total best [] = (omega arith, omega arith)
scan_max-total best (x ∷ xs) =
    let b = if ltb best x then x else best in
    let (hi, sum) = scan_max-total b xs in
    let first : best ≤ b = ground arith in
    let second : x ≤ b = ground arith in (omega arith, omega (arith, sum))

-- If the sum of an array with values fits 64 bits, `uint64_mean` lies between `uint64_min` and
-- `uint64_max`.
pub uint64_mean-between :
    (x : ℕ) (xs : List ℕ)
    → total (x ∷ xs) < u64
    → (lo : ℕ) × (m : ℕ) × (hi : ℕ) × (uint64_min (x ∷ xs) ≡ some lo)
      × (uint64_mean (x ∷ xs) ≡ some m)
      × (uint64_max (x ∷ xs) ≡ some hi)
      × (lo ≤ m)
      × (m ≤ hi)
unfolding total uint64_min uint64_mean uint64_max first_least
uint64_mean-between x xs h =
    let (lo, below) = scan_min-total x xs in
    let (hi, above) = scan_max-total x xs in
    let sum : uint64_sum 0 (x ∷ xs) ≡ total (x ∷ xs) =
      uint64_sum-total 0 (x ∷ xs) (omega arith) ∙ omega arith in
    (
      scan ltb x xs,
      total (x ∷ xs) / length (x ∷ xs),
      scan (λ a b. ltb b a) x xs,
      refl,
      mean_of_sum sum,
      refl,
      (le-div_iff_mul-le {k = length (x ∷ xs)} (omega arith)).1 (omega (arith, below, lo)),
      div-le_of_le-mul (length (x ∷ xs)) (omega (arith, above, hi)),
    )
  where
    mean_of_sum :
        uint64_sum 0 (x ∷ xs) ≡ total (x ∷ xs)
        → uint64_mean (x ∷ xs) ≡ some (total (x ∷ xs) / length (x ∷ xs))
    mean_of_sum sum =
        let nonempty : (length (x ∷ xs) == 0) ≡ false = ground arith in rw (nonempty, sum)
