-- ===== src/Stats/Spread/Wraps.antt =====
-- The wrap-around of `uint64` in the variance and the moments of src/lib_stats.c.
use native.Mathlib.Decide.{dec_lt}
use native.Mathlib.Nat.{div-le_of_le-mul}
use qnx_lmbench_mods.Base.{
  ℕ, ◌+◌, ◌-◌, ◌*◌, ◌/◌, ◌%◌, ◌^◌, ◌<◌, ◌≤◌, ◌≡◌, refl, ap, ap₂, ◌∙◌, false, some, List, [], ◌∷◌,
  map, length, ltb, ◌==◌, if◌then◌else◌, arith,
}
use qnx_lmbench_mods.Base.Int.{ℤ}
use qnx_lmbench_mods.Clock.{u64}
use qnx_lmbench_mods.Double.{Double}
use qnx_lmbench_mods.Stats.{uint64_sum, uint64_mean}
use qnx_lmbench_mods.Stats.Spread.{
  diff, square_diff, whole, add_up, over_less_one, over_size, power, moment_of, uint64_variance,
  uint64_moment,
}

square_sum : (q g : ℕ) → (q + g) * (q + g) ≡ (q + 2 * g) * q + g * g
square_sum q g = grind arith

-- A value below the mean by `gap`, less than 2 ^ 32: its square in the variance is the square of `gap`,
-- as the multiples of 2 ^ 64 drop out; but the difference that the moments take to their powers is not
-- -`gap` but 2 ^ 64 - `gap`, far above 0.
below_mean :
    (v gap : ℕ)
    → 0 < gap
    → gap < 2 ^ 32
    → v + gap < u64
    → (square_diff v (v + gap) ≡ gap * gap) × (diff v (v + gap) ≡ u64 - gap)
unfolding square_diff diff
below_mean v gap p h k =
    let wrapped : (v + u64 - (v + gap)) % u64 ≡ u64 - gap = omega arith in
    let r : u64 - gap ≡ u64 - 2 * gap + gap = omega arith in
    let turn : u64 - 2 * gap + 2 * gap ≡ u64 = omega arith in
    let small : gap * gap < u64 = grind arith in
    (rw wrapped (rw (r, square_sum (u64 - 2 * gap) gap, turn) (omega (arith, small))), wrapped)

-- The distance of two numbers.
abbrev pub gap : ℕ → ℕ → ℕ
gap v m = (v - m) + (m - v)

-- All values fit 32 bits.
abbrev pub AllSmall : List ℕ → Type 0
AllSmall [] = Unit
AllSmall (x ∷ xs) = (x < 2 ^ 32) × AllSmall xs

square_diff-gap : (v m : ℕ) → v < 2 ^ 32 → m < 2 ^ 32 → square_diff v m ≡ gap v m * gap v m
unfolding square_diff diff
square_diff-gap v m hv hm = elim (dec_lt v m) [
  | yes less ↦
      let d : gap v m ≡ m - v = omega arith in
      let e : m ≡ v + (m - v) = omega arith in
      let (square, _) = below_mean v (m - v) (omega arith) (omega arith) (omega arith) in
      ap (square_diff v) e ∙ square ∙ rw d refl
  | no more ↦
      let d : gap v m ≡ v - m = omega arith in
      let r : (v + u64 - m) % u64 ≡ v - m = omega arith in
      let g = v - m in let small : g * g < u64 = grind arith in rw (r, d) (omega (arith, small))
]

diff-gap :
    (v m : ℕ) → v < 2 ^ 32 → m < 2 ^ 32 → diff v m ≡ (if ltb v m then u64 - gap v m else gap v m)
unfolding diff
diff-gap v m hv hm = ground arith

-- The sum, wrapped or not, is at most that many times the greatest 32-bit number.
uint64_sum-le :
    (sum : ℕ) (xs : List ℕ) → AllSmall xs → uint64_sum sum xs ≤ sum + length xs * (2 ^ 32 - 1)
unfolding uint64_sum
uint64_sum-le sum [] h = omega arith
uint64_sum-le sum (x ∷ xs) h = omega (arith, uint64_sum-le ((sum + x) % u64) xs h.1, h.0)

uint64_mean-small :
    (x : ℕ) (xs : List ℕ)
    → AllSmall (x ∷ xs)
    → (m : ℕ) × (uint64_mean (x ∷ xs) ≡ some m) × (m < 2 ^ 32)
unfolding uint64_mean
uint64_mean-small x xs h =
    let sum = uint64_sum-le 0 (x ∷ xs) h in
    let most : uint64_sum 0 (x ∷ xs) / length (x ∷ xs) ≤ 2 ^ 32 - 1 =
      div-le_of_le-mul (length (x ∷ xs)) (omega (arith, sum)) in
    (
      uint64_sum 0 (x ∷ xs) / length (x ∷ xs),
      (let some_value : (length (x ∷ xs) == 0) ≡ false = ground arith in rw some_value refl),
      omega (arith, most),
    )

map_small :
    {B : Type 0} (f g : ℕ → B) (xs : List ℕ)
    → AllSmall xs
    → ((v : ℕ) → v < 2 ^ 32 → f v ≡ g v)
    → map f xs ≡ map g xs
map_small f g [] h e = refl
map_small {B} f g (x ∷ xs) h e =
    ap₂ (λ (b : B) (l : List B). b ∷ l) (e x h.0) (map_small f g xs h.1 e)

module _ (d : Double) (of_int : ℤ → d.D) (sqrt : d.D → d.D) where
  -- Of an array with values, all of 32 bits, `uint64_mean` is some number of 32 bits; `uint64_variance`
  -- adds up the squares of the distances from it, although the differences wrap around below it; but
  -- `uint64_moment` takes for every value below it the power of 2 ^ 64 less the distance, and not of the
  -- negative distance.
  pub variance_and_moment :
      (moment x : ℕ) (xs : List ℕ)
      → AllSmall (x ∷ xs)
      → (m : ℕ) × (uint64_mean (x ∷ xs) ≡ some m)
        × (m < 2 ^ 32)
        × (uint64_variance d of_int sqrt (x ∷ xs)
            ≡ some (
                over_less_one d of_int sqrt (x ∷ xs) (
                  add_up d of_int sqrt
                    (whole d of_int sqrt 0)
                    (map (λ v. d.of_u64 (gap v m * gap v m)) (x ∷ xs)))))
        × (uint64_moment d of_int sqrt moment (x ∷ xs)
            ≡ some (
                moment_of d of_int sqrt moment
                  (x ∷ xs)
                  (λ v. d.of_u64 (if ltb v m then u64 - gap v m else gap v m))))
  unfolding uint64_variance uint64_moment
  variance_and_moment moment x xs h =
      let (m, mean, small) = uint64_mean-small x xs h in
      let raised = λ (t : d.D). power d of_int sqrt (moment - 1) t t in
      (
        m,
        mean,
        small,
        rw mean (
            ap
              (λ (l : List d.D). some (
                over_less_one d of_int sqrt (x ∷ xs)
                  (add_up d of_int sqrt (whole d of_int sqrt 0) l)))
              (map_small (λ v. d.of_u64 (square_diff v m)) (λ v. d.of_u64 (gap v m * gap v m))
                (x ∷ xs) h (λ v hv. ap d.of_u64 (square_diff-gap v m hv small)))),
        rw mean (
            ap
              (λ (l : List d.D).
                some (
                  over_size d of_int sqrt (x ∷ xs)
                    (add_up d of_int sqrt (whole d of_int sqrt 0) l)))
              (map_small (λ v. raised (d.of_u64 (diff v m)))
                (λ v. raised (d.of_u64 (if ltb v m then u64 - gap v m else gap v m))) (x ∷ xs) h
                (λ v hv. ap (λ (k : ℕ). raised (d.of_u64 k)) (diff-gap v m hv small)))),
      )
