-- ===== src/Base/Bits.antt =====
-- `bit_or` with a power of two below all ones of the other number: the way the sources set bits.
use Prim.Native.Nat.{max, bit_or, digits, bit_or-bitwise}
use native.Mathlib.Nat.{pow-suc}
use qnx_lmbench_mods.Base.{ℕ, zero, suc, ◌+◌, ◌*◌, ◌/◌, ◌%◌, ◌^◌, ◌≤◌, ◌≡◌, refl, ◌∙◌, arith}

-- One digit of an operation on digits whose end, once the first number has run out, goes digit by digit as well.
module _ (end : ℕ → ℕ) (on : ℕ → ℕ → ℕ)
    (goes_on : (y : ℕ) → end y ≡ end (y / 2) * 2 + on 0 (y % 2)) where
  pub lowest_digit :
      (left x y : ℕ)
      → digits end on (suc left) x y ≡ digits end on left (x / 2) (y / 2) * 2 + on (x % 2) (y % 2)
  lowest_digit left (suc x) y = refl
  lowest_digit zero zero y = goes_on y
  lowest_digit (suc left) zero y = goes_on y

lowest_of_or :
    (left x y : ℕ)
    → digits (λ y. y) max (suc left) x y
      ≡ digits (λ y. y) max left (x / 2) (y / 2) * 2 + max (x % 2) (y % 2)
lowest_of_or = lowest_digit (λ y. y) max (λ y. omega arith)

or_nothing : (left x : ℕ) → x ≤ left → digits (λ y. y) max left x 0 ≡ x
or_nothing zero x h = omega arith
or_nothing (suc left) x h =
    omega (arith, lowest_of_or left x 0, or_nothing left (x / 2) (omega arith))

or_one_bit :
    (left k q : ℕ)
    → q * 2 ^ suc k ≤ left
    → digits (λ y. y) max left (q * 2 ^ suc k) (2 ^ k) ≡ q * 2 ^ suc k + 2 ^ k
or_one_bit zero k q h = omega arith
or_one_bit (suc left) zero q h =
    let half : q * 2 ^ 1 / 2 ≡ q = omega arith in
    let rest : digits (λ y. y) max left (q * 2 ^ 1 / 2) (1 / 2) ≡ q =
      rw half (or_nothing left q (omega arith)) in
    omega (arith, lowest_of_or left (q * 2 ^ 1) 1, rest)
or_one_bit (suc left) (suc k) q h =
    let p = pow-suc 2 (suc k) in
    let p' = pow-suc 2 k in
    let even : q * 2 ^ suc (suc k) ≡ q * 2 ^ suc k * 2 = rw p (grind arith) in
    let half : q * 2 ^ suc (suc k) / 2 ≡ q * 2 ^ suc k = omega (arith, even) in
    let half' : 2 ^ suc k / 2 ≡ 2 ^ k = omega (arith, p') in
    let rest : digits (λ y. y) max left (q * 2 ^ suc (suc k) / 2) (2 ^ suc k / 2)
        ≡ q * 2 ^ suc k + 2 ^ k =
      rw (half, half') (or_one_bit left k q (omega (arith, even))) in
    omega (arith, lowest_of_or left (q * 2 ^ suc (suc k)) (2 ^ suc k), rest, even, p')

-- Setting a bit below all others adds its weight.
pub bit_or-pow : (k q : ℕ) → bit_or (q * 2 ^ suc k) (2 ^ k) ≡ q * 2 ^ suc k + 2 ^ k
bit_or-pow k q = bit_or-bitwise _ _ ∙ or_one_bit (q * 2 ^ suc k) k q (omega arith)
