-- ===== src/Base/Masks.antt =====
-- `bit_and` with a mask that clears the lowest bits: the way the sources round down to a power of two.
use Prim.Native.Nat.{min, bit_and, digits, bit_and-bitwise}
use native.Mathlib.Nat.{pow-suc, div-div-eq-div-mul}
use qnx_lmbench_mods.Base.{
  ℕ, zero, suc, ◌+◌, ◌-◌, ◌*◌, ◌/◌, ◌%◌, ◌^◌, ◌≤◌, ◌<◌, ◌≡◌, ap, ◌∙◌, arith,
}
use qnx_lmbench_mods.Base.Bits.{lowest_digit}

lowest_of_and :
    (left x y : ℕ)
    → digits (λ y. 0) min (suc left) x y
      ≡ digits (λ y. 0) min left (x / 2) (y / 2) * 2 + min (x % 2) (y % 2)
lowest_of_and = lowest_digit (λ y. 0) min (λ y. omega arith)

pub pow_pos : (w : ℕ) → 0 < 2 ^ w
pow_pos zero = omega arith
pow_pos (suc w) = omega (arith, pow-suc 2 w, pow_pos w)

-- All ones keep a number.
and_ones : (left w x : ℕ) → x ≤ left → x < 2 ^ w → digits (λ y. 0) min left x (2 ^ w - 1) ≡ x
and_ones zero w x h lt = omega arith
and_ones (suc left) zero x h lt =
    omega (arith, lowest_of_and left x 0, and_ones left 0 (x / 2) (omega arith) (omega arith))
and_ones (suc left) (suc w) x h lt =
    let p = pow-suc 2 w in
    let half : (2 ^ suc w - 1) / 2 ≡ 2 ^ w - 1 = omega (arith, p) in
    let rest : digits (λ y. 0) min left (x / 2) ((2 ^ suc w - 1) / 2) ≡ x / 2 =
      rw half (and_ones left w (x / 2) (omega arith) (omega (arith, p))) in
    omega (arith, p, pow_pos w, lowest_of_and left x (2 ^ suc w - 1), rest)

and_high :
    (left k w x : ℕ)
    → x ≤ left
    → x < 2 ^ k * 2 ^ w
    → digits (λ y. 0) min left x (2 ^ k * (2 ^ w - 1)) ≡ x / 2 ^ k * 2 ^ k
and_high left zero w x h lt =
    let e : 2 ^ 0 * (2 ^ w - 1) ≡ 2 ^ w - 1 = omega arith in
    rw e (and_ones left w x h (omega arith) ∙ omega arith)
and_high zero (suc k) w x h lt =
    let z : x ≡ 0 = omega arith in
    let none_left : 0 / 2 ^ suc k ≡ 0 = omega (arith, pow_pos (suc k)) in
    rw (z, none_left) (omega arith)
and_high (suc left) (suc k) w x h lt =
    let p = pow-suc 2 k in
    let mask : 2 ^ suc k * (2 ^ w - 1) ≡ 2 ^ k * (2 ^ w - 1) * 2 = rw p (grind arith) in
    let range : 2 ^ suc k * 2 ^ w ≡ 2 ^ k * 2 ^ w * 2 = rw p (grind arith) in
    let half : 2 ^ k * (2 ^ w - 1) * 2 / 2 ≡ 2 ^ k * (2 ^ w - 1) = omega arith in
    let rest : digits (λ y. 0) min left (x / 2) (2 ^ k * (2 ^ w - 1) * 2 / 2)
        ≡ x / 2 / 2 ^ k * 2 ^ k =
      rw half (and_high left k w (x / 2) (omega arith) (omega (arith, range))) in
    let quarters : x / 2 / 2 ^ k ≡ x / 2 ^ suc k =
      div-div-eq-div-mul x 2 (2 ^ k) ∙ ap (λ (n : ℕ). x / n) (omega (arith, p)) in
    let doubled : x / 2 ^ suc k * 2 ^ suc k ≡ x / 2 / 2 ^ k * 2 ^ k * 2 =
      rw (← quarters, p) (grind arith) in
    let step = lowest_of_and left x (2 ^ k * (2 ^ w - 1) * 2) in
    rw mask (omega (arith, step, rest, doubled))

-- Zeros below ones round down.
pub bit_and-mask :
    (k w x : ℕ) → x < 2 ^ k * 2 ^ w → bit_and x (2 ^ k * (2 ^ w - 1)) ≡ x / 2 ^ k * 2 ^ k
bit_and-mask k w x lt = bit_and-bitwise _ _ ∙ and_high x k w x (omega arith) lt
