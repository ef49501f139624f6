-- ===== src/BitReverse/Laws.antt =====
-- The loops of src/lib_mem.c and src/lib_sched.c that count and reverse bits, against a reversal by
-- halving.
use mathlib.Core.Logic.{dif_pos, dif_neg}
use native.Mathlib.Bridge.{le_prop}
use mathlib.Core.WellFounded.{Acc}
use native.Mathlib.Decide.{dec_lt}
use native.Mathlib.Nat.{pow-suc, one-le-pow, div-div-eq-div-mul, div-one}
use qnx_lmbench_mods.Base.{
  ℕ, subst, zero, suc, ◌+◌, ◌-◌, ◌*◌, ◌/◌, ◌%◌, ◌^◌, ◌≤◌, ◌<◌, ◌≡◌, refl, sym, ap, ◌∙◌, inl, inr,
  Bool-cases, arith,
}
use qnx_lmbench_mods.Base.Bits.{bit_or-pow}
use qnx_lmbench_mods.Base.Order.{lt_wf}
use qnx_lmbench_mods.BitReverse.{count_bits, nbits_of, has_bit, reverse_loop}

-- The lowest `k` bits of a number, in reverse.
unfoldable pub reverse_bits : ℕ → ℕ → ℕ
reverse_bits zero i = 0
reverse_bits (suc k) i = i % 2 * 2 ^ k + reverse_bits k (i / 2)

pub reverse_bits-lt : (k i : ℕ) → reverse_bits k i < 2 ^ k
unfolding reverse_bits
reverse_bits-lt zero i = omega arith
reverse_bits-lt (suc k) i =
    let small : i % 2 * 2 ^ k ≤ 2 ^ k = grind arith in
    omega (arith, reverse_bits-lt k (i / 2), pow-suc 2 k, small)

pub reverse_bits_zero : (k : ℕ) → reverse_bits k 0 ≡ 0
unfolding reverse_bits
reverse_bits_zero zero = refl
reverse_bits_zero (suc k) = omega (arith, reverse_bits_zero k)

-- Bits from the `k`-th on play no part.
pub reverse_bits_periodic : (k i : ℕ) → reverse_bits k (i + 2 ^ k) ≡ reverse_bits k i
unfolding reverse_bits
reverse_bits_periodic zero i = refl
reverse_bits_periodic (suc k) i =
    let p = pow-suc 2 k in
    let low : (i + 2 ^ suc k) % 2 ≡ i % 2 = rw p (omega arith) in
    let high : (i + 2 ^ suc k) / 2 ≡ i / 2 + 2 ^ k = rw p (omega arith) in
    rw (low, high) (ap (λ r. i % 2 * 2 ^ k + r) (reverse_bits_periodic k (i / 2)))

-- The highest bit comes out lowest.
reverse_bits_top :
    (k x y : ℕ)
    → x < 2
    → y < 2 ^ k
    → reverse_bits (suc k) (x * 2 ^ k + y) ≡ 2 * reverse_bits k y + x
unfolding reverse_bits
reverse_bits_top zero x y hx hy = omega arith
reverse_bits_top (suc k) x y hx hy =
    let p = pow-suc 2 k in
    let low : (x * 2 ^ suc k + y) % 2 ≡ y % 2 = rw p (omega arith) in
    let high : (x * 2 ^ suc k + y) / 2 ≡ x * 2 ^ k + y / 2 = rw p (omega arith) in
    let top = reverse_bits_top k x (y / 2) hx (omega arith) in
    rw (low, high) (omega (arith, top, p, ap (λ t. y % 2 * t) p))

-- Reversing twice gives the number back.
pub reverse_bits_involutive : (k i : ℕ) → i < 2 ^ k → reverse_bits k (reverse_bits k i) ≡ i
unfolding reverse_bits
reverse_bits_involutive zero i h = omega arith
reverse_bits_involutive (suc k) i h =
    let top =
      reverse_bits_top k (i % 2) (reverse_bits k (i / 2)) (omega arith)
        (reverse_bits-lt k (i / 2)) in
    top ∙ omega (arith, pow-suc 2 k, reverse_bits_involutive k (i / 2) (omega (arith, pow-suc 2 k)))

count_bits_zero : (i nbits : ℕ) (w : Acc ◌<◌ i) → i ≡ 0 → count_bits i nbits w ≡ nbits
unfolding count_bits
count_bits_zero i nbits (Acc.intro _ smaller) e = dif_neg (dec_lt 0 i) (omega arith) _ _

count_bits_step :
    (i nbits : ℕ) (w : Acc ◌<◌ i)
    → 0 < i
    → (w' : Acc ◌<◌ (i / 2)) × (count_bits i nbits w ≡ count_bits (i / 2) (nbits + 1) w')
unfolding count_bits
count_bits_step i nbits (Acc.intro _ smaller) h =
    (smaller (i / 2) (omega arith), dif_pos (dec_lt 0 i) le_prop h _ _)

count_bits_lem :
    (k i nbits : ℕ) (w : Acc ◌<◌ i)
    → 2 ^ k ≤ i
    → i < 2 ^ suc k
    → count_bits i nbits w ≡ nbits + suc k
count_bits_lem zero i nbits w lo hi =
    let (w', step) = count_bits_step i nbits w (omega arith) in
    step ∙ count_bits_zero (i / 2) (nbits + 1) w' (omega arith) ∙ omega arith
count_bits_lem (suc k) i nbits w lo hi =
    let p = pow-suc 2 k in
    let p' = pow-suc 2 (suc k) in
    let pos = one-le-pow k 2 (omega arith) in
    let (w', step) = count_bits_step i nbits w (omega (arith, p, pos)) in
    step
    ∙ count_bits_lem k (i / 2) (nbits + 1) w' (omega (arith, p)) (omega (arith, p'))
    ∙ omega arith

-- The number of bits of a number between two powers of two.
pub nbits_of_lem : (k i nbits : ℕ) → 2 ^ k ≤ i → i < 2 ^ suc k → nbits_of i nbits ≡ nbits + suc k
unfolding nbits_of
nbits_of_lem k i nbits = count_bits_lem k i nbits (lt_wf.apply i)

pub nbits_of-zero : (nbits : ℕ) → nbits_of 0 nbits ≡ nbits
unfolding nbits_of
nbits_of-zero nbits = count_bits_zero 0 nbits (lt_wf.apply 0) refl

-- The loop that the sources run adds the reversed bits below those that are set.
pub reverse_loop_lem :
    (left j nbits i q : ℕ)
    → j + left ≡ nbits
    → reverse_loop left j nbits i (q * 2 ^ left) ≡ q * 2 ^ left + reverse_bits left (i / 2 ^ j)
unfolding reverse_loop reverse_bits
reverse_loop_lem zero j nbits i q e = omega arith
reverse_loop_lem (suc left) j nbits i q e =
    let b : nbits - j - 1 ≡ left = omega arith in
    let p = pow-suc 2 left in
    let half : i / 2 ^ (j + 1) ≡ i / 2 ^ j / 2 = power_half in
    elim (Bool-cases (has_bit i j)) [
      | inl set ↦
          let one : i / 2 ^ j % 2 ≡ 1 = ground arith in
          let more : q * 2 ^ suc left + 2 ^ left ≡ (q * 2 + 1) * 2 ^ left = rw p (omega arith) in
          rw (set, b, bit_or-pow left q, more)
            (reverse_loop_lem left (j + 1) nbits i (q * 2 + 1) (omega arith)
              ∙ rw (half, one) (omega (arith, more)))
      | inr clear ↦
          let none : i / 2 ^ j % 2 ≡ 0 = ground arith in
          let same : q * 2 ^ suc left ≡ q * 2 * 2 ^ left = rw p (omega arith) in
          rw (clear, same)
            (reverse_loop_lem left (j + 1) nbits i (q * 2) (omega arith)
              ∙ rw (half, none) (omega arith))
    ]
  where
    power_half : i / 2 ^ (j + 1) ≡ i / 2 ^ j / 2
    power_half =
        let s : j + 1 ≡ suc j = omega arith in
        rw (s, pow-suc 2 j) (sym (div-div-eq-div-mul i (2 ^ j) 2))

-- The whole reversal, from an empty word.
pub reverse_loop-whole : (nbits i : ℕ) → reverse_loop nbits 0 nbits i 0 ≡ reverse_bits nbits i
reverse_loop-whole nbits i =
    let z : 0 * 2 ^ nbits ≡ 0 = omega arith in
    let d : i / 2 ^ 0 ≡ i = div-one i in
    subst (λ w. reverse_loop nbits 0 nbits i w ≡ w + reverse_bits nbits (i / 2 ^ 0)) z
      (reverse_loop_lem nbits 0 nbits i 0 (omega arith))
    ∙ rw d (omega arith)
