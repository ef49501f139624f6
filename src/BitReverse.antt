-- ===== src/BitReverse.antt =====
-- The bit reversal that `words_initialize` of src/lib_mem.c and `reverse_bits` of src/lib_sched.c are
-- made of: counting the bits of a size, and reversing that many bits of an index. The C code shifts an
-- `int`, so the model stands for widths of at most 31 bits: the greatest shift of 1 is then by 30.
pub mod Laws
use Prim.Native.Nat.{bit_or}
use mathlib.Core.Logic.{dite}
use mathlib.Core.WellFounded.{Acc}
use native.Mathlib.Decide.{dec_lt}
use qnx_lmbench_mods.Base.{
  ℕ, zero, suc, ◌+◌, ◌-◌, ◌*◌, ◌/◌, ◌%◌, ◌^◌, ◌<◌, Bool, arith, ◌==◌, if◌then◌else◌,
}
use qnx_lmbench_mods.Base.Order.{lt_wf}

-- `for (; i != 0; i >>= 1, nbits++) ;`
pub count_bits : (i nbits : ℕ) → Acc ◌<◌ i → ℕ
count_bits i nbits (Acc.intro _ smaller) =
    dite (dec_lt 0 i) (λ h. count_bits (i / 2) (nbits + 1) (smaller (i / 2) (omega arith)))
      (λ _. nbits)

-- The bits of `i` besides those that `nbits` counts already.
unfoldable pub nbits_of : ℕ → ℕ → ℕ
unfolding count_bits lt_wf dec_lt
nbits_of i nbits = count_bits i nbits (lt_wf.apply i)

-- `i & (1<<j)`
abbrev pub has_bit : ℕ → ℕ → Bool
has_bit i j = i / 2 ^ j % 2 == 1

-- `for (; j < nbits; j++) if (i & (1<<j)) w |= (1<<(nbits-j-1));`, with `left` rounds to go.
unfoldable pub reverse_loop : (left j nbits i w : ℕ) → ℕ
reverse_loop zero j nbits i w = w
reverse_loop (suc left) j nbits i w =
    reverse_loop left (j + 1) nbits i (if has_bit i j then bit_or w (2 ^ (nbits - j - 1)) else w)
