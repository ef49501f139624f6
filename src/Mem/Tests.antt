-- ===== src/Mem/Tests.antt =====
-- Runs of the memory chains, and the theorems at concrete inputs.
use qnx_lmbench_mods.Base.{
  ℕ, ◌+◌, ◌-◌, ◌*◌, ◌/◌, ◌^◌, ◌<◌, ◌≡◌, refl, true, false, none, some, List, [], ◌∷◌, length, arith,
}
use mathlib.Core.List.{Perm}
use qnx_lmbench_mods.Mem.{
  at, Memory, write, overlaid, words_initialize, multiples, permutation, thrash_initialize_words,
}
use qnx_lmbench_mods.Mem.Words.{words_initialize_permutes, words_initialize_repeats}
use qnx_lmbench_mods.Mem.Shuffle.{permutation-perm}
use qnx_lmbench_mods.Mem.Chain.{follow}
use qnx_lmbench_mods.Mem.Thrash.{thrash_short_cycle}

abbrev blank : Memory
blank = λ x. 0

-- A store changes the pointers that begin in it, and those that end in it.
write-above : write blank 100 0x0807_0605_0403_0201 101 ≡ 0x0008_0706_0504_0302
unfolding overlaid
write-above = refl

write-below : write blank 100 0x0807_0605_0403_0201 98 ≡ 0x0605_0403_0201_0000
unfolding overlaid
write-below = refl

words_initialize-eight : words_initialize true 8 4 ≡ some (0 ∷ 16 ∷ 8 ∷ 24 ∷ 4 ∷ 20 ∷ 12 ∷ 28 ∷ [])
unfolding words_initialize
words_initialize-eight = refl

words_initialize-six : words_initialize true 6 4 ≡ some (0 ∷ 8 ∷ 4 ∷ 12 ∷ 0 ∷ 8 ∷ [])
unfolding words_initialize
words_initialize-six = refl

words_initialize_permutes_example :
    (ws : List ℕ) × (r : ℕ) × (words_initialize true (2 ^ 3) 4 ≡ some ws)
    × (length ws ≡ 2 ^ 3)
    × (r < 2 ^ 3)
    × (at ws 6 ≡ r * 4)
    × (at ws r ≡ 6 * 4)
words_initialize_permutes_example =
    words_initialize_permutes 3 4 6 (omega arith) (omega arith) (omega arith) (omega arith)
      (omega arith)

words_initialize_repeats_example :
    (ws : List ℕ) × (words_initialize true 6 4 ≡ some ws)
    × (length ws ≡ 6)
    × (at ws (1 + 2 ^ 2) ≡ at ws 1)
words_initialize_repeats_example =
    words_initialize_repeats 2 6 4 1 (omega arith) (omega arith) (omega arith) (omega arith)

-- A length of 48 lines: 16 loads lead back to the start.
thrash_short_cycle_example :
    (m' : Memory) × (n : ℕ) × (thrash_initialize_words true 3072 64 4096 blank ≡ some (m', 4096))
    × (n ≡ 3072 / 64 - 2 ^ 5)
    × (n + n < 3072 / 64)
    × (follow n m' 4096 ≡ 4096)
thrash_short_cycle_example =
    thrash_short_cycle 5 3072 64 4096 (omega arith) (omega arith) blank (omega arith) (omega arith)
      (omega arith) (omega arith)

permutation-perm_example :
    (xs : List ℕ) × ((permutation (λ i. i * 7 + 3) (λ a b. a + b) true 0 0 4 4096).0 ≡ some xs)
    × Perm xs (multiples 4 0 4096)
    × (permutation (λ i. i * 7 + 3) (λ a b. a + b) false 0 0 4 4096 ≡ (none, 0, 0))
permutation-perm_example = permutation-perm (λ i. i * 7 + 3) (λ a b. a + b) 0 0 4 4096
