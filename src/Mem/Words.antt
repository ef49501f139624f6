-- ===== src/Mem/Words.antt =====
-- What `words_initialize` of src/lib_mem.c returns, for every size.
use native.Mathlib.Nat.{pow-suc, one-le-pow, mod-eq_of_lt, mul-lt-mul_of_pos_right}
use qnx_lmbench_mods.Base.{
  ℕ, zero, suc, ◌+◌, ◌*◌, ◌/◌, ◌%◌, ◌^◌, ◌≤◌, ◌<◌, ◌≡◌, refl, sym, subst, ap, ◌∙◌, true, some, List,
  length, arith,
}
use qnx_lmbench_mods.BitReverse.{nbits_of}
use qnx_lmbench_mods.BitReverse.Laws.{
  reverse_bits, reverse_bits-lt, reverse_bits_periodic, reverse_bits_involutive, nbits_of_lem,
  nbits_of-zero, reverse_loop-whole,
}
use qnx_lmbench_mods.Mem.{size_max, at, words_loop, words_initialize}

length-words_loop : (left i nbits scale : ℕ) → length (words_loop left i nbits scale) ≡ left
unfolding words_loop
length-words_loop zero i nbits scale = refl
length-words_loop (suc left) i nbits scale = ap suc (length-words_loop left (i + 1) nbits scale)

at-words_loop :
    (left i j nbits scale : ℕ)
    → j < left
    → at (words_loop left i nbits scale) j ≡ reverse_bits nbits (i + j) * scale % size_max
unfolding words_loop
at-words_loop zero i j nbits scale h = absurd (omega arith)
at-words_loop (suc left) i zero nbits scale h =
    let z : i + 0 ≡ i = omega arith in rw (reverse_loop-whole, z)
at-words_loop (suc left) i (suc j) nbits scale h =
    let s : i + suc j ≡ i + 1 + j = omega arith in
    rw s (at-words_loop left (i + 1) j nbits scale (omega arith))

-- The width that the code counts for a size from 2 ^ k on, below 2 ^ (k + 1).
nbits-max : (k max : ℕ) → 2 ^ k ≤ max → max < 2 ^ suc k → nbits_of (max / 2) 0 ≡ k
nbits-max zero max lo hi = let z : max / 2 ≡ 0 = omega arith in rw z (nbits_of-zero 0)
nbits-max (suc k) max lo hi =
    nbits_of_lem k (max / 2) 0 (omega (arith, pow-suc 2 k)) (omega (arith, pow-suc 2 (suc k)))
    ∙ omega arith

-- The words of a size from 2 ^ k on, below 2 ^ (k + 1): the reversal of k bits.
pub words : ℕ → ℕ → ℕ → List ℕ
words k max scale = words_loop max 0 k scale

pub words_initialize-words :
    (k max scale : ℕ)
    → 2 ^ k ≤ max
    → max < 2 ^ suc k
    → words_initialize true max scale ≡ some (words k max scale)
unfolding words_initialize words
words_initialize-words k max scale lo hi =
    ap (λ n. some (words_loop max 0 n scale)) (nbits-max k max lo hi)

module _ (k max scale : ℕ) where
  pub length-words : length (words k max scale) ≡ max
  unfolding words
  length-words = length-words_loop max 0 k scale

  pub at-words : (i : ℕ) → i < max → at (words k max scale) i ≡ reverse_bits k i * scale % size_max
  unfolding words
  at-words i h =
      let z : 0 + i ≡ i = omega arith in
      subst (λ n. at (words_loop max 0 k scale) i ≡ reverse_bits k n * scale % size_max) z
        (at-words_loop max 0 i k scale h)

  -- Behind the greatest power of two in `max`, the words of the start come again.
  pub words_repeat :
      (i : ℕ) → i + 2 ^ k < max → at (words k max scale) (i + 2 ^ k) ≡ at (words k max scale) i
  words_repeat i h =
      at-words (i + 2 ^ k) h
      ∙ ap (λ r. r * scale % size_max) (reverse_bits_periodic k i)
      ∙ sym (at-words i (omega arith))

-- If the size is a power of two, at most 2 ^ 31 for the shifts of an `int`, whose words fit 64 bits, the
-- scale is positive and fits an `int`, and `malloc` gives memory, `words_initialize` succeeds and its words
-- are the multiples of `scale` below `max * scale`, each once: the word at `i` is a multiple, by a
-- number below `max`, and the multiple by `i` is the word at that number.
pub words_initialize_permutes :
    (k scale i : ℕ)
    → 2 ^ k * scale ≤ size_max
    → 0 < scale
    → i < 2 ^ k
    → k < 32
    → scale < 2 ^ 31
    → (ws : List ℕ) × (r : ℕ) × (words_initialize true (2 ^ k) scale ≡ some ws)
      × (length ws ≡ 2 ^ k)
      × (r < 2 ^ k)
      × (at ws i ≡ r * scale)
      × (at ws r ≡ i * scale)
words_initialize_permutes k scale i fits pos h width scaled =
    let r = reverse_bits k i in
    let lt : r < 2 ^ k = reverse_bits-lt k i in
    let small : r * scale < size_max = product r lt in
    let small' : i * scale < size_max = product i h in
    (
      words k (2 ^ k) scale,
      r,
      words_initialize-words k (2 ^ k) scale (omega arith)
          (omega (arith, pow-suc 2 k, one-le-pow k 2 (omega arith))),
      length-words k (2 ^ k) scale,
      lt,
      at-words k (2 ^ k) scale i h ∙ mod-eq_of_lt small,
      at-words k (2 ^ k) scale r lt
          ∙ ap (λ b. b * scale % size_max) (reverse_bits_involutive k i h)
          ∙ mod-eq_of_lt small',
    )
  where
    product : (a : ℕ) → a < 2 ^ k → a * scale < size_max
    product a lt = omega (arith, mul-lt-mul_of_pos_right lt pos)

-- If the size is no power of two, but lies between 2 ^ k and 2 ^ (k + 1), with k below 32 for the shifts
-- of an `int`, the scale fits an `int`, and `malloc` gives memory,
-- the words repeat: the word at i + 2 ^ k, where that is an index, is the word at i.
pub words_initialize_repeats :
    (k max scale i : ℕ)
    → i + 2 ^ k < max
    → max < 2 ^ suc k
    → k < 32
    → scale < 2 ^ 31
    → (ws : List ℕ) × (words_initialize true max scale ≡ some ws)
      × (length ws ≡ max)
      × (at ws (i + 2 ^ k) ≡ at ws i)
words_initialize_repeats k max scale i lo hi width scaled = (
  words k max scale,
  words_initialize-words k max scale (omega arith) hi,
  length-words k max scale,
  words_repeat k max scale i lo,
)
