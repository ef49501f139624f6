-- ===== src/Mem/Order.antt =====
-- The tables of `permutation` and `words_initialize`: each multiple of a unit stands in them once.
use Prim.Native.Nat.{bit_xor}
use native.Mathlib.Nat.{mod-lt, mod-eq_of_lt, mul-lt-mul_of_pos_right, pow-suc, one-le-pow}
use qnx_lmbench_mods.Base.{
  ℕ, zero, suc, ◌+◌, ◌*◌, ◌%◌, ◌^◌, ◌<◌, ◌≤◌, ◌≡◌, ◌≢◌, refl, ap, ◌∙◌, Bool-cases, inl, inr, Bool,
  true, false, some, none, List, length, set, get_or-set_self, get_or-set_ne, length-set, arith,
  ◌==◌, if◌then◌else◌,
}
use qnx_lmbench_mods.BitReverse.Laws.{
  reverse_bits, reverse_bits-lt, reverse_bits_zero, reverse_bits_involutive,
}
use qnx_lmbench_mods.Mem.{size_max, at, swap, multiples, shuffle, permutation, words_initialize}
use qnx_lmbench_mods.Mem.Shuffle.{length-swap, length-multiples}
use qnx_lmbench_mods.Mem.Words.{words, words_initialize-words, at-words}

-- The table holds the multiples of `unit` below `n * unit`, each once: `number i` is the one at `i`,
-- and `place q` is where the `q`-th one stands.
pub record Permutes (n unit : ℕ) (xs : List ℕ) : Type 0 where
  pub number : ℕ → ℕ
  pub place : ℕ → ℕ
  pub number_lt : (i : ℕ) → i < n → number i < n
  pub place_lt : (q : ℕ) → q < n → place q < n
  pub at_number : (i : ℕ) → i < n → at xs i ≡ number i * unit
  pub place_number : (i : ℕ) → i < n → place (number i) ≡ i
  pub number_place : (q : ℕ) → q < n → number (place q) ≡ q

-- Where the element at `j` stood before the elements at `o` and `i` changed places.
pub transpose : ℕ → ℕ → ℕ → ℕ
transpose o i j = if j == i then o else if j == o then i else j

pub transpose-lt : (n o i j : ℕ) → o < n → i < n → j < n → transpose o i j < n
unfolding transpose
transpose-lt n o i j ho hi hj = ground arith

pub transpose_involutive : (o i j : ℕ) → transpose o i (transpose o i j) ≡ j
unfolding transpose
transpose_involutive o i j = ground arith

pub transpose_other : (o i j : ℕ) → j ≢ o → j ≢ i → transpose o i j ≡ j
unfolding transpose
transpose_other o i j ho hi = ground arith

at-set :
    (xs : List ℕ) (o j v : ℕ) → o < length xs → at (set xs o v) j ≡ (if j == o then v else at xs j)
at-set xs o j v h = elim (Bool-cases (j == o)) [
  | inl here ↦ let e : j ≡ o = ground arith in rw (here, e) (get_or-set_self xs o v 0 h)
  | inr other ↦ let ne : o ≢ j = ground arith in rw other (get_or-set_ne xs o j v 0 ne)
]

pub at-swap :
    (o i j : ℕ) (xs : List ℕ)
    → o < length xs
    → i < length xs
    → at (swap o i xs) j ≡ at xs (transpose o i j)
unfolding transpose swap
at-swap o i j xs ho hi = elim (Bool-cases (j == i)) [
  | inl here ↦
      let e : j ≡ i = ground arith in
      rw (here, e)
        (get_or-set_self (set xs o (at xs i)) i (at xs o) 0 (rw (length-set xs o (at xs i)) hi))
  | inr other ↦
      let ne : i ≢ j = ground arith in
      rw other (
        get_or-set_ne (set xs o (at xs i)) i j (at xs o) 0 ne
        ∙ at-set xs o j (at xs i) ho
        ∙ choose (j == o))
]
  where
    choose : (b : Bool) → (if b then at xs i else at xs j) ≡ at xs (if b then i else j)
    choose true = refl
    choose false = refl

at-multiples :
    (left i j scale : ℕ) → j < left → at (multiples left i scale) j ≡ (i + j) * scale % size_max
unfolding multiples
at-multiples zero i j scale h = absurd (omega arith)
at-multiples (suc left) i zero scale h = let z : i + 0 ≡ i = omega arith in rw z
at-multiples (suc left) i (suc j) scale h =
    let s : i + suc j ≡ i + 1 + j = omega arith in
    rw s (at-multiples left (i + 1) j scale (omega arith))

-- A multiple below the bound of the table is no greater than the bound.
multiple_lt : (n unit bound q : ℕ) → n * unit ≤ bound → 0 < unit → q < n → q * unit < bound
multiple_lt n unit bound q fits pos h = omega (arith, mul-lt-mul_of_pos_right h pos)

multiples-Permutes :
    (n unit : ℕ) → n * unit ≤ size_max → 0 < unit → Permutes n unit (multiples n 0 unit)
multiples-Permutes n unit fits pos = record {
  number = λ i. i;
  place = λ q. q;
  number_lt = λ i h. h;
  place_lt = λ q h. h;
  at_number = λ i h.
      at-multiples n 0 i unit h
      ∙ ap (λ k. k * unit % size_max) (omega arith)
      ∙ mod-eq_of_lt (multiple_lt n unit size_max i fits pos h);
  place_number = λ i h. refl;
  number_place = λ q h. refl;
}

swap-Permutes :
    (n unit : ℕ) (xs : List ℕ) (o i : ℕ)
    → length xs ≡ n
    → o < n
    → i < n
    → Permutes n unit xs
    → Permutes n unit (swap o i xs)
swap-Permutes n unit xs o i len ho hi s = record {
  number = λ j. s.number (transpose o i j);
  place = λ q. transpose o i (s.place q);
  number_lt = λ j h. s.number_lt (transpose o i j) (transpose-lt n o i j ho hi h);
  place_lt = λ q h. transpose-lt n o i (s.place q) ho hi (s.place_lt q h);
  at_number = λ j h.
      at-swap o i j xs (rw len ho) (rw len hi)
      ∙ s.at_number (transpose o i j) (transpose-lt n o i j ho hi h);
  place_number = λ j h.
      ap (transpose o i) (s.place_number (transpose o i j) (transpose-lt n o i j ho hi h))
      ∙ transpose_involutive o i j;
  number_place = λ q h. ap s.number (transpose_involutive o i (s.place q)) ∙ s.number_place q h;
}

module _ (rand : ℕ → ℕ) (n unit : ℕ) where
  shuffle-Permutes :
      (left i r calls : ℕ) (xs : List ℕ)
      → length xs ≡ n
      → i + left ≡ n
      → Permutes n unit xs
      → (length (shuffle rand left i n r calls xs).0 ≡ n)
        × Permutes n unit (shuffle rand left i n r calls xs).0
  unfolding shuffle
  shuffle-Permutes zero i r calls xs len e s = (len, s)
  shuffle-Permutes (suc left) i r calls xs len e s =
      let r' = bit_xor (r * 2 % size_max) (rand calls) in
      let in_range : r' % n < n = mod-lt r' (omega arith) in
      shuffle-Permutes left (i + 1) r' (calls + 1) (swap (r' % n) i xs)
        (length-swap (r' % n) i xs ∙ len) (omega arith)
        (swap-Permutes n unit xs (r' % n) i len in_range (omega arith) s)

  -- If the multiples fit 64 bits, `permutation` gives a table of them, in some order.
  pub permutation-Permutes :
      (seed : ℕ → ℕ → ℕ) (r calls : ℕ)
      → n * unit ≤ size_max
      → 0 < unit
      → (xs : List ℕ) × (r' : ℕ) × (calls' : ℕ) × (permutation rand seed true r calls n unit
          ≡ (some xs, r', calls'))
        × Permutes n unit xs
  unfolding permutation
  permutation-Permutes seed r calls fits pos =
      let r' = if r == 0 then seed (rand calls) (rand (calls + 1)) else r in
      let calls' = if r == 0 then calls + 2 else calls in
      let done = shuffle rand n 0 n r' calls' (multiples n 0 unit) in
      let (_, s) =
        shuffle-Permutes n 0 r' calls' (multiples n 0 unit) (length-multiples n 0 unit)
          (omega arith) (multiples-Permutes n unit fits pos) in
      (done.0, done.1, done.2, refl, s)

-- Without memory for the table `permutation` returns none, and draws no number.
pub permutation-none :
    (rand : ℕ → ℕ) (n unit : ℕ) (seed : ℕ → ℕ → ℕ) (r calls : ℕ)
    → permutation rand seed false r calls n unit ≡ (none, r, calls)
unfolding permutation
permutation-none rand n unit seed r calls = refl

none_at : (unit : ℕ) → 0 * unit % size_max ≡ 0
none_at unit = let z : 0 * unit ≡ 0 = omega arith in rw z refl

-- If the size is a power of two, `words_initialize` gives a table of the multiples.
pub words_initialize-Permutes :
    (k unit : ℕ)
    → 2 ^ k * unit ≤ size_max
    → 0 < unit
    → (xs : List ℕ) × (words_initialize true (2 ^ k) unit ≡ some xs)
      × Permutes (2 ^ k) unit xs
      × (at xs 0 ≡ 0)
words_initialize-Permutes k unit fits pos = (
  words k (2 ^ k) unit,
  words_initialize-words k (2 ^ k) unit (omega arith)
      (omega (arith, pow-suc 2 k, one-le-pow k 2 (omega arith))),
  record {
    number = reverse_bits k;
    place = reverse_bits k;
    number_lt = λ i h. reverse_bits-lt k i;
    place_lt = λ q h. reverse_bits-lt k q;
    at_number = λ i h.
        at-words k (2 ^ k) unit i h
        ∙ mod-eq_of_lt
            (multiple_lt (2 ^ k) unit size_max (reverse_bits k i) fits pos (reverse_bits-lt k i));
    place_number = λ i h. reverse_bits_involutive k i h;
    number_place = λ q h. reverse_bits_involutive k q h;
  },
  at-words k (2 ^ k) unit 0 (one-le-pow k 2 (omega arith))
      ∙ ap (λ r. r * unit % size_max) (reverse_bits_zero k)
      ∙ none_at unit,
)
