-- ===== src/Mem/Thrash.antt =====
-- The chain that `thrash_initialize` of src/lib_mem.c builds for a length that is no whole number of
-- pages: a cycle through all words if their number is a power of two, and through fewer if not.
use native.Mathlib.Decide.{dec_lt}
use native.Mathlib.Nat.{pow-suc, mod-eq_of_lt, mul-lt-mul_of_pos_right}
use qnx_lmbench_mods.Base.{
  ℕ, zero, suc, ◌+◌, ◌-◌, ◌*◌, ◌/◌, ◌%◌, ◌^◌, ◌≤◌, ◌<◌, ◌≡◌, refl, sym, subst, ap, ◌∙◌, true, some,
  List, arith,
}
use qnx_lmbench_mods.BitReverse.Laws.{
  reverse_bits, reverse_bits-lt, reverse_bits_zero, reverse_bits_periodic, reverse_bits_involutive,
}
use qnx_lmbench_mods.Mem.{
  pointer_size, size_max, at, Memory, write, words_initialize, thrash_words,
  thrash_initialize_words,
}
use qnx_lmbench_mods.Mem.Chain.{
  Far, Near-multiples, follow, follow-add, follow_one, follow_slots, write_self, write_ne,
}
use qnx_lmbench_mods.Mem.Words.{words, words_initialize-words, at-words}

module _ (ws : List ℕ) (n addr : ℕ) where
  abbrev slot : ℕ → ℕ
  slot t = addr + at ws t

  -- A place that is not written from the index `i` on keeps its pointer.
  thrash_words-kept :
      (left i : ℕ) (m : Memory) (x : ℕ)
      → i + left + 1 ≡ n
      → ((u : ℕ) → i ≤ u → u < n → Far x (slot u))
      → thrash_words left i addr ws m x ≡ m x
  unfolding thrash_words
  thrash_words-kept zero i m x e h = write_ne m (slot i) addr x (h i (omega arith) (omega arith))
  thrash_words-kept (suc left) i m x e h =
      thrash_words-kept left (i + 1) (write m (slot i) (slot (i + 1))) x (omega arith)
        (λ u le lt. h u (omega arith) lt)
      ∙ write_ne m (slot i) (slot (i + 1)) x (h i (omega arith) (omega arith))

  -- The last write to a place counts: it links the place to the next word, or to the start.
  thrash_words-link :
      (left i : ℕ) (m : Memory) (t : ℕ)
      → i + left + 1 ≡ n
      → i ≤ t
      → t + 1 < n
      → ((u : ℕ) → t < u → u < n → Far (slot t) (slot u))
      → thrash_words left i addr ws m (slot t) ≡ slot (t + 1)
  unfolding thrash_words
  thrash_words-link zero i m t e le lt h = absurd (omega arith)
  thrash_words-link (suc left) i m t e le lt h = elim (dec_lt i t) [
    | yes later ↦
        thrash_words-link left (i + 1) (write m (slot i) (slot (i + 1))) t (omega arith)
          (omega arith) lt h
    | no now ↦
        let here : i ≡ t = omega arith in
        thrash_words-kept left (i + 1) (write m (slot i) (slot (i + 1))) (slot t) (omega arith)
          (λ u le' lt'. h u (omega arith) lt')
        ∙ subst (λ j. write m (slot i) (slot (i + 1)) (slot j) ≡ slot (j + 1)) here
            (write_self m (slot i) (slot (i + 1)))
  ]

  thrash_words-close :
      (left i : ℕ) (m : Memory)
      → i + left + 1 ≡ n
      → thrash_words left i addr ws m (slot (n - 1)) ≡ addr
  unfolding thrash_words
  thrash_words-close zero i m e =
      let last : i ≡ n - 1 = omega arith in
      subst (λ j. write m (slot i) addr (slot j) ≡ addr) last (write_self m (slot i) addr)
  thrash_words-close (suc left) i m e =
      thrash_words-close left (i + 1) (write m (slot i) (slot (i + 1))) (omega arith)

  -- If the words differ from the index `f` on, and the word there is the start, the chain runs through
  -- these words alone.
  thrash_words-cycle :
      (f : ℕ) (m : Memory) (j : ℕ)
      → at ws f ≡ 0
      → ((t u : ℕ) → f ≤ t → t < u → u < n → Far (slot t) (slot u))
      → f < n
      → j < n - f
      → (follow j (thrash_words (n - 1) 0 addr ws m) addr ≡ slot (f + j))
        × (follow (n - f) (thrash_words (n - 1) 0 addr ws m) addr ≡ addr)
  thrash_words-cycle f m j start differ some_word h = (
    walk j h,
    subst (λ i. follow i m' addr ≡ addr) whole
        (follow-add (n - f - 1) 1 m' addr
          ∙ ap (follow 1 m') (walk (n - f - 1) (omega arith))
          ∙ follow_one m' (slot (f + (n - f - 1)))
          ∙ subst (λ i. m' (slot i) ≡ addr) last (thrash_words-close (n - 1) 0 m (omega arith))),
  )
    where
      m' : Memory
      m' = thrash_words (n - 1) 0 addr ws m

      whole : n - f - 1 + 1 ≡ n - f
      whole = omega arith

      last : n - 1 ≡ f + (n - f - 1)
      last = omega arith

      begin : slot f ≡ addr
      begin = rw start (omega arith)

      walk : (i : ℕ) → i < n - f → follow i m' addr ≡ slot (f + i)
      walk i lt =
          subst (λ p. follow i m' p ≡ slot (f + i)) begin
            (follow_slots m' slot f i λ k kt.
              thrash_words-link (n - 1) 0 m (f + k) (omega arith) (omega arith) (omega arith)
                (λ u a b. differ (f + k) u (omega arith) a b))

built :
    (len line base : ℕ) (m : Memory) (ws : List ℕ)
    → words_initialize true (len / line) line ≡ some ws
    → thrash_initialize_words true len line base m
      ≡ some (thrash_words (len / line - 1) 0 base ws m, base)
unfolding thrash_initialize_words
built len line base m ws e = rw (e, thrash_initialize_words)

module _ (k len line base : ℕ) (wide : pointer_size ≤ line) (fits : 2 ^ k * line ≤ size_max) where
  reverse_bits-inj : (a b : ℕ) → a < 2 ^ k → b < 2 ^ k → reverse_bits k a ≡ reverse_bits k b → a ≡ b
  reverse_bits-inj a b ha hb e =
      sym (reverse_bits_involutive k a ha) ∙ ap (reverse_bits k) e ∙ reverse_bits_involutive k b hb

  weighed : (a : ℕ) → reverse_bits k a * line % size_max ≡ reverse_bits k a * line
  weighed a =
      mod-eq_of_lt
        (omega (arith, mul-lt-mul_of_pos_right {k = line} (reverse_bits-lt k a) (omega arith)))

  -- The words from the index `f` on, if that is a multiple of the period, are all different, and the
  -- chain runs through them.
  cycle_from :
      (f n j : ℕ) (m : Memory)
      → ((a : ℕ) → reverse_bits k (f + a) ≡ reverse_bits k a)
      → f < n
      → n ≤ f + 2 ^ k
      → j < n - f
      → (follow j (thrash_words (n - 1) 0 base (words k n line) m) base
          ≡ base + reverse_bits k j * line)
        × (follow (n - f) (thrash_words (n - 1) 0 base (words k n line) m) base ≡ base)
  cycle_from f n j m same some_word most h =
      let (walk, around) =
        thrash_words-cycle (words k n line) n base f m j start differ some_word h in
      (walk ∙ ap (λ w. base + w) (word j h), around)
    where
      word : (a : ℕ) → a < n - f → at (words k n line) (f + a) ≡ reverse_bits k a * line
      word a lt =
          at-words k n line (f + a) (omega arith)
          ∙ ap (λ r. r * line % size_max) (same a)
          ∙ weighed a

      start : at (words k n line) f ≡ 0
      start =
          let z : f + 0 ≡ f = omega arith in
          subst (λ i. at (words k n line) i ≡ 0) z
            (word 0 (omega arith) ∙ rw (reverse_bits_zero k) (omega arith))

      differ :
          (t u : ℕ)
          → f ≤ t
          → t < u
          → u < n
          → Far (base + at (words k n line) t) (base + at (words k n line) u)
      differ t u le lt top e =
          let a : f + (t - f) ≡ t = omega arith in
          let b : f + (u - f) ≡ u = omega arith in
          let x : at (words k n line) t ≡ reverse_bits k (t - f) * line =
            subst (λ i. at (words k n line) i ≡ reverse_bits k (t - f) * line) a
              (word (t - f) (omega arith)) in
          let y : at (words k n line) u ≡ reverse_bits k (u - f) * line =
            subst (λ i. at (words k n line) i ≡ reverse_bits k (u - f) * line) b
              (word (u - f) (omega arith)) in
          let r : reverse_bits k (t - f) ≡ reverse_bits k (u - f) =
            Near-multiples line (reverse_bits k (t - f)) (reverse_bits k (u - f)) wide
              (omega (arith, x, y, e.0), omega (arith, x, y, e.1)) in
          let same_index : t - f ≡ u - f =
            reverse_bits-inj (t - f) (u - f) (omega arith) (omega arith) r in
          omega arith

  -- If the number of lines in the length is a power of two, 2 ^ k, and a line has room for a pointer and the
  -- lines fit 64 bits, the chain is one cycle through all of them: `j` loads from `p[0]` lead to the line of the number `j` with its `k` bits reversed, and
  -- 2 ^ k loads back to `p[0]`.
  pub thrash_cycle :
      (m : Memory) (j : ℕ)
      → len / line ≡ 2 ^ k
      → j < 2 ^ k
      → (m' : Memory) × (thrash_initialize_words true len line base m ≡ some (m', base))
        × (follow j m' base ≡ base + reverse_bits k j * line)
        × (follow (2 ^ k) m' base ≡ base)
  thrash_cycle m j size h =
      let two = pow-suc 2 k in
      let got =
        words_initialize-words k (len / line) line (omega arith) (omega (arith, two, size)) in
      let (walk, around) =
        cycle_from 0 (len / line) j m (λ a. ap (reverse_bits k) (omega arith)) (omega arith)
          (omega arith) (omega arith) in
      (
        thrash_words (len / line - 1) 0 base (words k (len / line) line) m,
        built len line base m (words k (len / line) line) got,
        walk,
        subst
            (λ n.
              follow n (thrash_words (len / line - 1) 0 base (words k (len / line) line) m) base
              ≡ base)
            (omega arith) around,
      )

  -- If the number of lines lies between two powers of two, 2 ^ k and 2 ^ (k + 1), with k below 32 for the
  -- shifts of an `int`, and a line has room for a pointer, fits an `int`, and 2 ^ k of them fit 64 bits,
  -- the chain that is to
  -- visit all of them returns to `p[0]` after as many loads as there are lines above 2 ^ k, which are
  -- less than half of the lines.
  pub thrash_short_cycle :
      (m : Memory)
      → 2 ^ k < len / line
      → len / line < 2 ^ suc k
      → k < 32
      → line < 2 ^ 31
      → (m' : Memory) × (n : ℕ) × (thrash_initialize_words true len line base m ≡ some (m', base))
        × (n ≡ len / line - 2 ^ k)
        × (n + n < len / line)
        × (follow n m' base ≡ base)
  thrash_short_cycle m lo hi width scale =
      let two = pow-suc 2 k in
      let got = words_initialize-words k (len / line) line (omega arith) hi in
      let (walk, around) =
        cycle_from (2 ^ k) (len / line) 0 m
          (λ a. ap (reverse_bits k) (omega arith) ∙ reverse_bits_periodic k a) lo
          (omega (arith, two)) (omega arith) in
      (
        thrash_words (len / line - 1) 0 base (words k (len / line) line) m,
        len / line - 2 ^ k,
        built len line base m (words k (len / line) line) got,
        refl,
        omega (arith, two),
        around,
      )
