-- ===== src/Lmdd/Offsets/Range.antt =====
-- Where the blocks of a random copy of src/lmdd.c lie.
use qnx_lmbench_mods.Base.{
  ℕ, zero, suc, ◌+◌, ◌-◌, ◌*◌, ◌/◌, ◌%◌, ◌^◌, ◌≤◌, ◌<◌, ◌≡◌, sym, ap, ap₂, ◌∙◌, true, false, ◌&&◌,
  Option, some, Bool-cases, Option-cases, arith, inl, inr,
}
use qnx_lmbench_mods.Base.Masks.{bit_and-mask, pow_pos}
use qnx_lmbench_mods.Clock.{u64}
use qnx_lmbench_mods.Lmdd.Settings.{Settings, align, given}
use qnx_lmbench_mods.Lmdd.Offsets.{Choice, been_there, try_rand, try_until, keep_rand, choose}

mul_pred : (a c : ℕ) → 0 < c → a * (c - 1) + a ≡ a * c
mul_pred a zero h = absurd (omega arith)
mul_pred a (suc c) h = let e : suc c - 1 ≡ c = omega arith in rw e (grind arith)

-- `ALIGN` rounds up to a multiple of a power of two.
align-pow :
    (k w x : ℕ)
    → 2 ^ k * 2 ^ w ≡ u64
    → 0 < 2 ^ k
    → 0 < 2 ^ w
    → x + 2 ^ k ≤ u64
    → align x (2 ^ k) ≡ (x + 2 ^ k - 1) / 2 ^ k * 2 ^ k
unfolding align
align-pow k w x e pos_k pos_w h =
    let sum : (x + 2 ^ k + u64 - 1) % u64 ≡ x + 2 ^ k - 1 = omega arith in
    let product : 2 ^ k * (2 ^ w - 1) + 2 ^ k ≡ 2 ^ k * 2 ^ w = mul_pred (2 ^ k) (2 ^ w) pos_w in
    let mask : (u64 - 2 ^ k) % u64 ≡ 2 ^ k * (2 ^ w - 1) = omega (arith, e, product) in
    rw (sum, mask) (bit_and-mask k w (x + 2 ^ k - 1) (omega (arith, e)))

-- Rounded up, a place below a number of blocks is at most at the end of the last one.
rounded : (b m x : ℕ) → 0 < b → x < m * b → (x + b - 1) / b ≤ m
rounded b m x p h = grind arith

one_more : (m b : ℕ) → (m + 1) * b ≡ m * b + b
one_more m b = grind arith

whole_blocks : (b m : ℕ) → 0 < b → (m * b + b - 1) / b ≡ m
whole_blocks b m p = grind arith

module _ (draw : ℕ → ℕ → ℕ) (s : Settings) where
  tried :
      (fuel : ℕ) (try : Choice → ℕ) (c : Choice) (off : ℕ) (c' : Choice)
      → try_until draw s fuel try c ≡ some (off, c')
      → (before : Choice) × (off ≡ try before)
  unfolding try_until
  tried zero try c off c' h = cc
  tried (suc fuel) try c off c' h = elim (Bool-cases (s.norepeat && been_there (try c) c)) [
    | inl e ↦ tried fuel try (record c { draws = c.draws + 1 }) off c' (rw e at h)
    | inr e ↦
        let same : ◌≡◌ {A = Option (ℕ × Choice)} (some (try c, record c { draws = c.draws + 1 }))
            (some (off, c')) =
          rw e at h in
        (c, cc)
  ]

  chosen :
      (fuel last : ℕ) (c : Choice) (off : ℕ) (c' : Choice)
      → given s.end ≡ false
      → given s.rand ≡ true
      → choose draw s fuel last c ≡ some (off, c')
      → (before : Choice) × (off ≡ try_rand draw s before)
  unfolding choose keep_rand
  chosen fuel last c off c' e r h =
      elim (Option-cases (try_until draw s fuel (try_rand draw s) c)) [
        | inl f ↦ cc (rw (e, r, f) at h)
        | inr ((o, d), f) ↦
            let (before, o_is) = tried fuel (try_rand draw s) c o d f in
            let kept : ◌≡◌ {A = Option (ℕ × Choice)} (some (keep_rand draw s (o, d)))
                (some (off, c')) =
              rw (e, r, f) at h in
            let pair : keep_rand draw s (o, d) ≡ (off, c') = cc in
            (before, sym (ap (λ (p : ℕ × Choice). p.0) pair) ∙ o_is)
      ]

  module _ (k w blocks : ℕ) (power : 2 ^ k * 2 ^ w ≡ u64) (block : s.bsize ≡ 2 ^ k)
      (area : s.rand ≡ (blocks + 2) * 2 ^ k)
      (size : s.size ≡ align ((s.rand + u64 - s.bsize) % u64) s.bsize) (some_blocks : 0 < blocks)
      (fits : s.rand + s.bsize ≤ u64) (at_start : given s.start ≡ false)
      (in_range : (j n : ℕ) → 0 < n → draw j n < n) where
    pos_block : 0 < 2 ^ k
    pos_block = pow_pos k

    pos_rest : 0 < 2 ^ w
    pos_rest = pow_pos w

    -- The size that is drawn from is one block less than the area, in whole blocks.
    size_is : s.size ≡ (blocks + 1) * 2 ^ k
    size_is =
        let one_less : (s.rand + u64 - s.bsize) % u64 ≡ (blocks + 1) * 2 ^ k =
          omega (arith, area, block, fits, pos_block, one_more (blocks + 1) (2 ^ k)) in
        size
        ∙ ap₂ align one_less block
        ∙ align-pow k w ((blocks + 1) * 2 ^ k) power pos_block pos_rest
            (omega (arith, area, block, fits, one_more (blocks + 1) (2 ^ k)))
        ∙ ap (λ (n : ℕ). n * 2 ^ k) (whole_blocks (2 ^ k) (blocks + 1) pos_block)

    try_rand_bounds : (c : Choice) → (b : ℕ) × (try_rand draw s c ≡ b * 2 ^ k) × (b ≤ blocks)
    unfolding try_rand
    try_rand_bounds c =
        let b = 2 ^ k in
        let room : (s.size + u64 - s.bsize) % u64 ≡ blocks * b = omega (
          arith,
          size_is,
          area,
          block,
          fits,
          pos_block,
          one_more blocks b,
          one_more (blocks + 1) b,
        ) in
        let positive : 0 < blocks * b = grind (arith, pos_block) in
        let x = draw c.draws ((s.size + u64 - s.bsize) % u64) in
        let below : x < blocks * b = omega (
          arith,
          room,
          in_range c.draws ((s.size + u64 - s.bsize) % u64) (omega (arith, room, positive)),
        ) in
        (
          (x + b - 1) / b,
          rw at_start (
              ap (align x) block
              ∙ align-pow k w x power pos_block pos_rest (
                  omega
                    (arith, below, area, fits, block, one_more blocks b, one_more (blocks + 1) b))),
          rounded b blocks x pos_block below,
        )

    -- A random copy from an area of `blocks + 2` blocks, a power of two of bytes each, without `start=`
    -- and `end=`, takes whole blocks of the area: each offset is a multiple of the block size, and at
    -- most the one before the last block of the area, whatever `drand48` gives. (The last block is never
    -- taken.)
    pub choose_bounds :
        (fuel last : ℕ) (c : Choice) (off : ℕ) (c' : Choice)
        → given s.end ≡ false
        → given s.rand ≡ true
        → choose draw s fuel last c ≡ some (off, c')
        → (b : ℕ) × (off ≡ b * 2 ^ k) × (b < blocks + 1)
    choose_bounds fuel last c off c' e r h =
        let (before, o) = chosen fuel last c off c' e r h in
        let (b, place, bound) = try_rand_bounds before in (b, o ∙ place, omega arith)
