-- ===== src/Readers/Sums.antt =====
-- What `bread` of src/lib_timing.c adds up.
use qnx_lmbench_mods.Base.{
  ℕ, zero, suc, ◌+◌, ◌*◌, ◌/◌, ◌%◌, ◌<◌, ◌≤◌, ◌≡◌, refl, ap, ◌∙◌, inl, inr, Bool-cases, leb, arith,
}
use qnx_lmbench_mods.Clock.{u64}
use qnx_lmbench_mods.Readers.{add_words, read_blocks, bread}

module _ (words : ℕ → ℕ) where
  add_words-split :
      (n m p : ℕ) → add_words words (n + m) p ≡ add_words words n p + add_words words m (p + n)
  unfolding add_words
  add_words-split zero m p =
      let z : 0 + m ≡ m = omega arith in let y : p + 0 ≡ p = omega arith in rw (z, y) (omega arith)
  add_words-split (suc n) m p =
      let s : suc n + m ≡ suc (n + m) = omega arith in
      let y : p + suc n ≡ p + 1 + n = omega arith in
      rw (s, y, add_words) (omega (arith, add_words-split n m (p + 1)))

  -- A position in the buffer, and the sum of all words before it.
  record Read (nbytes p sum : ℕ) : Type 0 where
    inside : p * 8 ≤ nbytes
    exact : sum ≡ add_words words p 0 % u64

  module _ (nbytes block : ℕ) (pos : 0 < block) where
    next_sum :
        (p sum : ℕ)
        → sum ≡ add_words words p 0 % u64
        → (sum + add_words words block p) % u64 ≡ add_words words (p + block) 0 % u64
    next_sum p sum e =
        let y : 0 + p ≡ p = omega arith in
        let split = add_words-split p block 0 in rw split (rw (y, e) (omega arith))

    -- The loop stops where no whole block is left.
    read_blocks_lem :
        (fuel p sum : ℕ)
        → Read nbytes p sum
        → nbytes < p * 8 + fuel
        → Read nbytes
            (read_blocks words nbytes block fuel p sum).0
            (read_blocks words nbytes block fuel p sum).1
          × (nbytes < ((read_blocks words nbytes block fuel p sum).0 + block) * 8)
    unfolding read_blocks
    read_blocks_lem zero p sum r h = absurd (omega (arith, r.inside))
    read_blocks_lem (suc fuel) p sum r h = elim (Bool-cases (leb ((p + block) * 8) nbytes)) [
      | inl more ↦ rw more (
          read_blocks_lem fuel (p + block) ((sum + add_words words block p) % u64)
            (record { inside = ground arith; exact = next_sum p sum r.exact }) (omega arith))
      | inr over ↦ rw over (r, ground arith)
    ]

  -- `bread` adds up every whole word of the buffer once, in 64 bits, whatever the length.
  pub bread_lem : (nbytes : ℕ) → bread words nbytes ≡ add_words words (nbytes / 8) 0 % u64
  unfolding bread
  bread_lem nbytes =
      let fuel = nbytes + 1 in
      let (r1, _) =
        read_blocks_lem nbytes 128 (omega arith) fuel 0 0
          (record { inside = omega arith; exact = start }) (omega arith) in
      let a = read_blocks words nbytes 128 fuel 0 0 in
      let (r2, _) = read_blocks_lem nbytes 16 (omega arith) fuel a.0 a.1 r1 (omega arith) in
      let b = read_blocks words nbytes 16 fuel a.0 a.1 in
      let (r3, over) = read_blocks_lem nbytes 1 (omega arith) fuel b.0 b.1 r2 (omega arith) in
      let last : (read_blocks words nbytes 1 fuel b.0 b.1).0 ≡ nbytes / 8 =
        omega (arith, r3.inside, over) in
      r3.exact ∙ ap (λ n. add_words words n 0 % u64) last
    where
      start : 0 ≡ add_words words 0 0 % u64
      start = refl
