-- ===== src/Mem/Stride.antt =====
-- The chain that `stride_initialize` of src/lib_mem.c builds.
use native.Mathlib.Nat.{mod-eq_of_lt, mul-le-mul_right}
use native.Mathlib.Decide.{dec_lt}
use qnx_lmbench_mods.Base.{
  ℕ, zero, suc, ◌+◌, ◌-◌, ◌*◌, ◌%◌, ◌≤◌, ◌<◌, ◌≡◌, refl, sym, subst, ap, ◌∙◌, true, false, some,
  arith, ltb,
}
use qnx_lmbench_mods.Mem.{pointer_size, size_max, Memory, write, stride_loop, stride_initialize}
use qnx_lmbench_mods.Mem.Chain.{
  Far, Near-multiples, follow, follow-add, follow_slots, follow_one, write_self, write_ne,
}

module _ (len s base n : ℕ) (wide : pointer_size ≤ s) where
  abbrev slot : ℕ → ℕ
  slot t = base + t * s

  slot_ne : (t u : ℕ) → t < u → Far (slot t) (slot u)
  slot_ne t u h e =
      let same = Near-multiples s t u wide (omega (arith, e.0), omega (arith, e.1)) in omega arith

  -- The slots before the `j`-th are as they were, those behind it are linked, the last one to `base`.
  record Linked (j : ℕ) (m m' : Memory) : Type 0 where
    kept : (t : ℕ) → t < j → m' (slot t) ≡ m (slot t)
    links : (t : ℕ) → j ≤ t → t + 1 < n → m' (slot t) ≡ slot (t + 1)
    closed : m' (slot (n - 1)) ≡ base

  module _ (lo : (n - 1) * s < len) (hi : len ≤ n * s) (fits : len + s ≤ size_max) where
    stride_loop_last :
        (fuel : ℕ) (m : Memory)
        → 0 < n
        → stride_loop (suc fuel) (n * s) len s base m ≡ some (write m (slot (n - 1)) base)
    unfolding stride_loop
    stride_loop_last fuel m some_slot =
        let off : n * s - s ≡ (n - 1) * s = last_offset in
        let stop : ltb (n * s) len ≡ false = ground arith in rw (stop, off)
      where
        last_offset : n * s - s ≡ (n - 1) * s
        last_offset =
            let e : n ≡ (n - 1) + 1 = omega arith in
            subst (λ k. k * s - s ≡ (n - 1) * s) (sym e) (omega arith)

    stride_loop_more :
        (fuel j : ℕ) (m : Memory)
        → j + 1 < n
        → stride_loop (suc fuel) ((j + 1) * s) len s base m
          ≡ stride_loop fuel ((j + 1 + 1) * s) len s base (write m (slot j) (slot (j + 1)))
    unfolding stride_loop
    stride_loop_more fuel j m h =
        let up : (j + 1) * s ≤ (n - 1) * s = mul-le-mul_right s (omega arith) in
        let go : ltb ((j + 1) * s) len ≡ true = ground (arith, up, lo) in
        let off : (j + 1) * s - s ≡ j * s = omega arith in
        let next : ((j + 1) * s + s) % size_max ≡ (j + 1 + 1) * s =
          mod-eq_of_lt (omega (arith, up)) ∙ omega arith in
        rw (go, off, next)

    stride_loop_lem :
        (left fuel j : ℕ) (m : Memory)
        → j + left + 1 ≡ n
        → left < fuel
        → (m' : Memory) × (stride_loop fuel ((j + 1) * s) len s base m ≡ some m') × Linked j m m'
    stride_loop_lem left zero j m e h = absurd (omega arith)
    stride_loop_lem zero (suc fuel) j m e h =
        let k : n ≡ j + 1 = omega arith in
        (
          write m (slot (n - 1)) base,
          rw (← k) (stride_loop_last fuel m (omega arith)),
          record {
            kept =
                λ t lt. write_ne m (slot (n - 1)) base (slot t) (slot_ne t (n - 1) (omega arith));
            links = λ t le lt. absurd (omega arith);
            closed = write_self m (slot (n - 1)) base;
          },
        )
    stride_loop_lem (suc left) (suc fuel) j m e h =
        let (m', run, l) =
          stride_loop_lem left fuel (j + 1) (write m (slot j) (slot (j + 1))) (omega arith)
            (omega arith) in
        (
          m',
          stride_loop_more fuel j m (omega arith) ∙ run,
          record {
            kept = λ t lt.
                l.kept t (omega arith)
                ∙ write_ne m (slot j) (slot (j + 1)) (slot t) (slot_ne t j lt);
            links = λ t le lt. go m' l t le lt;
            closed = l.closed;
          },
        )
      where
        go :
            (m' : Memory)
            → Linked (j + 1) (write m (slot j) (slot (j + 1))) m'
            → (t : ℕ) → j ≤ t
            → t + 1 < n
            → m' (slot t) ≡ slot (t + 1)
        go m' l t le lt = elim (dec_lt j t) [
          | yes behind ↦ l.links t (omega arith) lt
          | no same ↦
              let here : j ≡ t = omega arith in
              subst (λ u. m' (slot u) ≡ slot (u + 1)) here
                (l.kept j (omega arith) ∙ write_self m (slot j) (slot (j + 1)))
        ]

    -- The loop ends, with one cycle through all slots.
    pub stride_loop_cycle :
        (fuel : ℕ) (m : Memory)
        → 0 < n
        → n ≤ fuel
        → (m' : Memory) × (stride_loop fuel s len s base m ≡ some m')
          × ((k : ℕ) → k < n → follow k m' base ≡ base + k * s)
          × (follow n m' base ≡ base)
    stride_loop_cycle fuel m some_slot enough =
        let (m', run, l) = stride_loop_lem (n - 1) fuel 0 m (omega arith) (omega arith) in
        let first : (0 + 1) * s ≡ s = omega arith in
        let start : slot 0 ≡ base = omega arith in
        (m', rw first at run, λ k h. steps m' l k (omega arith) start, around m' l start)
      where
        steps :
            (m' : Memory)
            → Linked 0 m m'
            → (i : ℕ) → i ≤ n - 1
            → slot 0 ≡ base
            → follow i m' base ≡ slot i
        steps m' l i le start =
            let z : 0 + i ≡ i = omega arith in
            let walk = follow_slots m' slot 0 i λ j lt.
              let y : 0 + j ≡ j = omega arith in rw y (l.links j (omega arith) (omega arith)) in
            subst (λ p. follow i m' p ≡ slot i) start (rw z at walk)

        around : (m' : Memory) → Linked 0 m m' → slot 0 ≡ base → follow n m' base ≡ base
        around m' l start =
            let last : n ≡ n - 1 + 1 = omega arith in
            let split = follow-add (n - 1) 1 m' base in
            subst (λ i. follow i m' base ≡ base) (sym last)
              (split
                ∙ ap (follow 1 m') (steps m' l (n - 1) (omega arith) start)
                ∙ follow_one m' (slot (n - 1))
                ∙ l.closed)

    -- With fuel for `n` rounds `stride_initialize` builds, over a length of more than n - 1 strides and
    -- at most `n` that leaves the addition of a stride within 64 bits, one cycle of `n` pointers: from
    -- `p[0]`, which is the base, `k` loads lead to the k-th multiple of the stride behind the base, and
    -- `n` loads back to it.
    pub stride_cycle :
        (fuel k : ℕ) (m : Memory)
        → 0 < n
        → n ≤ fuel
        → k < n
        → (m' : Memory) × (stride_initialize fuel len s base m ≡ some (m', base))
          × (follow k m' base ≡ base + k * s)
          × (follow n m' base ≡ base)
    unfolding stride_initialize
    stride_cycle fuel k m some_slot enough h =
        let (m', run, walk, around) = stride_loop_cycle fuel m some_slot enough in
        (m', rw (run, stride_initialize) refl, walk k h, around)
