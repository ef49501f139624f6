-- ===== src/Readers/Pages.antt =====
-- What `touch` of src/lib_timing.c writes.
use native.Mathlib.Nat.{div-eq-sub-div, div-eq_of_lt}
use qnx_lmbench_mods.Base.{
  ℕ, zero, suc, ◌+◌, ◌-◌, ◌*◌, ◌/◌, ◌<◌, ◌≤◌, ◌≡◌, refl, ap, ◌∙◌, true, false, length, get_elem?,
  some, arith, leb, ◌==◌, Bool-cases, inl, inr,
}
use qnx_lmbench_mods.Readers.{touch_loop, touch}

module _ (psize : ℕ) (pos : 0 < psize) where
  touch_loop-pages :
      (fuel buf nbytes : ℕ)
      → nbytes < fuel
      → length (touch_loop psize fuel buf nbytes) ≡ nbytes / psize
  unfolding touch_loop
  touch_loop-pages zero buf nbytes enough = absurd (omega arith)
  touch_loop-pages (suc fuel) buf nbytes enough = elim (Bool-cases (leb psize nbytes)) [
    | inl more ↦
        let le : psize ≤ nbytes = ground arith in
        rw more (
          omega (
            arith,
            touch_loop-pages fuel (buf + psize) (nbytes - psize) (omega arith),
            div-eq-sub-div pos le,
          ))
    | inr over ↦ let lt : nbytes < psize = ground arith in rw over (omega (arith, div-eq_of_lt lt))
  ]

  touch_loop-at :
      (fuel buf nbytes i : ℕ)
      → nbytes < fuel
      → (i + 1) * psize ≤ nbytes
      → get_elem? (touch_loop psize fuel buf nbytes) i ≡ some (buf + i * psize)
  unfolding touch_loop
  touch_loop-at zero buf nbytes i enough inside = absurd (omega arith)
  touch_loop-at (suc fuel) buf nbytes zero enough inside =
      let le : leb psize nbytes ≡ true = ground arith in rw le (ap some (omega arith))
  touch_loop-at (suc fuel) buf nbytes (suc i) enough inside =
      let sum : (suc i + 1) * psize ≡ psize + (i + 1) * psize = grind arith in
      let start : suc i * psize ≡ psize + i * psize = grind arith in
      let le : leb psize nbytes ≡ true = ground arith in
      rw le (
        touch_loop-at fuel (buf + psize) (nbytes - psize) i (omega (arith, sum, inside, pos))
          (omega (arith, sum, inside))
        ∙ ap some (omega (arith, start)))

-- If pages are not empty, `touch` writes once to the first byte of every whole page of the buffer, in
-- order, and nowhere else, and remembers the size of a page.
pub touch_lem :
    (getpagesize buf nbytes i : ℕ)
    → 0 < getpagesize
    → (i + 1) * getpagesize ≤ nbytes
    → (length (touch getpagesize 0 buf nbytes).0 ≡ nbytes / getpagesize)
      × (get_elem? (touch getpagesize 0 buf nbytes).0 i ≡ some (buf + i * getpagesize))
      × (touch getpagesize 0 buf nbytes ≡ touch 0 getpagesize buf nbytes)
unfolding touch
touch_lem getpagesize buf nbytes i pos inside =
    let known : (getpagesize == 0) ≡ false = ground arith in
    (
      touch_loop-pages getpagesize pos (nbytes + 1) buf nbytes (omega arith),
      touch_loop-at getpagesize pos (nbytes + 1) buf nbytes i (omega arith) inside,
      rw known refl,
    )
