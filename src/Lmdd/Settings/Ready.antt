-- ===== src/Lmdd/Settings/Ready.antt =====
-- What holds of the settings with which src/lmdd.c enters its loop.
use qnx_lmbench_mods.Base.{
  ℕ, suc, ◌+◌, ◌%◌, ◌^◌, ◌≤◌, ◌<◌, ◌≡◌, refl, sym, ap, subst, ◌∙◌, ◌⊎◌, inl, inr, Bool, true, false,
  ◌||◌, ltb, tests, ◌==◌, Bool-cases, arith,
}
use qnx_lmbench_mods.Base.Int.{ℤ, pos, negsuc, ltb_ℤ, ◌≤ℤ◌}
use qnx_lmbench_mods.Lmdd.Args.{Str, codes}
use qnx_lmbench_mods.Lmdd.Settings.{
  Settings, ready, to_int, given, given_int, block_size, clamp_max, checked, assigned, configure,
}

-- The limits of a histogram: none is given, or there is a maximum of at least 10; the minimum is not
-- above it.
pub record IsLimited (max min : ℤ) : Type 0 where
  pub maximum : (max ≡ negsuc 0) ⊎ (pos 10 ≤ℤ max)
  pub ordered : min ≤ℤ max

pub record IsReady (s : Settings) : Type 0 where
  pub block_min : 4 ≤ s.bsize
  pub block_max : s.bsize < 2 ^ 31
  pub reads : IsLimited s.rtmax s.rtmin
  pub writes : IsLimited s.wtmax s.wtmin
  pub buffers : s.nbufs ≤ℤ pos 10
  pub words : ((given_int s.inpat || given_int s.outpat) ≡ false) ⊎ (s.bsize % 4 ≡ 0)
  pub reader : (given_int s.rtmax ≡ false) ⊎ (pos 0 ≤ℤ s.input)
  pub writer : (given_int s.wtmax ≡ false) ⊎ (pos 0 ≤ℤ s.output)

clamp_max_bounds : (max : ℤ) → (clamp_max max ≡ negsuc 0) ⊎ (pos 10 ≤ℤ clamp_max max)
unfolding clamp_max
clamp_max_bounds (pos n) = elim (Bool-cases (ltb_ℤ (pos n) (pos 10))) [
  | inl e ↦ rw e (inr (omega arith))
  | inr e ↦ rw e (inr (ground arith))
]
clamp_max_bounds (negsuc n) = elim (Bool-cases (n == 0)) [
  | inl e ↦ let z : n ≡ 0 = ground arith in rw z (inl refl)
  | inr e ↦ let low : ltb 0 (10 + suc n) ≡ true = omega tests in rw (e, low) (inr (omega arith))
]

block_size-lt : (v : ℕ) → block_size (to_int v) < 2 ^ 31
unfolding block_size to_int
block_size-lt v = ground arith

guarded : (test : Bool) (A : Type 0) → (test ≡ true → A) → (test ≡ false) ⊎ A
guarded true A h = inr (h refl)
guarded false A h = inl refl

module _ (bufs_fit sized : Bool) (s : Settings) where
  checked-ready : (s' : Settings) → checked bufs_fit sized s ≡ ready s' → s ≡ s'
  unfolding checked
  checked-ready s' h = ground arith

  module _ (h : checked bufs_fit sized s ≡ ready s) where
    -- The tests that were passed.
    limits_ordered : (s.rtmin ≤ℤ s.rtmax) × (s.wtmin ≤ℤ s.wtmax)
    unfolding checked
    limits_ordered = (ground arith, ground arith)

    block_fits :
        (4 ≤ s.bsize)
        × (s.nbufs ≤ℤ pos 10)
        × (((given_int s.inpat || given_int s.outpat) ≡ false) ⊎ (s.bsize % 4 ≡ 0))
    unfolding checked
    block_fits = (
      ground arith,
      ground arith,
      guarded _ _ (λ (e : (given_int s.inpat || given_int s.outpat) ≡ true). ground arith),
    )

    files_fit :
        ((given_int s.rtmax ≡ false) ⊎ (pos 0 ≤ℤ s.input))
        × ((given_int s.wtmax ≡ false) ⊎ (pos 0 ≤ℤ s.output))
    unfolding checked
    files_fit = (
      guarded _ _ (λ (e : given_int s.rtmax ≡ true). ground arith),
      guarded _ _ (λ (e : given_int s.wtmax ≡ true). ground arith),
    )

checked-IsReady :
    (bufs_fit sized : Bool) (s s' : Settings)
    → (s.rtmax ≡ negsuc 0) ⊎ (pos 10 ≤ℤ s.rtmax)
    → (s.wtmax ≡ negsuc 0) ⊎ (pos 10 ≤ℤ s.wtmax)
    → s.bsize < 2 ^ 31
    → checked bufs_fit sized s ≡ ready s'
    → IsReady s'
checked-IsReady bufs_fit sized s s' r w b h =
    let e = checked-ready bufs_fit sized s s' h in
    let h' : checked bufs_fit sized s ≡ ready s = h ∙ ap ready (sym e) in
    let (reads_ordered, writes_ordered) = limits_ordered bufs_fit sized s h' in
    let (block_min, buffers, words) = block_fits bufs_fit sized s h' in
    let (reader, writer) = files_fit bufs_fit sized s h' in
    subst IsReady e (record {
      block_min = block_min;
      block_max = b;
      reads = record { maximum = r; ordered = reads_ordered };
      writes = record { maximum = w; ordered = writes_ordered };
      buffers = buffers;
      words = words;
      reader = reader;
      writer = writer;
    })

-- When `main` reaches its loop: a block is of at least 4 bytes, and of whole words if a pattern is
-- written or looked for; a histogram has a maximum of at least 10 and a minimum not above it, and the
-- file whose times it counts is there; at most 10 buffers are used.
pub configure-IsReady :
    (arg : Str → ℕ) (bufs_fit : Bool) (input output : ℤ) (s : Settings)
    → configure arg bufs_fit input output ≡ ready s
    → IsReady s
unfolding configure assigned
configure-IsReady arg bufs_fit input output s h =
    checked-IsReady bufs_fit (given (arg (codes "move="))) (assigned arg input output) s
      (clamp_max_bounds (to_int (arg (codes "rtmax="))))
      (clamp_max_bounds (to_int (arg (codes "wtmax=")))) (block_size-lt (arg (codes "bs="))) h
