-- ===== src/Mem/Line.antt =====
-- The chain that `line_initialize` of src/lib_mem.c builds: one cycle through every line of every page.
use native.Mathlib.Decide.{dec_lt}
use qnx_lmbench_mods.Base.{
  ℕ, zero, suc, ◌+◌, ◌-◌, ◌*◌, ◌<◌, ◌≤◌, ◌≡◌, refl, subst, ◌∙◌, List, arith, ltb, if◌then◌else◌,
}
use qnx_lmbench_mods.Mem.{at, Memory, write, line_page, line_pages, line_initialize}
use qnx_lmbench_mods.Mem.Grid.{grid_cycle}
use qnx_lmbench_mods.Mem.Chain.{Near, Far, follow, write_self, write_ne}

module _ (npages nlines p : ℕ) (pages lines : List ℕ) where
  -- The first word of the `j`-th line of the `i`-th page.
  abbrev slot : ℕ → ℕ → ℕ
  slot i j = p + at pages i + at lines j

  -- The pointers in all lines share no byte.
  unfoldable pub AllApart : Type 0
  AllApart =
      (i j k l : ℕ)
      → i < npages
      → j < nlines
      → k < npages
      → l < nlines
      → Near (slot i j) (slot k l)
      → (i ≡ k) × (j ≡ l)

  line_page-kept :
      (left j i : ℕ) (m : Memory) (x : ℕ)
      → ((u : ℕ) → j ≤ u → u < j + left → Far x (slot i u))
      → line_page left j p (at pages i) lines m x ≡ m x
  unfolding line_page
  line_page-kept zero j i m x h = refl
  line_page-kept (suc left) j i m x h =
      line_page-kept left (j + 1) i (write m (slot i j) (slot i (j + 1))) x
        (λ u le lt. h u (omega arith) (omega arith))
      ∙ write_ne m (slot i j) (slot i (j + 1)) x (h j (omega arith) (omega arith))

  line_page-link :
      (left j i : ℕ) (m : Memory) (t : ℕ)
      → ((u : ℕ) → t < u → u < j + left → Far (slot i t) (slot i u))
      → j ≤ t
      → t < j + left
      → line_page left j p (at pages i) lines m (slot i t) ≡ slot i (t + 1)
  unfolding line_page
  line_page-link zero j i m t h le lt = absurd (omega arith)
  line_page-link (suc left) j i m t h le lt = elim (dec_lt j t) [
    | yes later ↦
        line_page-link left (j + 1) i (write m (slot i j) (slot i (j + 1))) t
          (λ u a b. h u a (omega arith)) (omega arith) (omega arith)
    | no now ↦
        let here : j ≡ t = omega arith in
        line_page-kept left (j + 1) i (write m (slot i j) (slot i (j + 1))) (slot i t)
          (λ u a b. h u (omega arith) (omega arith))
        ∙ subst (λ k. write m (slot i j) (slot i (j + 1)) (slot i k) ≡ slot i (k + 1)) here
            (write_self m (slot i j) (slot i (j + 1)))
  ]

  -- Where the last line of a page leads.
  abbrev next_page : ℕ → ℕ
  next_page i = if ltb i (npages - 1) then i + 1 else 0

  -- The memory after one round of the outer loop.
  abbrev after_page : ℕ → Memory → Memory
  after_page i m =
      write (line_page (nlines - 1) 0 p (at pages i) lines m) (slot i (nlines - 1))
        (slot (next_page i) 0)

  module _ (differ : AllApart) (some_line : 0 < nlines) where
    other_line :
        (i t u : ℕ) → i < npages → t < nlines → u < nlines → t < u → Far (slot i t) (slot i u)
    unfolding AllApart
    other_line i t u hi ht hu lt e = let (_, same) = differ i t i u hi ht hi hu e in omega arith

    other_page :
        (i k t u : ℕ)
        → i < npages
        → k < npages
        → t < nlines
        → u < nlines
        → i < k
        → Far (slot i t) (slot k u)
    unfolding AllApart
    other_page i k t u hi hk ht hu lt e =
        let (same, _) = differ i t k u hi ht hk hu e in omega arith

    after_page-link :
        (i t : ℕ) (m : Memory)
        → i < npages
        → t + 1 < nlines
        → after_page i m (slot i t) ≡ slot i (t + 1)
    after_page-link i t m hi ht =
        write_ne (line_page (nlines - 1) 0 p (at pages i) lines m) (slot i (nlines - 1))
          (slot (next_page i) 0) (slot i t)
          (other_line i t (nlines - 1) hi (omega arith) (omega arith) (omega arith))
        ∙ line_page-link (nlines - 1) 0 i m t
            (λ u a b. other_line i t u hi (omega arith) (omega arith) a) (omega arith) (omega arith)

    after_page-kept :
        (i k t : ℕ) (m : Memory)
        → i < npages
        → k < i
        → t < nlines
        → after_page i m (slot k t) ≡ m (slot k t)
    after_page-kept i k t m hi hk ht =
        write_ne (line_page (nlines - 1) 0 p (at pages i) lines m) (slot i (nlines - 1))
          (slot (next_page i) 0) (slot k t)
          (other_page k i t (nlines - 1) (omega arith) hi ht (omega arith) hk)
        ∙ line_page-kept (nlines - 1) 0 i m (slot k t)
            (λ u a b. other_page k i t u (omega arith) hi ht (omega arith) hk)

    -- The pages before the `i`-th keep their pointers.
    line_pages-kept :
        (left i k t : ℕ) (m : Memory)
        → i + left ≡ npages
        → k < i
        → t < nlines
        → line_pages left i npages nlines p pages lines m (slot k t) ≡ m (slot k t)
    unfolding line_pages
    line_pages-kept zero i k t m e hk ht = refl
    line_pages-kept (suc left) i k t m e hk ht =
        line_pages-kept left (i + 1) k t (after_page i m) (omega arith) (omega arith) ht
        ∙ after_page-kept i k t m (omega arith) hk ht

    -- Within a page each line leads to the next one.
    line_pages-link :
        (left i k t : ℕ) (m : Memory)
        → i + left ≡ npages
        → i ≤ k
        → k < npages
        → t + 1 < nlines
        → line_pages left i npages nlines p pages lines m (slot k t) ≡ slot k (t + 1)
    unfolding line_pages
    line_pages-link zero i k t m e le lt ht = absurd (omega arith)
    line_pages-link (suc left) i k t m e le lt ht = elim (dec_lt i k) [
      | yes later ↦
          line_pages-link left (i + 1) k t (after_page i m) (omega arith) (omega arith) lt ht
      | no now ↦
          let here : i ≡ k = omega arith in
          line_pages-kept left (i + 1) k t (after_page i m) (omega arith) (omega arith)
            (omega arith)
          ∙ subst (λ j. after_page i m (slot j t) ≡ slot j (t + 1)) here
              (after_page-link i t m (omega arith) ht)
    ]

    -- The last line of a page leads to the first one of the next page, and around.
    line_pages-jump :
        (left i k : ℕ) (m : Memory)
        → i + left ≡ npages
        → i ≤ k
        → k < npages
        → line_pages left i npages nlines p pages lines m (slot k (nlines - 1))
          ≡ slot (next_page k) 0
    unfolding line_pages
    line_pages-jump zero i k m e le lt = absurd (omega arith)
    line_pages-jump (suc left) i k m e le lt = elim (dec_lt i k) [
      | yes later ↦ line_pages-jump left (i + 1) k (after_page i m) (omega arith) (omega arith) lt
      | no now ↦
          let here : i ≡ k = omega arith in
          line_pages-kept left (i + 1) k (nlines - 1) (after_page i m) (omega arith) (omega arith)
            (omega arith)
          ∙ subst (λ j. after_page i m (slot j (nlines - 1)) ≡ slot (next_page j) 0) here
              (write_self (line_page (nlines - 1) 0 p (at pages i) lines m) (slot i (nlines - 1))
                (slot (next_page i) 0))
    ]

    -- If the first pointers of all lines of all pages share no byte, and there are a page and a
    -- line, the chain of `line_initialize` is one cycle through them, page by page: from `p[0]`,
    -- i * nlines + j loads lead to the j-th line of the i-th page, and npages * nlines loads back.
    pub line_cycle :
        (m : Memory) (i j : ℕ)
        → 0 < npages
        → i < npages
        → j < nlines
        → (m' : Memory) × (line_initialize npages nlines p pages lines m ≡ (m', slot 0 0))
          × (follow (i * nlines + j) m' (slot 0 0) ≡ slot i j)
          × (follow (npages * nlines) m' (slot 0 0) ≡ slot 0 0)
    unfolding line_initialize
    line_cycle m i j some_page hi hj =
        let m' = line_pages npages 0 npages nlines p pages lines m in
        let (walk, around) =
          grid_cycle npages nlines slot m'
            (λ k t lt ht. line_pages-link npages 0 k t m (omega arith) (omega arith) lt ht)
            (λ k lt. line_pages-jump npages 0 k m (omega arith) (omega arith) lt) some_line
            some_page i j hi hj in
        (m', refl, walk, around)

    -- Within a page, each line leads to the next one.
    pub line_initialize-link :
        (m : Memory) (k t : ℕ)
        → k < npages
        → t + 1 < nlines
        → (line_initialize npages nlines p pages lines m).0 (slot k t) ≡ slot k (t + 1)
    unfolding line_initialize
    line_initialize-link m k t hk ht =
        line_pages-link npages 0 k t m (omega arith) (omega arith) hk ht
