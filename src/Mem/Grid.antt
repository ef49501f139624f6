-- ===== src/Mem/Grid.antt =====
-- Chains that run through the rows of a table one after the other and back to the first one, as the
-- initializers of src/lib_mem.c build them.
use qnx_lmbench_mods.Base.{
  ℕ, zero, suc, ◌+◌, ◌-◌, ◌*◌, ◌<◌, ◌≡◌, sym, subst, ap, ◌∙◌, arith, ltb, if◌then◌else◌,
}
use qnx_lmbench_mods.Mem.{Memory}
use qnx_lmbench_mods.Mem.Chain.{follow, follow-add, follow_zero, follow_one, follow_slots}

-- The row behind a row of `rows`, and around.
abbrev pub next_row : ℕ → ℕ → ℕ
next_row rows i = if ltb i (rows - 1) then i + 1 else 0

module _ (rows cols : ℕ) (slot : ℕ → ℕ → ℕ) (chain : Memory) where
  module _ (link : (i j : ℕ) → i < rows → j + 1 < cols → chain (slot i j) ≡ slot i (j + 1))
      (jump : (i : ℕ) → i < rows → chain (slot i (cols - 1)) ≡ slot (next_row rows i) 0)
      (some_col : 0 < cols) (some_row : 0 < rows) where
    inside : (i j : ℕ) → i < rows → j < cols → follow j chain (slot i 0) ≡ slot i j
    inside i j hi hj =
        let z : 0 + j ≡ j = omega arith in
        let walk =
          follow_slots chain (slot i) 0 j
            λ k lt. let y : 0 + k ≡ k = omega arith in rw y (link i k hi (omega arith)) in
        rw z at walk

    whole_row : (i : ℕ) → i < rows → follow cols chain (slot i 0) ≡ slot (next_row rows i) 0
    whole_row i hi =
        let last : cols - 1 + 1 ≡ cols = omega arith in
        subst (λ n. follow n chain (slot i 0) ≡ slot (next_row rows i) 0) last
          (follow-add (cols - 1) 1 chain (slot i 0)
            ∙ ap (follow 1 chain) (inside i (cols - 1) hi (omega arith))
            ∙ follow_one chain (slot i (cols - 1))
            ∙ jump i hi)

    up_to_row : (i : ℕ) → i < rows → follow (i * cols) chain (slot 0 0) ≡ slot i 0
    up_to_row zero hi =
        ap (λ n. follow n chain (slot 0 0)) (omega arith) ∙ follow_zero chain (slot 0 0)
    up_to_row (suc i) hi =
        let more : suc i * cols ≡ i * cols + cols = omega arith in
        let next : next_row rows i ≡ suc i = ground arith in
        rw more (
          follow-add (i * cols) cols chain (slot 0 0)
          ∙ ap (follow cols chain) (up_to_row i (omega arith))
          ∙ whole_row i (omega arith)
          ∙ ap (λ k. slot k 0) next)

    around : follow (rows * cols) chain (slot 0 0) ≡ slot 0 0
    around =
        let n : rows ≡ rows - 1 + 1 = omega arith in
        let more : rows * cols ≡ (rows - 1) * cols + cols =
          subst (λ k. k * cols ≡ (rows - 1) * cols + cols) (sym n) (omega arith) in
        let next : next_row rows (rows - 1) ≡ 0 = ground arith in
        rw more (
          follow-add ((rows - 1) * cols) cols chain (slot 0 0)
          ∙ ap (follow cols chain) (up_to_row (rows - 1) (omega arith))
          ∙ whole_row (rows - 1) (omega arith)
          ∙ ap (λ k. slot k 0) next)

    -- Such a chain visits the table row by row, and then starts again.
    pub grid_cycle :
        (i j : ℕ)
        → i < rows
        → j < cols
        → (follow (i * cols + j) chain (slot 0 0) ≡ slot i j)
          × (follow (rows * cols) chain (slot 0 0) ≡ slot 0 0)
    grid_cycle i j hi hj = (
      follow-add (i * cols) j chain (slot 0 0)
          ∙ ap (follow j chain) (up_to_row i hi)
          ∙ inside i j hi hj,
      around,
    )
