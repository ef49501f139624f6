-- ===== src/Setup/LineSize/Restore.antt =====
-- What `line_test` of src/lib_mem.c does to the chain of `line_initialize`: it shortens it for the time
-- of the test.
use native.Mathlib.Decide.{dec_lt}
use qnx_lmbench_mods.Base.{
  ℕ, zero, suc, ◌+◌, ◌-◌, ◌*◌, ◌<◌, ◌≤◌, ◌≡◌, ◌≢◌, refl, sym, subst, ap, ◌∙◌, Bool, true, false,
  List, arith, ltb, Bool-cases, inl, inr, ◌==◌, if◌then◌else◌,
}
use qnx_lmbench_mods.Mem.{Memory, write, at}
use qnx_lmbench_mods.Mem.Chain.{Near, Far, follow, write_self, write_ne}
use qnx_lmbench_mods.Mem.Grid.{grid_cycle}
use qnx_lmbench_mods.Mem.Line.{AllApart}
use qnx_lmbench_mods.Setup.LineSize.{store_lines, skip_lines, fixup_lines}

module _ (npages nlines n p : ℕ) (pages lines : List ℕ) where
  abbrev place : ℕ → ℕ → ℕ
  place i j = p + at pages i + at lines j

  module _ (differ : AllApart npages nlines p pages lines) (some_line : 0 < n) (fewer : n < nlines)
      (some_page : 0 < npages) where
    other :
        (i k j l : ℕ)
        → i < npages
        → k < npages
        → j < nlines
        → l < nlines
        → i ≢ k
        → Far (place i j) (place k l)
    unfolding AllApart
    other i k j l hi hk hj hl ne e = let (same, _) = differ i j k l hi hj hk hl e in ne same

    store_lines-kept :
        (target : ℕ → ℕ) (left i : ℕ) (m : Memory) (x : ℕ)
        → ((u : ℕ) → i ≤ u → u < i + left → Far x (place u (n - 1)))
        → store_lines target left i p (n - 1) pages lines m x ≡ m x
    unfolding store_lines
    store_lines-kept target zero i m x h = refl
    store_lines-kept target (suc left) i m x h =
        store_lines-kept target left (i + 1) (write m (place i (n - 1)) (target i)) x
          (λ u le lt. h u (omega arith) (omega arith))
        ∙ write_ne m (place i (n - 1)) (target i) x (h i (omega arith) (omega arith))

    store_lines-at :
        (target : ℕ → ℕ) (left i k : ℕ) (m : Memory)
        → i ≤ k
        → k < i + left
        → i + left ≤ npages
        → store_lines target left i p (n - 1) pages lines m (place k (n - 1)) ≡ target k
    unfolding store_lines
    store_lines-at target zero i k m le lt most = absurd (omega arith)
    store_lines-at target (suc left) i k m le lt most =
        let m' = write m (place i (n - 1)) (target i) in
        elim (dec_lt i k) [
          | yes later ↦
              store_lines-at target left (i + 1) k m' (omega arith) (omega arith) (omega arith)
          | no now ↦
              let here : i ≡ k = omega arith in
              store_lines-kept target left (i + 1) m' (place k (n - 1)) (λ u a b.
                other k u (n - 1) (n - 1) (omega arith) (omega arith) (omega arith) (omega arith)
                  (omega arith))
              ∙ subst (λ j. m' (place j (n - 1)) ≡ target j) here
                  (write_self m (place i (n - 1)) (target i))
        ]

    -- A whole column of pointers: those of all pages but the last one, and that of the last one.
    abbrev column : (target : ℕ → ℕ) (last : ℕ) → Memory → Memory
    column target last m =
        write (store_lines target (npages - 1) 0 p (n - 1) pages lines m)
          (place (npages - 1) (n - 1)) last

    column-at :
        (target : ℕ → ℕ) (last k : ℕ) (m : Memory)
        → k < npages
        → column target last m (place k (n - 1)) ≡ (if ltb k (npages - 1) then target k else last)
    column-at target last k m hk = elim (dec_lt k (npages - 1)) [
      | yes before ↦
          let b : ltb k (npages - 1) ≡ true = ground arith in
          rw b (
            write_ne (store_lines target (npages - 1) 0 p (n - 1) pages lines m)
              (place (npages - 1) (n - 1)) last (place k (n - 1))
              (other k (npages - 1) (n - 1) (n - 1) hk (omega arith) (omega arith) (omega arith)
                (omega arith))
            ∙ store_lines-at target (npages - 1) 0 k m (omega arith) (omega arith) (omega arith))
      | no at_last ↦
          let b : ltb k (npages - 1) ≡ false = ground arith in
          let here : npages - 1 ≡ k = omega arith in
          rw b (
            subst (λ j. column target last m (place j (n - 1)) ≡ last) here
              (write_self (store_lines target (npages - 1) 0 p (n - 1) pages lines m)
                (place (npages - 1) (n - 1)) last))
    ]

    column-kept :
        (target : ℕ → ℕ) (last x : ℕ) (m : Memory)
        → ((k : ℕ) → k < npages → Far x (place k (n - 1)))
        → column target last m x ≡ m x
    column-kept target last x m h =
        write_ne (store_lines target (npages - 1) 0 p (n - 1) pages lines m)
          (place (npages - 1) (n - 1)) last x (h (npages - 1) (omega arith))
        ∙ store_lines-kept target (npages - 1) 0 m x (λ u a b. h u (omega arith))

    module _ (m : Memory)
        (linked : (k t : ℕ) → k < npages → t + 1 < nlines → m (place k t) ≡ place k (t + 1)) where
      -- The shortened chain is a circle through the first `n` lines of every page.
      pub skip_lines-cycle :
          (i j : ℕ)
          → i < npages
          → j < n
          → (follow (i * n + j) (skip_lines npages n p pages lines m) (place 0 0) ≡ place i j)
            × (follow (npages * n) (skip_lines npages n p pages lines m) (place 0 0) ≡ place 0 0)
      unfolding skip_lines AllApart
      skip_lines-cycle i j hi hj =
          let target = λ (i : ℕ). place (i + 1) 0 in
          grid_cycle npages n place (skip_lines npages n p pages lines m)
            (λ a b ha hb.
              column-kept target (place 0 0) (place a b) m (λ k hk e.
                let (_, line) = differ a b k (n - 1) ha (omega arith) hk (omega arith) e in
                omega arith)
              ∙ linked a b ha (omega arith))
            (λ a ha. column-at target (place 0 0) a m ha ∙ choose a (ltb a (npages - 1))) some_line
            some_page i j hi hj
        where
          choose :
              (a : ℕ) (b : Bool)
              → (if b then place (a + 1) 0 else place 0 0) ≡ place (if b then a + 1 else 0) 0
          choose a true = refl
          choose a false = refl

      -- The repair leaves the pointers in all lines as they were before the test.
      pub fixup_lines-restores :
          (k l : ℕ)
          → k < npages
          → l < nlines
          → fixup_lines npages n p pages lines (skip_lines npages n p pages lines m) (place k l)
            ≡ m (place k l)
      unfolding skip_lines fixup_lines AllApart
      fixup_lines-restores k l hk hl =
          let target = λ (i : ℕ). place (i + 1) 0 in
          let back = λ (i : ℕ). place i n in
          let during = column target (place 0 0) m in
          elim (Bool-cases (l == n - 1)) [
            | inl same ↦
                let here : l ≡ n - 1 = ground arith in
                let line : n - 1 + 1 ≡ n = omega arith in
                subst (λ y. column back (place (npages - 1) n) during (place k y) ≡ m (place k y))
                  (sym here)
                  (column-at back (place (npages - 1) n) k during hk
                    ∙ choose k hk
                    ∙ ap (λ l. place k l) (sym line)
                    ∙ sym (linked k (n - 1) hk (omega arith)))
            | inr other_line ↦
                let beside : l ≢ n - 1 = ground arith in
                let apart = λ (i : ℕ) (hi : i < npages) (e : Near (place k l) (place i (n - 1))).
                  let (_, same) = differ k l i (n - 1) hk hl hi (omega arith) e in beside same in
                column-kept back (place (npages - 1) n) (place k l) during apart
                ∙ column-kept target (place 0 0) (place k l) m apart
          ]
        where
          choose :
              (k : ℕ)
              → k < npages
              → (if ltb k (npages - 1) then place k n else place (npages - 1) n) ≡ place k n
          choose k hk = elim (Bool-cases (ltb k (npages - 1))) [
            | inl before ↦ rw before refl
            | inr last ↦ let e : npages - 1 ≡ k = ground arith in rw last (ap (λ i. place i n) e)
          ]
