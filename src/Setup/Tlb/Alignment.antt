-- ===== src/Setup/Tlb/Alignment.antt =====
-- The pages that `tlb_initialize` of src/lib_mem.c allocates start at page boundaries.
use qnx_lmbench_mods.Base.{
  ℕ, zero, suc, ◌+◌, ◌-◌, ◌%◌, ◌<◌, ◌≡◌, refl, subst, ap, List, ◌∷◌, length, arith, ◌==◌,
  Bool-cases, inl, inr,
}
use qnx_lmbench_mods.Mem.{at}
use qnx_lmbench_mods.Setup.Bounds.{next_multiple}
use qnx_lmbench_mods.Setup.Tlb.{Layout, laid, failed, add_page, lay_page, lay_pages}

-- What `lay_pages` lays out: `n` pages that start at multiples of the page size.
unfoldable Aligned : (pagesize n : ℕ) → Layout → Type 0
Aligned pagesize n (laid addr pages) =
    (length pages ≡ n) × ((i : ℕ) → i < n → at pages i % pagesize ≡ 0)
Aligned pagesize n (failed status) = status ≡ status

module _ (single double : ℕ → ℕ) (pagesize : ℕ) (pos : 0 < pagesize) where
  failed-Aligned : (status n : ℕ) → Aligned pagesize n (failed status)
  unfolding Aligned
  failed-Aligned status n = refl

  add_page-Aligned :
      (a p n : ℕ) (rest : Layout)
      → p % pagesize ≡ 0
      → Aligned pagesize n rest
      → Aligned pagesize (suc n) (add_page a p rest)
  unfolding Aligned add_page
  add_page-Aligned a p n (failed status) h r = refl
  add_page-Aligned a p n (laid addr pages) h (len, aligned) = (ap suc len, each)
    where
      each : (i : ℕ) → i < suc n → at (p ∷ pages) i % pagesize ≡ 0
      each zero lt = h
      each (suc i) lt = aligned i (omega arith)

  lay_page-Aligned :
      (i n : ℕ) (rest : Layout)
      → Aligned pagesize n rest
      → Aligned pagesize (suc n) (lay_page single double pagesize i rest)
  unfolding lay_page
  lay_page-Aligned i n rest r = elim (Bool-cases (single i == 0)) [
    | inl missing ↦ rw missing (failed-Aligned 4 (suc n))
    | inr given ↦ elim (Bool-cases (single i % pagesize == 0)) [
      | inl even ↦ rw (given, even) (add_page-Aligned (single i) (single i) n rest (ground arith) r)
      | inr odd ↦ elim (Bool-cases (double i == 0)) [
        | inl missing ↦ rw (given, odd, missing) (failed-Aligned 5 (suc n))
        | inr given' ↦
            rw (given, odd, given')
              (add_page-Aligned (double i) (double i + (pagesize - double i % pagesize)) n rest
                (next_multiple (double i) pagesize pos) r)
      ]
    ]
  ]

  lay_pages-Aligned : (left i : ℕ) → Aligned pagesize left (lay_pages single double pagesize left i)
  unfolding lay_pages Aligned
  lay_pages-Aligned zero i = (refl, λ j lt. absurd (omega arith))
  lay_pages-Aligned (suc left) i =
      lay_page-Aligned i left (lay_pages single double pagesize left (i + 1))
        (lay_pages-Aligned left (i + 1))

  pub laid-Aligned :
      (left i : ℕ) (addr pages : List ℕ)
      → lay_pages single double pagesize left i ≡ laid addr pages
      → (length pages ≡ left) × ((j : ℕ) → j < left → at pages j % pagesize ≡ 0)
  unfolding Aligned
  laid-Aligned left i addr pages e = subst (Aligned pagesize left) e (lay_pages-Aligned left i)
