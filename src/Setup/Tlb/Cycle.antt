-- ===== src/Setup/Tlb/Cycle.antt =====
-- The chain of `tlb_initialize` of src/lib_mem.c comes through all pages, one word in each.
use Prim.Native.Nat.{bit_xor}
use native.Mathlib.Decide.{dec_lt}
use native.Mathlib.Nat.{mod-lt, mod-eq_of_lt, mod-add-div, one-le-pow}
use mathlib.Core.List.{Perm}
use qnx_lmbench_mods.Base.{
  ℕ, zero, suc, ◌+◌, ◌-◌, ◌*◌, ◌/◌, ◌%◌, ◌^◌, ◌<◌, ◌≤◌, ◌≡◌, ◌≢◌, refl, sym, subst, ap, ◌∙◌, true,
  false, some, none, List, arith, ◌==◌,
}
use qnx_lmbench_mods.Mem.{at, Memory, write, words_initialize}
use qnx_lmbench_mods.Mem.Chain.{Far, follow, write_self, write_ne}
use qnx_lmbench_mods.Mem.Grid.{grid_cycle}
use qnx_lmbench_mods.Mem.Tour.{one_place}
use qnx_lmbench_mods.Setup.{MemState, Env, returns, pointer_size, set_p}
use qnx_lmbench_mods.Setup.Lines.{lines_of}
use qnx_lmbench_mods.Setup.Tlb.Alignment.{laid-Aligned}
use qnx_lmbench_mods.Setup.Tlb.Order.{Distinct, shuffle_pages_lem}
use qnx_lmbench_mods.Setup.Tlb.{
  laid, lay_pages, shuffle_pages, page_chain, tlb_initialize, uint_max,
}

module _ (npages nlines : ℕ) (pages lines : List ℕ) where
  -- The word of the `i`-th page.
  abbrev pub word_of : ℕ → ℕ
  word_of i = at pages i + at lines (i % nlines)

  module _
      (differ : (i j : ℕ) → i < npages → j < npages → i ≢ j → Far (word_of i) (word_of j)) where
    page_chain-kept :
        (left i k : ℕ) (m : Memory)
        → i + left + 1 ≡ npages
        → k < i
        → page_chain left i nlines pages lines m (word_of k) ≡ m (word_of k)
    unfolding page_chain
    page_chain-kept zero i k m e lt =
        write_ne m (word_of i) (at pages 0 + at lines 0) (word_of k)
          (differ k i (omega arith) (omega arith) (omega arith))
    page_chain-kept (suc left) i k m e lt =
        page_chain-kept left (i + 1) k (write m (word_of i) (word_of (i + 1))) (omega arith)
          (omega arith)
        ∙ write_ne m (word_of i) (word_of (i + 1)) (word_of k)
            (differ k i (omega arith) (omega arith) (omega arith))

    page_chain-link :
        (left i k : ℕ) (m : Memory)
        → i + left + 1 ≡ npages
        → i ≤ k
        → k + 1 < npages
        → page_chain left i nlines pages lines m (word_of k) ≡ word_of (k + 1)
    unfolding page_chain
    page_chain-link zero i k m e le lt = absurd (omega arith)
    page_chain-link (suc left) i k m e le lt =
        let m' = write m (word_of i) (word_of (i + 1)) in
        elim (dec_lt i k) [
          | yes later ↦ page_chain-link left (i + 1) k m' (omega arith) (omega arith) lt
          | no now ↦
              let here : i ≡ k = omega arith in
              page_chain-kept left (i + 1) k m' (omega arith) (omega arith)
              ∙ subst (λ x. m' (word_of x) ≡ word_of (x + 1)) here
                  (write_self m (word_of i) (word_of (i + 1)))
        ]

    page_chain-close :
        (left i : ℕ) (m : Memory)
        → i + left + 1 ≡ npages
        → page_chain left i nlines pages lines m (word_of (npages - 1)) ≡ at pages 0 + at lines 0
    unfolding page_chain
    page_chain-close zero i m e =
        let here : i ≡ npages - 1 = omega arith in
        subst
          (λ x. write m (word_of i) (at pages 0 + at lines 0) (word_of x) ≡ at pages 0 + at lines 0)
          here (write_self m (word_of i) (at pages 0 + at lines 0))
    page_chain-close (suc left) i m e =
        page_chain-close left (i + 1) (write m (word_of i) (word_of (i + 1))) (omega arith)

-- Words of different aligned pages share no byte.
word_of-differ :
    (npages nlines : ℕ) (pages lines : List ℕ)
    → 0 < nlines
    → Distinct npages pages
    → ((i : ℕ) → i < npages → at pages i % (nlines * pointer_size) ≡ 0)
    → ((j : ℕ) → j < nlines → at lines j < nlines * pointer_size)
    → ((j : ℕ) → j < nlines → at lines j % pointer_size ≡ 0)
    → (i j : ℕ) → i < npages
    → j < npages
    → i ≢ j
    → Far (word_of npages nlines pages lines i) (word_of npages nlines pages lines j)
unfolding Distinct
word_of-differ npages nlines pages lines some_line distinct aligned small even i j hi hj ne n =
    let size = nlines * pointer_size in
    let a = at pages i in
    let b = at pages j in
    let x = at lines (i % nlines) in
    let y = at lines (j % nlines) in
    let low = even (i % nlines) (mod-lt i some_line) in
    let low' = even (j % nlines) (mod-lt j some_line) in
    let high : nlines * (a / size) * 8 ≡ size * (a / size) = grind arith in
    let high' : nlines * (b / size) * 8 ≡ size * (b / size) = grind arith in
    let near = n.0 in
    let near' = n.1 in
    let e : a + x ≡ b + y = omega (
      arith,
      mod-add-div a size,
      mod-add-div b size,
      aligned i hi,
      aligned j hj,
      high,
      high',
      low,
      low',
      near,
      near',
    ) in
    let parts : size * (a / size) + x ≡ size * (b / size) + y =
      omega (arith, mod-add-div a size, mod-add-div b size, aligned i hi, aligned j hj, e) in
    let (same, _) =
      one_place size (a / size) x (b / size) y (small (i % nlines) (mod-lt i some_line))
        (small (j % nlines) (mod-lt j some_line)) parts in
    let product : size * (a / size) ≡ size * (b / size) = ap (λ q. size * q) same in
    ne (
      distinct i j hi hj (
        omega (arith, mod-add-div a size, mod-add-div b size, aligned i hi, aligned j hj, product)))

-- The loops of the chain leave one circle through the words of all pages.
page_chain_cycle :
    (npages nlines : ℕ) (pages lines : List ℕ)
    → 0 < npages
    → 0 < nlines
    → ((i j : ℕ)
        → i < npages
        → j < npages
        → i ≢ j
        → Far (word_of npages nlines pages lines i) (word_of npages nlines pages lines j))
    → (m : Memory) (i : ℕ) → i < npages
    → (follow i (page_chain (npages - 1) 0 nlines pages lines m) (at pages 0 + at lines 0)
        ≡ at pages i + at lines (i % nlines))
      × (follow npages (page_chain (npages - 1) 0 nlines pages lines m) (at pages 0 + at lines 0)
          ≡ at pages 0 + at lines 0)
page_chain_cycle npages nlines pages lines some_page some_line differ m i hi =
    let chain = page_chain (npages - 1) 0 nlines pages lines m in
    let slot = λ (a : ℕ) (b : ℕ). word_of npages nlines pages lines b in
    let first : slot 0 0 ≡ at pages 0 + at lines 0 =
      ap (λ r. at pages 0 + at lines r) (mod-eq_of_lt some_line) in
    let one : 1 * npages ≡ npages = omega arith in
    let none_before : 0 * npages + i ≡ i = omega arith in
    let (walk, cycle) =
      grid_cycle 1 npages slot chain
        (λ a b lt more.
          page_chain-link npages nlines pages lines differ (npages - 1) 0 b m (omega arith)
            (omega arith) more)
        (λ a lt.
          page_chain-close npages nlines pages lines differ (npages - 1) 0 m (omega arith)
          ∙ sym first)
        some_page (omega arith) 0 i (omega arith) hi in
    (
      subst (λ p. follow i chain p ≡ slot 0 i) first (rw none_before at walk),
      subst (λ p. follow npages chain p ≡ p) first (rw one at cycle),
    )

-- If everything can be allocated, the page size is a power of two of words that fits an `int`, the
-- number of pages fits one too and is not 0, and `valloc` lays out pages that differ from each other, `tlb_initialize` succeeds:
-- its pages are those laid out, the zeroth one first and the others in some order; from `p[0]`, i loads
-- lead into the i-th page, and as many loads as there are pages back.
pub tlb_initialize_cycle :
    (e : Env) (single double : ℕ → ℕ) (s : MemState) (m : Memory) (k i : ℕ) (addr laid_out : List ℕ)
    → e.lines_fit ≡ true
    → e.pages_fit ≡ true
    → e.malloc (s.len / s.pagesize * pointer_size) ≢ 0
    → 2 ^ k * pointer_size < 2 ^ 31
    → s.len / s.pagesize < 2 ^ 31
    → s.pagesize ≡ 2 ^ k * pointer_size
    → lay_pages single double s.pagesize (s.len / s.pagesize) 0 ≡ laid addr laid_out
    → Distinct (s.len / s.pagesize) laid_out
    → i < s.len / s.pagesize
    → (s' : MemState) × (m' : Memory) × (pages : List ℕ) × (word : ℕ) × (tlb_initialize e single
          double 0 s m
        ≡ returns s' m')
      × (s'.initialized ≡ true)
      × (s'.pages ≡ some pages)
      × Perm pages laid_out
      × (at pages 0 ≡ at laid_out 0)
      × (word < s.pagesize)
      × (follow i m' (s'.p 0) ≡ at pages i + word)
      × (follow (s.len / s.pagesize) m' (s'.p 0) ≡ s'.p 0)
unfolding tlb_initialize
tlb_initialize_cycle e single double s m k i addr laid_out lines_fit pages_fit block fits number
      power layout distinct hi =
    let npages = s.len / s.pagesize in
    let nlines = s.pagesize / pointer_size in
    let some_lines : 0 < 2 ^ k = one-le-pow k 2 (omega arith) in
    let some_bytes : 0 < s.pagesize = rw power (omega (arith, some_lines)) in
    let (lines, made, inside, whole, some_line, _) =
      lines_of k pointer_size s.pagesize (omega arith) (rw power (omega arith)) power in
    let r = bit_xor (e.rand 0 * 2 ^ 15 % uint_max) (e.rand 1) in
    let pages = shuffle_pages e.rand (npages - 2) r 2 laid_out in
    let (len, aligned) =
      laid-Aligned single double s.pagesize some_bytes npages 0 addr laid_out layout in
    let (perm, first, apart, even) =
      shuffle_pages_lem e.rand npages s.pagesize (npages - 2) r 2 laid_out len (omega arith)
        distinct aligned in
    let small : (j : ℕ) → j < nlines → at lines j < s.pagesize =
      λ j lt. omega (arith, inside.at_number j lt, inside.number_lt j lt, whole) in
    let differ =
      word_of-differ npages nlines pages lines some_line apart
        (λ j lt. ap (λ z. at pages j % z) (sym whole) ∙ even j lt)
        (λ j lt. omega (arith, small j lt, whole)) (λ j lt. omega (arith, inside.at_number j lt)) in
    let (walk, cycle) =
      page_chain_cycle npages nlines pages lines (omega arith) some_line differ m i hi in
    let made' : words_initialize e.lines_fit nlines pointer_size ≡ some lines = rw lines_fit made in
    let block_given : (e.malloc (npages * pointer_size) == 0) ≡ false = ground arith in
    (
      set_p 0 (at pages 0 + at lines 0) (record s {
        addr = e.malloc (npages * pointer_size);
        initialized = true;
        nwords = 1;
        nlines = nlines;
        npages = npages;
        words = none;
        lines = some lines;
        pages = some pages;
        rerun = true;
      }),
      page_chain (npages - 1) 0 nlines pages lines m,
      pages,
      at lines (i % nlines),
      rw (layout, made', pages_fit, block_given) refl,
      refl,
      refl,
      perm,
      first,
      small (i % nlines) (mod-lt i some_line),
      walk,
      cycle,
    )
