-- ===== src/Setup.antt =====
-- The initializers of src/lib_mem.c as a whole, on `struct mem_state` of src/lib_mem.h: what they
-- allocate, when they give up, and the chain that they leave in memory.
pub mod Pages
pub mod Tlb
pub mod Lines
pub mod Ready
pub mod Whole
pub mod Chains
pub mod Cleanup
pub mod Bounds
pub mod LineSize
pub mod Parallel
mod Tests
use qnx_lmbench_mods.Base.{
  ℕ, zero, suc, ◌+◌, ◌-◌, ◌*◌, ◌/◌, ◌%◌, ◌^◌, Bool, true, false, not, ◌||◌, Option, none, some,
  List, [], ◌∷◌, ◌++◌, length, get_or, set, ltb, ◌==◌, if◌then◌else◌,
}
pub use qnx_lmbench_mods.Mem.{pointer_size}
use qnx_lmbench_mods.Mem.{
  size_max, Memory, write, at, words_initialize, permutation, stride_loop, thrash_words,
  line_initialize as line_chain,
}

-- `struct mem_state`, where a pointer is 0 if it is NULL and a table `none`; and the static variables
-- `mem_benchmark_rerun` of src/lib_mem.c and `r` of `permutation`, with the calls of `rand` so far.
pub record MemState : Type 0 where
  pub addr : ℕ
  pub base : ℕ
  pub p : ℕ → ℕ
  pub initialized : Bool
  pub width : ℕ
  pub len : ℕ
  pub maxlen : ℕ
  pub line : ℕ
  pub pagesize : ℕ
  pub nlines : ℕ
  pub npages : ℕ
  pub nwords : ℕ
  pub pages : Option (List ℕ)
  pub lines : Option (List ℕ)
  pub words : Option (List ℕ)
  pub rerun : Bool
  pub r : ℕ
  pub calls : ℕ

-- What a call meets outside: `rand` and the process ids, whether the tables can be allocated, and what
-- `malloc` gives for the memory, for a number of bytes: the block, or 0.
pub record Env : Type 0 where
  pub rand : ℕ → ℕ
  pub seed : ℕ → ℕ → ℕ
  pub pages_fit : Bool
  pub lines_fit : Bool
  pub words_fit : Bool
  pub malloc : ℕ → ℕ

-- How a call ends: it returns, it ends the process with a status, or the fuel of a loop ran out.
pub data Run : Type 0 where
  returns : MemState → Memory → Run
  exits : ℕ → Run
  out_of_fuel : Run

infixl 5 ◌>>=◌
abbrev pub ◌>>=◌ : Run → (MemState → Memory → Run) → Run
returns s m >>= f = f s m
exits n >>= f = exits n
out_of_fuel >>= f = out_of_fuel

-- `state->p[k] = v`
abbrev pub set_p : ℕ → ℕ → MemState → MemState
set_p k v s = record s { p = λ (j : ℕ). if j == k then v else s.p j }

abbrev pub is_none : Option (List ℕ) → Bool
is_none o = elim o [ none ↦ true | some _ ↦ false ]

abbrev pub table : Option (List ℕ) → List ℕ
table o = elim o [ none ↦ [] | some xs ↦ xs ]

-- `if ((unsigned long)p % pagesize) p += pagesize - (unsigned long)p % pagesize;`
abbrev pub align : ℕ → ℕ → ℕ
align p pagesize = if p % pagesize == 0 then p else p + (pagesize - p % pagesize)

-- `malloc(state->maxlen + 2 * state->pagesize)`, a sum in `size_t`.
abbrev pub block_of : Env → MemState → ℕ
block_of e s = e.malloc ((s.maxlen + 2 * s.pagesize) % size_max)

-- `base_initialize(iterations, state)`.
unfoldable pub base_initialize : Env → (iterations : ℕ) → MemState → Memory → Run
base_initialize e iterations s m =
    let nmpages = (s.maxlen + s.pagesize - 1) / s.pagesize in
    let (pages, r, calls) = permutation e.rand e.seed e.pages_fit s.r s.calls nmpages s.pagesize in
    let set_up = record s {
      initialized = false;
      addr = block_of e s;
      nwords = s.line / pointer_size;
      nlines = s.pagesize / s.line;
      npages = (s.len + s.pagesize - 1) / s.pagesize;
      lines = none;
      pages = pages;
      words = none;
      r = r;
      calls = calls;
    } in
    if not (iterations == 0)
    then returns s m
    else if block_of e s == 0
    then exits 1
    else if is_none pages
    then returns set_up m
    else returns
        (record set_up {
          base = align (block_of e s) s.pagesize;
          initialized = true;
          rerun = false;
        })
        m

-- `stride_initialize(iterations, state)`.
unfoldable pub stride_initialize : (fuel : ℕ) → Env → (iterations : ℕ) → MemState → Memory → Run
stride_initialize fuel e iterations s m = base_initialize e iterations s m >>= λ s m.
    if not s.initialized
    then returns s m
    else elim (stride_loop fuel s.line s.len s.line s.base m) [
      | none ↦ out_of_fuel
      | some m' ↦ returns (set_p 0 s.base (record s { rerun = false })) m'
    ]

-- `for (j = 0; j < nwords; ++j)` of `thrash_initialize` from a page to the next, with `left` rounds to
-- go: the words of a page lead to those of the next one, a word further. The page at `i` is entered at
-- its `i`-th word, the next one at its word behind `enter`.
pub thrash_page : (left j i enter nwords addr cpage npage : ℕ) → List ℕ → Memory → Memory
thrash_page zero j i enter nwords addr cpage npage words m = m
thrash_page (suc left) j i enter nwords addr cpage npage words m =
    let cur = cpage + at words ((i + j) % nwords) in
    let next = npage + at words ((enter + j + 1) % nwords) in
    thrash_page left (j + 1) i enter nwords addr cpage npage words
      (write m (addr + cur) (addr + next))

-- `for (i = 0; i < npages - 1; ++i)`, with `left` rounds to go, and the last page behind it.
pub thrash_pages : (left i nwords addr : ℕ) → (pages words : List ℕ) → Memory → Memory
unfolding thrash_page
thrash_pages zero i nwords addr pages words m =
    thrash_page nwords 0 i 0 nwords addr (at pages i) (at pages 0) words m
thrash_pages (suc left) i nwords addr pages words m =
    thrash_pages left (i + 1) nwords addr pages words
      (thrash_page nwords 0 i i nwords addr (at pages i) (at pages (i + 1)) words m)

-- `thrash_initialize(iterations, state)`.
unfoldable pub thrash_initialize : Env → (iterations : ℕ) → MemState → Memory → Run
thrash_initialize e iterations s m = base_initialize e iterations s m >>= λ s m.
    let nwords = if s.len % s.pagesize == 0 then s.pagesize / s.line else s.len / s.line in
    let words = words_initialize e.words_fit nwords s.line in
    let s' = record s { nwords = nwords; words = words } in
    let pages = table s.pages in
    if not s.initialized
    then returns s m
    else if not (s.len % s.pagesize == 0)
    then (if is_none words
        then exits 1
        else returns (set_p 0 s.base (record s' { rerun = false }))
            (thrash_words (nwords - 1) 0 s.base (table words) m))
    else if is_none words
    then exits 2
    else returns (set_p 0 (s.base + at pages 0) (record s' { rerun = false }))
        (thrash_pages (s.npages - 1) 0 nwords s.base pages (table words) m)

-- `line_initialize(iterations, state)`. `runs` is what the run through the chain leaves in
-- `mem_benchmark_rerun`.
unfoldable pub line_initialize : Env → (iterations : ℕ) → MemState → Memory → Run
line_initialize e iterations s m =
    if not (iterations == 0)
    then returns s m
    else (base_initialize e iterations s m >>= λ s m.
        let lines = words_initialize e.lines_fit s.nlines s.line in
        let s' = record s { initialized = false; lines = lines; width = 1 } in
        let (m', start) = line_chain s.npages s.nlines s.base (table s.pages) (table lines) m in
        if not s.initialized
        then returns s m
        else if (s.addr == 0) || is_none lines || is_none s.pages
        then returns s' m
        else returns (set_p 0 start (record s' { rerun = true; initialized = true })) m')
