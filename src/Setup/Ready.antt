-- ===== src/Setup/Ready.antt =====
-- `base_initialize` of src/lib_mem.c where everything can be allocated.
use qnx_lmbench_mods.Base.{
  ℕ, ◌+◌, ◌/◌, ◌<◌, ◌≡◌, ◌≢◌, refl, true, false, some, none, List, arith, ◌==◌, ◌*◌,
}
use qnx_lmbench_mods.Mem.{size_max, Memory}
use qnx_lmbench_mods.Mem.Order.{Permutes, permutation-Permutes}
use qnx_lmbench_mods.Setup.{MemState, Env, block_of, returns, base_initialize, align, pointer_size}
use qnx_lmbench_mods.Setup.Lines.{pages_of, pages_fit_in}

-- The state behind a successful `base_initialize`.
abbrev pub ready : Env → MemState → List ℕ → (r calls : ℕ) → MemState
ready e s pages r calls = record s {
  initialized = true;
  addr = block_of e s;
  base = align (block_of e s) s.pagesize;
  nwords = s.line / pointer_size;
  nlines = s.pagesize / s.line;
  npages = pages_of s.len s.pagesize;
  lines = none;
  pages = some pages;
  words = none;
  rerun = false;
  r = r;
  calls = calls;
}

module _ (e : Env) (s : MemState) (m : Memory) (block : block_of e s ≢ 0)
    (pages_fit : e.pages_fit ≡ true) (some_page : 0 < s.pagesize)
    (fits : s.maxlen + 2 * s.pagesize < size_max) where
  pub base_initialize-ready :
      (pages : List ℕ) × (r : ℕ) × (calls : ℕ) × (base_initialize e 0 s m
        ≡ returns (ready e s pages r calls) m)
      × Permutes (pages_of s.maxlen s.pagesize) s.pagesize pages
  unfolding base_initialize
  base_initialize-ready =
      let n = pages_of s.maxlen s.pagesize in
      let (pages, r, calls, done, order) =
        permutation-Permutes e.rand n s.pagesize e.seed s.r s.calls
          (pages_fit_in s.maxlen s.pagesize some_page (omega arith)) some_page in
      let given : (block_of e s == 0) ≡ false = ground arith in
      (pages, r, calls, rw (pages_fit, done, given) refl, order)
