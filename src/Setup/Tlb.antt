-- ===== src/Setup/Tlb.antt =====
-- `tlb_initialize` of src/lib_mem.c: a chain of one word per page.
pub mod Alignment
pub mod Order
pub mod Cycle
use Prim.Native.Nat.{bit_xor}
use qnx_lmbench_mods.Base.{
  ℕ, zero, suc, ◌+◌, ◌-◌, ◌*◌, ◌/◌, ◌%◌, ◌^◌, Bool, true, false, not, Option, none, some, List, [],
  ◌∷◌, ◌==◌, if◌then◌else◌,
}
use qnx_lmbench_mods.Mem.{Memory, write, at, swap, words_initialize}
use qnx_lmbench_mods.Setup.{MemState, Env, Run, returns, exits, pointer_size, set_p, is_none, table}

-- What the allocation of the pages comes to: the blocks and the pages in them, or the status that the
-- process ends with.
pub data Layout : Type 0 where
  laid : (addr pages : List ℕ) → Layout
  failed : ℕ → Layout

pub add_page : ℕ → ℕ → Layout → Layout
add_page a p (laid addr pages) = laid (a ∷ addr) (p ∷ pages)
add_page a p (failed n) = failed n

-- `valloc(pagesize)` and, if that is not aligned, `valloc(2 * pagesize)`, for the `i`-th page: the
-- block and the page in it, or the status.
pub lay_page : (single double : ℕ → ℕ) (pagesize i : ℕ) → Layout → Layout
unfolding add_page
lay_page single double pagesize i rest =
    let p = single i in
    let q = double i in
    if p == 0
    then failed 4
    else if p % pagesize == 0
    then add_page p p rest
    else if q == 0
    then failed 5
    else add_page q (q + (pagesize - q % pagesize)) rest

-- The `for` over the pages, with `left` of them to go.
unfoldable pub lay_pages : (single double : ℕ → ℕ) (pagesize left i : ℕ) → Layout
unfolding lay_page
lay_pages single double pagesize zero i = laid [] []
lay_pages single double pagesize (suc left) i =
    lay_page single double pagesize i (lay_pages single double pagesize left (i + 1))

abbrev pub uint_max : ℕ
uint_max = 2 ^ 32

-- `for (i = npages - 2; i > 0; --i)`: the pages behind the zeroth one in a random order.
pub shuffle_pages : (rand : ℕ → ℕ) (i r calls : ℕ) → List ℕ → List ℕ
shuffle_pages rand zero r calls pages = pages
shuffle_pages rand (suc k) r calls pages =
    let r' = bit_xor (r * 2 % uint_max) (rand calls / 16) in
    shuffle_pages rand k r' (calls + 1) (swap (r' % suc k + 1) (suc k + 1) pages)

-- The run through the pages, with `left` rounds of the loop to go.
pub page_chain : (left i nlines : ℕ) → (pages lines : List ℕ) → Memory → Memory
page_chain zero i nlines pages lines m =
    write m (at pages i + at lines (i % nlines)) (at pages 0 + at lines 0)
page_chain (suc left) i nlines pages lines m =
    page_chain left (i + 1) nlines pages lines (
      write m (at pages i + at lines (i % nlines)) (at pages (i + 1) + at lines ((i + 1) % nlines)))

-- `tlb_initialize(iterations, state)`, where the size of a page and the number of pages fit the `int`
-- they are kept in. `single` and `double` are what `valloc` gives for the pages, and
-- the table of blocks
-- comes from `malloc`.
unfoldable pub tlb_initialize :
    Env → (single double : ℕ → ℕ) (iterations : ℕ) → MemState → Memory → Run
tlb_initialize e single double iterations s m =
    let nlines = s.pagesize / pointer_size in
    let npages = s.len / s.pagesize in
    let lines = words_initialize e.lines_fit nlines pointer_size in
    let r = bit_xor (e.rand 0 * 2 ^ 15 % uint_max) (e.rand 1) in
    if not (iterations == 0)
    then returns s m
    else if is_none lines
    then exits 1
    else if not e.pages_fit
    then exits 1
    else if e.malloc (npages * pointer_size) == 0
    then exits 1
    else elim (lay_pages single double s.pagesize npages 0) [
      | failed status ↦ exits status
      | laid addr unordered ↦
          let pages = shuffle_pages e.rand (npages - 2) r 2 unordered in
          returns
            (set_p 0 (at pages 0 + at (table lines) 0) (record s {
              addr = e.malloc (npages * pointer_size);
              initialized = true;
              nwords = 1;
              nlines = nlines;
              npages = npages;
              words = none;
              lines = lines;
              pages = some pages;
              rerun = true;
            }))
            (page_chain (npages - 1) 0 nlines pages (table lines) m)
    ]
