-- ===== src/Setup/LineSize.antt =====
-- The search for the length of a cache line in src/lib_mem.c: `line_test`, which visits only some lines
-- of each page, and `line_find`.
pub mod Restore
pub mod Whole
use qnx_lmbench_mods.Base.{
  ℕ, zero, suc, ◌+◌, ◌-◌, ◌*◌, ◌/◌, Bool, true, false, not, ◌&&◌, Option, none, some, List, [], ltb,
  leb, ◌==◌, if◌then◌else◌,
}
use qnx_lmbench_mods.Clock.{Clock, gettime, get_n}
use qnx_lmbench_mods.Double.{Double, gt}
use qnx_lmbench_mods.Harness.{put}
use qnx_lmbench_mods.Results.{Timing, insertinit, insertsort, get_results, set_results, tries}
use qnx_lmbench_mods.Mem.{Memory, write, at}
use qnx_lmbench_mods.Setup.Cleanup.{Block, mem_cleanup}
use qnx_lmbench_mods.Setup.{
  MemState, Env, Run, returns, exits, out_of_fuel, ◌>>=◌, pointer_size, table, line_initialize,
}

-- `for (i = 0; i < npages - 1; ++i)`, with `left` rounds to go: the line `j` of each page leads where
-- `target` says.
pub store_lines : (target : ℕ → ℕ) (left i p j : ℕ) → (pages lines : List ℕ) → Memory → Memory
store_lines target zero i p j pages lines m = m
store_lines target (suc left) i p j pages lines m =
    store_lines target left (i + 1) p j pages lines
      (write m (p + at pages i + at lines j) (target i))

-- `if (nlines < state->nlines)`: the line before the `nlines`-th of each page leads to the next page.
pub skip_lines : (npages nlines p : ℕ) → (pages lines : List ℕ) → Memory → Memory
unfolding store_lines
skip_lines npages nlines p pages lines m =
    write
      (store_lines (λ i. p + at pages (i + 1) + at lines 0) (npages - 1) 0 p (nlines - 1) pages
        lines m)
      (p + at pages (npages - 1) + at lines (nlines - 1)) (p + at pages 0 + at lines 0)

-- `/* fixup full path again */`
pub fixup_lines : (npages nlines p : ℕ) → (pages lines : List ℕ) → Memory → Memory
unfolding store_lines
fixup_lines npages nlines p pages lines m =
    write
      (store_lines (λ i. p + at pages i + at lines nlines) (npages - 1) 0 p (nlines - 1) pages lines
        m)
      (p + at pages (npages - 1) + at lines (nlines - 1))
      (p + at pages (npages - 1) + at lines nlines)

-- How the search goes on behind a test that took `t`.
pub data Search : Type 0 where
  found : ℕ → Search
  search_on : (big_jump : Bool) → Search

-- How `line_find` ends: it returns a length, 0 if it saw none, and -1 if there is no memory; or the
-- process ends; or a loop is out of fuel.
pub data Found : Type 0 where
  line_of : ℕ → Timing → Memory → Found
  minus_one : Found
  stops : Found
  more_fuel : Found

-- `for (state->addr = NULL; !state->addr && len; )` behind the first part, with the length to try.
pub allocate : Env → (fuel len : ℕ) → MemState → Memory → Run
allocate e zero len s m = out_of_fuel
allocate e (suc fuel) len s m =
    if (s.addr == 0) && not (len == 0)
    then (line_initialize e 0 (record s { len = len; maxlen = len }) m >>= λ s' m'.
        allocate e fuel (if s'.addr == 0 then len / 2 else len) s' m')
    else returns s m

module _ (d : Double) where
  -- How a test ends: with a time, with the end of the process, or with a fault of the clock or of the
  -- table of results.
  pub data Tested : Type 0 where
    tested : d.D → Timing → Memory → Tested
    no_table : Tested
    bad_clock : Tested

  -- `for (i = 0; i < repetitions; ++i)`, with `left` rounds to go. `bench` is what the `i`-th BENCH1
  -- leaves in the clock, and `r` is where the table of the test is.
  pub test_rounds :
      (bench : ℕ → Memory → Clock → Clock) (left i r : ℕ) → Memory → Timing → Option Timing
  test_rounds bench zero i r m t = some t
  test_rounds bench (suc left) i r m t =
      let clock = bench i m t.clock in
      elim (gettime clock) [
        | none ↦ none
        | some u ↦ elim (insertsort d u (get_n clock) (t.tables r)) [
          | none ↦ none
          | some results ↦
              test_rounds bench left (i + 1) r m (put r results (record t { clock = clock }))
        ]
      ]

  -- `t = 10. * (double)gettime() / (double)get_n();` from the results at `r`, with those of the caller
  -- made current again.
  pub test_result : (r r_save : ℕ) → Memory → Timing → Tested
  test_result r r_save m t =
      let chosen = set_results r t in
      elim (gettime chosen.clock) [
        | none ↦ bad_clock
        | some u ↦
            tested (d.div (d.mul (d.lit 10 1) (d.of_u64 u)) (d.of_u64 (get_n chosen.clock)))
              (set_results r_save chosen) m
      ]

  -- `line_test(line, warmup, repetitions, state)`. `fits` says that the table was allocated, and `none`
  -- is a negative number of repetitions.
  pub line_test :
      (bench : ℕ → Memory → Clock → Clock) (fits : Bool) (line : ℕ)
      → Option ℕ
      → (r : ℕ) → MemState
      → Timing
      → Memory
      → Tested
  unfolding test_rounds test_result
  line_test bench fits line repetitions r s t m =
      let npages = s.npages in
      let nlines = s.pagesize / line in
      let pages = table s.pages in
      let lines = table s.lines in
      let rounds : ℕ = elim repetitions [ none ↦ tries | some n ↦ n ] in
      let short = ltb nlines s.nlines in
      let during = if short then skip_lines npages nlines s.base pages lines m else m in
      let empty = put r (insertinit (t.tables r)) t in
      if not fits then no_table else elim (test_rounds bench rounds 0 r during empty) [
        | none ↦ bad_clock
        | some t' ↦
            test_result r (get_results t)
              (if short then fixup_lines npages nlines s.base pages lines during else during) t'
      ]

  -- The body of the `for` of `line_find`, behind its call of `line_test`.
  pub judge : (i : ℕ) (t baseline : d.D) (big_jump : Bool) → Search
  judge i t baseline big_jump =
      if d.less_eq t (d.lit 0 1) && d.less_eq (d.lit 0 1) t
      then found 0
      else if ltb pointer_size i
      then (if gt d t (d.mul (d.lit 13 10) baseline)
          then search_on true
          else if big_jump && d.less t (d.mul (d.lit 115 100) baseline)
          then found (i / 2)
          else search_on big_jump)
      else search_on big_jump

  -- `for (i = sizeof(char*); i <= maxline; i<<=1)`. `more_fuel`: out of fuel.
  pub find_loop :
      (test : ℕ → Timing → Memory → Tested) (fuel i maxline : ℕ)
      → (baseline : d.D) (big_jump : Bool) → Timing
      → Memory
      → Found
  unfolding judge
  find_loop test zero i maxline baseline big_jump t m = more_fuel
  find_loop test (suc fuel) i maxline baseline big_jump t m =
      if ltb maxline i then line_of 0 t m else elim (test i t m) [
        | no_table ↦ stops
        | bad_clock ↦ stops
        | tested time t' m' ↦ elim (judge i time baseline big_jump) [
          | found line ↦ line_of line t' m'
          | search_on jump ↦ find_loop test fuel (i * 2) maxline time jump t' m'
        ]
      ]

  -- `line_find(len, warmup, repetitions, state)`, where `maxline` is `getpagesize() / 16`: how it ends,
  -- and the state and the blocks freed by `mem_cleanup`.
  pub line_find :
      Env
      → (bench : ℕ → Memory → Clock → Clock) (fits : Bool) (fuel len maxline : ℕ) → Option ℕ
      → (r : ℕ) → MemState
      → Timing
      → Memory
      → Found × MemState × List Block
  unfolding allocate find_loop line_test
  line_find e bench fits fuel len maxline repetitions r s t m =
      let s0 = record s { width = 1; line = pointer_size; addr = 0 } in
      elim (allocate e fuel len s0 m) [
        | exits status ↦ (stops, s0, [])
        | out_of_fuel ↦ (more_fuel, s0, [])
        | returns s' m' ↦
            let test =
              λ (i : ℕ) (t : Timing) (m : Memory). line_test bench fits i repetitions r s' t m in
            let (cleaned, blocks) = mem_cleanup 0 s' in
            if s'.addr == 0
            then (minus_one, s', [])
            else (find_loop test fuel pointer_size maxline (d.lit 0 1) false t m', cleaned, blocks)
      ]
