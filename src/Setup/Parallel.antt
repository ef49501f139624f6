-- ===== src/Setup/Parallel.antt =====
-- `par_mem` of src/lib_mem.c: how many chains the memory serves at a time.
use qnx_lmbench_mods.Base.{
  ℕ, zero, suc, ◌+◌, ◌*◌, ◌/◌, ◌%◌, Bool, false, not, ◌&&◌, none, some, List, [], ltb, ◌==◌,
  if◌then◌else◌,
}
use qnx_lmbench_mods.Clock.{Clock, gettime, get_n}
use qnx_lmbench_mods.Double.{Double, gt}
use qnx_lmbench_mods.Mem.{Memory, at}
use qnx_lmbench_mods.Setup.{MemState, Env, Run, returns, exits, out_of_fuel, ◌>>=◌, set_p, table}
use qnx_lmbench_mods.Setup.Chains.{max_parallelism, mem_initialize}
use qnx_lmbench_mods.Setup.Cleanup.{Block, mem_cleanup}

-- Where the `j`-th of `i + 1` chains starts, in a memory of `len` bytes.
pub chain_start : (i j len : ℕ) → MemState → ℕ
chain_start i j len s =
    let nlines = len / s.line in
    let lines_per_chunk = nlines / (i + 1) in
    let lines_per_page = s.pagesize / s.line in
    let line = j * lines_per_chunk in
    let word = j * s.nwords / (i + 1) in
    s.base
    + at (table s.pages) (line / lines_per_page)
    + at (table s.lines) (line % lines_per_page)
    + at (table s.words) (word % s.nwords)

-- `for (j = 0; j <= i; j++)`, with `left` chains to go.
pub set_starts : (left i j len : ℕ) → MemState → MemState
unfolding chain_start
set_starts zero i j len s = s
set_starts (suc left) i j len s = set_starts left i (j + 1) len (set_p j (chain_start i j len s) s)

-- `for (state->addr = NULL; !state->addr && len; )` behind the first part: as in `line_find`.
pub allocate_chains : Env → (fuel len : ℕ) → MemState → Memory → Run
allocate_chains e zero len s m = out_of_fuel
allocate_chains e (suc fuel) len s m =
    if (s.addr == 0) && not (len == 0)
    then (mem_initialize e 0 (record s { len = len; maxlen = len }) m >>= λ s' m'.
        allocate_chains e fuel (if s'.addr == 0 then len / 2 else len) s' m')
    else returns s m

module _ (d : Double) where
  -- How `par_mem` ends: with a parallelism, or -1 if there is no memory; or the process ends, the clock
  -- fails, or a loop is out of fuel.
  pub data Parallelism : Type 0 where
    parallelism : d.D → MemState → Clock → Parallelism
    minus_one : Parallelism
    stops : Parallelism
    no_time : Parallelism
    more_fuel : Parallelism

  -- `par /= (double)gettime() / (double)((i + 1) * get_n());` from the baseline.
  abbrev pub speedup : (i u n : ℕ) → (baseline : d.D) → d.D
  speedup i u n baseline = d.div baseline (d.div (d.of_u64 u) (d.of_u64 ((i + 1) * n)))

  -- The body of the loop behind the measurement of `u` microseconds for `n` rounds: the baseline, the
  -- greatest speedup so far, and whether the loop is left.
  pub weigh : (i u n : ℕ) → (baseline max_par : d.D) → d.D × d.D × Bool
  weigh i u n baseline max_par =
      let par = speedup i u n baseline in
      let max' = if gt d par max_par then par else max_par in
      if i == 0
      then (d.div (d.of_u64 u) (d.of_u64 n), max_par, false)
      else if ltb 0 u
      then (baseline, max', d.less (d.mul (d.lit 4 1) max') (d.of_u64 i))
      else (baseline, max_par, false)

  -- `for (i = 0; i < MAX_MEM_PARALLELISM; ++i)`, with `left` rounds to go. `bench` is what BENCH leaves
  -- in the clock for `i + 1` chains from the pointers on.
  pub par_loop :
      (bench : ℕ → MemState → Clock → Clock) (left i len : ℕ)
      → (baseline max_par : d.D) → MemState
      → Clock
      → Parallelism
  unfolding set_starts weigh
  par_loop bench zero i len baseline max_par s c = parallelism max_par s c
  par_loop bench (suc left) i len baseline max_par s c =
      let s' = set_starts (i + 1) i 0 len s in
      let c' = bench i s' c in
      elim (gettime c') [
        | none ↦ no_time
        | some u ↦
            let (baseline', max', leave) = weigh i u (get_n c') baseline max_par in
            let rest = par_loop bench left (i + 1) len baseline' max' s' c' in
            if leave then parallelism max' s' c' else rest
      ]

  -- `par_mem(len, warmup, repetitions, state)`, where `unset` is the baseline before the first round,
  -- which sets it: how it ends, with the blocks that `mem_cleanup` frees.
  pub par_mem :
      Env
      → (bench : ℕ → MemState → Clock → Clock) (unset : d.D) (fuel len : ℕ) → MemState
      → Clock
      → Memory
      → Parallelism × List Block
  unfolding allocate_chains par_loop
  par_mem e bench unset fuel len s c m =
      let s0 = record s { width = 1; addr = 0 } in
      elim (allocate_chains e fuel len s0 m) [
        | exits status ↦ (stops, [])
        | out_of_fuel ↦ (more_fuel, [])
        | returns s' m' ↦
            let run = par_loop bench max_parallelism 0 s'.len unset (d.lit 1 1) s' c in
            if s'.addr == 0 then (minus_one, []) else elim run [
              | parallelism best s2 c2 ↦
                  let (cleaned, blocks) = mem_cleanup 0 s2 in (parallelism best cleaned c2, blocks)
              | other ↦ (other, [])
            ]
      ]
