-- ===== src/Setup/Tests.antt =====
-- The theorems on the initializers of memory at concrete inputs, and their runs.
use mathlib.Core.List.{Perm}
use qnx_lmbench_mods.Base.{
  ℕ, zero, suc, ◌+◌, ◌-◌, ◌*◌, ◌/◌, ◌%◌, ◌<◌, ◌≤◌, ◌≡◌, refl, true, false, none, some, List, [],
  ◌∷◌, arith, replicate, ◌==◌, if◌then◌else◌,
}
use qnx_lmbench_mods.Clock.{Clock, zero_tv, settime, save_n}
use qnx_lmbench_mods.Results.{Timing, unset}
use qnx_lmbench_mods.Mem.{at, Memory, line_initialize as line_chain}
use qnx_lmbench_mods.Mem.Chain.{follow}
use qnx_lmbench_mods.Setup.{MemState, Env, returns, base_initialize, line_initialize}
use qnx_lmbench_mods.Setup.Tlb.{laid, lay_pages, tlb_initialize}
use qnx_lmbench_mods.Setup.Tlb.Order.{Distinct}
use qnx_lmbench_mods.Setup.Tlb.Cycle.{tlb_initialize_cycle}
use qnx_lmbench_mods.Setup.Bounds.{base_initialize_bounds}

-- Three pages of two lines of 64 bytes.
abbrev three_pages : MemState
three_pages = record {
  addr = 0;
  base = 0;
  p = λ j. 0;
  initialized = false;
  width = 1;
  len = 384;
  maxlen = 384;
  line = 64;
  pagesize = 128;
  nlines = 0;
  npages = 0;
  nwords = 0;
  pages = none;
  lines = none;
  words = none;
  rerun = false;
  r = 0;
  calls = 0;
}

abbrev host : Env
host = record {
  rand = λ i. i * 7 + 3;
  seed = λ a b. a + b;
  pages_fit = true;
  lines_fit = true;
  words_fit = true;
  malloc = λ n. if n == 0 then 0 else 1000;
}

abbrev blank : Memory
blank = λ x. 0

base_initialize_bounds_example :
    (s' : MemState) × (base_initialize host 0 three_pages blank ≡ returns s' blank)
    × (s'.initialized ≡ true)
    × (s'.base % 128 ≡ 0)
    × (s'.addr ≡ host.malloc (384 + 2 * 128))
    × (s'.addr ≤ s'.base)
    × (s'.base + (384 + 128 - 1) / 128 * 128 ≤ s'.addr + (384 + 2 * 128))
base_initialize_bounds_example =
    base_initialize_bounds host three_pages blank (omega arith) refl (omega arith) (omega arith)

-- The second page is not aligned at first.
abbrev first_try : ℕ → ℕ
first_try i = if i == 1 then 5000 else 1024 + i * 128

abbrev second_try : ℕ → ℕ
second_try i = 6000

abbrev blocks : List ℕ
blocks = 1024 ∷ 6000 ∷ 1280 ∷ []

abbrev laid_out : List ℕ
laid_out = 1024 ∷ 6016 ∷ 1280 ∷ []

lay_pages-three : lay_pages first_try second_try 128 3 0 ≡ laid blocks laid_out
unfolding lay_pages
lay_pages-three = refl

at-laid_out : (i : ℕ) → i < 3 → at laid_out i ≡ 1024 + i * 128 + i % 2 * 4864
at-laid_out zero h = refl
at-laid_out (suc zero) h = refl
at-laid_out (suc (suc zero)) h = refl
at-laid_out (suc (suc (suc i))) h = absurd (omega arith)

laid_out-Distinct : Distinct 3 laid_out
unfolding Distinct
laid_out-Distinct i j hi hj e =
    let a = at-laid_out i hi in let b = at-laid_out j hj in omega (arith, a, b, e)

tlb_initialize_cycle_example :
    (s' : MemState) × (m' : Memory) × (pages : List ℕ) × (word : ℕ) × (tlb_initialize host first_try
        second_try 0 three_pages blank
      ≡ returns s' m')
    × (s'.initialized ≡ true)
    × (s'.pages ≡ some pages)
    × Perm pages laid_out
    × (at pages 0 ≡ at laid_out 0)
    × (word < 128)
    × (follow 2 m' (s'.p 0) ≡ at pages 2 + word)
    × (follow 3 m' (s'.p 0) ≡ s'.p 0)
tlb_initialize_cycle_example =
    tlb_initialize_cycle host first_try second_try three_pages blank 4 2 blocks laid_out refl refl
      (omega arith) (omega arith) (omega arith) refl lay_pages-three laid_out-Distinct (omega arith)

abbrev pair_pages : List ℕ
pair_pages = 128 ∷ 0 ∷ []

abbrev pair_lines : List ℕ
pair_lines = 0 ∷ 64 ∷ []

-- Two pages of two lines, after `line_initialize`.
abbrev line_state : MemState
line_state = record three_pages {
  base = 4096;
  nlines = 2;
  npages = 2;
  pages = some pair_pages;
  lines = some pair_lines;
}

abbrev statics : Timing
statics = record {
  clock = record { start_tv = zero_tv; stop_tv = zero_tv; iterations = 1 };
  tables = λ p. record { count = 0; v = replicate 11 unset };
  results = 0;
}

-- A clock that shows more time with every round.
abbrev steady : ℕ → Memory → Clock → Clock
steady i m c = settime (50 + i) (save_n 1000 c)
