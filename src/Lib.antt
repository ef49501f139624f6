-- ===== src/Lib.antt =====
-- lmbench for QNX: the parts of the benchmark suite that are more than system calls.
--
-- src/ holds the benchmarks. Each one parses its options with src/getopt.c, lays out its memory with
-- src/lib_mem.c, and runs its body under the harness of src/lib_timing.c, which reads the clock,
-- corrects the time by its own overhead, and keeps the measurements in a sorted table.
--
--   Base         shared names: Boolean tests, lists and integers over the native numbers.
--   Double       the C type `double`: a parameter, with the laws that a theorem relies on.
--   Clock        src/lib_timing.c: `tvsub`, `tvdelta`, `start`, `stop`, `settime`, `gettime`,
--                `save_n`, `get_n` on the static variables `start_tv`, `stop_tv` and `iterations`; `now`,
--                `delta`.
--   Results      src/lib_timing.c and src/bench.h: `result_t` with `insertsort`, `save_median`,
--                `save_minimum`, `set_results`, `get_results`, `insertinit`, `sizeof_result`.
--   Getopt       src/getopt.c: `getopt` and the loop on it.
--   BitReverse   the bit loops of `words_initialize`, against a reversal by halving.
--   Mem          src/lib_mem.c: `words_initialize` and the pointer chains of `stride_initialize`,
--                `thrash_initialize` and `line_initialize`, as loops on memory; src/lib_timing.c:
--                `permutation`. Mem/Tour says what the benchmarks expect of a chain.
--   Setup        src/lib_mem.c: the same initializers as they are called, on `struct mem_state`:
--                `base_initialize`, `stride_initialize`, `thrash_initialize`, `line_initialize`,
--                `mem_initialize` (Setup/Chains), `tlb_initialize` (Setup/Tlb), `mem_cleanup` and
--                `tlb_cleanup` (Setup/Cleanup), `line_find` and `line_test`
--                (Setup/LineSize), `par_mem` (Setup/Parallel).
--   Harness      src/lib_timing.c: `benchmp_child` up to its loop and `benchmp_interval`, the state
--                machine that runs between two rounds of a benchmark: warmup, timing, cooldown.
--   Parent       src/lib_timing.c: `benchmp_parent`, which collects the children's measurements over a
--                pipe and merges them, and `benchmp` (Parent/Launch), which forks and reaps them.
--   Calibrate    src/lib_timing.c: `get_enough` with `compute_enough`, `test_time`, `find_N` and
--                `time_N`, which find the interval that a measurement has to last.
--   Sched        src/lib_sched.c: `handle_scheduler`, `reverse_bits`, `custom`.
--   Stats        src/lib_stats.c: comparisons, minima, maxima, means, medians (Stats/Medians),
--                variances, moments, bootstrap and regression (Stats/Spread).
--   Readers      src/lib_timing.c: `bread`, `touch`.
--   Sizes        src/lib_timing.c: `last`, `bytes`.
--   Times        src/TIMES.c: the differences of times.
--   Lmdd         src/lmdd.c: the arguments (Lmdd/Args: `chkarg`, `getarg`; Lmdd/Files: `getfile`), what `main`
--                makes of them (Lmdd/Settings), the offsets of a random copy (Lmdd/Offsets:
--                `been_there`), the loop of `main` (Lmdd/Copy), the patterns in a block (Lmdd/Pattern), the
--                histograms (Lmdd/Histogram), `done` (Lmdd/Done).
--
-- A C string is the list of its bytes, and memory a function from addresses to the pointers loaded there:
-- a store changes what is loaded from the addresses up to seven bytes beside it as well. An unsigned
-- 64-bit value is a native number with its wrap-around written out. The shifts of an `int` in
-- `words_initialize` and `reverse_bits`, its `int scale`, the `int`s of `tlb_initialize` and the processor
-- numbers are modelled for values that an `int` holds and that are not negative; the theorems on them say
-- so. What `sizeof_result` returns is reduced to the 32 bits of an `int`, what `base_initialize` asks
-- `malloc` for to 64 bits. A failed `assert` and a read or write outside an array are values (`none`,
-- `fault`). `gettimeofday`, `rand`, the process ids and `malloc`'s success are arguments, and so are the
-- pipes, `getppid` and the processor count that the harness and the scheduler ask for.
--
-- Fuel: `getopt_loop` needs more fuel than there are option letters, `stride_loop` as much as there
-- are strides; the theorems say so and hold for all fuel from there on. `custom` runs its loop on the
-- length of its text, which is more than it holds numbers, and `bread` each loop on one more than the
-- number of bytes, as does `touch`. `line_find` and `par_mem` run on fuel, for which no bound is
-- claimed; nor for the search of lmdd for an offset that was not used. The loops that wait for the children run on the list of the rounds of `select` that they
-- meet.
--
-- Not modelled: the system calls that the benchmarks measure (sockets, files, pipes, signals,
-- messages), formatted output, and the unrolled loads of the memory benchmarks. Nor is some
-- code that is no system call: the search for sizes in src/cache.c, src/line.c and src/tlb.c, the
-- estimate of src/mhz.c.
pub mod Base
pub mod BitReverse
pub mod Calibrate
pub mod Clock
pub mod Double
pub mod Getopt
pub mod Harness
pub mod Lmdd
pub mod Mem
pub mod Parent
pub mod Readers
pub mod Results
pub mod Sched
pub mod Setup
pub mod Sizes
pub mod Stats
pub mod Times
