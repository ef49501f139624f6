-- ===== src/Parent.antt =====
-- The measuring parent of src/lib_timing.c: `benchmp_parent`, which starts the children, collects their
-- measurements over a pipe, and merges them.
mod Tests
pub mod Collect
pub mod Merge
pub mod Launch
use Prim.Native.Nat.{min}
use qnx_lmbench_mods.Base.{
  ℕ, zero, suc, ◌+◌, ◌-◌, ◌*◌, ◌/◌, ◌%◌, Bool, true, false, not, ◌&&◌, ◌||◌, Option, none, some,
  List, [], ◌∷◌, ◌++◌, length, take, drop, ltb, leb, ◌==◌, if◌then◌else◌,
}
use qnx_lmbench_mods.Double.{Double}
use qnx_lmbench_mods.Harness.{put}
use qnx_lmbench_mods.Results.{
  Value, Table, Timing, insertinit, insert_all, set_results, sizeof_result,
}

-- What one round of `select` and `read` meets: a signal or an error came, the pipe is readable, and as
-- many bytes have arrived, or `none` if `read` fails.
pub record Round : Type 0 where
  pub stopped : Bool
  pub readable : Bool
  pub arrived : Option ℕ

-- What the parent does besides reading.
pub data Act : Type 0 where
  pause : (sec usec : ℕ) → Act
  send_start : ℕ → Act
  ask_result : Act
  reset_sigchld : Act
  send_exit : ℕ → Act
  kill_child : ℕ → Act
  wait_child : ℕ → Act

-- `goto error_exit` of one round.
abbrev pub is_broken : Round → Bool
is_broken e = e.stopped || (e.readable && elim e.arrived [ none ↦ true | some n ↦ false ])

-- `bytes_read` of a round in which `left` bytes are asked for.
abbrev pub bytes_read : Round → ℕ → ℕ
bytes_read e left = if e.readable then elim e.arrived [ none ↦ 0 | some n ↦ min n left ] else 0

-- How a loop that reads a number of bytes ends: with the bytes, what the pipe still holds, and the
-- rounds to come; by an error; or not within the rounds that are given.
pub data Collected : Type 0 where
  collected : (got pipe : List ℕ) → List Round → Collected
  broken : Collected
  waiting : Collected

-- `for (i = 0; i < n; i += bytes_read)`, with `left` bytes to go. `pipe` holds the bytes that the
-- children send, in order, and `got` those that were read.
pub collect : (left : ℕ) → List Round → (pipe got : List ℕ) → Collected
collect left [] pipe got = if left == 0 then collected got pipe [] else waiting
collect left (e ∷ es) pipe got =
    let bytes = take (bytes_read e left) pipe in
    let rest = collect (left - length bytes) es (drop (bytes_read e left) pipe) (got ++ bytes) in
    if left == 0 then collected got pipe (e ∷ es) else if is_broken e then broken else rest

-- `results->v[j]` for `j < results->N`: `none` outside the memory of the table.
abbrev pub reported : Table → Option (List Value)
reported t = if leb t.count (length t.v) then some (take t.count t.v) else none

-- How the collection of all results ends; `acts` is what the parent did so far.
pub data Gathered : Type 0 where
  gathered : Table → (acts : List Act) → Gathered
  stopped : (acts : List Act) → Gathered
  blocked : (acts : List Act) → Gathered
  overrun : Gathered

-- `for (i = 0; i < parallel; ++i) { kill(pids[i], SIGTERM); waitpid(pids[i], NULL, 0); }`
pub kill_all : (left i : ℕ) → List Act
kill_all zero i = []
kill_all (suc left) i = kill_child i ∷ wait_child i ∷ kill_all left (i + 1)

-- How a call ends: with the results, by `error_exit`, for want of memory, or by waiting on when the
-- rounds are over; or memory outside a table was touched.
pub data Ending : Type 0 where
  finished : Timing → List Act → Ending
  failed : List Act → Ending
  no_memory : Ending
  waits : List Act → Ending
  out_of_bounds : Ending

abbrev pub error_exit : ℕ → List Act → Ending
error_exit parallel acts = failed (acts ++ (reset_sigchld ∷ []) ++ kill_all parallel 0)

-- `if (warmup > 0) … select(0, NULL, NULL, NULL, &delay);`
abbrev pub warmup_pause : ℕ → List Act
warmup_pause warmup = if ltb 0 warmup then pause (warmup / 1000000) (warmup % 1000000) ∷ [] else []

-- What follows the collection of the results: the table at `m` becomes the current one.
abbrev pub finish : (parallel m : ℕ) → Timing → Gathered → Ending
finish parallel m t g = elim g [
  | gathered merged acts ↦
      finished (set_results m (put m merged t)) (acts ++ (reset_sigchld ∷ send_exit parallel ∷ []))
  | stopped acts ↦ error_exit parallel acts
  | blocked acts ↦ waits acts
  | overrun ↦ out_of_bounds
]

module _ (d : Double) (decode : List ℕ → Table) where
  -- `for (j = 0; j < results->N; ++j) insertsort(…)`
  abbrev pub merge : Table → Table → Option Table
  merge t merged = elim (reported t) [ none ↦ none | some xs ↦ insert_all d xs merged ]

  -- `for (i = 0; i < parallel; ++i)`, with `left` children to go. `decode` says how the bytes in
  -- `results` read as a table.
  pub gather : (left size : ℕ) → List Round → List ℕ → Table → List Act → Gathered
  gather zero size rounds pipe merged acts = gathered merged acts
  gather (suc left) size rounds pipe merged acts =
      let asked = acts ++ (ask_result ∷ []) in
      elim (collect size rounds pipe []) [
        | broken ↦ stopped asked
        | waiting ↦ blocked asked
        | collected got pipe' rounds' ↦ elim (merge (decode got) merged) [
          | none ↦ overrun
          | some merged' ↦ gather left size rounds' pipe' merged' asked
        ]
      ]

  -- `benchmp_parent(…)`. `early` says that a signal came before the call, `fit` that the three blocks of
  -- memory were allocated, and `m` is where the merged results are.
  pub benchmp_parent :
      (early fit : Bool)
      → List Round
      → (pipe : List ℕ) → (parallel warmup repetitions m : ℕ) → Timing
      → Ending
  benchmp_parent early fit rounds pipe parallel warmup repetitions m t =
      let started = warmup_pause warmup ++ (send_start parallel ∷ []) in
      if early
      then error_exit parallel []
      else if not fit
      then no_memory
      else elim (collect parallel rounds pipe []) [
        | broken ↦ error_exit parallel []
        | waiting ↦ waits []
        | collected ready pipe1 rounds1 ↦ elim (collect parallel rounds1 pipe1 []) [
          | broken ↦ error_exit parallel started
          | waiting ↦ waits started
          | collected done pipe2 rounds2 ↦ finish parallel m t (
              gather parallel (sizeof_result repetitions) rounds2 pipe2 (insertinit (t.tables m))
                started)
        ]
      ]
