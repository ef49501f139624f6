-- ===== src/Results.antt =====
-- The result tables of src/lib_timing.c: `result_t` of src/bench.h, `sizeof_result`, `insertinit`,
-- `insertsort`, and the functions that choose a measurement from the current table.
pub mod Insert
pub mod Order
pub mod Choice
mod Tests
use qnx_lmbench_mods.Base.{
  ℕ, zero, suc, ◌+◌, ◌-◌, ◌*◌, ◌/◌, ◌%◌, ◌^◌, Bool, true, false, Option, none, some, List, [], ◌∷◌,
  length, get_or, set, take, ltb, leb, ◌==◌, if◌then◌else◌,
}
use qnx_lmbench_mods.Clock.{Clock, u64, save_n, settime}
use qnx_lmbench_mods.Double.{Double, ratio_gt}

-- `value_t`: `n` iterations took `u` microseconds.
pub record Value : Type 0 where
  pub u : ℕ
  pub n : ℕ

abbrev pub unset : Value
unset = record { u = 0; n = 0 }

-- `result_t`. `v` holds as many values as the memory of the table has room for.
pub record Table : Type 0 where
  pub count : ℕ
  pub v : List Value

abbrev pub tries : ℕ
tries = 11

-- `sizeof(value_t)` and `sizeof(result_t)` where a `uint64` is aligned to 8 bytes.
abbrev pub sizeof_value_t : ℕ
sizeof_value_t = 16

abbrev pub sizeof_result_t : ℕ
sizeof_result_t = 8 + tries * sizeof_value_t

-- `sizeof_result(repetitions)`: a sum in `size_t` that is returned as an `int`. A number from 2 ^ 31 on
-- stands for the negative `int` of the same 32 bits.
unfoldable pub sizeof_result : ℕ → ℕ
sizeof_result repetitions =
    if leb repetitions tries
    then sizeof_result_t
    else (sizeof_result_t + (repetitions - tries) * sizeof_value_t) % 2 ^ 32

-- `r->v[i]`
abbrev pub value_at : List Value → ℕ → Value
value_at v i = get_or v i unset

unfoldable pub insertinit : Table → Table
insertinit r = record r { count = 0 }

-- `for (j = r->N; j > i; --j) r->v[j] = r->v[j - 1];`, with `k` rounds left and `j` at `i + k`.
pub shift : ℕ → ℕ → List Value → List Value
shift zero i v = v
shift (suc k) i v = shift k i (set v (i + suc k) (value_at v (i + k)))

module _ (d : Double) where
  abbrev pub above : Value → Value → Bool
  above x y = ratio_gt d x.u x.n y.u y.n

  -- The `for` over the table: the index of the first value that the new one exceeds, or the end. `k`
  -- values are left, from the index `i` on.
  pub position : ℕ → ℕ → List Value → Value → ℕ
  position zero i v x = i
  position (suc k) i v x =
      let rest = position k (i + 1) v x in if above x (value_at v i) then i else rest

  -- `insertsort(u, n, r)`. Whichever way the loop ends, one value is written at the index `N` or, by
  -- the shift, into it: `none` if that is behind the end of the memory.
  pub insertsort : ℕ → ℕ → Table → Option Table
  unfolding position shift
  insertsort u n r =
      let x : Value = record { u = u; n = n } in
      let i = position r.count 0 r.v x in
      if u == 0
      then some r
      else (if ltb r.count (length r.v)
          then some (record { count = r.count + 1; v = set (shift (r.count - i) i r.v) i x })
          else none)

  -- The calls of `insertsort` for one measurement after the other.
  pub insert_all : List Value → Table → Option Table
  insert_all [] r = some r
  insert_all (x ∷ xs) r = elim (insertsort x.u x.n r) [ none ↦ none | some t ↦ insert_all xs t ]

-- The static variables: those of the clock, the tables in memory, and the pointer `results`.
pub record Timing : Type 0 where
  pub clock : Clock
  pub tables : ℕ → Table
  pub results : ℕ

-- `*results`
abbrev pub current : Timing → Table
current t = t.tables t.results

unfoldable pub get_results : Timing → ℕ
get_results t = t.results

pub save_minimum : Timing → Timing
save_minimum t =
    let r = current t in
    let last = value_at r.v (r.count - 1) in
    if r.count == 0
    then record t { clock = settime 0 (save_n 1 t.clock) }
    else record t { clock = settime last.u (save_n last.n t.clock) }

-- The choice of `save_median`; the sums are those of `uint64`.
pub median : Table → Value
median r =
    let i = r.count / 2 in
    let a = value_at r.v i in
    let b = value_at r.v (i - 1) in
    if r.count == 0
    then record { u = 0; n = 1 }
    else (if r.count % 2 == 0
        then record { u = (a.u + b.u) % u64 / 2; n = (a.n + b.n) % u64 / 2 }
        else a)

unfoldable pub save_median : Timing → Timing
unfolding median
save_median t = let m = median (current t) in record t { clock = settime m.u (save_n m.n t.clock) }

unfoldable pub set_results : ℕ → Timing → Timing
unfolding save_median
set_results p t = save_median (record t { results = p })
