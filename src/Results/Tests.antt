-- ===== src/Results/Tests.antt =====
-- Runs of the tables, and the theorems at concrete inputs, with whole quotients as the values of
-- `double`.
use mathlib.Core.List.{Perm}
use qnx_lmbench_mods.Base.{ℕ, ◌≡◌, refl, none, some, List, [], ◌∷◌, ◌++◌, length, replicate, arith}
use qnx_lmbench_mods.Clock.{zero_tv}
use qnx_lmbench_mods.Double.Whole.{whole, whole-RatioOrder}
use qnx_lmbench_mods.Results.{
  Value, unset, Table, tries, Timing, insertinit, insertsort, insert_all,
}
use qnx_lmbench_mods.Results.Insert.{entries}
use qnx_lmbench_mods.Results.Order.{IsSorted, timed, insert_all_lem}

abbrev val : ℕ → ℕ → Value
val u n = record { u = u; n = n }

abbrev empty : Table
empty = record { count = 0; v = replicate tries unset }

abbrev runs : List Value
runs = val 500 10 ∷ val 900 10 ∷ val 0 10 ∷ val 300 10 ∷ []

abbrev sorted : Table
sorted = record { count = 3; v = val 900 10 ∷ val 500 10 ∷ val 300 10 ∷ replicate 8 unset }

insert_all-runs :
    insert_all whole runs (insertinit sorted)
    ≡ some (record sorted { v = val 900 10 ∷ val 500 10 ∷ val 300 10 ∷ replicate 8 unset })
unfolding insert_all insertsort insertinit
insert_all-runs = refl

-- The twelfth measurement does not fit `TRIES` values.
overflow : insertsort whole 7 1 (record sorted { count = 11 }) ≡ none
unfolding insertsort
overflow = refl

empty-IsSorted : IsSorted whole whole-RatioOrder empty
empty-IsSorted = record { desc = tt; pos = tt }

sorted-IsSorted : IsSorted whole whole-RatioOrder sorted
sorted-IsSorted = record {
  desc = ((refl, (refl, tt)), ((refl, tt), (tt, tt)));
  pos = (omega arith, (omega arith, (omega arith, tt)));
}

insert_all_lem_example :
    (t : Table) × (insert_all whole runs empty ≡ some t)
    × IsSorted whole whole-RatioOrder t
    × Perm (entries t) (timed runs ++ entries empty)
    × (length t.v ≡ length empty.v)
insert_all_lem_example =
    insert_all_lem whole whole-RatioOrder runs empty empty-IsSorted (omega arith)

abbrev timing : Timing
timing = record {
  clock = record { start_tv = zero_tv; stop_tv = zero_tv; iterations = 1 };
  tables = λ p. sorted;
  results = 0;
}
