-- ===== src/Parent/Tests.antt =====
-- Runs of the measuring parent, and the theorems on it at concrete inputs.
use mathlib.Core.List.{Perm}
use qnx_lmbench_mods.Base.{
  ℕ, zero, suc, ◌<◌, ◌≡◌, refl, true, false, some, List, [], ◌∷◌, ◌++◌, length, get_or, get_elem?,
  replicate, arith, ltb, ◌==◌,
}
use qnx_lmbench_mods.Clock.{zero_tv}
use qnx_lmbench_mods.Double.Whole.{whole, whole-RatioOrder}
use qnx_lmbench_mods.Results.{Table, Timing, current, unset, sizeof_result}
use qnx_lmbench_mods.Results.Insert.{entries}
use qnx_lmbench_mods.Results.Order.{IsSorted}
use qnx_lmbench_mods.Parent.{Round, ask_result, send_start, reset_sigchld, send_exit}
use qnx_lmbench_mods.Parent.Collect.{Calm, fruitful}
use qnx_lmbench_mods.Parent.Merge.{join, Replies}
use qnx_lmbench_mods.Parent.Launch.{
  Host, returned, Step, fork_child, stop_child, reap_child, kill_late, in_parent, forked, reap_all,
  benchmp_run,
}
use qnx_lmbench_mods.Parent.Launch.Whole.{benchmp_stops, benchmp_run_merges}

-- Every round finds three bytes.
abbrev three_bytes : Round
three_bytes = record { stopped = false; readable = true; arrived = some 3 }

replicate-Calm : (n : ℕ) → Calm (replicate n three_bytes)
replicate-Calm zero = tt
replicate-Calm (suc n) = (refl, replicate-Calm n)

fruitful-replicate : (n : ℕ) → fruitful (replicate n three_bytes) ≡ n
fruitful-replicate zero = refl
fruitful-replicate (suc n) = omega (arith, fruitful-replicate n)

-- The count, and one measurement.
abbrev short_table : List ℕ → Table
short_table b = record {
  count = get_or b 0 0;
  v = record { u = get_or b 1 0; n = get_or b 2 0 } ∷ [];
}

abbrev reply : ℕ → List ℕ
reply u = 1 ∷ u ∷ 10 ∷ replicate 181 0

abbrev replies : List (List ℕ)
replies = reply 5 ∷ reply 7 ∷ []

replies-Replies : Replies whole whole-RatioOrder short_table 1 replies
unfolding sizeof_result
replies-Replies = (refl, omega arith, omega arith, (refl, omega arith, omega arith, tt))

abbrev statics : Timing
statics = record {
  clock = record { start_tv = zero_tv; stop_tv = zero_tv; iterations = 1 };
  tables = λ p. record { count = 0; v = replicate 11 unset };
  results = 0;
}

abbrev calm_host : Host
calm_host = record {
  pipes_made = true;
  pids_fit = true;
  terminated = λ i. false;
  forks = λ i. true;
  early = false;
  late = λ i. i == 1;
  results_fit = true;
  rounds = replicate 400 three_bytes;
  pipe = (0 ∷ 0 ∷ []) ++ ((0 ∷ 0 ∷ []) ++ join replies);
}

benchmp_run_merges_example :
    (t' : Timing) × (benchmp_run whole short_table calm_host 1000 2 0 1 3 statics []
      ≡ returned t' (
          fork_child 0
          ∷ fork_child 1
          ∷ in_parent (send_start 2)
          ∷ in_parent ask_result
          ∷ in_parent ask_result
          ∷ in_parent reset_sigchld
          ∷ in_parent (send_exit 2)
          ∷ reap_child 1 5
          ∷ kill_late 1
          ∷ reap_child 0 1
          ∷ []))
    × (t'.results ≡ 3)
    × IsSorted whole whole-RatioOrder (current t')
    × Perm (entries (current t')) (record { u = 5; n = 10 } ∷ record { u = 7; n = 10 } ∷ [])
unfolding forked reap_all sizeof_result
benchmp_run_merges_example =
    benchmp_run_merges whole short_table calm_host refl refl whole-RatioOrder refl refl (0 ∷ 0 ∷ [])
      (0 ∷ 0 ∷ []) replies 1000 0 1 3 statics [] (λ i h. (refl, refl)) refl (replicate-Calm 400)
      refl refl replies-Replies (omega arith) (rw (fruitful-replicate 400) (omega arith))

-- The third fork fails.
abbrev full_host : Host
full_host = record calm_host { forks = λ i. ltb i 2 }

two-AllFork : (i : ℕ) → i < 2 → (full_host.terminated i ≡ false) × (full_host.forks i ≡ true)
two-AllFork i h = (refl, ground arith)

benchmp_stops_example :
    (steps : List Step) × (benchmp_run whole short_table full_host 1000 4 0 1 3 statics []
      ≡ returned statics (fork_child 0 ∷ fork_child 1 ∷ steps))
    × (length steps ≡ 2)
    × (get_elem? steps 0 ≡ some (stop_child 1))
unfolding forked
benchmp_stops_example =
    benchmp_stops whole short_table full_host refl refl 1000 4 0 1 3 2 0 statics [] two-AllFork refl
      (omega arith)
