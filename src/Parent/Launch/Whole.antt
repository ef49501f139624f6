-- ===== src/Parent/Launch/Whole.antt =====
-- `benchmp` of src/lib_timing.c as a whole: what it returns, and what becomes of the children.
use native.Mathlib.Decide.{dec_lt}
use mathlib.Core.List.{Perm}
use qnx_lmbench_mods.Base.{
  ℕ, zero, suc, ◌+◌, ◌-◌, ◌*◌, ◌<◌, ◌≤◌, ◌≡◌, refl, sym, subst, ap, true, false, some, List, [],
  ◌∷◌, ◌++◌, map, length, get_elem?, arith, not, ◌||◌, none, ltb, if◌then◌else◌, Bool-cases, inl,
  inr,
}
use qnx_lmbench_mods.Double.{Double, RatioOrder}
use qnx_lmbench_mods.Results.{Table, Timing, current, sizeof_result}
use qnx_lmbench_mods.Results.Insert.{entries}
use qnx_lmbench_mods.Results.Order.{IsSorted, timed}
use qnx_lmbench_mods.Parent.{warmup_pause, send_start, reset_sigchld, send_exit}
use qnx_lmbench_mods.Parent.Collect.{Calm, fruitful}
use qnx_lmbench_mods.Parent.Merge.{Replies, measurements, join, requests, benchmp_parent_merges}
use qnx_lmbench_mods.Parent.Launch.{
  Host, returned, Step, in_parent, fork_children, forked, stop_child, stop_all, reap_all,
  timeout_of, benchmp_run,
}

-- All forks succeed, and SIGTERM does not come.
abbrev pub AllFork : Host → ℕ → Type 0
AllFork h n = (i : ℕ) → i < n → (h.terminated i ≡ false) × (h.forks i ≡ true)

fork_children-all :
    (h : Host) (n left i : ℕ) → AllFork h n → i + left ≡ n → fork_children h left i ≡ (n, false)
unfolding fork_children
fork_children-all h n zero i all e = ap (λ k. (k, false)) (omega arith)
fork_children-all h n (suc left) i all e =
    let (calm, forks) = all i (omega arith) in
    rw (calm, forks) (fork_children-all h n left (i + 1) all (omega arith))

fork_children-stops :
    (h : Host) (k left i : ℕ)
    → AllFork h k
    → (h.terminated k || not (h.forks k)) ≡ true
    → i ≤ k
    → k < i + left
    → fork_children h left i ≡ (k, true)
unfolding fork_children
fork_children-stops h k zero i all stop le lt = absurd (omega arith)
fork_children-stops h k (suc left) i all stop le lt = elim (dec_lt i k) [
  | yes before ↦
      let (calm, forks) = all i before in
      rw (calm, forks) (fork_children-stops h k left (i + 1) all stop (omega arith) (omega arith))
  | no now ↦
      let here : k ≡ i = omega arith in
      subst (λ j. fork_children h (suc left) i ≡ (j, true)) (sym here) (rw (rw here at stop) refl)
]

ltb-suc : (i k : ℕ) → ltb (suc i) (suc k) ≡ ltb i k
ltb-suc i k = elim (Bool-cases (ltb i k)) [
  | inl e ↦ rw e (ground arith)
  | inr e ↦ rw e (ground arith)
]

-- The children are stopped, each once, the last one first.
stop_all-each :
    (k i : ℕ) → get_elem? (stop_all k) i ≡ (if ltb i k then some (stop_child (k - 1 - i)) else none)
unfolding stop_all
stop_all-each zero i = let e : ltb i 0 ≡ false = ground arith in rw e refl
stop_all-each (suc k) zero =
    let e : ltb 0 (suc k) ≡ true = ground arith in
    rw e (ap (λ j. some (stop_child j)) (omega arith))
stop_all-each (suc k) (suc i) =
    let same : ltb (suc i) (suc k) ≡ ltb i k = ltb-suc i k in
    let down : suc k - 1 - suc i ≡ k - 1 - i = omega arith in rw (same, down) (stop_all-each k i)

length-stop_all : (k : ℕ) → length (stop_all k) ≡ k
unfolding stop_all
length-stop_all zero = refl
length-stop_all (suc k) = ap suc (length-stop_all k)

module _ (d : Double) (decode : List ℕ → Table) (h : Host) (pipes_made : h.pipes_made ≡ true)
    (pids_fit : h.pids_fit ≡ true) where
  -- If the pipes and the table of process ids are there, the first `k` children are forked, or none
  -- (`k` is 0), and then SIGTERM comes or a fork fails, `benchmp` behind its pipes stops (kills, and
  -- waits for) these `k` children and no others, each once, the last one first, and returns with the
  -- statics as they were.
  pub benchmp_stops :
      (enough parallel warmup repetitions m k i : ℕ) (t : Timing) (before : List Step)
      → AllFork h k
      → (h.terminated k || not (h.forks k)) ≡ true
      → k < parallel
      → (steps : List Step) × (benchmp_run d decode h enough parallel warmup repetitions m t before
          ≡ returned t (before ++ forked k 0 ++ steps))
        × (length steps ≡ k)
        × (get_elem? steps i ≡ (if ltb i k then some (stop_child (k - 1 - i)) else none))
  unfolding benchmp_run
  benchmp_stops enough parallel warmup repetitions m k i t before all stop lt =
      let loop = fork_children-stops h k parallel 0 all stop (omega arith) (omega arith) in
      (
        stop_all k,
        rw (benchmp_run, loop, pipes_made, pids_fit) refl,
        length-stop_all k,
        stop_all-each k i,
      )

  module _ (o : RatioOrder d) (early : h.early ≡ false) (results_fit : h.results_fit ≡ true) where
    -- If everything can be allocated, all forks succeed, no signal comes and no call fails, every child
    -- sends a byte when it is ready, a byte when it is done, and its table, the merged table has room
    -- for all repetitions of all children, and as many rounds of `select` read something as there are
    -- bytes, in whatever pieces, then `benchmp` returns with the merged table as the current one: in
    -- order, and in it all measurements of all children that took some time, each as often as it was
    -- measured. It has forked the children in order, started them after the warmup, asked each for its
    -- results, let them exit, and reaped them, the last one first.
    pub benchmp_run_merges :
        (ready done : List ℕ) (replies : List (List ℕ)) (enough warmup repetitions m : ℕ)
        (t : Timing)
        → (before : List Step) → AllFork h (length replies)
        → h.pipe ≡ ready ++ (done ++ join replies)
        → Calm h.rounds
        → length ready ≡ length replies
        → length done ≡ length replies
        → Replies d o decode repetitions replies
        → repetitions * length replies ≤ length (t.tables m).v
        → length replies + (length replies + sizeof_result repetitions * length replies)
          ≤ fruitful h.rounds
        → (t' : Timing) × (benchmp_run d decode h enough
              (length replies)
              warmup
              repetitions
              m
              t
              before
            ≡ returned t' (
                before
                ++ forked (length replies) 0
                ++ map in_parent (
                    warmup_pause warmup
                    ++ (send_start (length replies) ∷ [])
                    ++ requests (length replies)
                    ++ (reset_sigchld ∷ send_exit (length replies) ∷ []))
                ++ reap_all h.late (timeout_of enough) (length replies)))
          × (t'.results ≡ m)
          × IsSorted d o (current t')
          × Perm (entries (current t')) (timed (measurements d o decode replies))
    unfolding benchmp_run
    benchmp_run_merges ready done replies enough warmup repetitions m t before all sent calm one two
          proper room rounds =
        let n = length replies in
        let loop = fork_children-all h n n 0 all (omega arith) in
        let (t', run, at_m, sorted, perm) =
          benchmp_parent_merges d o decode h.rounds ready done replies warmup repetitions m t calm
            one two proper room rounds in
        (
          t',
          rw (benchmp_run, loop, pipes_made, pids_fit, early, results_fit, sent, run) refl,
          at_m,
          sorted,
          perm,
        )
