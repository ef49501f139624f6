-- ===== src/Harness/Tests.antt =====
-- Runs of the measuring child, and the theorems at concrete inputs.
use qnx_lmbench_mods.Base.{
  ℕ, ◌+◌, ◌≤◌, ◌≡◌, ◌⊎◌, refl, true, false, List, [], ◌∷◌, length, replicate, arith,
}
use qnx_lmbench_mods.Base.Int.{pos}
use qnx_lmbench_mods.Clock.{Timeval, zero_tv}
use qnx_lmbench_mods.Clock.Delta.{IsNormal}
use qnx_lmbench_mods.Double.Whole.{whole}
use qnx_lmbench_mods.Results.{unset, Timing, current, sizeof_result}
use qnx_lmbench_mods.Harness.{
  cooldown, Child, Inputs, go_on, exited, Effect, child_start, intervals,
}
use qnx_lmbench_mods.Harness.Room.{Sound}
use qnx_lmbench_mods.Harness.Safety.{AllSound, none_left, one_more, intervals_in_room}
use qnx_lmbench_mods.Harness.Messages.{count, is_results, is_done, Says, Complete}
use qnx_lmbench_mods.Harness.Finish.{no_round, one_round, child_finishes}
use qnx_lmbench_mods.Harness.Protocol.{intervals_protocol}

abbrev at_second : ℕ → Timeval
at_second n = record { tv_sec = pos n; tv_usec = pos 0 }

at_second-IsNormal : (n : ℕ) → IsNormal (at_second n)
at_second-IsNormal n = record { usec = 0; usec_eq = refl; usec_lt = omega arith }

abbrev round : ℕ → Inputs
round n = record {
  stopped = at_second (n + 1);
  restarted = at_second n;
  orphaned = false;
  start_ready = true;
  result_ready = true;
}

round-Sound : (n : ℕ) → Sound (round n)
round-Sound n = record { stopped = at_second-IsNormal (n + 1); restarted = at_second-IsNormal n }

abbrev memory : Timing
memory = record {
  clock = record { start_tv = zero_tv; stop_tv = zero_tv; iterations = 1 };
  tables = λ (p : ℕ). record { count = 0; v = replicate 11 unset };
  results = 0;
}

abbrev rounds : List Inputs
rounds = round 1 ∷ round 3 ∷ round 5 ∷ []

rounds-AllSound : AllSound whole 2 0 rounds
rounds-AllSound =
    one_more (round-Sound 1) (one_more (round-Sound 3) (one_more (round-Sound 5) none_left))

abbrev child : Child
child = child_start memory 7 true true false 50000 10 2 3

intervals_in_room_example :
    ((seen : List Effect) × (intervals whole 2 0 rounds child [] ≡ exited seen))
    ⊎ ((n : ℕ) × (c : Child) × (seen : List Effect) × (intervals whole 2 0 rounds child []
          ≡ go_on n c seen)
        × ((current c.timing).count ≤ c.i)
        × (c.i ≤ c.repetitions)
        × (c.repetitions ≤ length (current c.timing).v))
unfolding sizeof_result
intervals_in_room_example =
    intervals_in_room whole 2 0 memory 7 true true false 50000 10 2 3 rounds (omega arith)
      (omega arith) refl rounds-AllSound

intervals_protocol_example :
    ((seen : List Effect) × (intervals whole 2 0 rounds child [] ≡ exited seen)
      × ((count is_results seen ≡ 0) ⊎ Complete seen))
    ⊎ ((n : ℕ) × (c : Child) × (seen : List Effect) × (intervals whole 2 0 rounds child []
          ≡ go_on n c seen)
        × Says c seen)
unfolding sizeof_result
intervals_protocol_example =
    intervals_protocol whole 2 0 memory 7 true true false 50000 10 2 3 rounds (omega arith)
      (omega arith) rounds-AllSound

child_finishes_example :
    (n : ℕ) × (c : Child) × (seen : List Effect) × (intervals whole 2 0
        (round 1 ∷ round 3 ∷ round 5 ∷ round 7 ∷ [])
        child
        []
      ≡ go_on n c seen)
    × (c.state ≡ cooldown)
    × (c.i ≡ 3)
    × (count is_done seen ≡ 1)
unfolding sizeof_result
child_finishes_example =
    child_finishes whole 2 0 memory 7 true true false 50000 10 2 3 (round 1)
      (round 3 ∷ round 5 ∷ round 7 ∷ []) (omega arith) (omega arith) (omega arith) (round-Sound 1)
      refl refl
      (one_round (round-Sound 3) refl
        (one_round (round-Sound 5) refl (one_round (round-Sound 7) refl no_round)))
      refl
