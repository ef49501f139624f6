-- ===== src/Lmdd/Tests.antt =====
-- src/lmdd.c at concrete inputs.
use qnx_lmbench_mods.Base.{
  ℕ, ◌^◌, ◌<◌, ◌*◌, ◌+◌, ◌-◌, ◌%◌, ◌≡◌, refl, ◌↔◌, inl, true, Option, none, some, List, [], ◌∷◌,
  ◌++◌, map, length, take, leb, if◌then◌else◌, arith,
}
use qnx_lmbench_mods.Base.Int.{ℤ, pos, negsuc, ◌+ℤ◌, ◌-ℤ◌}
use qnx_lmbench_mods.Clock.{u64}
use qnx_lmbench_mods.Lmdd.Args.{Str, codes, cmds, chkarg, getarg}
use qnx_lmbench_mods.Lmdd.Args.Laws.{write_setting, value_of, setting, getarg_lem, same}
use qnx_lmbench_mods.Lmdd.Args.Checked.{AbbreviatesOne, chkarg_lem, abbreviation_ignored}
use qnx_lmbench_mods.Lmdd.Histogram.{step_of, print_lines}
use qnx_lmbench_mods.Lmdd.Histogram.Labels.{number}
use qnx_lmbench_mods.Lmdd.Histogram.Printed.{AllTrue, run, print_lines-AllTrue}
use qnx_lmbench_mods.Lmdd.Histogram.Lost.{total as total_of, in_gap, histogram_loses}
use qnx_lmbench_mods.Lmdd.Pattern.{check, fill}
use qnx_lmbench_mods.Lmdd.Pattern.Compare.{differing, check_lem, check-fill}
use qnx_lmbench_mods.Lmdd.Settings.{
  Settings, assigned, configure, checked, to_int, block_size, clamp_max, clamp_min, clamp_end,
  align,
}
use qnx_lmbench_mods.Lmdd.Settings.Ready.{IsReady, configure-IsReady}
use qnx_lmbench_mods.Lmdd.Offsets.{
  Choice, note, is_random, choose, try_until, try_end, try_rand, keep_end, keep_rand, wrap,
  been_there, been_from,
}
use qnx_lmbench_mods.Lmdd.Offsets.Range.{choose_bounds}
use qnx_lmbench_mods.Lmdd.Offsets.Run.{Distinct, choices, no_repeats}
use qnx_lmbench_mods.Lmdd.Copy.{State, Round, Act, write, is_done, rounds}
use qnx_lmbench_mods.Lmdd.Copy.Plain.{IsPlain, touched}
use qnx_lmbench_mods.Lmdd.Copy.Acts.{size, AllMoved, total, words, IsGoing, writes}
use qnx_lmbench_mods.Lmdd.Copy.Whole.{Ends, copies}
use qnx_lmbench_mods.Lmdd.Done.{bytes_of}
use qnx_lmbench_mods.Lmdd.Done.Counted.{copy_reports}

-- `sscanf` on texts of one digit at most.
abbrev scan_digit : Str → Option ℕ
scan_digit [] = none
scan_digit (c ∷ s) = if leb 48 c then some (c - 48) else none

abbrev two_settings : List (Str × Str)
two_settings = (codes "bs", codes "8k") ∷ (codes "count", codes "5") ∷ []

getarg_lem_example :
    getarg scan_digit (λ i. i) (codes "count=") (codes "lmdd" ∷ map write_setting two_settings)
    ≡ setting scan_digit (λ i. i) (value_of (codes "count") two_settings)
unfolding same
getarg_lem_example =
    getarg_lem scan_digit (λ i. i) (codes "count") (codes "lmdd") two_settings (omega arith)
      (omega arith) refl

chkarg_lem_example : (chkarg (codes "b=5") ≡ true) ↔ AbbreviatesOne (codes "b=5") cmds
chkarg_lem_example = chkarg_lem (codes "b=5")

abbreviation_ignored_example :
    (chkarg (write_setting (codes "b", codes "5")) ≡ true)
    × (getarg scan_digit (λ i. i) (codes "bs=") (codes "lmdd" ∷ codes "b=5" ∷ []) ≡ some (u64 - 1))
unfolding cmds same
abbreviation_ignored_example =
    abbreviation_ignored scan_digit (λ i. i) (codes "lmdd") (codes "b") [] (codes "5") b's'
      (omega arith) refl
      (inl (record {
        name = codes "b";
        omitted = codes "s";
        text = codes "5";
        command = refl;
        argument = refl;
      }))

-- Reads of 3, 12 and 40 milliseconds with `rtmax=19`.
abbrev three_times : List ℤ
three_times = pos 3 ∷ pos 12 ∷ pos 40 ∷ []

print_lines-AllTrue_example :
    AllTrue three_times (print_lines (pos 19) (pos 0) (run (pos 19) (pos 0) three_times))
print_lines-AllTrue_example = print_lines-AllTrue (pos 19) (pos 0) (omega arith) three_times

histogram_loses_example :
    total_of (print_lines (pos 19) (pos 0) (run (pos 19) (pos 0) three_times))
      + number (in_gap (pos 19) (pos 0)) three_times
    ≡ 3
histogram_loses_example = histogram_loses (pos 19) (pos 0) (omega arith) three_times

-- The read of 12 milliseconds is not counted.
lost_time : number (in_gap (pos 19) (pos 0)) three_times ≡ 1
unfolding step_of ◌+ℤ◌ ◌-ℤ◌
lost_time = refl

check_lem_example :
    (check 8 0 (negsuc 0) (negsuc 0) (λ j. 0) ≡ (differing 2 0 0 (λ j. 0), some (negsuc 0)))
    × (check 8 0 (pos 1) (pos 1) (λ j. 0) ≡ (
      take 1 (differing 2 0 0 (λ j. 0)),
      (if leb 1 (length (differing 2 0 0 (λ j. 0)))
          then none
          else some (pos (1 - length (differing 2 0 0 (λ j. 0))))),
    ))
check_lem_example = check_lem 8 0 1 0 (negsuc 0) (λ j. 0)

check-fill_example :
    (check 8 64 (negsuc 0) (negsuc 0) (fill 8 64 (λ j. 0)) ≡ ([], some (negsuc 0)))
    × (check 8 64 (pos 1) (pos 1) (fill 8 64 (λ j. 0)) ≡ ([], some (pos 1)))
check-fill_example = check-fill 8 64 1 0 (negsuc 0) (λ j. 0)

-- `lmdd if=a of=b count=2 bs=8 rand=64 norepeat=`, where `arg` is what `getarg` finds.
abbrev random_arg : Str → ℕ
random_arg s =
    if same s (codes "bs=")
    then 8
    else if same s (codes "count=")
    then 2
    else if same s (codes "rand=")
    then 64
    else if same s (codes "norepeat=")
    then 0
    else u64 - 1

abbrev plain_arg : Str → ℕ
plain_arg s = if same s (codes "bs=") then 8 else u64 - 1

abbrev random_settings : Settings
random_settings = assigned random_arg (pos 3) (pos 4)

abbrev plain_settings : Settings
plain_settings = assigned plain_arg (pos 3) (pos 4)

configure-IsReady_example : IsReady plain_settings
unfolding configure assigned checked to_int block_size clamp_max clamp_min clamp_end same
configure-IsReady_example = configure-IsReady plain_arg true (pos 3) (pos 4) plain_settings refl

abbrev no_choice : Choice
no_choice = record { used = λ i. 0; norepeats = negsuc 0; start = 0; draws = 0 }

-- The draws are 40, 40 and 16: the first offset comes twice.
abbrev draw : ℕ → ℕ → ℕ
draw k n = if leb k 1 then 40 else 16

no_repeats_example : Distinct (40 ∷ 16 ∷ [])
unfolding choices choose try_until try_end try_rand keep_end keep_rand wrap note been_there
    been_from is_random assigned to_int block_size clamp_max clamp_min clamp_end align same ◌+ℤ◌
no_repeats_example =
    no_repeats draw random_settings refl refl refl 9 2 0 40 no_choice (40 ∷ 16 ∷ []) refl refl

plain_settings-IsPlain : IsPlain plain_settings
unfolding assigned to_int block_size clamp_max clamp_min clamp_end same
plain_settings-IsPlain = record {
  reads = refl;
  writes = refl;
  end_absent = refl;
  rand_absent = refl;
  fork_absent = refl;
  inpat_absent = refl;
  outpat_absent = refl;
}

abbrev at_start : State
at_start = record {
  count = u64 - 1;
  off = 0;
  int_count = 0;
  nextbuf = 0;
  pad_in = pos 0;
  misses = negsuc 0;
  pid = 0;
  choice = no_choice;
  bufs = λ i j. 0;
  rthist = [];
  wthist = [];
}

at_start-IsGoing : IsGoing plain_settings at_start
unfolding assigned to_int block_size clamp_max clamp_min clamp_end same
at_start-IsGoing = record {
  buffer = refl;
  padded = refl;
  off_small = omega arith;
  int_count_small = omega arith;
  count_small = omega arith;
}

abbrev moved_round : ℕ → Round
moved_round n = record {
  moved = pos n;
  block = λ j. j + n;
  read_mics = 10;
  forked = 0;
  moved2 = pos n;
  write_mics = 10;
}

-- A block of 8 bytes, one of 5, and the end of the file.
abbrev two_rounds : List Round
two_rounds = moved_round 8 ∷ moved_round 5 ∷ []

two_rounds-AllMoved : AllMoved two_rounds
two_rounds-AllMoved = ((7, refl, refl), ((4, refl, refl), tt))

at_end : Ends plain_settings plain_settings-IsPlain draw 1 (moved_round 0) two_rounds at_start
unfolding assigned to_int block_size clamp_max clamp_min clamp_end same
at_end = inl (refl, inl refl)

copies_example :
    (done : List Act) × (st : State) × (rounds draw 1 plain_settings
        (two_rounds ++ moved_round 0 ∷ [])
        at_start
      ≡ (done, is_done st))
    × (writes done
        ≡ map
            (λ r. write plain_settings.output (touched plain_settings (size r) r.block) (size r))
            two_rounds)
    × (st.off ≡ (0 + total two_rounds) % u64)
    × (st.int_count ≡ (0 + words two_rounds) % u64)
copies_example =
    copies plain_settings plain_settings-IsPlain draw 1 two_rounds (moved_round 0) [] at_start
      two_rounds-AllMoved at_start-IsGoing at_end

copy_reports_example :
    (done : List Act) × (st : State) × (rounds draw 1 plain_settings
        (two_rounds ++ moved_round 0 ∷ [])
        at_start
      ≡ (done, is_done st))
    × (bytes_of st + 1 ≡ 13)
copy_reports_example =
    copy_reports draw 1 plain_settings plain_settings-IsPlain two_rounds (moved_round 0) [] at_start
      two_rounds-AllMoved at_start-IsGoing at_end refl (omega arith)

abbrev highest : ℕ → ℕ → ℕ
highest k n = n - 1

abbrev after_choice : Choice
after_choice = note 48 (record no_choice { draws = 1 })

-- An area of 8 blocks of 8 bytes.
choose_bounds_example : (b : ℕ) × ◌≡◌ {A = ℕ} 48 (b * 2 ^ 3) × (b < 7)
unfolding choose try_until try_end try_rand keep_end keep_rand wrap note been_there been_from
    assigned to_int block_size clamp_max clamp_min clamp_end align same ◌+ℤ◌
choose_bounds_example =
    choose_bounds highest random_settings 3 61 6 refl refl refl refl (omega arith) (omega arith)
      refl (λ j n h. omega arith) 9 0 no_choice 48 after_choice refl refl refl
