-- ===== src/Sched/Tests.antt =====
-- Placements on small hosts, and the theorems at concrete inputs.
use qnx_lmbench_mods.Base.{
  ℕ, ◌+◌, ◌*◌, ◌^◌, ◌-◌, ◌<◌, ◌≡◌, refl, Bool, false, ◌&&◌, none, some, List, [], ◌∷◌, leb, ◌==◌,
  arith, ◌≢◌, true,
}
use qnx_lmbench_mods.Sched.{Str, Keyword, pinned, reverse_cpu, custom}
use qnx_lmbench_mods.Sched.Spread.{
  reverse_cpu_spreads, place_of, pinned_by, unique_apart, balanced_shares,
}
use qnx_lmbench_mods.Sched.Custom.{
  stop, more, Entry, AllEntries, no_entry, one_more, write_entries, numbers, custom-write_entries,
  custom_overrun,
}

abbrev is_digit : ℕ → Bool
is_digit c = leb b'0' c && leb c b'9'

-- The value of one digit, which is enough here.
abbrev digit_value : Str → ℕ
digit_value [] = 0
digit_value (c ∷ s) = c - b'0'

-- One byte stands for each value.
abbrev is_code : Keyword → Str → Bool
is_code k [] = false
is_code k (c ∷ s) = place_of k == c

unique_apart_example :
    (p : ℕ) × (q : ℕ) × (pinned_by is_digit digit_value is_code 2 none 1 (5 ∷ []) 1 0 ≡ pinned p)
    × (pinned_by is_digit digit_value is_code 2 none 1 (5 ∷ []) 1 1 ≡ pinned q)
    × (p < 2 ^ 3)
    × (q < 2 ^ 3)
    × (p ≢ q)
unique_apart_example =
    unique_apart is_digit digit_value is_code 2 none 1 (5 ∷ []) true 1 0 1 1 (omega arith)
      (λ j. refl) (omega arith) (omega arith) (λ e f. absurd (omega (arith, f))) (omega arith)
      (omega arith)

balanced_shares_example :
    (p : ℕ) × (q : ℕ) × (pinned_by is_digit digit_value is_code 2 none 1 (2 ∷ []) 6 0 ≡ pinned p)
    × (pinned_by is_digit digit_value is_code 2 none 1 (2 ∷ []) 6 1 ≡ pinned p)
    × (pinned_by is_digit digit_value is_code 2 none 1 (2 ∷ []) 7 0 ≡ pinned q)
    × (p < 2 ^ 3)
    × (q < 2 ^ 3)
    × (p ≢ q)
balanced_shares_example =
    balanced_shares is_digit digit_value is_code 2 none 1 (2 ∷ []) false 6 7 0 1 (omega arith)
      (λ j. refl) (λ e. absurd (omega (arith, e))) (omega arith) (omega arith)

reverse_cpu_spreads_example :
    (reverse_cpu (2 ^ 3) 6 < 2 ^ 3)
    × (reverse_cpu (2 ^ 3) (reverse_cpu (2 ^ 3) 6) ≡ 6)
    × (reverse_cpu (2 ^ 3) (2 * 1 + 1) ≡ reverse_cpu (2 ^ 3) (2 * 1) + 2 ^ 2)
reverse_cpu_spreads_example = reverse_cpu_spreads 2 6 1 (omega arith)

-- The text ` 2,0 `.
abbrev entries : List Entry
entries =
    record { others = b' ' ∷ []; first = b'2'; ds = []; sep = b',' }
    ∷ record { others = []; first = b'0'; ds = []; sep = b' ' }
    ∷ []

entries-AllEntries : AllEntries is_digit digit_value entries
entries-AllEntries =
    one_more (record { others = more refl stop; first = refl; ds = stop; sep = refl })
      (one_more (record { others = stop; first = refl; ds = stop; sep = refl }) no_entry)

custom-write_entries_example :
    (custom is_digit digit_value none (b' ' ∷ b'2' ∷ b',' ∷ b'0' ∷ b' ' ∷ []) 3
      ≡ some (0, some (2 ∷ 0 ∷ [])))
    × (custom is_digit digit_value (some (2 ∷ 0 ∷ [])) [] 3
        ≡ custom is_digit digit_value none (b' ' ∷ b'2' ∷ b',' ∷ b'0' ∷ b' ' ∷ []) 3)
unfolding write_entries numbers
custom-write_entries_example =
    custom-write_entries is_digit digit_value entries [] [] 3 entries-AllEntries stop

-- The text ` 2,0 3`.
custom_overrun_example :
    custom is_digit digit_value none (b' ' ∷ b'2' ∷ b',' ∷ b'0' ∷ b' ' ∷ b'3' ∷ []) 3 ≡ none
unfolding write_entries
custom_overrun_example =
    custom_overrun is_digit digit_value entries [] b'3' [] 3 entries-AllEntries stop refl stop
