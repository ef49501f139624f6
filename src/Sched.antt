-- ===== src/Sched.antt =====
-- src/lib_sched.c: on which processor the scheduler of the benchmarks places a process.
-- A C string is the list of its bytes. `strcasecmp`, `strncasecmp`, `isdigit` and `sscanf` are the C
-- library's: parameters. A processor number is an `int`; the model
-- stands for numbers that are not negative and fit one, also those that a CUSTOM list holds.
pub mod Custom
pub mod Spread
mod Tests
use qnx_lmbench_mods.Base.{
  ℕ, zero, suc, ◌+◌, ◌-◌, ◌*◌, ◌/◌, ◌%◌, Bool, true, false, not, Option, none, some, List, [], ◌∷◌,
  ◌++◌, length, get_or, drop, ltb, ◌==◌, if◌then◌else◌,
}
use qnx_lmbench_mods.BitReverse.{nbits_of, reverse_loop}

abbrev pub Str : Type 0
Str = List ℕ

-- `reverse_bits(cpu)` on a host of `ncpus` processors.
pub reverse_cpu : ℕ → ℕ → ℕ
reverse_cpu ncpus cpu = let nbits = nbits_of ((ncpus - 1) / 2) 1 in reverse_loop nbits 0 nbits cpu 0

-- What `handle_scheduler` comes to: the process is left where it is, or pinned to a processor; `fault`
-- is a read behind the end of a string or a division by zero.
pub data Placement : Type 0 where
  left_alone : Placement
  pinned : ℕ → Placement
  fault : Placement

-- The values of LMBENCH_SCHED that `handle_scheduler` compares with, the last two as prefixes.
pub data Keyword : Type 0 where
  default : Keyword
  single : Keyword
  balanced : Keyword
  balanced_spread : Keyword
  unique : Keyword
  unique_spread : Keyword
  custom_list : Keyword
  custom_spread : Keyword

module _ (digit : ℕ → Bool) (scan : Str → ℕ) where
  -- `while (*str && !isdigit(*str)) str++;`
  pub skip_others : Str → Str
  skip_others [] = []
  skip_others (c ∷ s) = let rest = skip_others s in if digit c then c ∷ s else rest

  -- `while (*str && isdigit(*str)) str++;`: the digits, and the text behind them.
  pub digits : Str → Str × Str
  digits [] = ([], [])
  digits (c ∷ s) = let (ds, rest) = digits s in if digit c then (c ∷ ds, rest) else ([], c ∷ s)

  -- `if (str == q) break; *str++ = 0; sscanf(q, "%d", …);` for the digits `q` and the text behind them:
  -- `some none` is the `break`, and `none` says that the character stepped over is the NUL, so that the
  -- next test of the loop reads behind the string.
  pub take_value : Str × Str → Option (Option (ℕ × Str))
  take_value ([], rest) = some none
  take_value (c ∷ q, []) = none
  take_value (c ∷ q, _ ∷ behind) = some (some (scan (c ∷ q), behind))

  -- The outer `while` of `custom`. An empty string, which ends it, has no digits either. The fuel is
  -- the length.
  pub read_values : (fuel : ℕ) → Str → List ℕ → Option (List ℕ)
  unfolding skip_others digits take_value
  read_values zero str values = some values
  read_values (suc fuel) str values = elim (take_value (digits (skip_others str))) [
    | none ↦ none
    | some none ↦ some values
    | some (some (v, behind)) ↦ read_values fuel behind (values ++ (v ∷ []))
  ]

  -- `custom(str, cpu)`, with the static `values` before and after. `none`: a read behind the string.
  pub custom : Option (List ℕ) → Str → ℕ → Option (ℕ × Option (List ℕ))
  custom table str cpu =
      elim (elim table as (λ _. Option (List ℕ)) [
        | none ↦ read_values (length str) str []
        | some values ↦ some values
      ]) [
        | none ↦ none
        | some values ↦
            some
              (if length values == 0 then 0 else get_or values (cpu % length values) 0, some values)
      ]

  module _ (is : Keyword → Str → Bool) where
    -- The `if` chain of `handle_scheduler` on the value of LMBENCH_SCHED: the processor, before it is
    -- reduced to the number of processors, or `none` to do nothing.
    unfoldable pub choose_cpu :
        Str
        → (childno benchproc nbenchprocs ncpus : ℕ) → Option (List ℕ)
        → Option (Option ℕ × Option (List ℕ))
    choose_cpu sched childno benchproc nbenchprocs ncpus table =
        let every = childno * (nbenchprocs + 1) + benchproc in
        let custom_from = λ (skipped : ℕ) (cpu : ℕ).
          elim (custom table (drop skipped sched) cpu)
            as (λ _. Option (Option ℕ × Option (List ℕ))) [
              | none ↦ none
              | some (c, t) ↦ some (some c, t)
            ] in
        let alone : Option (Option ℕ × Option (List ℕ)) = some (none, table) in
        if is default sched
        then alone
        else (if is single sched
            then some (some 0, table)
            else (if is balanced sched
                then some (some childno, table)
                else (if is balanced_spread sched
                    then some (some (reverse_cpu ncpus childno), table)
                    else (if is unique sched
                        then some (some every, table)
                        else (if is unique_spread sched
                            then some (some (reverse_cpu ncpus every), table)
                            else (if is custom_list sched
                                then custom_from 6 childno
                                else (if is custom_spread sched
                                    then custom_from 13 every
                                    else alone)))))))

    -- `return sched_pin(cpu % sched_ncpus());`, if there is a processor to choose.
    unfoldable pub place :
        (ncpus : ℕ)
        → Option (List ℕ)
        → Option (Option ℕ × Option (List ℕ))
        → Placement × Option (List ℕ)
    place ncpus table none = (fault, table)
    place ncpus table (some (none, t)) = (left_alone, t)
    place ncpus table (some (some cpu, t)) = (if ncpus == 0 then fault else pinned (cpu % ncpus), t)

    -- `handle_scheduler(childno, benchproc, nbenchprocs)`: where `sched_pin` is told to put the
    -- process, and the table of `custom` after it.
    unfoldable pub handle_scheduler :
        Option Str
        → (childno benchproc nbenchprocs ncpus : ℕ) → Option (List ℕ)
        → Placement × Option (List ℕ)
    unfolding choose_cpu place
    handle_scheduler none childno benchproc nbenchprocs ncpus table = (left_alone, table)
    handle_scheduler (some sched) childno benchproc nbenchprocs ncpus table =
        place ncpus table (choose_cpu sched childno benchproc nbenchprocs ncpus table)
