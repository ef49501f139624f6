-- ===== src/Lmdd/Done.antt =====
-- The end of src/lmdd.c: what `done` does and prints.
pub mod Counted
use qnx_lmbench_mods.Base.{
  ℕ, ◌*◌, ◌/◌, ◌%◌, ◌<◌, Bool, true, false, not, List, [], ◌∷◌, ◌++◌, ltb, ◌==◌, if◌then◌else◌,
}
use qnx_lmbench_mods.Base.Int.{ℤ, pos, negsuc, ltb_ℤ}
use qnx_lmbench_mods.Clock.{u64}
use qnx_lmbench_mods.Lmdd.Settings.{Settings, given_int}
use qnx_lmbench_mods.Lmdd.Offsets.{eq_ℤ}
use qnx_lmbench_mods.Lmdd.Histogram.{Line, print_lines}
use qnx_lmbench_mods.Lmdd.Copy.{State}

-- What `done` does, in order: it flushes what it was asked to, stops the clock, reports the copy in one
-- of the forms of `print=`, and prints the histograms.
pub data Act : Type 0 where
  sync fsync flush stop : Act
  latency : (xfers size : ℕ) → Act
  micro : (n : ℕ) → Act
  kb mb : (bytes : ℕ) → Act
  bandwidth : (bytes : ℕ) (verbose : Bool) → Act
  reads writes : List Line → Act

-- `int_count <<= 2`
pub bytes_of : State → ℕ
bytes_of st = st.int_count * 4 % u64

-- `switch (Print)`
pub report : Settings → State → List Act
report s st =
    let bytes = bytes_of st in
    if eq_ℤ s.print (pos 0)
    then []
    else if eq_ℤ s.print (pos 1)
    then latency (bytes / s.bsize) s.bsize ∷ []
    else if eq_ℤ s.print (pos 2)
    then micro (bytes / s.bsize) ∷ []
    else if eq_ℤ s.print (pos 3)
    then kb bytes ∷ []
    else if eq_ℤ s.print (pos 4)
    then mb bytes ∷ []
    else bandwidth bytes (not (eq_ℤ s.print (pos 5))) ∷ []

-- `if (flag > 0)`
abbrev on : ℤ → Act → List Act
on flag act = if ltb_ℤ (pos 0) flag then act ∷ [] else []

pub done : Settings → State → List Act
done s st =
    on s.sync sync
    ++ (on s.fsync fsync
        ++ (on s.flush flush
            ++ stop
              ∷ (report s st
                  ++ ((if given_int s.rtmax
                        then reads (print_lines s.rtmax s.rtmin st.rthist) ∷ []
                        else [])
                      ++ (if given_int s.wtmax
                          then writes (print_lines s.wtmax s.wtmin st.wthist) ∷ []
                          else [])))))
