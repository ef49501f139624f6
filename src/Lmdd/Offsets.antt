-- ===== src/Lmdd/Offsets.antt =====
-- The offsets of src/lmdd.c: where the next block is read and written when it copies blocks at random,
-- and the table `norepeat` of the offsets that were used.
pub mod Fresh
pub mod Range
pub mod Run
use mathlib.Core.Option
use qnx_lmbench_mods.Base.{
  ℕ, zero, suc, ◌+◌, ◌-◌, ◌*◌, ◌/◌, ◌%◌, ◌^◌, Bool, true, false, not, ◌&&◌, ◌||◌, Option, none,
  some, ltb, ◌==◌, if◌then◌else◌,
}
use qnx_lmbench_mods.Base.Int.{ℤ, pos, negsuc, pos_part, neg_part, ◌+ℤ◌, ltb_ℤ}
use qnx_lmbench_mods.Clock.{u64}
use qnx_lmbench_mods.Lmdd.Settings.{Settings, align, given}

-- The table, with the memory before and behind it: `norepeat[i]` for any int `i`. And `norepeats`, the
-- static `start` of the loop, and the calls of `drand48` so far.
pub record Choice : Type 0 where
  pub used : ℤ → ℕ
  pub norepeats : ℤ
  pub start : ℕ
  pub draws : ℕ

abbrev pub eq_ℤ : ℤ → ℤ → Bool
eq_ℤ a b = pos_part a + neg_part b == pos_part b + neg_part a

-- `for (i = 0; i <= norepeats; ++i) if (off == norepeat[i])`, with `left` rounds to go.
unfoldable pub been_from : (left i off : ℕ) → (ℤ → ℕ) → Bool
been_from zero i off used = false
been_from (suc left) i off used =
    if off == used (pos i) then true else been_from left (i + 1) off used

-- `been_there(off)`
unfoldable pub been_there : (off : ℕ) → Choice → Bool
been_there off c = been_from (pos_part (c.norepeats +ℤ pos 1)) 0 off c.used

-- `norepeat[norepeats++] = off`
unfoldable pub note : (off : ℕ) → Choice → Choice
note off c = record c {
  used = λ (i : ℤ). if eq_ℤ i c.norepeats then off else c.used i;
  norepeats = c.norepeats +ℤ pos 1;
}

-- `10<<10`
abbrev pub table_size : ℕ
table_size = 10240

-- `if (!gotcnt && (norepeats == 10<<10)) norepeats = 0;`
unfoldable pub wrap : Bool → Choice → Choice
wrap gotcnt c =
    if not gotcnt && eq_ℤ c.norepeats (pos table_size) then record c { norepeats = pos 0 } else c

-- The places to draw from: `draw k n` is `drand48() * n` of the k-th call.
module _ (draw : ℕ → ℕ → ℕ) (s : Settings) where
  abbrev add_start : ℕ → ℕ
  add_start off = if given s.start then (off + s.start) % u64 else off

  -- The offset that one round of `do … while` of the `End` case tries.
  unfoldable pub try_end : Choice → ℕ
  try_end c = add_start ((align (draw c.draws s.end) s.bsize + c.start) % u64)

  -- And of the `Rand` case.
  unfoldable pub try_rand : Choice → ℕ
  try_rand c = align (add_start (draw c.draws ((s.size + u64 - s.bsize) % u64))) s.bsize

  -- `do { off = … } while (norepeat && been_there(off));`
  unfoldable pub try_until : (fuel : ℕ) → (Choice → ℕ) → Choice → Option (ℕ × Choice)
  unfolding been_there
  try_until zero try c = none
  try_until (suc fuel) try c =
      let c' = record c { draws = c.draws + 1 } in
      let again = try_until fuel try c' in
      if s.norepeat && been_there (try c) c then again else some (try c, c')

  -- After the choice in the `End` case.
  unfoldable pub keep_end : ℕ × Choice → ℕ × Choice
  keep_end (off, c) = (off, if s.norepeat then wrap s.gotcnt (note off c) else c)

  -- And in the `Rand` case.
  unfoldable pub keep_rand : ℕ × Choice → ℕ × Choice
  keep_rand (off, c) = (off, wrap s.gotcnt (if s.norepeat then note off c else c))

  -- `start = start ? 0 : Rand - End;`
  unfoldable pub swing : Choice → Choice
  swing c = record c { start = if c.start == 0 then (s.rand + u64 - s.end) % u64 else 0 }

  -- The offset of the next block: chosen at random, or the one that the last block ended at.
  -- `none`: the fuel ran out.
  unfoldable pub choose : (fuel off : ℕ) → Choice → Option (ℕ × Choice)
  unfolding try_until keep_end keep_rand
  choose fuel off c =
      if given s.end
      then Option.map keep_end (try_until fuel try_end (swing c))
      else if given s.rand
      then Option.map keep_rand (try_until fuel try_rand c)
      else some (off, c)

  -- Does a block go to a place of its own?
  unfoldable pub is_random : Bool
  is_random = given s.end || given s.rand
