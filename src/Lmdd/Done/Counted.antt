-- ===== src/Lmdd/Done/Counted.antt =====
-- What src/lmdd.c reports of a copy, and what it leaves out.
use qnx_lmbench_mods.Base.{ℕ, ◌+◌, ◌*◌, ◌%◌, ◌<◌, ◌≡◌, refl, List, [], ◌∷◌, ◌++◌, arith, true}
use qnx_lmbench_mods.Clock.{u64}
use qnx_lmbench_mods.Lmdd.Settings.{Settings}
use qnx_lmbench_mods.Lmdd.Pattern.{Buffer}
use qnx_lmbench_mods.Lmdd.Pattern.Compare.{clear_lem}
use qnx_lmbench_mods.Lmdd.Copy.{State, Round, Act, is_done, rounds}
use qnx_lmbench_mods.Lmdd.Copy.Plain.{IsPlain, touched}
use qnx_lmbench_mods.Lmdd.Copy.Acts.{size, AllMoved, total, words, IsGoing}
use qnx_lmbench_mods.Lmdd.Copy.Whole.{Ends, copies}
use qnx_lmbench_mods.Lmdd.Done.{bytes_of}

-- The bytes behind the last whole word of each block.
abbrev pub odd_bytes : List Round → ℕ
odd_bytes [] = 0
odd_bytes (r ∷ rs) = size r % 4 + odd_bytes rs

words-total : (rs : List Round) → words rs * 4 + odd_bytes rs ≡ total rs
words-total [] = refl
words-total (r ∷ rs) = omega (arith, words-total rs)

-- For a copy in order (no random offsets, one process, no patterns) that starts with a count of 0, with
-- the block that `padin=` leaves out, if there is one, behind it, that reads something before its end,
-- whose every write takes the whole block, and that moves fewer than 2 ^ 64 bytes, the bytes that `done`
-- reports are those moved, less the one to three bytes behind the last whole word of each block.
pub copy_reports :
    (draw : ℕ → ℕ → ℕ) (fuel : ℕ) (s : Settings) (p : IsPlain s) (rs : List Round) (last : Round)
    (more : List Round) (st : State)
    → AllMoved rs
    → IsGoing s st
    → Ends s p draw fuel last rs st
    → st.int_count ≡ 0
    → total rs < u64
    → (done : List Act) × (st' : State) × (rounds draw fuel s (rs ++ last ∷ more) st
        ≡ (done, is_done st'))
      × (bytes_of st' + odd_bytes rs ≡ total rs)
unfolding bytes_of
copy_reports draw fuel s p rs last more st m g e z small =
    let (done, st', run, _, _, counted) = copies s p draw fuel rs last more st m g e in
    (done, st', run, omega (arith, counted, words-total rs))

-- With `touch=` a copy is no copy: the first byte of every 4096 of a block is written as 0.
pub touch_overwrites :
    (s : Settings) (moved k : ℕ) (b : Buffer)
    → s.touch ≡ true
    → k * 4096 < moved
    → touched s moved b (k * 4096) ≡ 0
touch_overwrites s moved k b t h = rw t (clear_lem k moved b h)
