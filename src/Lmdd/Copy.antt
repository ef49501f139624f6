-- ===== src/Lmdd/Copy.antt =====
-- The loop of src/lmdd.c: one block is read, looked at and written in a round.
pub mod Acts
pub mod Plain
pub mod Whole
use qnx_lmbench_mods.Base.{
  ℕ, zero, suc, ◌+◌, ◌-◌, ◌*◌, ◌/◌, ◌%◌, ◌^◌, Bool, true, false, not, ◌&&◌, ◌||◌, Option, none,
  some, List, [], ◌∷◌, ◌++◌, map, ltb, ◌==◌, if◌then◌else◌,
}
use qnx_lmbench_mods.Base.Int.{ℤ, pos, negsuc, pos_part, ltb_ℤ}
use qnx_lmbench_mods.Clock.{u64}
use qnx_lmbench_mods.Lmdd.Settings.{Settings, given, given_int}
use qnx_lmbench_mods.Lmdd.Pattern.{Buffer, Mismatch, is_zero, fill, check, clear}
use qnx_lmbench_mods.Lmdd.Histogram.{count_time}
use qnx_lmbench_mods.Lmdd.Offsets.{Choice, eq_ℤ, choose, is_random}

-- The variables that the loop changes.
pub record State : Type 0 where
  pub count : ℕ
  pub off : ℕ
  pub int_count : ℕ
  pub nextbuf : ℕ
  pub pad_in : ℤ
  pub misses : ℤ
  pub pid : ℕ
  pub choice : Choice
  pub bufs : ℕ → Buffer
  pub rthist : List ℕ
  pub wthist : List ℕ

-- What a round meets: what `read` returns and leaves in the buffer, how long it took in microseconds,
-- what `fork` and `write` return, and how long the write took.
pub record Round : Type 0 where
  pub moved : ℤ
  pub block : Buffer
  pub read_mics : ℕ
  pub forked : ℕ
  pub moved2 : ℤ
  pub write_mics : ℕ

-- What a round does to the world.
pub data Act : Type 0 where
  seek : (fd : ℤ) (off : ℕ) → Act
  read : (fd : ℤ) (size : ℕ) → Act
  restart : Act
  report : Mismatch → Act
  wait : (pid : ℕ) → Act
  fork : Act
  write : (fd : ℤ) (block : Buffer) (size : ℕ) → Act
  sleep : (usecs : ℤ) → Act

-- How a round ends: with the next one, with `done`, with `exit(0)` of a child, or outside `bufs` or with
-- a search for an offset that ran out of fuel.
pub data Ending : Type 0 where
  goes_on : State → Ending
  is_done : State → Ending
  leaves : Ending
  fault : Ending

abbrev pub Outcome : Type 0
Outcome = List Act × Ending

-- What is done before the rest.
abbrev pub after : List Act → Outcome → Outcome
after acts (later, e) = (acts ++ later, e)

abbrev pub is_open : ℤ → Bool
is_open fd = not (ltb_ℤ fd (pos 0))

-- `if (in >= 0) seekto(in, off, 0); if (out >= 0) seekto(out, off, 0);`
pub seeks : Settings → (off : ℕ) → List Act
seeks s off =
    (if is_open s.input then seek s.input off ∷ [] else [])
    ++ (if is_open s.output then seek s.output off ∷ [] else [])

-- Is a histogram kept?
abbrev pub timed : (max min : ℤ) → Bool
timed max min = given_int max || given_int min

-- The end of a round: `writedone`.
pub finish : Settings → (moved : ℕ) → State → Outcome
finish s moved st =
    let st' = record st {
      off = (st.off + moved) % u64;
      int_count = (st.int_count + moved / 4) % u64;
    } in
    (
      (if given_int s.slp then sleep s.slp ∷ [] else []),
      (if given_int s.fork then leaves else goes_on st'),
    )

-- The buffer that is in use.
abbrev pub with_buffer : (i : ℕ) → Buffer → State → State
with_buffer i b st = record st { bufs = λ (j : ℕ). if j == i then b else st.bufs j }

-- `moved2 == moved`
abbrev pub is_moved : (moved2 : ℤ) (moved : ℕ) → Bool
is_moved (pos n) moved = n == moved
is_moved (negsuc n) moved = false

-- The write of the buffer `i`, once it is known which process does it.
pub write_block : Settings → (i moved : ℕ) → Round → State → Outcome
write_block s i moved r st =
    let b = if given_int s.outpat then fill moved st.off (st.bufs i) else st.bufs i in
    let written = write s.output b moved in
    let hist =
      if timed s.wtmax s.wtmin
      then count_time (pos (r.write_mics / 1000)) s.wtmax s.wtmin st.wthist
      else st.wthist in
    let b' = if s.touch then clear moved b else b in
    if not (is_moved r.moved2 moved)
    then (written ∷ [], is_done (with_buffer i b st))
    else after (written ∷ []) (finish s moved (with_buffer i b' (record st { wthist = hist })))

-- `if (out >= 0)`: the parent of a fork goes on with the next block, the child writes this one.
pub output_block : Settings → (i moved : ℕ) → Round → State → Outcome
output_block s i moved r st =
    let waits = if st.pid == 0 then [] else wait st.pid ∷ [] in
    let next = record st {
      pid = r.forked;
      off = (st.off + moved) % u64;
      int_count = (st.int_count + moved / 4) % u64;
    } in
    if not (is_open s.output)
    then finish s moved st
    else if not (given_int s.fork)
    then write_block s i moved r st
    else after (waits ++ fork ∷ []) (
        if r.forked == 0
        then write_block s i moved r (record st { pid = r.forked })
        else ([], goes_on next))

-- The pattern is looked for, and the buffer touched.
pub input_block : Settings → (i moved : ℕ) → Round → State → Outcome
input_block s i moved r st =
    let kept = if is_open s.input && s.touch then clear moved (st.bufs i) else st.bufs i in
    let touched = with_buffer i kept st in
    let checked = check moved st.off s.mismatch st.misses (st.bufs i) in
    if not (given_int s.inpat)
    then output_block s i moved r touched
    else after (map report checked.0) (elim checked.1 [
      | none ↦ ([], is_done st)
      | some left ↦ output_block s i moved r (record touched { misses = left })
    ])

-- `if (moved <= 0) done();`
pub take_block : Settings → (i : ℕ) → (moved : ℤ) → Round → State → Outcome
take_block s i moved r st =
    if ltb_ℤ (pos 0) moved then input_block s i (pos_part moved) r st else ([], is_done st)

-- The read into the buffer `i`.
pub read_block : Settings → (i : ℕ) → Round → State → Outcome
read_block s i r st =
    let filled = with_buffer i r.block st in
    let hist =
      if timed s.rtmax s.rtmin
      then count_time (pos (r.read_mics / 1000)) s.rtmax s.rtmin st.rthist
      else st.rthist in
    if not (is_open s.input)
    then take_block s i (pos s.bsize) r st
    else after (read s.input s.bsize ∷ []) (
        if is_zero st.pad_in then take_block s i r.moved r (record filled { rthist = hist }) else (
          restart ∷ [],
          goes_on (record filled { pad_in = pos 0; count = (st.count + 1) % u64 }),
        ))

-- `buf = bufs[nextbuf]; if (++nextbuf == nbufs) nextbuf = 0;`; only `nbufs` buffers are there.
pub next_block : Settings → Round → State → Outcome
next_block s r st =
    let i = st.nextbuf in
    let next = if eq_ℤ (pos (i + 1)) s.nbufs then 0 else i + 1 in
    if ltb_ℤ (pos i) s.nbufs then read_block s i r (record st { nextbuf = next }) else ([], fault)

-- One round.
pub round : (draw : ℕ → ℕ → ℕ) (fuel : ℕ) → Settings → Round → State → Outcome
round draw fuel s r st =
    let counted = record st { count = if s.gotcnt then (st.count + u64 - 1) % u64 else st.count } in
    if s.gotcnt && st.count == 0
    then ([], is_done counted)
    else (elim (choose draw s fuel st.off st.choice) [
      | none ↦ ([], fault)
      | some (off, c) ↦
          after (if is_random draw s then seeks s off else [])
            (next_block s r (record counted { off = off; choice = c }))
    ])

-- What follows a round, if the loop goes on.
pub and_then : (State → Outcome) → Outcome → Outcome
and_then next (acts, goes_on st) = after acts (next st)
and_then next (acts, is_done st) = (acts, is_done st)
and_then next (acts, leaves) = (acts, leaves)
and_then next (acts, fault) = (acts, fault)

-- The loop, on the rounds that it meets.
pub rounds : (draw : ℕ → ℕ → ℕ) (fuel : ℕ) → Settings → List Round → State → Outcome
rounds draw fuel s [] st = ([], goes_on st)
rounds draw fuel s (r ∷ rs) st =
    and_then (λ st'. rounds draw fuel s rs st') (round draw fuel s r st)
