-- ===== src/Lmdd/Copy/Plain.antt =====
-- One round of a copy of src/lmdd.c from one file to another, in order.
use qnx_lmbench_mods.Base.{
  ℕ, suc, ◌+◌, ◌-◌, ◌/◌, ◌%◌, ◌≡◌, refl, true, false, ◌&&◌, some, List, [], ◌∷◌, ◌==◌,
  if◌then◌else◌, arith,
}
use qnx_lmbench_mods.Base.Int.{ℤ, pos, ltb_ℤ}
use qnx_lmbench_mods.Clock.{u64}
use qnx_lmbench_mods.Lmdd.Settings.{Settings, given, given_int}
use qnx_lmbench_mods.Lmdd.Pattern.{Buffer, is_zero, clear}
use qnx_lmbench_mods.Lmdd.Histogram.{count_time}
use qnx_lmbench_mods.Lmdd.Offsets.{Choice, eq_ℤ, choose}
use qnx_lmbench_mods.Lmdd.Offsets.Fresh.{choose-in_order, is_random-in_order}
use qnx_lmbench_mods.Lmdd.Copy.{
  State, Round, Act, read, write, sleep, goes_on, is_done, after, is_open, timed, finish,
  with_buffer, write_block, output_block, input_block, take_block, read_block, next_block, round,
}

-- One file is read and another written, in order, by one process, with no pattern.
pub record IsPlain (s : Settings) : Type 0 where
  pub reads : is_open s.input ≡ true
  pub writes : is_open s.output ≡ true
  pub end_absent : given s.end ≡ false
  pub rand_absent : given s.rand ≡ false
  pub fork_absent : given_int s.fork ≡ false
  pub inpat_absent : given_int s.inpat ≡ false
  pub outpat_absent : given_int s.outpat ≡ false

-- What is written of a block that was read: all of it, but with `touch=` each 4096th byte is cleared.
abbrev pub touched : Settings → (moved : ℕ) → Buffer → Buffer
touched s moved b = if s.touch then clear moved b else b

abbrev pub naps : Settings → List Act
naps s = if given_int s.slp then sleep s.slp ∷ [] else []

abbrev pub moved_on : (moved : ℕ) → State → State
moved_on moved st = record st {
  off = (st.off + moved) % u64;
  int_count = (st.int_count + moved / 4) % u64;
}

module _ (s : Settings) (p : IsPlain s) where
  finish_plain : (m : ℕ) (st : State) → finish s m st ≡ (naps s, goes_on (moved_on m st))
  unfolding finish
  finish_plain m st = rw (p.fork_absent) refl

  -- The state behind the write of the buffer `i`.
  abbrev pub wrote : (i m : ℕ) → Round → State → State
  wrote i m r st = moved_on m (
      with_buffer i (touched s m (st.bufs i)) (record st {
        wthist =
            if timed s.wtmax s.wtmin
            then count_time (pos (r.write_mics / 1000)) s.wtmax s.wtmin st.wthist
            else st.wthist;
      }))

  write_plain :
      (i m : ℕ) (r : Round) (st : State)
      → r.moved2 ≡ pos m
      → write_block s i m r st ≡ (write s.output (st.bufs i) m ∷ naps s, goes_on (wrote i m r st))
  unfolding write_block
  write_plain i m r st e =
      let same : (m == m) ≡ true = ground arith in
      rw (p.outpat_absent, e, same, finish_plain m _) refl

  output_plain :
      (i m : ℕ) (r : Round) (st : State)
      → r.moved2 ≡ pos m
      → output_block s i m r st ≡ (write s.output (st.bufs i) m ∷ naps s, goes_on (wrote i m r st))
  unfolding output_block
  output_plain i m r st e = rw (p.writes, p.fork_absent) (write_plain i m r st e)

  abbrev pub touch_input : (i m : ℕ) → State → State
  touch_input i m st = with_buffer i (touched s m (st.bufs i)) st

  input_plain :
      (i m : ℕ) (r : Round) (st : State)
      → r.moved2 ≡ pos m
      → input_block s i m r st ≡ (
        write s.output ((touch_input i m st).bufs i) m ∷ naps s,
        goes_on (wrote i m r (touch_input i m st)),
      )
  unfolding input_block
  input_plain i m r st e = rw (p.inpat_absent, p.reads) (output_plain i m r (touch_input i m st) e)

  abbrev pub loaded : (i : ℕ) → Round → State → State
  loaded i r st = record st {
    bufs = λ (j : ℕ). if j == i then r.block else st.bufs j;
    rthist =
        if timed s.rtmax s.rtmin
        then count_time (pos (r.read_mics / 1000)) s.rtmax s.rtmin st.rthist
        else st.rthist;
  }

  read_plain :
      (i : ℕ) (r : Round) (st : State)
      → is_zero st.pad_in ≡ true
      → read_block s i r st
        ≡ after (read s.input s.bsize ∷ []) (take_block s i r.moved r (loaded i r st))
  unfolding read_block
  read_plain i r st z = rw (p.reads, z) refl

  take_plain :
      (i n : ℕ) (moved : ℤ) (r : Round) (st : State)
      → moved ≡ pos (suc n)
      → take_block s i moved r st ≡ input_block s i (suc n) r st
  unfolding take_block
  take_plain i n moved r st e =
      let more : ltb_ℤ (pos 0) (pos (suc n)) ≡ true = ground arith in rw (e, more) refl

  -- The buffer is taken in turn.
  abbrev pub turned : State → State
  turned st = record st {
    nextbuf = if eq_ℤ (pos (st.nextbuf + 1)) s.nbufs then 0 else st.nextbuf + 1;
  }

  abbrev pub counted_down : State → State
  counted_down st = record st { count = if s.gotcnt then (st.count + u64 - 1) % u64 else st.count }

  -- The state before the block is looked at, and at the end of the round.
  abbrev pub filled : Round → State → State
  filled r st = loaded st.nextbuf r (turned (counted_down st))

  abbrev pub next_state : (m : ℕ) → Round → State → State
  next_state m r st = wrote st.nextbuf m r (touch_input st.nextbuf m (filled r st))

  abbrev pub acts_of : (m : ℕ) → Round → State → List Act
  acts_of m r st =
      read s.input s.bsize
      ∷ write s.output ((touch_input st.nextbuf m (filled r st)).bufs st.nextbuf) m
      ∷ naps s

  next_plain :
      (n : ℕ) (r : Round) (st : State)
      → r.moved ≡ pos (suc n)
      → r.moved2 ≡ pos (suc n)
      → ltb_ℤ (pos st.nextbuf) s.nbufs ≡ true
      → is_zero st.pad_in ≡ true
      → next_block s r (counted_down st) ≡ (acts_of (suc n) r st, goes_on (next_state (suc n) r st))
  unfolding next_block
  next_plain n r st e e2 b z =
      let i = st.nextbuf in
      let now = turned (counted_down st) in
      rw
        (
          b,
          read_plain i r now z,
          take_plain i n r.moved r (loaded i r now) e,
          input_plain i (suc n) r (loaded i r now) e2,
        )
        refl

  take_ends :
      (i : ℕ) (moved : ℤ) (r : Round) (st : State)
      → ltb_ℤ (pos 0) moved ≡ false
      → take_block s i moved r st ≡ ([], is_done st)
  unfolding take_block
  take_ends i moved r st e = rw e refl

  next_ends :
      (r : Round) (st : State)
      → ltb_ℤ (pos 0) r.moved ≡ false
      → ltb_ℤ (pos st.nextbuf) s.nbufs ≡ true
      → is_zero st.pad_in ≡ true
      → next_block s r (counted_down st) ≡ (read s.input s.bsize ∷ [], is_done (filled r st))
  unfolding next_block
  next_ends r st e b z =
      let i = st.nextbuf in
      let now = turned (counted_down st) in
      rw (b, read_plain i r now z, take_ends i r.moved r (loaded i r now) e) refl

  module _ (draw : ℕ → ℕ → ℕ) (fuel : ℕ) where
    choose_plain : (off : ℕ) (c : Choice) → choose draw s fuel off c ≡ some (off, c)
    choose_plain off c = choose-in_order draw s fuel off c p.end_absent p.rand_absent

    pub round_plain :
        (n : ℕ) (r : Round) (st : State)
        → r.moved ≡ pos (suc n)
        → r.moved2 ≡ pos (suc n)
        → ltb_ℤ (pos st.nextbuf) s.nbufs ≡ true
        → is_zero st.pad_in ≡ true
        → (s.gotcnt && st.count == 0) ≡ false
        → round draw fuel s r st ≡ (acts_of (suc n) r st, goes_on (next_state (suc n) r st))
    unfolding round
    round_plain n r st e e2 b z c =
        rw (c, choose_plain st.off st.choice, is_random-in_order draw s p.end_absent p.rand_absent)
          (next_plain n r st e e2 b z)

    -- The end of the file, or an error.
    pub round_ends :
        (r : Round) (st : State)
        → ltb_ℤ (pos 0) r.moved ≡ false
        → ltb_ℤ (pos st.nextbuf) s.nbufs ≡ true
        → is_zero st.pad_in ≡ true
        → (s.gotcnt && st.count == 0) ≡ false
        → round draw fuel s r st ≡ (read s.input s.bsize ∷ [], is_done (filled r st))
    unfolding round
    round_ends r st e b z c =
        rw (c, choose_plain st.off st.choice, is_random-in_order draw s p.end_absent p.rand_absent)
          (next_ends r st e b z)

    -- The blocks asked for are copied.
    pub round_counted :
        (r : Round) (st : State)
        → s.gotcnt ≡ true
        → st.count ≡ 0
        → round draw fuel s r st ≡ ([], is_done (counted_down st))
    unfolding round
    round_counted r st g c =
        let test : (s.gotcnt && st.count == 0) ≡ true = ground arith in rw test refl
