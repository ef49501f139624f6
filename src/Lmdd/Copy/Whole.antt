-- ===== src/Lmdd/Copy/Whole.antt =====
-- A whole copy of src/lmdd.c from one file to another, block after block.
use qnx_lmbench_mods.Base.{
  ℕ, suc, ◌+◌, ◌%◌, ◌≤◌, ◌≡◌, refl, sym, ap, ap₂, subst, ◌∙◌, ◌⊎◌, true, false, ◌&&◌, List, [], ◌∷◌,
  ◌++◌, length, map, ◌==◌, Bool-cases, arith, inl, inr,
}
use mathlib.Core.List.{append-nil}
use qnx_lmbench_mods.Base.Int.{pos, pos_part, ltb_ℤ}
use qnx_lmbench_mods.Clock.{u64}
use qnx_lmbench_mods.Lmdd.Settings.{Settings}
use qnx_lmbench_mods.Lmdd.Pattern.{Buffer}
use qnx_lmbench_mods.Lmdd.Copy.{
  State, Round, Act, read, write, goes_on, is_done, Outcome, after, and_then, round, rounds,
}
use qnx_lmbench_mods.Lmdd.Copy.Plain.{
  IsPlain, touched, next_state, acts_of, filled, counted_down, round_plain, round_ends,
  round_counted,
}
use qnx_lmbench_mods.Lmdd.Copy.Acts.{
  size, AllMoved, total, words, writes, IsGoing, after-append, writes-naps, writes-append,
  next_buffer, next_count, counted_down_one, goes_on_now, goes_on_next, written_block,
}

module _ (s : Settings) (p : IsPlain s) where
  next_state-IsGoing :
      (m : ℕ) (r : Round) (st : State) → IsGoing s st → IsGoing s (next_state s p m r st)
  next_state-IsGoing m r st g = record {
    buffer = next_buffer s.nbufs st.nextbuf g.buffer;
    padded = g.padded;
    off_small = omega arith;
    int_count_small = omega arith;
    count_small = next_count s.gotcnt st.count g.count_small;
  }

  abbrev states : List Round → State → State
  states [] st = st
  states (r ∷ rs) st = states rs (next_state s p (size r) r st)

  abbrev acts : List Round → State → List Act
  acts [] st = []
  acts (r ∷ rs) st = acts_of s p (size r) r st ++ acts rs (next_state s p (size r) r st)

  states-IsGoing : (rs : List Round) (st : State) → IsGoing s st → IsGoing s (states rs st)
  states-IsGoing [] st g = g
  states-IsGoing (r ∷ rs) st g =
      states-IsGoing rs (next_state s p (size r) r st) (next_state-IsGoing (size r) r st g)

  states-off :
      (rs : List Round) (st : State) → IsGoing s st → (states rs st).off ≡ (st.off + total rs) % u64
  states-off [] st g = omega (arith, g.off_small)
  states-off (r ∷ rs) st g =
      omega
        (arith, states-off rs (next_state s p (size r) r st) (next_state-IsGoing (size r) r st g))

  states-int_count :
      (rs : List Round) (st : State)
      → IsGoing s st
      → (states rs st).int_count ≡ (st.int_count + words rs) % u64
  states-int_count [] st g = omega (arith, g.int_count_small)
  states-int_count (r ∷ rs) st g = omega (
    arith,
    states-int_count rs (next_state s p (size r) r st) (next_state-IsGoing (size r) r st g),
  )

  states-count :
      (rs : List Round) (st : State)
      → IsGoing s st
      → s.gotcnt ≡ true
      → length rs ≤ st.count
      → (states rs st).count + length rs ≡ st.count
  states-count [] st g c h = omega arith
  states-count (r ∷ rs) st g c h =
      let next = next_state s p (size r) r st in
      let one = counted_down_one s.gotcnt st.count c (omega arith) g.count_small in
      omega (
        arith,
        one,
        states-count rs next (next_state-IsGoing (size r) r st g) c (omega (arith, one)),
      )

  written :
      (rs : List Round) (st : State)
      → writes (acts rs st) ≡ map (λ r. write s.output (touched s (size r) r.block) (size r)) rs
  written [] st = refl
  written (r ∷ rs) st =
      ap₂ (λ (b : Buffer) (l : List Act). write s.output b (size r) ∷ l)
        (written_block s (size r) st.nextbuf r.block st.bufs)
        (writes-naps s (acts rs (next_state s p (size r) r st))
          ∙ written rs (next_state s p (size r) r st))

  module _ (draw : ℕ → ℕ → ℕ) (fuel : ℕ) where
    rounds_plain :
        (rs rest : List Round) (st : State)
        → AllMoved rs
        → IsGoing s st
        → (s.gotcnt ≡ false) ⊎ (length rs ≤ st.count)
        → rounds draw fuel s (rs ++ rest) st
          ≡ after (acts rs st) (rounds draw fuel s rest (states rs st))
    unfolding rounds and_then
    rounds_plain [] rest st m g c = refl
    rounds_plain (r ∷ rs) rest st m g c =
        let (n, e, e2) = m.0 in
        let next = next_state s p (size r) r st in
        let now : round draw fuel s r st ≡ (acts_of s p (size r) r st, goes_on next) =
          subst
            (λ (k : ℕ).
              round draw fuel s r st ≡ (acts_of s p k r st, goes_on (next_state s p k r st)))
            (sym (ap pos_part e))
            (round_plain s p draw fuel n r st e e2 g.buffer g.padded
              (goes_on_now s.gotcnt st.count (length rs) c)) in
        let later =
          rounds_plain rs rest next m.1 (next_state-IsGoing (size r) r st g)
            (goes_on_next s.gotcnt st.count (length rs) c g.count_small) in
        ap (and_then (λ (st' : State). rounds draw fuel s (rs ++ rest) st')) now
        ∙ ap (after (acts_of s p (size r) r st)) later
        ∙ sym (
            after-append (acts_of s p (size r) r st) (acts rs next)
              (rounds draw fuel s rest (states rs next)))

    -- How a copy ends: at the end of the input or an error of it, or after the blocks asked for.
    abbrev pub Ends : Round → List Round → State → Type 0
    Ends last rs st =
        ((ltb_ℤ (pos 0) last.moved ≡ false) × ((s.gotcnt ≡ false) ⊎ (suc (length rs) ≤ st.count)))
        ⊎ ((s.gotcnt ≡ true) × (st.count ≡ length rs))

    -- The last round finds the loop going.
    last_starts :
        (rs : List Round) (st : State)
        → IsGoing s st
        → (s.gotcnt ≡ false) ⊎ (suc (length rs) ≤ st.count)
        → (s.gotcnt && (states rs st).count == 0) ≡ false
    last_starts rs st g (inl e) = goes_on_now s.gotcnt (states rs st).count 0 (inl e)
    last_starts rs st g (inr h) = elim (Bool-cases s.gotcnt) [
      | inl e ↦
          goes_on_now s.gotcnt (states rs st).count 0
            (inr (omega (arith, states-count rs st g e (omega arith))))
      | inr e ↦ goes_on_now s.gotcnt (states rs st).count 0 (inl e)
    ]

    fewer : {n k : ℕ} → (s.gotcnt ≡ false) ⊎ (suc k ≤ n) → (s.gotcnt ≡ false) ⊎ (k ≤ n)
    fewer (inl e) = inl e
    fewer (inr h) = inr (omega arith)

    -- A copy in order (no random offsets, one process, no patterns), from a state in which the buffer is
    -- one of those allocated, the counters are in range and the block that `padin=` leaves out, if there
    -- is one, is behind it, ends at the end of its input, or after as many blocks as were asked for, if
    -- every read before that gives something and every write takes the whole block. Until then it has
    -- written what it read, block by block, and with `touch=` each 4096th byte of a block as 0; the offset and the count of words have grown by what
    -- was moved, in bytes and in whole words of each block.
    pub copies :
        (rs : List Round) (last : Round) (more : List Round) (st : State)
        → AllMoved rs
        → IsGoing s st
        → Ends last rs st
        → (done : List Act) × (st' : State) × (rounds draw fuel s (rs ++ last ∷ more) st
            ≡ (done, is_done st'))
          × (writes done ≡ map (λ r. write s.output (touched s (size r) r.block) (size r)) rs)
          × (st'.off ≡ (st.off + total rs) % u64)
          × (st'.int_count ≡ (st.int_count + words rs) % u64)
    unfolding rounds and_then
    copies rs last more st m g (inl (e, c)) =
        let final = states rs st in
        let gf = states-IsGoing rs st g in
        let ended =
          round_ends s p draw fuel last final e gf.buffer gf.padded (last_starts rs st g c) in
        (
          acts rs st ++ read s.input s.bsize ∷ [],
          filled s p last final,
          rounds_plain rs (last ∷ more) st m g (fewer c)
              ∙ ap
                  (λ (o : Outcome).
                    after (acts rs st) (and_then (λ (st' : State). rounds draw fuel s more st') o))
                  ended,
          writes-append (acts rs st) (read s.input s.bsize ∷ []) ∙ append-nil _ ∙ written rs st,
          states-off rs st g,
          states-int_count rs st g,
        )
    copies rs last more st m g (inr (c, n)) =
        let final = states rs st in
        let none_left = states-count rs st g c (omega arith) in
        let ended = round_counted s p draw fuel last final c (omega arith) in
        (
          acts rs st ++ [],
          counted_down s p final,
          rounds_plain rs (last ∷ more) st m g (inr (omega arith))
              ∙ ap
                  (λ (o : Outcome).
                    after (acts rs st) (and_then (λ (st' : State). rounds draw fuel s more st') o))
                  ended,
          writes-append (acts rs st) [] ∙ append-nil _ ∙ written rs st,
          states-off rs st g,
          states-int_count rs st g,
        )
