-- ===== src/Getopt/Loop.antt =====
-- The option loop of the benchmarks over src/getopt.c: what it reads from a command line that was
-- written by the forms which the file's header lists.
use qnx_lmbench_mods.Base.{
  ℕ, zero, suc, ◌+◌, ◌<◌, ◌≡◌, ◌≢◌, refl, subst, ◌∙◌, true, none, some, List, [], ◌∷◌, ◌++◌, length,
  get_elem?, drop, arith, get_elem?_of_drop, drop_step, get_elem?_of_drop_nil,
}
use qnx_lmbench_mods.Getopt.{Str, State, initial, started, returned, getopt, getopt_loop, begin}
use qnx_lmbench_mods.Getopt.Steps.{is_option, getopt-eof, getopt-eof_end}
use mathlib.Core.List.{append-nil}
use qnx_lmbench_mods.Getopt.Grammar.{
  Ending, plain, attached, apart, bare, Item, ending_letters, ending_words, write_items, Options,
  flag_options, ending_option, ending_optarg, options, AllFlags, IsEnding, AllItems, EndsOptions,
  after_ending, after_items, count_ending, count_letters, word_of,
}
use qnx_lmbench_mods.Getopt.Word.{
  InWord, flag_step, flag_last, attached_step, apart_step, bare_step,
}

module _ (av : List Str) (opts : Str) where
  loop_step :
      (fuel c : ℕ) (st s : State) {l : Options} {e : State}
      → getopt av opts st ≡ returned c s
      → c ≢ b'?'
      → getopt_loop fuel av opts s ≡ some (l, e)
      → getopt_loop (suc fuel) av opts st ≡ some ((c, s.optarg) ∷ l, e)
  unfolding getopt_loop
  loop_step fuel c st s g ne rest = ground arith

  loop_end :
      (fuel : ℕ) (st : State) (ws : List Str)
      → drop st.optind av ≡ ws
      → 0 < st.optind
      → EndsOptions ws
      → getopt_loop (suc fuel) av opts st ≡ some ([], st)
  unfolding getopt_loop
  loop_end fuel st [] at pos h =
      ground (arith, getopt-eof_end av opts [] st, get_elem?_of_drop_nil av st.optind)
  loop_end fuel st (w ∷ ws) at pos h =
      let here : get_elem? av st.optind ≡ some w = get_elem?_of_drop av st.optind at in
      ground (arith, getopt-eof av opts w st pos here h)

  -- From `st` on the loop reads `l` and ends in `e`, in at most `m` calls before the last.
  abbrev Reads : ℕ → State → Options → State → Type 0
  Reads m st l e = (fuel : ℕ) → m < fuel → getopt_loop fuel av opts st ≡ some (l, e)

  Reads-step :
      (m c : ℕ) (st s : State) (l : Options) (e : State)
      → getopt av opts st ≡ returned c s
      → c ≢ b'?'
      → Reads m s l e
      → Reads (suc m) st ((c, s.optarg) ∷ l) e
  Reads-step m c st s l e g ne next zero h = absurd (omega arith)
  Reads-step m c st s l e g ne next (suc fuel) h =
      loop_step fuel c st s g ne (next fuel (omega arith))

  Reads-flags :
      (cs : Str) (w : Str) (st : State) (d : ℕ) (tail : Str) (m : ℕ) (l : Options) (e : State)
      → InWord av opts w st (cs ++ (d ∷ tail))
      → AllFlags opts cs
      → d ≢ 0
      → ((j : ℕ)
          → InWord av opts w (record st { n = j }) (d ∷ tail)
          → Reads m (record st { n = j }) l e)
      → Reads (length cs + m) st (flag_options st.optarg cs l) e
  Reads-flags [] w st d tail m l e v _ dz next fuel h = next st.n v fuel (omega arith)
  Reads-flags (c ∷ cs) w st d tail m l e v (hc, hcs) dz next zero h = absurd (omega arith)
  Reads-flags (c ∷ []) w st d tail m l e v (hc, hcs) dz next (suc fuel) h =
      let v' : InWord av opts w (record st { n = st.n + 1 }) (d ∷ tail) = record {
        pos = v.pos;
        here = v.here;
        opt = v.opt;
        rest = drop_step w st.n v.rest;
      } in
      loop_step fuel c st (record st { n = st.n + 1 }) (flag_step av opts w st c d tail v hc dz)
        (hc.4) (next (st.n + 1) v' fuel (omega arith))
  Reads-flags (c ∷ b ∷ cs) w st d tail m l e v (hc, hcs) dz next (suc fuel) h =
      let v' : InWord av opts w (record st { n = st.n + 1 }) (b ∷ (cs ++ (d ∷ tail))) = record {
        pos = v.pos;
        here = v.here;
        opt = v.opt;
        rest = drop_step w st.n v.rest;
      } in
      loop_step fuel c st (record st { n = st.n + 1 })
        (flag_step av opts w st c b (cs ++ (d ∷ tail)) v hc (hcs.0.3)) (hc.4)
        (Reads-flags (b ∷ cs) w (record st { n = st.n + 1 }) d tail m l e v' hcs dz next fuel
          (omega arith))

  Reads-plain :
      (c : ℕ) (cs : Str) (w : Str) (st : State) (m : ℕ) (l : Options) (e : State)
      → InWord av opts w st (c ∷ cs)
      → AllFlags opts (c ∷ cs)
      → Reads m (record st { optind = st.optind + 1; n = 1 }) l e
      → Reads (suc (length cs) + m) st (flag_options st.optarg (c ∷ cs) l) e
  Reads-plain c [] w st m l e v (hc, hcs) next zero h = absurd (omega arith)
  Reads-plain c [] w st m l e v (hc, hcs) next (suc fuel) h =
      loop_step fuel c st (record st { optind = st.optind + 1; n = 1 })
        (flag_last av opts w st c v hc) (hc.4) (next fuel (omega arith))
  Reads-plain c (b ∷ cs) w st m l e v (hc, hcs) next zero h = absurd (omega arith)
  Reads-plain c (b ∷ cs) w st m l e v (hc, hcs) next (suc fuel) h =
      let v' : InWord av opts w (record st { n = st.n + 1 }) (b ∷ cs) = record {
        pos = v.pos;
        here = v.here;
        opt = v.opt;
        rest = drop_step w st.n v.rest;
      } in
      loop_step fuel c st (record st { n = st.n + 1 })
        (flag_step av opts w st c b cs v hc (hcs.0.3)) (hc.4)
        (Reads-plain b cs w (record st { n = st.n + 1 }) m l e v' hcs next fuel (omega arith))

  is_option-word_of :
      (flags : Str) (last : Ending)
      → AllFlags opts flags
      → IsEnding opts flags last
      → is_option (word_of flags last) ≡ true
  is_option-word_of (c ∷ cs) last (hc, hcs) h = ground (arith, hc.3)
  is_option-word_of [] plain hcs h = absurd (h refl)
  is_option-word_of [] (attached c a) hcs h = ground (arith, h.4)
  is_option-word_of [] (apart c a) hcs h = ground (arith, h.2)
  is_option-word_of [] (bare c) hcs h = ground (arith, h.1)

  module _ (st : State) (ws : List Str) (m : ℕ) (l : Options) (e : State) where
    InWord-start :
        (flags : Str) (last : Ending)
        → 0 < st.optind
        → st.n ≡ 1
        → drop st.optind av ≡ word_of flags last ∷ ending_words last ws
        → AllFlags opts flags
        → IsEnding opts flags last
        → InWord av opts (word_of flags last) st (flags ++ ending_letters last)
    InWord-start flags last pos one at hf hl = record {
      pos = pos;
      here = get_elem?_of_drop av st.optind at;
      opt = is_option-word_of flags last hf hl;
      rest = rw one refl;
    }

    Reads-word :
        (flags : Str) (last : Ending)
        → 0 < st.optind
        → st.n ≡ 1
        → drop st.optind av ≡ word_of flags last ∷ ending_words last ws
        → AllFlags opts flags
        → IsEnding opts flags last
        → Reads m (after_ending st last) l e
        → Reads
            (length flags + count_ending last m)
            st
            (flag_options st.optarg flags (ending_option last l))
            e
    Reads-word [] plain pos one at hf hl next = absurd (hl refl)
    Reads-word (c ∷ cs) plain pos one at hf hl next =
        let v = InWord-start (c ∷ cs) plain pos one at hf hl in
        Reads-plain c cs (word_of (c ∷ cs) plain) st m l e
          (subst (InWord av opts (word_of (c ∷ cs) plain) st) (append-nil (c ∷ cs)) v) hf next
    Reads-word fs (attached c a) pos one at hf hl next =
        Reads-flags fs (word_of fs (attached c a)) st c a (suc m) ((c, some a) ∷ l) e
          (InWord-start fs (attached c a) pos one at hf hl) hf (hl.4)
          (λ j w.
            Reads-step m c (record st { n = j }) (after_ending st (attached c a)) l e
              (attached_step av opts (word_of fs (attached c a)) (record st { n = j }) c hl.0 a w
                hl.1 hl.2 hl.3)
              (hl.5) next)
    Reads-word fs (apart c a) pos one at hf hl next =
        let after : drop (st.optind + 1) av ≡ a ∷ ws = drop_step av st.optind at in
        Reads-flags fs (word_of fs (apart c a)) st c [] (suc m) ((c, some a) ∷ l) e
          (InWord-start fs (apart c a) pos one at hf hl) hf (hl.2)
          (λ j w.
            Reads-step m c (record st { n = j }) (after_ending st (apart c a)) l e
              (apart_step av opts (word_of fs (apart c a)) (record st { n = j }) c a w hl.0
                (get_elem?_of_drop av (st.optind + 1) after) hl.1)
              (hl.3) next)
    Reads-word fs (bare c) pos one at hf hl next =
        Reads-flags fs (word_of fs (bare c)) st c [] (suc m) ((c, none) ∷ l) e
          (InWord-start fs (bare c) pos one at hf hl) hf (hl.1)
          (λ j w.
            Reads-step m c (record st { n = j }) (after_ending st (bare c)) l e
              (bare_step av opts (word_of fs (bare c)) (record st { n = j }) c w hl.0) (hl.2) next)

  drop-after_ending :
      (st : State) (item : Item) (ws : List Str)
      → drop st.optind av ≡ word_of item.flags item.last ∷ ending_words item.last ws
      → drop (after_ending st item.last).optind av ≡ ws
  drop-after_ending st item ws at = go item.last at
    where
      go :
          (last : Ending)
          → drop st.optind av ≡ word_of item.flags last ∷ ending_words last ws
          → drop (after_ending st last).optind av ≡ ws
      go plain at = drop_step av st.optind at
      go (attached c a) at = drop_step av st.optind at
      go (bare c) at = drop_step av st.optind at
      go (apart c a) at =
          let two : st.optind + 1 + 1 ≡ st.optind + 2 = omega arith in
          subst (λ i. drop i av ≡ ws) two (drop_step av (st.optind + 1) (drop_step av st.optind at))

  after_ending-fields :
      (st : State) (last : Ending)
      → 0 < st.optind
      → (0 < (after_ending st last).optind)
        × ((after_ending st last).n ≡ 1)
        × ((after_ending st last).optarg ≡ ending_optarg st.optarg last)
  after_ending-fields st plain h = (omega arith, refl, refl)
  after_ending-fields st (attached c a) h = (omega arith, refl, refl)
  after_ending-fields st (apart c a) h = (omega arith, refl, refl)
  after_ending-fields st (bare c) h = (omega arith, refl, refl)

  Reads-items :
      (items : List Item) (st : State) (ws : List Str)
      → 0 < st.optind
      → st.n ≡ 1
      → drop st.optind av ≡ write_items items ws
      → AllItems opts items
      → EndsOptions ws
      → Reads (count_letters items) st (options st.optarg items) (after_items st items)
  Reads-items [] st ws pos one at hi he = stop
    where
      stop : Reads 0 st [] st
      stop zero h = absurd (omega arith)
      stop (suc fuel) h = loop_end fuel st ws at pos he
  Reads-items (item ∷ items) st ws pos one at (hf, hl, hi) he =
      let (pos', one', cur) = after_ending-fields st item.last pos in
      let rest =
        Reads-items items (after_ending st item.last) ws pos' one'
          (drop-after_ending st item (write_items items ws) at) hi he in
      Reads-word st (write_items items ws) (count_letters items)
        (options (ending_optarg st.optarg item.last) items)
        (after_items (after_ending st item.last) items) item.flags item.last pos one at hf hl
        (rw cur at rest)

getopt_loop-initial :
    (av : List Str) (opts : Str) (fuel : ℕ)
    → getopt_loop fuel av opts initial ≡ getopt_loop fuel av opts started
unfolding getopt_loop getopt begin
getopt_loop-initial av opts zero = refl
getopt_loop-initial av opts (suc fuel) = refl

-- Every command line that is written by the forms in the header of src/getopt.c (a program name, then
-- words of letters that `opts` lists, the last letter of a word with its argument attached, in the
-- next word or left out as `opts` allows, then words of which the first is no option) is read back by
-- the option loop: it returns the letters with their arguments in order and stops, for any fuel above
-- the number of letters, at the first word behind them.
pub getopt_loop-write_items :
    (opts name : Str) (items : List Item) (ws : List Str) (fuel : ℕ)
    → AllItems opts items
    → EndsOptions ws
    → count_letters items < fuel
    → getopt_loop fuel (name ∷ write_items items ws) opts initial
      ≡ some (options none items, after_items started items)
getopt_loop-write_items opts name items ws fuel hi he h =
    let av = name ∷ write_items items ws in
    getopt_loop-initial av opts fuel
    ∙ Reads-items av opts items started ws (omega arith) refl refl hi he fuel h
