-- ===== src/Getopt/Word.antt =====
-- One letter of a word, for each way in which src/getopt.c reads it.
use qnx_lmbench_mods.Base.{
  ℕ, ◌+◌, ◌<◌, ◌≡◌, ◌≢◌, refl, true, none, some, List, [], ◌∷◌, get_elem?, drop, arith,
  get_or_of_drop, lt_of_drop, drop_step, get_or_of_drop_nil,
}
use qnx_lmbench_mods.Getopt.{
  Str, State, returned, char_at, takes_arg, advance, separate, legit, getopt,
}
use qnx_lmbench_mods.Getopt.Steps.{is_option, kind, getopt-legit}
use qnx_lmbench_mods.Getopt.Grammar.{IsFlag}

module _ (av : List Str) (opts : Str) where
  -- The state `st` stands in the word `w`, before the letters `tail`.
  pub record InWord (w : Str) (st : State) (tail : Str) : Type 0 where
    pub pos : 0 < st.optind
    pub here : get_elem? av st.optind ≡ some w
    pub opt : is_option w ≡ true
    pub rest : drop st.n w ≡ tail

  pub letter_step :
      (w : Str) (st : State) (c k : ℕ) (tail : Str)
      → InWord w st (c ∷ tail)
      → kind c opts ≡ some k
      → getopt av opts st ≡ legit av w c k st
  letter_step w st c k tail v known =
      let at : char_at w st.n ≡ c = get_or_of_drop w st.n 0 v.rest in
      rw at at
        (getopt-legit av opts w st k v.pos v.here v.opt (lt_of_drop w st.n v.rest) (rw at known))

  pub flag_step :
      (w : Str) (st : State) (c d : ℕ) (tail : Str)
      → InWord w st (c ∷ d ∷ tail)
      → IsFlag opts c
      → d ≢ 0
      → getopt av opts st ≡ returned c (record st { n = st.n + 1 })
  unfolding legit advance
  flag_step w st c d tail v (k, known, single, nz, nq) dz = ground (
    arith,
    letter_step w st c k (d ∷ tail) v known,
    get_or_of_drop w (st.n + 1) 0 {y = d} {ys = tail} (drop_step w st.n v.rest),
  )

  pub flag_last :
      (w : Str) (st : State) (c : ℕ)
      → InWord w st (c ∷ [])
      → IsFlag opts c
      → getopt av opts st ≡ returned c (record st { optind = st.optind + 1; n = 1 })
  unfolding legit advance
  flag_last w st c v (k, known, single, nz, nq) = ground (
    arith,
    letter_step w st c k [] v known,
    get_or_of_drop_nil w (st.n + 1) 0 (drop_step w st.n v.rest),
  )

  pub attached_step :
      (w : Str) (st : State) (c k : ℕ) (a : Str)
      → InWord w st (c ∷ a)
      → kind c opts ≡ some k
      → takes_arg k ≡ true
      → char_at a 0 ≢ 0
      → getopt av opts st
        ≡ returned c (record st { optarg = some a; optind = st.optind + 1; n = 1 })
  unfolding legit
  attached_step w st c k [] v known wants nz = absurd (nz refl)
  attached_step w st c k (x ∷ a) v known wants nz =
      let more : drop (st.n + 1) w ≡ x ∷ a = drop_step w st.n v.rest in
      ground (
        arith,
        letter_step w st c k (x ∷ a) v known,
        get_or_of_drop w (st.n + 1) 0 {y = x} {ys = a} more,
      )

  pub apart_step :
      (w : Str) (st : State) (c : ℕ) (a : Str)
      → InWord w st (c ∷ [])
      → kind c opts ≡ some b':'
      → get_elem? av (st.optind + 1) ≡ some a
      → char_at a 0 ≢ b'-'
      → getopt av opts st
        ≡ returned c (record st { optarg = some a; optind = st.optind + 2; n = 1 })
  unfolding legit separate
  apart_step w st c a v known next nd = ground (
    arith,
    letter_step w st c b':' [] v known,
    get_or_of_drop_nil w (st.n + 1) 0 (drop_step w st.n v.rest),
  )

  pub bare_step :
      (w : Str) (st : State) (c : ℕ)
      → InWord w st (c ∷ [])
      → kind c opts ≡ some b'|'
      → getopt av opts st ≡ returned c (record st { optarg = none; optind = st.optind + 1; n = 1 })
  unfolding legit separate
  bare_step w st c v known = ground (
    arith,
    letter_step w st c b'|' [] v known,
    get_or_of_drop_nil w (st.n + 1) 0 (drop_step w st.n v.rest),
  )
