-- ===== src/Getopt/Safety.antt =====
-- Where one call of `getopt` of src/getopt.c leaves the position, and when it reads outside a word.
use qnx_lmbench_mods.Base.{
  ℕ, zero, suc, ◌+◌, ◌<◌, ◌≤◌, ◌≡◌, ◌≢◌, refl, ◌⊎◌, inl, inr, Bool, true, false, Option, none, some,
  List, [], ◌∷◌, length, get_elem?, arith, Bool-cases, Option-cases, ap, subst, ◌∙◌,
}
use qnx_lmbench_mods.Getopt.{
  Str, State, initial, Outcome, eof, returned, fault, char_at, advance, separate, legit, letter,
  begin, getopt,
}
use qnx_lmbench_mods.Getopt.Steps.{
  is_option, kind, getopt-legit, getopt-unknown, getopt-eof, getopt-eof_end,
}

-- `opts` asks for no argument by `;`.
abbrev pub NoSemicolon : Str → Type 0
NoSemicolon opts = (c : ℕ) → kind c opts ≢ some b';'

-- The offset `n` lies inside the word, if options are read from it.
abbrev pub Fits : Option Str → ℕ → Type 0
Fits none n = Unit {0}
Fits (some w) n = is_option w ≡ true → n < length w

-- No call was made yet, or `n` fits the word that is read next.
abbrev pub IsReady : List Str → State → Type 0
IsReady av st = (st.optind ≡ 0) ⊎ ((0 < st.optind) × Fits (get_elem? av st.optind) st.n)

abbrev pub is_fault : Outcome → Bool
is_fault fault = true
is_fault (eof s) = false
is_fault (returned c s) = false

abbrev pub state_of : Outcome → State
state_of fault = initial
state_of (eof s) = s
state_of (returned c s) = s

-- Where a call that reads from `word` leaves the position: at the start of a later word, one letter
-- on in the word, or where it was.
abbrev Moves : Str → State → State → Type 0
Moves word st s =
    ((0 < s.optind) × (s.n ≡ 1))
    ⊎ ((s.optind ≡ st.optind) × (s.n ≡ st.n + 1) × (char_at word (st.n + 1) ≢ 0))
    ⊎ ((s.optind ≡ st.optind) × (s.n ≡ st.n))

Fits-one : (o : Option Str) → Fits o 1
Fits-one none = tt
Fits-one (some []) = λ h. ground arith
Fits-one (some (a ∷ [])) = λ h. ground arith
Fits-one (some (a ∷ b ∷ w)) = λ h. omega arith

lt_of_char_at : (w : Str) (i : ℕ) → char_at w i ≢ 0 → i < length w
lt_of_char_at [] i h = absurd (h refl)
lt_of_char_at (x ∷ w) zero h = omega arith
lt_of_char_at (x ∷ w) (suc i) h = omega (arith, lt_of_char_at w i h)

module _ (av : List Str) (word : Str) (st : State) (at : get_elem? av st.optind ≡ some word) where
  legit-Moves :
      (c k : ℕ)
      → 0 < st.optind
      → k ≢ b';'
      → (is_fault (legit av word c k st) ≡ false) × Moves word st (state_of (legit av word c k st))
  unfolding legit advance separate
  legit-Moves c k pos kk = (ground arith, ground arith)

  Moves-IsReady :
      (s : State)
      → 0 < st.optind
      → Fits (get_elem? av st.optind) st.n
      → Moves word st s
      → IsReady av s
  Moves-IsReady s pos fits (inl (p, one)) = inr (p, rw one (Fits-one (get_elem? av s.optind)))
  Moves-IsReady s pos fits (inr (inl (same, next, more))) =
      inr (rw same pos, rw (same, at, next) (λ h. lt_of_char_at word (st.n + 1) more))
  Moves-IsReady s pos fits (inr (inr (same, stay))) = inr (rw same pos, rw (same, stay) fits)

  getopt-Moves :
      (opts : Str)
      → NoSemicolon opts
      → 0 < st.optind
      → is_option word ≡ true
      → st.n < length word
      → (is_fault (getopt av opts st) ≡ false) × Moves word st (state_of (getopt av opts st))
  getopt-Moves opts none_semi pos opt inside = elim (Option-cases (kind (char_at word st.n) opts)) [
    | inl unknown ↦
        rw (getopt-unknown av opts word st pos at opt inside unknown) (refl, inr (inr (refl, refl)))
    | inr (k, known) ↦ rw (getopt-legit av opts word st k pos at opt inside known) (
        legit-Moves (char_at word st.n) k pos
          (λ e. none_semi (char_at word st.n) (known ∙ ap some e)))
  ]

getopt-started :
    (av : List Str) (opts : Str) (st : State)
    → st.optind ≡ 0
    → getopt av opts st ≡ getopt av opts (record st { optind = 1; n = 1 })
unfolding getopt begin
getopt-started av opts st e = ground arith

getopt-IsReady_pos :
    (av : List Str) (opts : Str) (st : State)
    → NoSemicolon opts
    → 0 < st.optind
    → Fits (get_elem? av st.optind) st.n
    → (is_fault (getopt av opts st) ≡ false) × IsReady av (state_of (getopt av opts st))
getopt-IsReady_pos av opts st ns pos fits = elim (Option-cases (get_elem? av st.optind)) [
  | inl end ↦ rw (getopt-eof_end av opts [] st pos end) (refl, inr (pos, fits))
  | inr (w, at) ↦ elim (Bool-cases (is_option w)) [
    | inl opt ↦
        let inside : st.n < length w = (subst (λ o. Fits o st.n) at fits) opt in
        let (safe, moves) = getopt-Moves av w st at opts ns pos opt inside in
        (safe, Moves-IsReady av w st at (state_of (getopt av opts st)) pos fits moves)
    | inr plain ↦ rw (getopt-eof av opts w st pos at plain) (refl, inr (pos, fits))
  ]
]

-- If `opts` asks for no argument by `;`, a call from a position that fits its word neither fails the
-- `assert` nor reads outside a word, and leaves a position that fits: the first call and all calls
-- after it are safe.
pub getopt-IsReady :
    (av : List Str) (opts : Str) (st : State)
    → NoSemicolon opts
    → IsReady av st
    → (is_fault (getopt av opts st) ≡ false) × IsReady av (state_of (getopt av opts st))
getopt-IsReady av opts st ns (inr (pos, fits)) = getopt-IsReady_pos av opts st ns pos fits
getopt-IsReady av opts st ns (inl e) = rw (getopt-started av opts st e) (
    getopt-IsReady_pos av opts (record st { optind = 1; n = 1 }) ns (omega arith)
      (Fits-one (get_elem? av 1)))

module _ (av : List Str) (opts : Str) (st : State) where
  -- A missing `;` argument leaves `n` as it was: where the letter stood third or later in its word and
  -- the next word is an option no longer than that, the call after the error reads outside the word.
  pub getopt_stale_n :
      (word next : Str)
      → 0 < st.optind
      → get_elem? av st.optind ≡ some word
      → is_option word ≡ true
      → st.n < length word
      → kind (char_at word st.n) opts ≡ some b';'
      → char_at word (st.n + 1) ≡ 0
      → get_elem? av (st.optind + 1) ≡ some next
      → is_option next ≡ true
      → length next ≤ st.n
      → (s : State) × (getopt av opts st ≡ returned b'?' s) × (getopt av opts s ≡ fault)
  unfolding legit separate getopt begin letter
  getopt_stale_n word next pos at opt inside known last at' opt' short =
      let s : State = record st {
        optarg = none;
        optind = st.optind + 1;
        optopt = char_at word st.n;
      } in
      (s, getopt-legit av opts word st b';' pos at opt inside known ∙ ground arith, ground arith)

  -- A letter that `opts` does not list, in the middle of the words, is returned as `?` by this call,
  -- by the next one and so on: the state of the first call is the state of every later call, and a
  -- loop that goes on after `?` never ends.
  pub getopt-unknown_repeats :
      (word : Str)
      → 0 < st.optind
      → get_elem? av st.optind ≡ some word
      → is_option word ≡ true
      → st.n < length word
      → kind (char_at word st.n) opts ≡ none
      → (s : State) × (getopt av opts st ≡ returned b'?' s)
        × (s.optopt ≡ char_at word st.n)
        × (getopt av opts s ≡ returned b'?' s)
  getopt-unknown_repeats word pos at opt inside unknown =
      let s : State = record st { optopt = char_at word st.n } in
      (
        s,
        getopt-unknown av opts word st pos at opt inside unknown,
        refl,
        getopt-unknown av opts word s pos at opt inside unknown,
      )
