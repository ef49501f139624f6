-- ===== src/Getopt/Steps.antt =====
-- One call of `getopt` of src/getopt.c.
use qnx_lmbench_mods.Base.{
  ℕ, ◌<◌, ◌≡◌, Bool, true, false, not, ◌&&◌, Option, none, some, List, [], ◌∷◌, length, get_elem?,
  arith, ◌==◌,
}
use qnx_lmbench_mods.Getopt.{
  Str, State, eof, char_at, find_letter, complain, legit, letter, begin, getopt,
}

-- The word starts with `-` and is not `-` alone.
abbrev pub is_option : Str → Bool
is_option w = (char_at w 0 == b'-') && not (char_at w 1 == 0)

-- The character behind the letter `c` in `opts`, if `opts` has the letter.
unfoldable pub kind : ℕ → Str → Option ℕ
kind c opts = elim (find_letter c opts) [ [] ↦ none | o ∷ after ↦ some (char_at after 0) ]

module _ (av : List Str) (opts word : Str) (st : State) where
  -- In the middle of a word that holds options, `getopt` does what its letter asks for.
  pub getopt-legit :
      (k : ℕ)
      → 0 < st.optind
      → get_elem? av st.optind ≡ some word
      → is_option word ≡ true
      → st.n < length word
      → kind (char_at word st.n) opts ≡ some k
      → getopt av opts st ≡ legit av word (char_at word st.n) k st
  unfolding getopt kind begin letter
  getopt-legit k pos at opt inside known = ground arith

  -- A letter that `opts` does not list is reported through `optopt`, and the position stays: the
  -- next call reports it again.
  pub getopt-unknown :
      0 < st.optind
      → get_elem? av st.optind ≡ some word
      → is_option word ≡ true
      → st.n < length word
      → kind (char_at word st.n) opts ≡ none
      → getopt av opts st ≡ complain (char_at word st.n) st
  unfolding getopt kind begin letter
  getopt-unknown pos at opt inside unknown = ground arith

  -- At the end of the words, and at a word that is no option, the state stays as it is.
  pub getopt-eof :
      0 < st.optind
      → get_elem? av st.optind ≡ some word
      → is_option word ≡ false
      → getopt av opts st ≡ eof st
  unfolding getopt begin
  getopt-eof pos at opt = ground arith

  pub getopt-eof_end : 0 < st.optind → get_elem? av st.optind ≡ none → getopt av opts st ≡ eof st
  unfolding getopt begin
  getopt-eof_end pos at = ground arith
