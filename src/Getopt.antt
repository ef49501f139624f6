-- ===== src/Getopt.antt =====
-- src/getopt.c: the option parser that every benchmark calls, one option per call.
-- A C string is the list of its bytes without the terminating NUL.
pub mod Steps
pub mod Grammar
pub mod Word
pub mod Loop
pub mod Safety
mod Tests
use qnx_lmbench_mods.Base.{
  ℕ, zero, suc, ◌+◌, ◌≡◌, Bool, true, false, ◌||◌, not, Option, none, some, List, [], ◌∷◌, length,
  get_elem?, get_or, drop, ltb, leb, ◌==◌, if◌then◌else◌,
}

abbrev pub Str : Type 0
Str = List ℕ

-- `optind`, the static `n`, `optarg` (the text that it points to, if any) and `optopt`.
pub record State : Type 0 where
  pub optind : ℕ
  pub n : ℕ
  pub optarg : Option Str
  pub optopt : ℕ

abbrev pub initial : State
initial = record { optind = 0; n = 0; optarg = none; optopt = 0 }

-- The state that the first call puts in place of `initial`.
abbrev pub started : State
started = record initial { optind = 1; n = 1 }

-- What a call comes to: `EOF`, a character (an option letter, or `?` for an error), or a failed
-- `assert` or a read behind the end of a word.
pub data Outcome : Type 0 where
  eof : State → Outcome
  returned : ℕ → State → Outcome
  fault : Outcome

-- `s[i]`, with the NUL at the end.
abbrev pub char_at : Str → ℕ → ℕ
char_at s i = get_or s i 0

-- `for (t = opts; *t; t++) if (*t == c) break;`: the text from the letter on.
pub find_letter : ℕ → Str → Str
find_letter c [] = []
find_letter c (o ∷ t) = if o == c then o ∷ t else find_letter c t

abbrev pub takes_arg : ℕ → Bool
takes_arg k = k == b':' || k == b'|' || k == b';'

-- The next letter of the same word, or the next word.
pub advance : Str → State → State
advance word st =
    if char_at word (st.n + 1) == 0
    then record st { optind = st.optind + 1; n = 1 }
    else record st { n = st.n + 1 }

abbrev pub complain : ℕ → State → Outcome
complain c st = returned b'?' (record st { optopt = c })

-- The option wants an argument of the kind `k`, and is the last letter of its word.
pub separate : List Str → ℕ → ℕ → State → Outcome
separate av c k st =
    if k == b'|'
    then returned c (record st { optarg = none; optind = st.optind + 1; n = 1 })
    else (if k == b';'
        then complain c (record st { optarg = none; optind = st.optind + 1 })
        else (elim (get_elem? av (st.optind + 1)) [
          | none ↦ complain c st
          | some next ↦
              if char_at next 0 == b'-'
              then complain c st
              else returned c (record st { optarg = some next; optind = st.optind + 2; n = 1 })
        ]))

-- What to do with the letter `c`, which `opts` has before the character `k`.
pub legit : List Str → Str → ℕ → ℕ → State → Outcome
unfolding advance separate
legit av word c k st =
    if not (takes_arg k)
    then returned c (advance word st)
    else (if not (char_at word (st.n + 1) == 0)
        then returned c
            (record st { optarg = some (drop (st.n + 1) word); optind = st.optind + 1; n = 1 })
        else separate av c k st)

-- The letter `word[n]`.
pub letter : List Str → Str → Str → State → Outcome
letter av opts word st =
    if leb (length word) st.n
    then fault
    else (let c = char_at word st.n in
        elim (find_letter c opts) [
          | [] ↦ complain c st
          | o ∷ after ↦ legit av word c (char_at after 0) st
        ])

-- `if (!optind) { optind = 1; n = 1; }`
pub begin : State → State
begin st = if st.optind == 0 then record st { optind = 1; n = 1 } else st

-- `getopt(ac, av, opts)`, where `ac` is the length of `av`.
pub getopt : List Str → Str → State → Outcome
unfolding begin letter
getopt av opts st0 =
    let st = begin st0 in
    elim (get_elem? av st.optind) [
      | none ↦ eof st
      | some word ↦
          if not (char_at word 0 == b'-') || char_at word 1 == 0
          then eof st
          else letter av opts word st
    ]

-- `while ((c = getopt(ac, av, opts)) != EOF) …`, as every `main` calls it: the letters with what
-- `optarg` is then, and the state at the end. A `main` leaves the loop at `?`. `none`: out of fuel, or
-- a fault.
pub getopt_loop : ℕ → List Str → Str → State → Option (List (ℕ × Option Str) × State)
unfolding getopt
getopt_loop zero av opts st = none
getopt_loop (suc fuel) av opts st = elim (getopt av opts st) [
  | fault ↦ none
  | eof s ↦ some ([], s)
  | returned c s ↦
      if c == b'?' then some ((c, s.optarg) ∷ [], s) else (elim (getopt_loop fuel av opts s) [
        | none ↦ none
        | some (l, e) ↦ some ((c, s.optarg) ∷ l, e)
      ])
]
