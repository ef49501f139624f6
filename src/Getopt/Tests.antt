-- ===== src/Getopt/Tests.antt =====
-- Runs of `getopt`, and the theorems at concrete inputs.
use Prim.Native.Char.{code}
use Prim.Native.String.{String}
use qnx_lmbench_mods.Base.{◌≡◌, refl, inl, false, none, some, List, [], ◌∷◌, arith}
use qnx_lmbench_mods.Getopt.{
  Str, State, initial, started, returned, fault, char_at, find_letter, legit, getopt, getopt_loop,
}
use qnx_lmbench_mods.Getopt.Steps.{kind}
use qnx_lmbench_mods.Getopt.Grammar.{
  Item, plain, attached, apart, bare, write_items, options, after_items, AllItems,
}
use qnx_lmbench_mods.Getopt.Loop.{getopt_loop-write_items}
use qnx_lmbench_mods.Getopt.Safety.{
  NoSemicolon, IsReady, is_fault, state_of, getopt-IsReady, getopt_stale_n, getopt-unknown_repeats,
}

abbrev codes : String → Str
codes String.[] = []
codes (String.◌∷◌ c s) = code c ∷ codes s

-- `lat_mem_rd`'s kind of options, with an optional and a mandatory adjacent argument besides.
abbrev opts : Str
opts = codes "tvP:y|"

abbrev items : List Item
items =
    record { flags = codes "tv"; last = apart b'P' (codes "4") }
    ∷ record { flags = []; last = attached b'P' (codes "16") }
    ∷ record { flags = codes "v"; last = plain }
    ∷ record { flags = []; last = bare b'y' }
    ∷ []

abbrev words : List Str
words = codes "lat" ∷ write_items items (codes "64" ∷ [])

words-line :
    words
    ≡ codes "lat"
      ∷ codes "-tvP"
      ∷ codes "4"
      ∷ codes "-P16"
      ∷ codes "-v"
      ∷ codes "-y"
      ∷ codes "64"
      ∷ []
words-line = refl

loop_runs :
    getopt_loop 10 words opts initial
    ≡ some (
      (b't', none)
          ∷ (b'v', none)
          ∷ (b'P', some (codes "4"))
          ∷ (b'P', some (codes "16"))
          ∷ (b'v', some (codes "16"))
          ∷ (b'y', none)
          ∷ [],
      record { optind = 6; n = 1; optarg = none; optopt = 0 },
    )
unfolding getopt_loop getopt find_letter legit
loop_runs = refl

items-AllItems : AllItems opts items
unfolding kind find_letter
items-AllItems = (
  (
    (b'v', refl, refl, omega arith, omega arith),
    ((b'P', refl, refl, omega arith, omega arith), tt),
  ),
  (refl, omega arith, omega arith, omega arith),
  (
    tt,
    (b':', refl, refl, omega arith, omega arith, omega arith),
    (
      ((b'P', refl, refl, omega arith, omega arith), tt),
      ground arith,
      (tt, (refl, omega arith, omega arith), tt),
    ),
  ),
)

getopt_loop-write_items_example :
    getopt_loop 9 words opts initial ≡ some (options none items, after_items started items)
getopt_loop-write_items_example =
    getopt_loop-write_items opts (codes "lat") items (codes "64" ∷ []) 9 items-AllItems refl
      (omega arith)

opts-NoSemicolon : NoSemicolon opts
unfolding kind find_letter
opts-NoSemicolon c = ground arith

getopt-IsReady_example :
    (is_fault (getopt words opts initial) ≡ false)
    × IsReady words (state_of (getopt words opts initial))
getopt-IsReady_example = getopt-IsReady words opts initial opts-NoSemicolon (inl refl)

-- `d;` wants its argument adjacent; the second call reads letter 3 of `-a`.
abbrev semi : Str
semi = codes "abd;"

abbrev semi_words : List Str
semi_words = codes "x" ∷ codes "-abd" ∷ codes "-a" ∷ []

abbrev at_d : State
at_d = record { optind = 1; n = 3; optarg = none; optopt = 0 }

two_calls :
    getopt_loop 4 semi_words semi initial
    ≡ some (
      (b'a', none) ∷ (b'b', none) ∷ (b'?', none) ∷ [],
      record { optind = 2; n = 3; optarg = none; optopt = b'd' },
    )
unfolding getopt_loop getopt find_letter legit
two_calls = refl

getopt_stale_n_example :
    (s : State) × (getopt semi_words semi at_d ≡ returned b'?' s)
    × (getopt semi_words semi s ≡ fault)
unfolding kind find_letter
getopt_stale_n_example =
    getopt_stale_n semi_words semi at_d (codes "-abd") (codes "-a") (omega arith) refl refl
      (omega arith) refl refl refl refl (omega arith)

getopt-unknown_repeats_example :
    (s : State) × (getopt semi_words opts at_d ≡ returned b'?' s)
    × (s.optopt ≡ char_at (codes "-abd") at_d.n)
    × (getopt semi_words opts s ≡ returned b'?' s)
unfolding kind find_letter
getopt-unknown_repeats_example =
    getopt-unknown_repeats semi_words opts at_d (codes "-abd") (omega arith) refl refl (omega arith)
      refl
