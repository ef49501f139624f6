-- ===== src/Getopt/Grammar.antt =====
-- The command lines that the header of src/getopt.c lists, and what they say.
use qnx_lmbench_mods.Base.{
  ℕ, suc, ◌+◌, ◌≡◌, ◌≢◌, true, false, Option, none, some, List, [], ◌∷◌, ◌++◌, length,
}
use qnx_lmbench_mods.Getopt.{Str, State, char_at, takes_arg}
use qnx_lmbench_mods.Getopt.Steps.{is_option, kind}

-- The last option of a word, with its argument.
pub data Ending : Type 0 where
  plain : Ending
  attached : ℕ → Str → Ending
  apart : ℕ → Str → Ending
  bare : ℕ → Ending

-- `-abc`, `-abcr<arg>`, `-abcr <arg>`, and `-abcr` where the argument may be left out.
pub record Item : Type 0 where
  pub flags : Str
  pub last : Ending

abbrev pub ending_letters : Ending → Str
ending_letters plain = []
ending_letters (attached c a) = c ∷ a
ending_letters (apart c a) = c ∷ []
ending_letters (bare c) = c ∷ []

abbrev pub ending_words : Ending → List Str → List Str
ending_words (apart c a) ws = a ∷ ws
ending_words _ ws = ws

-- The command line: the words of the items, then what follows them.
abbrev pub write_items : List Item → List Str → List Str
write_items [] ws = ws
write_items (item ∷ items) ws =
    (b'-' ∷ (item.flags ++ ending_letters item.last))
    ∷ ending_words item.last (write_items items ws)

abbrev pub Options : Type 0
Options = List (ℕ × Option Str)

abbrev pub flag_options : Option Str → Str → Options → Options
flag_options cur [] rest = rest
flag_options cur (c ∷ cs) rest = (c, cur) ∷ flag_options cur cs rest

abbrev pub ending_option : Ending → Options → Options
ending_option plain rest = rest
ending_option (attached c a) rest = (c, some a) ∷ rest
ending_option (apart c a) rest = (c, some a) ∷ rest
ending_option (bare c) rest = (c, none) ∷ rest

abbrev pub ending_optarg : Option Str → Ending → Option Str
ending_optarg cur plain = cur
ending_optarg cur (attached c a) = some a
ending_optarg cur (apart c a) = some a
ending_optarg cur (bare c) = none

-- What the items say: each letter with `optarg`, which a letter without an argument leaves alone.
abbrev pub options : Option Str → List Item → Options
options cur [] = []
options cur (item ∷ items) =
    flag_options cur item.flags
      (ending_option item.last (options (ending_optarg cur item.last) items))

-- The letters are listed in `opts` as their use asks for, and an argument has a first letter.
module _ (opts : Str) where
  abbrev pub IsFlag : ℕ → Type 0
  IsFlag c = (k : ℕ) × (kind c opts ≡ some k) × (takes_arg k ≡ false) × (c ≢ 0) × (c ≢ b'?')

  abbrev pub AllFlags : Str → Type 0
  AllFlags [] = Unit
  AllFlags (c ∷ cs) = IsFlag c × AllFlags cs

  abbrev pub IsEnding : Str → Ending → Type 0
  IsEnding flags plain = flags ≢ []
  IsEnding flags (attached c a) =
      (k : ℕ) × (kind c opts ≡ some k)
      × (takes_arg k ≡ true)
      × (char_at a 0 ≢ 0)
      × (c ≢ 0)
      × (c ≢ b'?')
  IsEnding flags (apart c a) =
      (kind c opts ≡ some b':') × (char_at a 0 ≢ b'-') × (c ≢ 0) × (c ≢ b'?')
  IsEnding flags (bare c) = (kind c opts ≡ some b'|') × (c ≢ 0) × (c ≢ b'?')

  abbrev pub AllItems : List Item → Type 0
  AllItems [] = Unit
  AllItems (item ∷ items) = AllFlags item.flags × IsEnding item.flags item.last × AllItems items

-- No option stands at the head of the words.
abbrev pub EndsOptions : List Str → Type 0
EndsOptions [] = Unit
EndsOptions (w ∷ ws) = is_option w ≡ false

abbrev pub after_ending : State → Ending → State
after_ending st (apart c a) = record st { optarg = some a; optind = st.optind + 2; n = 1 }
after_ending st (attached c a) = record st { optarg = some a; optind = st.optind + 1; n = 1 }
after_ending st (bare c) = record st { optarg = none; optind = st.optind + 1; n = 1 }
after_ending st plain = record st { optind = st.optind + 1; n = 1 }

-- The state behind the items.
abbrev pub after_items : State → List Item → State
after_items st [] = st
after_items st (item ∷ items) = after_items (after_ending st item.last) items

abbrev pub count_ending : Ending → ℕ → ℕ
count_ending plain m = m
count_ending _ m = suc m

-- How many letters the items have.
abbrev pub count_letters : List Item → ℕ
count_letters [] = 0
count_letters (item ∷ items) = length item.flags + count_ending item.last (count_letters items)

abbrev pub word_of : Str → Ending → Str
word_of flags last = b'-' ∷ (flags ++ ending_letters last)
