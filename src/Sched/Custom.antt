-- ===== src/Sched/Custom.antt =====
-- What `custom` of src/lib_sched.c reads from LMBENCH_SCHED.
use qnx_lmbench_mods.Base.{
  ℕ, zero, suc, ◌+◌, ◌-◌, ◌%◌, ◌==◌, get_or, ◌≤◌, ◌≡◌, refl, ap, ◌∙◌, Bool, true, false, none, some,
  List, [], ◌∷◌, ◌++◌, length, length-append, if◌then◌else◌, arith,
}
use mathlib.Core.List.{append-nil, append_assoc}
use qnx_lmbench_mods.Sched.{Str, custom, skip_others, digits, take_value, read_values}

-- A number of the list: other characters, digits, and a character behind them that is no digit.
pub record Entry : Type 0 where
  pub others : Str
  pub first : ℕ
  pub ds : Str
  pub sep : ℕ

-- The text of a list of numbers, before the text `tail`.
unfoldable pub write_entries : List Entry → Str → Str
write_entries [] tail = tail
write_entries (e ∷ es) tail = e.others ++ (e.first ∷ (e.ds ++ (e.sep ∷ write_entries es tail)))

module _ (digit : ℕ → Bool) (scan : Str → ℕ) where
  -- All characters pass, or fail, the test for digits.
  pub data Run (b : Bool) : Str → Type 0 where
    stop : Run b []
    more : {c : ℕ} {s : Str} → digit c ≡ b → Run b s → Run b (c ∷ s)

  skip_others-run :
      (others : Str) (c : ℕ) (s : Str)
      → Run false others
      → digit c ≡ true
      → skip_others digit scan (others ++ (c ∷ s)) ≡ c ∷ s
  unfolding skip_others
  skip_others-run [] c s stop d = rw d
  skip_others-run (o ∷ others) c s (more n h) d = rw n (skip_others-run others c s h d)

  skip_others-all : (others : Str) → Run false others → skip_others digit scan others ≡ []
  unfolding skip_others
  skip_others-all [] stop = refl
  skip_others-all (o ∷ others) (more n h) = rw n (skip_others-all others h)

  digits-run :
      (ds : Str) (sep : ℕ) (s : Str)
      → Run true ds
      → digit sep ≡ false
      → digits digit scan (ds ++ (sep ∷ s)) ≡ (ds, sep ∷ s)
  unfolding digits
  digits-run [] sep s stop n = rw n
  digits-run (c ∷ ds) sep s (more y h) n = rw (y, digits-run ds sep s h n)

  digits-all : (ds : Str) → Run true ds → digits digit scan ds ≡ (ds, [])
  unfolding digits
  digits-all [] stop = refl
  digits-all (c ∷ ds) (more d h) = rw (d, digits-all ds h)

  pub record IsEntry (e : Entry) : Type 0 where
    pub others : Run false e.others
    pub first : digit e.first ≡ true
    pub ds : Run true e.ds
    pub sep : digit e.sep ≡ false

  pub data AllEntries : List Entry → Type 0 where
    no_entry : AllEntries []
    one_more : {e : Entry} {es : List Entry} → IsEntry e → AllEntries es → AllEntries (e ∷ es)

  unfoldable pub numbers : List Entry → List ℕ
  numbers [] = []
  numbers (e ∷ es) = scan (e.first ∷ e.ds) ∷ numbers es

  read_values-entry :
      (fuel : ℕ) (e : Entry) (behind : Str) (values : List ℕ)
      → IsEntry e
      → read_values digit scan
          (suc fuel)
          (e.others ++ (e.first ∷ (e.ds ++ (e.sep ∷ behind))))
          values
        ≡ read_values digit scan fuel behind (values ++ (scan (e.first ∷ e.ds) ∷ []))
  unfolding read_values take_value
  read_values-entry fuel e behind values i =
      let skipped = skip_others-run e.others e.first (e.ds ++ (e.sep ∷ behind)) i.others i.first in
      let taken = digits-run (e.first ∷ e.ds) e.sep behind (more i.first i.ds) i.sep in
      let value : take_value digit scan (e.first ∷ e.ds, e.sep ∷ behind)
          ≡ some (some (scan (e.first ∷ e.ds), behind)) =
        refl in
      rw (ap (take_value digit scan) (ap (digits digit scan) skipped ∙ taken) ∙ value, read_values)

  -- The loop over a text of numbers, one round for each.
  read_values-write_entries :
      (es : List Entry) (fuel : ℕ) (tail : Str) (values : List ℕ)
      → AllEntries es
      → read_values digit scan (length es + fuel) (write_entries es tail) values
        ≡ read_values digit scan fuel tail (values ++ numbers es)
  unfolding write_entries numbers
  read_values-write_entries [] fuel tail values no_entry =
      let z : 0 + fuel ≡ fuel = omega arith in rw (z, append-nil values)
  read_values-write_entries (e ∷ es) fuel tail values (one_more i is) =
      let s : length (e ∷ es) + fuel ≡ suc (length es + fuel) = omega arith in
      rw s (
        read_values-entry (length es + fuel) e (write_entries es tail) values i
        ∙ read_values-write_entries es fuel tail (values ++ (scan (e.first ∷ e.ds) ∷ [])) is
        ∙ ap (read_values digit scan fuel tail)
            (append_assoc values (scan (e.first ∷ e.ds) ∷ []) (numbers es)))

  write_entries-length :
      (es : List Entry) (tail : Str) → length es + length tail ≤ length (write_entries es tail)
  unfolding write_entries
  write_entries-length [] tail = omega arith
  write_entries-length (e ∷ es) tail = omega (
    arith,
    length-append e.others (e.first ∷ (e.ds ++ (e.sep ∷ write_entries es tail))),
    length-append e.ds (e.sep ∷ write_entries es tail),
    write_entries-length es tail,
  )

  read_values-tail :
      (fuel : ℕ) (tail : Str) (values : List ℕ)
      → Run false tail
      → read_values digit scan fuel tail values ≡ some values
  unfolding read_values take_value
  read_values-tail zero tail values h = refl
  read_values-tail (suc fuel) tail values h = rw (skip_others-all tail h, read_values)

  read_values-last :
      (fuel : ℕ) (others : Str) (c : ℕ) (ds : Str) (values : List ℕ)
      → Run false others
      → digit c ≡ true
      → Run true ds
      → read_values digit scan (suc fuel) (others ++ (c ∷ ds)) values ≡ none
  unfolding read_values take_value
  read_values-last fuel others c ds values h d hs =
      let taken = digits-all (c ∷ ds) (more d hs) in
      let value : take_value digit scan (c ∷ ds, []) ≡ none = refl in
      rw (
        ap (take_value digit scan)
              (ap (digits digit scan) (skip_others-run others c ds h d) ∙ taken)
            ∙ value,
        read_values,
      )

  -- The whole loop over a text of numbers and a tail.
  read_values-text :
      (es : List Entry) (tail : Str)
      → AllEntries es
      → read_values digit scan (length (write_entries es tail)) (write_entries es tail) []
        ≡ read_values digit scan (length (write_entries es tail) - length es) tail (numbers es)
  read_values-text es tail is =
      let fuel = length (write_entries es tail) - length es in
      let enough : length (write_entries es tail) ≡ length es + fuel =
        omega (arith, write_entries-length es tail) in
      ap (λ n. read_values digit scan n (write_entries es tail) []) enough
      ∙ read_values-write_entries es fuel tail [] is

  -- The first call of `custom` on a text in which every number is followed by another character reads
  -- exactly these numbers, keeps them for the later calls, and gives the process the one at its number,
  -- over and over; without numbers it gives processor 0. A later call gives the same, whatever its
  -- text.
  pub custom-write_entries :
      (es : List Entry) (tail text : Str) (cpu : ℕ)
      → AllEntries es
      → Run false tail
      → (custom digit scan none (write_entries es tail) cpu
          ≡ some (
            if length (numbers es) == 0
                then 0
                else get_or (numbers es) (cpu % length (numbers es)) 0,
            some (numbers es),
          ))
        × (custom digit scan (some (numbers es)) text cpu
            ≡ custom digit scan none (write_entries es tail) cpu)
  unfolding custom
  custom-write_entries es tail text cpu is h =
      let got =
        read_values-text es tail is
        ∙ read_values-tail (length (write_entries es tail) - length es) tail (numbers es) h in
      (rw (got, custom), rw (got, custom))

  -- If the text ends in a digit, the first call of `custom` steps over the NUL behind it and reads on
  -- behind the string.
  pub custom_overrun :
      (es : List Entry) (others : Str) (c : ℕ) (ds : Str) (cpu : ℕ)
      → AllEntries es
      → Run false others
      → digit c ≡ true
      → Run true ds
      → custom digit scan none (write_entries es (others ++ (c ∷ ds))) cpu ≡ none
  unfolding custom
  custom_overrun es others c ds cpu is h d hs =
      let tail = others ++ (c ∷ ds) in
      let fuel = length (write_entries es tail) - length es in
      let left : fuel ≡ suc (fuel - 1) =
        omega (arith, write_entries-length es tail, length-append others (c ∷ ds)) in
      let got =
        read_values-text es tail is
        ∙ ap (λ n. read_values digit scan n tail (numbers es)) left
        ∙ read_values-last (fuel - 1) others c ds (numbers es) h d hs in
      rw (got, custom)
