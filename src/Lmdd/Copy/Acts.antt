-- ===== src/Lmdd/Copy/Acts.antt =====
-- The rounds and the acts of a copy of src/lmdd.c, and how its count and its buffers go on.
use qnx_lmbench_mods.Base.{
  ℕ, suc, ◌+◌, ◌-◌, ◌/◌, ◌%◌, ◌≤◌, ◌<◌, ◌≡◌, refl, ap, ◌⊎◌, Bool, true, false, ◌&&◌, List, [], ◌∷◌,
  ◌++◌, ◌==◌, if◌then◌else◌, Bool-cases, arith, inl, inr,
}
use mathlib.Core.List.{append_assoc}
use qnx_lmbench_mods.Base.Int.{ℤ, pos, negsuc, pos_part, ltb_ℤ}
use qnx_lmbench_mods.Clock.{u64}
use qnx_lmbench_mods.Lmdd.Settings.{Settings, given_int}
use qnx_lmbench_mods.Lmdd.Pattern.{Buffer, is_zero}
use qnx_lmbench_mods.Lmdd.Offsets.{eq_ℤ}
use qnx_lmbench_mods.Lmdd.Copy.{
  State, Round, Act, seek, read, restart, report, wait, fork, write, sleep, Outcome, after,
}
use qnx_lmbench_mods.Lmdd.Copy.Plain.{touched, naps}

abbrev pub size : Round → ℕ
size r = pos_part r.moved

-- Each round reads something, and writes all of it.
abbrev pub AllMoved : List Round → Type 0
AllMoved [] = Unit
AllMoved (r ∷ rs) = ((n : ℕ) × (r.moved ≡ pos (suc n)) × (r.moved2 ≡ pos (suc n))) × AllMoved rs

abbrev pub total : List Round → ℕ
total [] = 0
total (r ∷ rs) = size r + total rs

abbrev pub words : List Round → ℕ
words [] = 0
words (r ∷ rs) = size r / 4 + words rs

-- What is written, of all that is done.
abbrev pub writes : List Act → List Act
writes [] = []
writes (seek fd off ∷ acts) = writes acts
writes (read fd n ∷ acts) = writes acts
writes (restart ∷ acts) = writes acts
writes (report m ∷ acts) = writes acts
writes (wait pid ∷ acts) = writes acts
writes (fork ∷ acts) = writes acts
writes (write fd b n ∷ acts) = write fd b n ∷ writes acts
writes (sleep n ∷ acts) = writes acts

-- The state is one in which a round can start.
pub record IsGoing (s : Settings) (st : State) : Type 0 where
  pub buffer : ltb_ℤ (pos st.nextbuf) s.nbufs ≡ true
  pub padded : is_zero st.pad_in ≡ true
  pub off_small : st.off < u64
  pub int_count_small : st.int_count < u64
  pub count_small : st.count < u64

pub next_buffer :
    (nbufs : ℤ) (i : ℕ)
    → ltb_ℤ (pos i) nbufs ≡ true
    → ltb_ℤ (pos (if eq_ℤ (pos (i + 1)) nbufs then 0 else i + 1)) nbufs ≡ true
next_buffer (pos n) i h = ground arith
next_buffer (negsuc n) i h = ground arith

pub next_count :
    (gotcnt : Bool) (n : ℕ) → n < u64 → (if gotcnt then (n + u64 - 1) % u64 else n) < u64
next_count true n h = omega arith
next_count false n h = h

pub counted_down_one :
    (gotcnt : Bool) (n : ℕ)
    → gotcnt ≡ true
    → 0 < n
    → n < u64
    → (if gotcnt then (n + u64 - 1) % u64 else n) + 1 ≡ n
counted_down_one true n c h k = omega arith
counted_down_one false n c h k = cc

-- No end by the count, now and in the next round.
pub goes_on_now :
    (gotcnt : Bool) (n k : ℕ) → (gotcnt ≡ false) ⊎ (suc k ≤ n) → (gotcnt && n == 0) ≡ false
goes_on_now true n k (inl e) = cc
goes_on_now true n k (inr h) = ground arith
goes_on_now false n k h = refl

pub goes_on_next :
    (gotcnt : Bool) (n k : ℕ)
    → (gotcnt ≡ false) ⊎ (suc k ≤ n)
    → n < u64
    → (gotcnt ≡ false) ⊎ (k ≤ (if gotcnt then (n + u64 - 1) % u64 else n))
goes_on_next true n k (inl e) h = cc
goes_on_next true n k (inr e) h = inr (omega arith)
goes_on_next false n k e h = inl refl

pub after-append : (a b : List Act) (o : Outcome) → after (a ++ b) o ≡ after a (after b o)
after-append a b (later, e) = ap (λ (l : List Act). (l, e)) (append_assoc a b later)

pub writes-append : (a b : List Act) → writes (a ++ b) ≡ writes a ++ writes b
writes-append [] b = refl
writes-append (seek fd off ∷ a) b = writes-append a b
writes-append (read fd n ∷ a) b = writes-append a b
writes-append (restart ∷ a) b = writes-append a b
writes-append (report m ∷ a) b = writes-append a b
writes-append (wait pid ∷ a) b = writes-append a b
writes-append (fork ∷ a) b = writes-append a b
writes-append (write fd c n ∷ a) b = ap (λ (l : List Act). write fd c n ∷ l) (writes-append a b)
writes-append (sleep n ∷ a) b = writes-append a b

pub writes-naps : (s : Settings) (l : List Act) → writes (naps s ++ l) ≡ writes l
writes-naps s l = elim (Bool-cases (given_int s.slp)) [ inl e ↦ rw e refl | inr e ↦ rw e refl ]

pub written_block :
    (s : Settings) (m i : ℕ) (block : Buffer) (bufs : ℕ → Buffer)
    → (let kept = if i == i then block else bufs i in if i == i then touched s m kept else kept)
      ≡ touched s m block
written_block s m i block bufs = let same : (i == i) ≡ true = ground arith in rw same refl
