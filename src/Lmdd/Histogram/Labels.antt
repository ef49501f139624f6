-- ===== src/Lmdd/Histogram/Labels.antt =====
-- The counters of a histogram of src/lmdd.c hold the numbers of the times that its lines name.
use qnx_lmbench_mods.Base.{
  ℕ, zero, suc, ◌+◌, ◌-◌, ◌*◌, ◌≤◌, ◌<◌, ◌≡◌, refl, inl, inr, Bool, false, not, ◌&&◌, Option, none,
  some, List, [], ◌∷◌, length, get_or, ltb, tests, ◌==◌, if◌then◌else◌, Bool-cases, ==_iff, ◌∙◌,
  arith, length-set, get_or-set_self, get_or-set_ne,
}
use qnx_lmbench_mods.Base.Int.{ℤ, pos, pos_part, ◌+ℤ◌, ◌-ℤ◌, ◌≤ℤ◌, ltb_ℤ, +ℤ_parts, -ℤ_parts}
use qnx_lmbench_mods.Lmdd.Histogram.{step_of, bucket_from, bucket, count_at, count_time}

abbrev pub excess : (mills min : ℤ) → ℕ
excess mills min = pos_part (mills -ℤ min)

pub ltb_ℤ-excess :
    (k : ℕ) (mills min : ℤ) → min ≤ℤ mills → ltb_ℤ mills (pos k +ℤ min) ≡ ltb (excess mills min) k
ltb_ℤ-excess k mills min h = ground (arith, +ℤ_parts (pos k) min, -ℤ_parts mills min)

-- The first counter whose end is behind `d`, or none: `d` lies behind the last end.
abbrev pub Falls : (left k step d : ℕ) → Option ℕ → Type 0
Falls left k step d none = (left + k) * step ≤ d
Falls left k step d (some zero) = ⊥
Falls left k step d (some (suc j)) = (j < k + left) × (j * step ≤ d) × (d < j * step + step)

Falls-later :
    (left k step d : ℕ) (o : Option ℕ) → Falls left (k + 1) step d o → Falls (suc left) k step d o
Falls-later left k step d none f = let e : suc left + k ≡ left + (k + 1) = omega arith in rw e f
Falls-later left k step d (some zero) f = f
Falls-later left k step d (some (suc j)) f = (omega arith, f.1, f.2)

pub bucket_from-Falls :
    (left k step : ℕ) (mills min : ℤ)
    → min ≤ℤ mills
    → k * step ≤ excess mills min
    → Falls left k step (excess mills min) (bucket_from left (suc k) step mills min)
unfolding bucket_from
bucket_from-Falls zero k step mills min m h = let e : 0 + k ≡ k = omega arith in rw e h
bucket_from-Falls (suc left) k step mills min m h =
    let e : suc k * step ≡ k * step + step = grind arith in
    let test : ltb_ℤ mills (pos (suc k * step) +ℤ min) ≡ ltb (excess mills min) (k * step + step) =
      rw e (ltb_ℤ-excess (k * step + step) mills min m) in
    elim (Bool-cases (ltb (excess mills min) (k * step + step))) [
      | inl b ↦ rw (test, b) (omega arith, h, omega tests)
      | inr b ↦
          let e' : suc k + 1 ≡ suc (k + 1) = omega arith in
          let e'' : (k + 1) * step ≡ k * step + step = grind arith in
          rw (test, b, e')
            (Falls-later left k step (excess mills min)
              (bucket_from left (suc (k + 1)) step mills min)
              (bucket_from-Falls left (k + 1) step mills min m (ground (arith, e''))))
    ]

-- Is the time counted by the counter `i`?
abbrev pub hits : ℕ → Option ℕ → Bool
hits i none = false
hits i (some j) = j == i

abbrev pub number : (ℤ → Bool) → List ℤ → ℕ
number p [] = 0
number p (t ∷ ts) = (if p t then 1 else 0) + number p ts

-- A time of the range that the line of the counter `i` names.
abbrev pub named : (max min : ℤ) → ℕ → ℤ → Bool
named max min i t =
    if i == 0
    then ltb_ℤ t min
    else if i == 11
    then not (ltb_ℤ t max)
    else not (ltb_ℤ t (pos ((i - 1) * step_of max min) +ℤ min))
      && ltb_ℤ t (pos (i * step_of max min) +ℤ min)

-- The times of a run, one after the other.
pub count_times : (max min : ℤ) → List ℤ → List ℕ → List ℕ
count_times max min [] hist = hist
count_times max min (t ∷ ts) hist = count_times max min ts (count_time t max min hist)

length-count_at : (o : Option ℕ) (hist : List ℕ) → length (count_at o hist) ≡ length hist
unfolding count_at
length-count_at none hist = refl
length-count_at (some j) hist = length-set hist j _

get_or-count_at :
    (o : Option ℕ) (hist : List ℕ) (i : ℕ)
    → i < length hist
    → get_or (count_at o hist) i 0 ≡ (if hits i o then 1 else 0) + get_or hist i 0
unfolding count_at
get_or-count_at none hist i h = omega arith
get_or-count_at (some j) hist i h = elim (Bool-cases (j == i)) [
  | inl same ↦
      let e = (==_iff j i).0 same in rw (same, e) (get_or-set_self hist i _ 0 h ∙ omega arith)
  | inr other ↦ rw other (get_or-set_ne hist j i _ 0 (λ (e : j ≡ i). ground arith) ∙ omega arith)
]

pub get_or-count_times :
    (max min : ℤ) (ts : List ℤ) (hist : List ℕ) (i : ℕ)
    → i < length hist
    → get_or (count_times max min ts hist) i 0
      ≡ number (λ t. hits i (bucket t max min)) ts + get_or hist i 0
unfolding count_times count_time
get_or-count_times max min [] hist i h = omega arith
get_or-count_times max min (t ∷ ts) hist i h = omega (
  arith,
  get_or-count_at (bucket t max min) hist i h,
  get_or-count_times max min ts (count_at (bucket t max min) hist) i
      (omega (arith, length-count_at (bucket t max min) hist)),
)
