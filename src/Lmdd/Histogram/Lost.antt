-- ===== src/Lmdd/Histogram/Lost.antt =====
-- The times that no counter of a histogram of src/lmdd.c takes.
use qnx_lmbench_mods.Base.{
  ℕ, zero, suc, ◌+◌, ◌*◌, ◌≤◌, ◌≡◌, refl, ◌∙◌, inl, inr, Bool, true, false, not, ◌&&◌, Option, none,
  some, List, [], ◌∷◌, ◌++◌, length, get_or, ltb, leb, ◌==◌, if◌then◌else◌, Bool-cases, ==_iff,
  arith,
}
use qnx_lmbench_mods.Base.Int.{ℤ, pos, ◌+ℤ◌, ◌≤ℤ◌, ltb_ℤ, +ℤ_parts}
use qnx_lmbench_mods.Lmdd.Histogram.{
  Line, below, within, from, step_of, bucket, lines_from, print_lines,
}
use qnx_lmbench_mods.Lmdd.Histogram.Labels.{excess, ltb_ℤ-excess, Falls, hits, number}
use qnx_lmbench_mods.Lmdd.Histogram.Named.{
  bucket-Falls, bucket_below, bucket_above, Bucket-cases, mul_le,
}
use qnx_lmbench_mods.Lmdd.Histogram.Printed.{run, get_or-run}

abbrev pub total : List Line → ℕ
total [] = 0
total (below min n ∷ ls) = n + total ls
total (within first last n ∷ ls) = n + total ls
total (from max n ∷ ls) = n + total ls

-- A time behind the tenth of ten equal steps, and below the maximum.
abbrev pub in_gap : (max min t : ℤ) → Bool
in_gap max min t = not (ltb_ℤ t (pos (10 * step_of max min) +ℤ min)) && ltb_ℤ t max

abbrev sum_counters : (left i : ℕ) → List ℕ → ℕ
sum_counters zero i hist = 0
sum_counters (suc left) i hist = get_or hist i 0 + sum_counters left (i + 1) hist

total-append : (ls ms : List Line) → total (ls ++ ms) ≡ total ls + total ms
total-append [] ms = omega arith
total-append (below min n ∷ ls) ms = omega (arith, total-append ls ms)
total-append (within first last n ∷ ls) ms = omega (arith, total-append ls ms)
total-append (from max n ∷ ls) ms = omega (arith, total-append ls ms)

total-lines_from :
    (left i step : ℕ) (size : ℤ) (hist : List ℕ)
    → total (lines_from left i step size hist) ≡ sum_counters left i hist
unfolding lines_from
total-lines_from zero i step size hist = refl
total-lines_from (suc left) i step size hist =
    let rest = total-lines_from left (i + 1) step (size +ℤ pos step) hist in
    elim (Bool-cases (get_or hist i 0 == 0)) [
      | inl e ↦ rw e (omega (arith, (==_iff (get_or hist i 0) 0).0 e, rest))
      | inr e ↦ rw e (omega (arith, rest))
    ]

total-print_lines :
    (max min : ℤ) (hist : List ℕ) → total (print_lines max min hist) ≡ sum_counters 12 0 hist
unfolding print_lines
total-print_lines max min hist =
    let middle = total-lines_from 10 1 (step_of max min) min hist in
    let last = if get_or hist 11 0 == 0 then [] else from max (get_or hist 11 0) ∷ [] in
    let joined = total-append (lines_from 10 1 (step_of max min) min hist) last in
    let final : total last ≡ get_or hist 11 0 = ground arith in
    elim (Bool-cases (get_or hist 0 0 == 0)) [
      | inl e ↦ rw e (omega (arith, (==_iff (get_or hist 0 0) 0).0 e, joined, middle, final))
      | inr e ↦ rw e (omega (arith, joined, middle, final))
    ]

-- How many of the counters from `i` on take the time.
abbrev sum_hits : (left i : ℕ) → Option ℕ → ℕ
sum_hits zero i o = 0
sum_hits (suc left) i o = (if hits i o then 1 else 0) + sum_hits left (i + 1) o

sum_hits-none : (left i : ℕ) → sum_hits left i none ≡ 0
sum_hits-none zero i = refl
sum_hits-none (suc left) i = omega (arith, sum_hits-none left (i + 1))

sum_hits-some :
    (left i j : ℕ) → sum_hits left i (some j) ≡ (if leb i j && ltb j (i + left) then 1 else 0)
sum_hits-some zero i j = ground arith
sum_hits-some (suc left) i j = ground (arith, sum_hits-some left (i + 1) j)

abbrev sum_numbers : (max min : ℤ) (left i : ℕ) → List ℤ → ℕ
sum_numbers max min zero i ts = 0
sum_numbers max min (suc left) i ts =
    number (λ t. hits i (bucket t max min)) ts + sum_numbers max min left (i + 1) ts

sum_numbers-nil : (max min : ℤ) (left i : ℕ) → sum_numbers max min left i [] ≡ 0
sum_numbers-nil max min zero i = refl
sum_numbers-nil max min (suc left) i = omega (arith, sum_numbers-nil max min left (i + 1))

sum_numbers-cons :
    (max min : ℤ) (left i : ℕ) (t : ℤ) (ts : List ℤ)
    → sum_numbers max min left i (t ∷ ts)
      ≡ sum_hits left i (bucket t max min) + sum_numbers max min left i ts
sum_numbers-cons max min zero i t ts = omega arith
sum_numbers-cons max min (suc left) i t ts =
    omega (arith, sum_numbers-cons max min left (i + 1) t ts)

sum_counters-run :
    (max min : ℤ) (left i : ℕ) (ts : List ℤ)
    → i + left ≤ 12
    → sum_counters left i (run max min ts) ≡ sum_numbers max min left i ts
sum_counters-run max min zero i ts h = refl
sum_counters-run max min (suc left) i ts h = omega (
  arith,
  get_or-run max min ts i (omega arith),
  sum_counters-run max min left (i + 1) ts (omega arith),
)

module _ (max min : ℤ) (ordered : min ≤ℤ max) where
  Falls-once :
      (t : ℤ) (o : Option ℕ)
      → min ≤ℤ t
      → ltb_ℤ t max ≡ true
      → Falls 10 0 (step_of max min) (excess t min) o
      → sum_hits 12 0 o + (if in_gap max min t then 1 else 0) ≡ 1
  Falls-once t none h a f =
      let test = ltb_ℤ-excess (10 * step_of max min) t min h in
      let behind : ltb (excess t min) (10 * step_of max min) ≡ false = ground arith in
      rw (sum_hits-none 12 0, test, behind, a) refl
  Falls-once t (some zero) h a f = absurd f
  Falls-once t (some (suc j)) h a f =
      let test = ltb_ℤ-excess (10 * step_of max min) t min h in
      let e : suc j * step_of max min ≡ j * step_of max min + step_of max min = grind arith in
      let inside : ltb (excess t min) (10 * step_of max min) ≡ true =
        ground (arith, mul_le (suc j) 10 (step_of max min) (f.0)) in
      let once : sum_hits 12 0 (some (suc j)) ≡ 1 =
        sum_hits-some 12 0 (suc j) ∙ ground (arith, f.0) in
      rw (test, inside) (omega (arith, once))

  -- A time is counted once, or lies in the gap.
  counted_once :
      (t : ℤ) → sum_hits 12 0 (bucket t max min) + (if in_gap max min t then 1 else 0) ≡ 1
  counted_once t = elim (Bucket-cases t max min ordered) [
    | inl b ↦
        rw (bucket_below t max min ordered b)
          (ground (arith, +ℤ_parts (pos (10 * step_of max min)) min))
    | inr (inl a) ↦ rw (bucket_above t max min ordered a) (ground arith)
    | inr (inr (b, a)) ↦
        Falls-once t (bucket t max min) (ground arith) a (bucket-Falls t max min a b)
  ]

  sum_numbers-length :
      (ts : List ℤ) → sum_numbers max min 12 0 ts + number (in_gap max min) ts ≡ length ts
  sum_numbers-length [] = omega (arith, sum_numbers-nil max min 12 0)
  sum_numbers-length (t ∷ ts) =
      omega (arith, sum_numbers-cons max min 12 0 t ts, counted_once t, sum_numbers-length ts)

  -- The printed numbers add up to the number of the times of the run, less those that lie behind the
  -- tenth step and below the maximum: these are counted nowhere.
  pub histogram_loses :
      (ts : List ℤ)
      → total (print_lines max min (run max min ts)) + number (in_gap max min) ts ≡ length ts
  histogram_loses ts = omega (
    arith,
    total-print_lines max min (run max min ts),
    sum_counters-run max min 12 0 ts (omega arith),
    sum_numbers-length ts,
  )
