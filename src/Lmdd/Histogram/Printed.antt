-- ===== src/Lmdd/Histogram/Printed.antt =====
-- The histogram that src/lmdd.c prints at its end, against the times of the run.
use qnx_lmbench_mods.Base.{
  ℕ, zero, suc, ◌+◌, ◌*◌, ◌≤◌, ◌<◌, ◌≡◌, refl, sym, ap, subst, ◌∙◌, inl, inr, Bool, not, ◌&&◌, List,
  [], ◌∷◌, ◌++◌, get_or, replicate, ◌==◌, if◌then◌else◌, Bool-cases, arith,
}
use qnx_lmbench_mods.Base.Int.{ℤ, pos, ◌+ℤ◌, ◌-ℤ◌, ◌≤ℤ◌, ltb_ℤ, +ℤ_parts, -ℤ_parts, eq_of_parts}
use qnx_lmbench_mods.Lmdd.Histogram.{
  Line, below, within, from, step_of, bucket, lines_from, print_lines,
}
use qnx_lmbench_mods.Lmdd.Histogram.Labels.{hits, number, named, count_times, get_or-count_times}
use qnx_lmbench_mods.Lmdd.Histogram.Named.{named-suc, hits-bucket}

-- The line gives the number of the times that lie in its range.
abbrev pub IsTrue : List ℤ → Line → Type 0
IsTrue ts (below min n) = number (λ t. ltb_ℤ t min) ts ≡ n
IsTrue ts (within first last n) = number (λ t. not (ltb_ℤ t first) && not (ltb_ℤ last t)) ts ≡ n
IsTrue ts (from max n) = number (λ t. not (ltb_ℤ t max)) ts ≡ n

abbrev pub AllTrue : List ℤ → List Line → Type 0
AllTrue ts [] = Unit
AllTrue ts (l ∷ ls) = IsTrue ts l × AllTrue ts ls

abbrev pub run : (max min : ℤ) → List ℤ → List ℕ
run max min ts = count_times max min ts (replicate 12 0)

number_ext : {p q : ℤ → Bool} (ts : List ℤ) → ((t : ℤ) → p t ≡ q t) → number p ts ≡ number q ts
number_ext [] h = refl
number_ext {p} {q} (t ∷ ts) h = rw (h t, number_ext {p = p} {q = q} ts h) refl

AllTrue-append :
    (ts : List ℤ) (ls ms : List Line) → AllTrue ts ls → AllTrue ts ms → AllTrue ts (ls ++ ms)
AllTrue-append ts [] ms h k = k
AllTrue-append ts (l ∷ ls) ms h k = (h.0, AllTrue-append ts ls ms h.1 k)

get_or-replicate : (n i : ℕ) → get_or {A = ℕ} (replicate n 0) i 0 ≡ 0
get_or-replicate zero i = refl
get_or-replicate (suc n) zero = refl
get_or-replicate (suc n) (suc i) = get_or-replicate n i

pub get_or-run :
    (max min : ℤ) (ts : List ℤ) (i : ℕ)
    → i < 12
    → get_or (run max min ts) i 0 ≡ number (λ t. hits i (bucket t max min)) ts
get_or-run max min ts i h =
    get_or-count_times max min ts (replicate 12 0) i h ∙ omega (arith, get_or-replicate 12 i)

module _ (max min : ℤ) (ordered : min ≤ℤ max) (ts : List ℤ) where
  -- A counter holds the number of the times that its line names.
  counter : (i : ℕ) → i < 12 → get_or (run max min ts) i 0 ≡ number (named max min i) ts
  counter i h = get_or-run max min ts i h ∙ number_ext ts (λ t. hits-bucket t max min i ordered h)

  abbrev size_at : ℕ → ℤ
  size_at k = pos (k * step_of max min) +ℤ min

  size_at-suc : (k : ℕ) → size_at k +ℤ pos (step_of max min) ≡ size_at (suc k)
  size_at-suc k =
      let e : suc k * step_of max min ≡ k * step_of max min + step_of max min = grind arith in
      eq_of_parts (size_at k +ℤ pos (step_of max min)) (size_at (suc k)) (
        omega (
          arith,
          e,
          +ℤ_parts (size_at k) (pos (step_of max min)),
          +ℤ_parts (pos (k * step_of max min)) min,
          +ℤ_parts (pos (suc k * step_of max min)) min,
        ))

  not-ltb-last :
      (k : ℕ) (t : ℤ)
      → not (ltb_ℤ (size_at k +ℤ pos (step_of max min) -ℤ pos 1) t) ≡ ltb_ℤ t (size_at (suc k))
  not-ltb-last k t = rw (size_at-suc k) (ground (arith, -ℤ_parts (size_at (suc k)) (pos 1)))

  within-IsTrue :
      (k : ℕ)
      → k < 10
      → IsTrue ts (
          within
            (size_at k)
            (size_at k +ℤ pos (step_of max min) -ℤ pos 1)
            (get_or (run max min ts) (suc k) 0))
  within-IsTrue k h =
      number_ext ts (λ t.
        ap (λ b. not (ltb_ℤ t (size_at k)) && b) (not-ltb-last k t)
        ∙ sym (named-suc t max min ordered k h))
      ∙ sym (counter (suc k) (omega arith))

  lines_from-AllTrue :
      (left k : ℕ)
      → left + k ≤ 10
      → AllTrue ts (lines_from left (suc k) (step_of max min) (size_at k) (run max min ts))
  unfolding lines_from
  lines_from-AllTrue zero k h = tt
  lines_from-AllTrue (suc left) k h =
      let next : suc k + 1 ≡ suc (k + 1) = omega arith in
      let next' : suc k ≡ k + 1 = omega arith in
      let rest = lines_from-AllTrue left (k + 1) (omega arith) in
      elim (Bool-cases (get_or (run max min ts) (suc k) 0 == 0)) [
        | inl e ↦ rw (e, size_at-suc k, next, next') rest
        | inr e ↦ rw e (within-IsTrue k (omega arith), rw (size_at-suc k, next, next') rest)
      ]

  first_lines : AllTrue ts (lines_from 10 1 (step_of max min) min (run max min ts))
  first_lines =
      let e : size_at 0 ≡ min =
        eq_of_parts (size_at 0) min (ground (arith, +ℤ_parts (pos (0 * step_of max min)) min)) in
      subst (λ (s : ℤ). AllTrue ts (lines_from 10 1 (step_of max min) s (run max min ts))) e
        (lines_from-AllTrue 10 0 (omega arith))

  last_line : AllTrue ts (
      if get_or (run max min ts) 11 0 == 0
      then []
      else from max (get_or (run max min ts) 11 0) ∷ [])
  last_line = elim (Bool-cases (get_or (run max min ts) 11 0 == 0)) [
    | inl e ↦ rw e tt
    | inr e ↦ rw e (sym (counter 11 (omega arith)), tt)
  ]

  -- If the minimum is not above the maximum, every line that is printed for a histogram gives the number
  -- of the times of the run that lie in the range it names: those below the minimum (the first line, where
  -- the minimum itself does not count), those from one end of a bucket to the other, both included, and
  -- those from the maximum on.
  pub print_lines-AllTrue : AllTrue ts (print_lines max min (run max min ts))
  unfolding print_lines
  print_lines-AllTrue =
      let rest = AllTrue-append ts _ _ first_lines last_line in
      elim (Bool-cases (get_or (run max min ts) 0 0 == 0)) [
        | inl e ↦ rw e rest
        | inr e ↦ rw e (sym (counter 0 (omega arith)), rest)
      ]
