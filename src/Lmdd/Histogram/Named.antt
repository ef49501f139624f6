-- ===== src/Lmdd/Histogram/Named.antt =====
-- A time of src/lmdd.c goes to the counter whose line names it.
use qnx_lmbench_mods.Base.{
  ℕ, zero, suc, ◌+◌, ◌-◌, ◌*◌, ◌≤◌, ◌<◌, ◌≡◌, refl, sym, ◌⊎◌, ap₂, ◌∙◌, inl, inr, Bool, true, false,
  not, ◌&&◌, Option, none, some, ltb, ◌==◌, Bool-cases, arith,
}
use qnx_lmbench_mods.Base.Int.{ℤ, pos, pos_part, ◌+ℤ◌, ◌-ℤ◌, ◌≤ℤ◌, ltb_ℤ, +ℤ_parts, -ℤ_parts}
use qnx_lmbench_mods.Lmdd.Histogram.{step_of, bucket}
use qnx_lmbench_mods.Lmdd.Histogram.Labels.{
  excess, ltb_ℤ-excess, Falls, bucket_from-Falls, hits, named,
}

pub mul_le : (a b s : ℕ) → a ≤ b → a * s ≤ b * s
mul_le a b s h = grind arith

-- The time of the range `k` steps above the minimum.
abbrev in_step : (k step d : ℕ) → Bool
in_step k step d = not (ltb d (k * step)) && ltb d (suc k * step)

Falls-in_step :
    (k step d : ℕ) (o : Option ℕ) → k < 10 → Falls 10 0 step d o → hits (suc k) o ≡ in_step k step d
Falls-in_step k step d none h f =
    let e : suc k * step ≡ k * step + step = grind arith in ground (arith, mul_le (suc k) 10 step h)
Falls-in_step k step d (some zero) h f = absurd f
Falls-in_step k step d (some (suc j)) h f =
    let e : suc k * step ≡ k * step + step = grind arith in
    let e' : suc j * step ≡ j * step + step = grind arith in
    let low : suc j ≤ k → suc j * step ≤ k * step = mul_le (suc j) k step in
    let high : suc k ≤ j → suc k * step ≤ j * step = mul_le (suc k) j step in ground arith

step_of_fits : (max min : ℤ) → step_of max min * 10 ≤ pos_part (max -ℤ min)
unfolding step_of
step_of_fits max min = omega arith

module _ (t max min : ℤ) (ordered : min ≤ℤ max) (k : ℕ) (k_small : k < 10) where
  -- What the line of the counter `suc k` says.
  abbrev pub between : Bool
  between =
      not (ltb_ℤ t (pos (k * step_of max min) +ℤ min))
      && ltb_ℤ t (pos (suc k * step_of max min) +ℤ min)

  pub named-suc : named max min (suc k) t ≡ between
  named-suc =
      let zero_test : (suc k == 0) ≡ false = ground arith in
      let last_test : (suc k == 11) ≡ false = ground arith in
      let before : suc k - 1 ≡ k = omega arith in rw (zero_test, last_test, before) refl

  named_middle : min ≤ℤ t → named max min (suc k) t ≡ in_step k (step_of max min) (excess t min)
  named_middle h =
      named-suc
      ∙ ap₂ (λ a b. not a && b) (ltb_ℤ-excess (k * step_of max min) t min h)
          (ltb_ℤ-excess (suc k * step_of max min) t min h)

  named_below : ltb_ℤ t min ≡ true → named max min (suc k) t ≡ false
  named_below h = named-suc ∙ ground (arith, +ℤ_parts (pos (k * step_of max min)) min)

  named_above : ltb_ℤ t max ≡ false → named max min (suc k) t ≡ false
  named_above h =
      named-suc
      ∙ ground (
        arith,
        +ℤ_parts (pos (suc k * step_of max min)) min,
        mul_le (suc k) 10 (step_of max min) k_small,
        step_of_fits max min,
        -ℤ_parts max min,
      )

hits-Falls_zero : (step d : ℕ) (o : Option ℕ) → Falls 10 0 step d o → hits 0 o ≡ false
hits-Falls_zero step d none f = refl
hits-Falls_zero step d (some zero) f = absurd f
hits-Falls_zero step d (some (suc j)) f = ground arith

hits-Falls_last : (step d : ℕ) (o : Option ℕ) → Falls 10 0 step d o → hits 11 o ≡ false
hits-Falls_last step d none f = refl
hits-Falls_last step d (some zero) f = absurd f
hits-Falls_last step d (some (suc j)) f = ground (arith, f.0)

pub bucket-Falls :
    (t max min : ℤ)
    → ltb_ℤ t max ≡ true
    → ltb_ℤ t min ≡ false
    → Falls 10 0 (step_of max min) (excess t min) (bucket t max min)
unfolding bucket
bucket-Falls t max min a b =
    rw (a, b) (bucket_from-Falls 10 0 (step_of max min) t min (ground arith) (grind arith))

module _ (t max min : ℤ) (ordered : min ≤ℤ max) where
  unmeasured : ltb_ℤ t min ≡ true → ltb_ℤ t max ≡ true
  unmeasured h = ground arith

  pub bucket_below : ltb_ℤ t min ≡ true → bucket t max min ≡ some 0
  unfolding bucket
  bucket_below h = rw (unmeasured h, h) refl

  pub bucket_above : ltb_ℤ t max ≡ false → bucket t max min ≡ some 11
  unfolding bucket
  bucket_above h = rw h refl

  pub Bucket-cases :
      (ltb_ℤ t min ≡ true) ⊎ (ltb_ℤ t max ≡ false) ⊎ ((ltb_ℤ t min ≡ false) × (ltb_ℤ t max ≡ true))
  Bucket-cases = elim (Bool-cases (ltb_ℤ t min)) [
    | inl b ↦ inl b
    | inr b ↦ inr (elim (Bool-cases (ltb_ℤ t max)) [ inl a ↦ inr (b, a) | inr a ↦ inl a ])
  ]

  hits_zero : hits 0 (bucket t max min) ≡ ltb_ℤ t min
  hits_zero = elim Bucket-cases [
    | inl b ↦ rw (bucket_below b, b) refl
    | inr (inl a) ↦ let b : ltb_ℤ t min ≡ false = ground arith in rw (bucket_above a, b) refl
    | inr (inr (b, a)) ↦
        rw b (hits-Falls_zero (step_of max min) (excess t min) _ (bucket-Falls t max min a b))
  ]

  hits_last : hits 11 (bucket t max min) ≡ not (ltb_ℤ t max)
  hits_last = elim Bucket-cases [
    | inl b ↦ rw (bucket_below b, unmeasured b) refl
    | inr (inl a) ↦ rw (bucket_above a, a) refl
    | inr (inr (b, a)) ↦
        rw a (hits-Falls_last (step_of max min) (excess t min) _ (bucket-Falls t max min a b))
  ]

  hits_middle : (k : ℕ) → k < 10 → hits (suc k) (bucket t max min) ≡ named max min (suc k) t
  hits_middle k h = elim Bucket-cases [
    | inl b ↦ rw (bucket_below b, named_below t max min ordered k h b) (ground arith)
    | inr (inl a) ↦ rw (bucket_above a, named_above t max min ordered k h a) (ground arith)
    | inr (inr (b, a)) ↦
        Falls-in_step k (step_of max min) (excess t min) _ h (bucket-Falls t max min a b)
        ∙ sym (named_middle t max min ordered k h (ground arith))
  ]

-- The counter of a time is the one whose line names it.
pub hits-bucket :
    (t max min : ℤ) (i : ℕ) → min ≤ℤ max → i < 12 → hits i (bucket t max min) ≡ named max min i t
hits-bucket t max min zero ordered h = hits_zero t max min ordered
hits-bucket t max min (suc k) ordered h = elim (Bool-cases (k == 10)) [
  | inl e ↦ let k_is : k ≡ 10 = ground arith in rw k_is (hits_last t max min ordered)
  | inr e ↦ hits_middle t max min ordered k (ground arith)
]
