-- ===== src/Lmdd/Offsets/Fresh.antt =====
-- Which offsets `norepeat=` of src/lmdd.c keeps from coming again.
use mathlib.Core.Option
use qnx_lmbench_mods.Base.{
  ℕ, zero, suc, ◌+◌, ◌≤◌, ◌<◌, ◌≡◌, ◌≢◌, refl, sym, ap, ◌∙◌, subst, inl, inr, Bool, true, false,
  ◌&&◌, Option, some, ◌==◌, if◌then◌else◌, Bool-cases, Option-cases, arith,
}
use qnx_lmbench_mods.Base.Int.{ℤ, pos}
use qnx_lmbench_mods.Lmdd.Settings.{Settings, given}
use qnx_lmbench_mods.Lmdd.Offsets.{
  Choice, been_from, been_there, note, wrap, try_end, try_rand, try_until, keep_end, keep_rand,
  swing, choose, is_random,
}

pub been_from-false :
    (left i off : ℕ) (used : ℤ → ℕ) (j : ℕ)
    → been_from left i off used ≡ false
    → i ≤ j
    → j < i + left
    → off ≢ used (pos j)
unfolding been_from
been_from-false zero i off used j h p q = absurd (omega arith)
been_from-false (suc left) i off used j h p q = elim (Bool-cases (off == used (pos i))) [
  | inl e ↦ absurd (cc (rw e at h))
  | inr e ↦ elim (Bool-cases (i == j)) [
    | inl same ↦
        let j_is : i ≡ j = ground arith in
        subst (λ (k : ℕ). off ≢ used (pos k)) j_is (λ (o : off ≡ used (pos i)). ground arith)
    | inr other ↦ been_from-false left (i + 1) off used j (rw e at h) (ground arith) (ground arith)
  ]
]

-- Without `end=` and `rand=` the offset goes on from the last block.
pub choose-in_order :
    (draw : ℕ → ℕ → ℕ) (s : Settings) (fuel off : ℕ) (c : Choice)
    → given s.end ≡ false
    → given s.rand ≡ false
    → choose draw s fuel off c ≡ some (off, c)
unfolding choose
choose-in_order draw s fuel off c e r = rw (e, r) refl

pub is_random-in_order :
    (draw : ℕ → ℕ → ℕ) (s : Settings)
    → given s.end ≡ false
    → given s.rand ≡ false
    → is_random draw s ≡ false
unfolding is_random
is_random-in_order draw s e r = rw (e, r) refl

-- `off` was tried in the state `before`, and is not in the table there; it is noted in `after`.
pub record Chosen (c : Choice) (off : ℕ) (after : Choice) : Type 0 where
  pub before : Choice
  pub table : before.used ≡ c.used
  pub place : before.norepeats ≡ c.norepeats
  pub fresh : been_there off before ≡ false
  pub noted : after ≡ note off before

module _ (draw : ℕ → ℕ → ℕ) (s : Settings) (norepeat : s.norepeat ≡ true)
    (counted : s.gotcnt ≡ true) where
  abbrev later : Choice → Choice
  later c = record c { draws = c.draws + 1 }

  try_until_step :
      (fuel : ℕ) (try : Choice → ℕ) (c : Choice)
      → try_until draw s (suc fuel) try c ≡ (
          if been_there (try c) c
          then try_until draw s fuel try (later c)
          else some (try c, later c))
  unfolding try_until
  try_until_step fuel try c =
      ap
        (λ (b : Bool).
          if b && been_there (try c) c
          then try_until draw s fuel try (later c)
          else some (try c, later c))
        norepeat

  try_until-fresh :
      (fuel : ℕ) (try : Choice → ℕ) (c : Choice) (off : ℕ) (c' : Choice)
      → try_until draw s fuel try c ≡ some (off, c')
      → (c'.used ≡ c.used) × (c'.norepeats ≡ c.norepeats) × (been_there off c' ≡ false)
  unfolding been_there
  try_until-fresh zero try c off c' h = unfold try_until in cc
  try_until-fresh (suc fuel) try c off c' h =
      let h' = sym (try_until_step fuel try c) ∙ h in
      elim (Bool-cases (been_there (try c) c)) [
        | inl e ↦ try_until-fresh fuel try (later c) off c' (rw e at h')
        | inr e ↦
            let same : ◌≡◌ {A = Option (ℕ × Choice)} (some (try c, later c)) (some (off, c')) =
              rw e at h' in
            let off_is : try c ≡ off = cc in
            let c_is : later c ≡ c' = cc in
            (
              ap (λ (d : Choice). d.used) (sym c_is),
              ap (λ (d : Choice). d.norepeats) (sym c_is),
              subst (λ (d : Choice). been_there off d ≡ false) c_is
                  (subst (λ (o : ℕ). been_there o c ≡ false) off_is e),
            )
      ]

  keep_end-note : (p : ℕ × Choice) → keep_end draw s p ≡ (p.0, note p.0 p.1)
  unfolding keep_end wrap
  keep_end-note (off, c) =
      let kept = ap (λ (b : Bool). wrap b (note off c)) counted in
      ap (λ (b : Bool). (off, if b then wrap s.gotcnt (note off c) else c)) norepeat
      ∙ ap (λ (d : Choice). (off, d)) kept

  keep_rand-note : (p : ℕ × Choice) → keep_rand draw s p ≡ (p.0, note p.0 p.1)
  unfolding keep_rand wrap
  keep_rand-note (off, c) =
      let kept = ap (λ (b : Bool). wrap b (note off c)) counted in
      ap (λ (b : Bool). (off, wrap s.gotcnt (if b then note off c else c))) norepeat
      ∙ ap (λ (d : Choice). (off, d)) kept

  tried-Chosen :
      (fuel : ℕ) (try : Choice → ℕ) (keep : ℕ × Choice → ℕ × Choice) (c d : Choice) (off : ℕ)
      (after : Choice)
      → ((p : ℕ × Choice) → keep p ≡ (p.0, note p.0 p.1))
      → d.used ≡ c.used
      → d.norepeats ≡ c.norepeats
      → Option.map keep (try_until draw s fuel try d) ≡ some (off, after)
      → Chosen c off after
  tried-Chosen fuel try keep c d off after k u n h =
      elim (Option-cases (try_until draw s fuel try d)) [
        | inl e ↦ cc (rw e at h)
        | inr ((o, c'), e) ↦
            let kept : some (keep (o, c')) ≡ some (off, after) = rw e at h in
            let pair : keep (o, c') ≡ (off, after) = cc in
            let both : (o, note o c') ≡ (off, after) = sym (k (o, c')) ∙ pair in
            let (used, place, fresh) = try_until-fresh fuel try d o c' e in
            let o_is : o ≡ off = ap (λ (p : ℕ × Choice). p.0) both in
            record {
              before = c';
              table = used ∙ u;
              place = place ∙ n;
              fresh = subst (λ (x : ℕ). been_there x c' ≡ false) o_is fresh;
              noted = sym (ap (λ (p : ℕ × Choice). p.1) both) ∙ ap (λ (x : ℕ). note x c') o_is;
            }
      ]

  pub choose-Chosen :
      (fuel last : ℕ) (c : Choice) (off : ℕ) (after : Choice)
      → is_random draw s ≡ true
      → choose draw s fuel last c ≡ some (off, after)
      → Chosen c off after
  unfolding choose is_random swing
  choose-Chosen fuel last c off after r h = elim (Bool-cases (given s.end)) [
    | inl e ↦
        tried-Chosen fuel (try_end draw s) (keep_end draw s) c (swing draw s c) off after
          keep_end-note refl refl (rw e at h)
    | inr e ↦ elim (Bool-cases (given s.rand)) [
      | inl e' ↦
          tried-Chosen fuel (try_rand draw s) (keep_rand draw s) c c off after keep_rand-note refl
            refl (rw (e, e') at h)
      | inr e' ↦ cc (rw (e, e') at r)
    ]
  ]
