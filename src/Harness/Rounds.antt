-- ===== src/Harness/Rounds.antt =====
-- The messages of one round of measuring, `case timing_interval` of `benchmp_interval` in
-- src/lib_timing.c.
use qnx_lmbench_mods.Base.{
  ℕ, ◌+◌, ◌≡◌, ◌⊎◌, inl, inr, refl, ap, ◌∙◌, Bool, true, false, Option, none, some, List, leb,
  if◌then◌else◌, arith, Option-cases,
}
use qnx_lmbench_mods.Clock.{stop, settime, save_n, gettime, get_n}
use qnx_lmbench_mods.Double.{Double}
use qnx_lmbench_mods.Results.{current, insertsort}
use qnx_lmbench_mods.Harness.{
  timing_interval, cooldown, Effect, Child, Inputs, fault, put, is_cooldown, measure, long_enough,
  record_result, adjust, settle, time_interval, resume, dispatch,
}
use qnx_lmbench_mods.Harness.Messages.{
  is_warmup, Says, Speaks, Quiet, resume-Speaks, settle-Says, Speaks-fault,
}

module _ (d : Double) (t_overhead : ℕ) (l_overhead : d.D) where
  -- The state that a measurement leaves.
  pub record_result-same :
      (c : Child)
      → (record_result d t_overhead l_overhead c ≡ none)
        ⊎ ((c' : Child) × (record_result d t_overhead l_overhead c ≡ some c')
            × (c'.need_warmup ≡ c.need_warmup)
            × ((c'.state ≡ cooldown) ⊎ (c'.state ≡ c.state)))
  unfolding record_result
  record_result-same c = elim (Option-cases (gettime c.timing.clock)) [
    | inl unread ↦ inl (rw (unread, record_result))
    | inr (u, time) ↦
        elim (Option-cases (insertsort d u (get_n c.timing.clock) (current c.timing))) [
          | inl full ↦ inl (rw (time, full, record_result))
          | inr (t, run) ↦ inr (
            record c {
              timing = put c.timing.results t c.timing;
              i = c.i + 1;
              state = if leb c.repetitions (c.i + 1) then cooldown else c.state;
            },
            rw (time, run, record_result),
            refl,
            ending (leb c.repetitions (c.i + 1)),
          )
        ]
  ]
    where
      ending :
          (b : Bool)
          → ((if b then cooldown else c.state) ≡ cooldown)
            ⊎ ((if b then cooldown else c.state) ≡ c.state)
      ending true = inl refl
      ending false = inr refl

  pub measure-same :
      (c : Child) (e : Inputs)
      → (measure d t_overhead l_overhead c e ≡ none)
        ⊎ ((r : d.D) × (c' : Child) × (measure d t_overhead l_overhead c e ≡ some (r, c'))
            × (c'.state ≡ c.state)
            × (c'.need_warmup ≡ c.need_warmup))
  unfolding measure
  measure-same c e = elim (Option-cases (stop e.stopped c.timing.clock).0) [
    | inl failed ↦ inl (rw (failed, measure))
    | inr (u, spent) ↦
        let counted = save_n c.iterations (stop e.stopped c.timing.clock).1 in
        let overhead = d.add (d.of_u64 t_overhead) (d.mul (d.of_u64 (get_n counted)) l_overhead) in
        let result = d.sub (d.of_u64 u) overhead in
        let time = if d.less_eq (d.lit 0 1) result then d.to_u64 result else 0 in
        inr (
          result,
          record c { timing = record c.timing { clock = settime time counted } },
          rw (spent, measure),
          refl,
          refl,
        )
  ]

  pub time_interval-Speaks :
      (c : Child) (e : Inputs) (r : d.D) (l before : List Effect)
      → c.state ≡ timing_interval
      → Quiet before
      → Says c l
      → Speaks l (dispatch d t_overhead l_overhead timing_interval c e r before)
  unfolding dispatch time_interval
  time_interval-Speaks c e r l before now q s =
      recorded (long_enough d t_overhead l_overhead c r) (record_result-same c)
    where
      later : c.need_warmup ≡ false
      later = elim s.fresh [ inl x ↦ x | inr first ↦ ground (arith, now, first) ]

      settled :
          (c' : Child)
          → c'.need_warmup ≡ c.need_warmup
          → (c'.state ≡ cooldown) ⊎ (c'.state ≡ c.state)
          → Speaks l (
              resume d t_overhead l_overhead e before
                (settle d t_overhead l_overhead c' (adjust d t_overhead l_overhead c r)))
      settled c' same phase =
          let a = adjust d t_overhead l_overhead c r in
          let next = settle d t_overhead l_overhead c' a in
          let warmed : is_warmup c'.state ≡ false = elim phase [
            | inl k ↦ ap is_warmup k
            | inr stays ↦ ap is_warmup (stays ∙ now)
          ] in
          resume-Speaks d t_overhead l_overhead e l before next.2 next.0 next.1 q (
            settle-Says d t_overhead l_overhead c' a.0 a.1 l (same ∙ later) warmed
              (s.ready ∙ ap (λ b. if b then 0 else 1) later)
              (s.begun ∙ ap (λ p. if is_warmup p then 0 else 1) now)
              (s.done ∙ ap (λ p. if is_cooldown p then 1 else 0) now) s.sent)

      recorded :
          (b : Bool)
          → (record_result d t_overhead l_overhead c ≡ none)
            ⊎ ((c' : Child) × (record_result d t_overhead l_overhead c ≡ some c')
                × (c'.need_warmup ≡ c.need_warmup)
                × ((c'.state ≡ cooldown) ⊎ (c'.state ≡ c.state)))
          → Speaks l
              (elim (elim (if b then record_result d t_overhead l_overhead c else some c)
                as (λ _. Option (ℕ × Child × List Effect)) [
                  | none ↦ none
                  | some c' ↦
                      some (settle d t_overhead l_overhead c' (adjust d t_overhead l_overhead c r))
                ]) [ none ↦ fault | some next ↦ resume d t_overhead l_overhead e before next ])
      recorded false known = settled c refl (inr refl)
      recorded true (inl none_there) = rw none_there (Speaks-fault l)
      recorded true (inr (c', run, same, phase)) = rw run (settled c' same phase)
