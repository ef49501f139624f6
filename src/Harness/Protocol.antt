-- ===== src/Harness/Protocol.antt =====
-- What the measuring child of src/lib_timing.c tells its parent, over all its rounds.
use qnx_lmbench_mods.Base.{
  ℕ, ◌<◌, ◌≡◌, ◌⊎◌, inl, inr, refl, sym, ap, subst, ◌∙◌, Bool, true, false, ◌&&◌, List, [], ◌∷◌,
  ◌++◌, length, if◌then◌else◌, arith, ◌≤◌,
}
use qnx_lmbench_mods.Double.{Double}
use qnx_lmbench_mods.Results.{Timing}
use qnx_lmbench_mods.Harness.{
  Phase, warmup, timing_interval, cooldown, Effect, read_result, send_results, read_exit,
  reset_sigchld, call_cleanup, Child, Inputs, Next, go_on, exited, fault, clean_up, is_cooldown,
  child_start, measure, warm, deliver, resume, dispatch, unless_orphaned, after_measure,
  benchmp_interval, intervals,
}
use qnx_lmbench_mods.Harness.Messages.{
  count, is_ready, is_start, is_done, is_results, is_warmup, Says, Complete, Speaks, count-append,
  Quiet, Quiet-none, clean_up-Quiet, count-clean_up, Says-append_nil, resume-Speaks, warm-Says,
}
use qnx_lmbench_mods.Harness.Rounds.{measure-same, time_interval-Speaks}
use qnx_lmbench_mods.Harness.Safety.{AllSound, intervals_room}

module _ (d : Double) (t_overhead : ℕ) (l_overhead : d.D) where
  count-deliver :
      (p : Effect → Bool) (c : Child)
      → p reset_sigchld ≡ false
      → p (call_cleanup 0) ≡ false
      → p read_result ≡ false
      → p read_exit ≡ false
      → count p (deliver d t_overhead l_overhead c)
        ≡ (if p (send_results c.timing.results) then 1 else 0)
  unfolding count
  count-deliver p c a b x y =
      ground (arith, count-append p (clean_up c 0) (read_exit ∷ []), count-clean_up p c 0 a b)

  cooldown-Speaks :
      (c : Child) (e : Inputs) (l before : List Effect) (r : d.D)
      → c.state ≡ cooldown
      → Quiet before
      → Says c l
      → Speaks l (dispatch d t_overhead l_overhead cooldown c e r before)
  unfolding dispatch Speaks count
  cooldown-Speaks c e l before r now q s = choose e.result_ready
    where
      later : c.need_warmup ≡ false
      later = elim s.fresh [ inl x ↦ x | inr first ↦ ground (arith, now, first) ]

      told :
          (p : Effect → Bool)
          → p reset_sigchld ≡ false
          → p (call_cleanup 0) ≡ false
          → p read_result ≡ false
          → p read_exit ≡ false
          → p (send_results c.timing.results) ≡ false
          → count p before ≡ 0
          → count p (l ++ (before ++ deliver d t_overhead l_overhead c)) ≡ count p l
      told p a b x y z quiet = omega (
        arith,
        count-append p l (before ++ deliver d t_overhead l_overhead c),
        count-append p before (deliver d t_overhead l_overhead c),
        count-deliver p c a b x y,
        ap {B = ℕ} (λ b. if b then 1 else 0) z,
      )

      all_results : count is_results (l ++ (before ++ deliver d t_overhead l_overhead c)) ≡ 1
      all_results = omega (
        arith,
        count-append is_results l (before ++ deliver d t_overhead l_overhead c),
        count-append is_results before (deliver d t_overhead l_overhead c),
        count-deliver is_results c refl refl refl refl,
        s.sent,
        q.sent,
      )

      waited : Says c (l ++ [])
      waited = Says-append_nil c l s

      choose :
          (b : Bool)
          → Speaks l (
              if b
              then exited (before ++ deliver d t_overhead l_overhead c)
              else resume d t_overhead l_overhead e before (c.iterations_batch, c, []))
      choose false =
          resume-Speaks d t_overhead l_overhead e l before [] c.iterations_batch c q waited
      choose true = inr (record {
        ready =
            told is_ready refl refl refl refl refl q.ready
            ∙ s.ready
            ∙ ap (λ b. if b then 0 else 1) later;
        begun =
            told is_start refl refl refl refl refl q.begun
            ∙ s.begun
            ∙ ap (λ p. if is_warmup p then 0 else 1) now;
        done =
            told is_done refl refl refl refl refl q.done
            ∙ s.done
            ∙ ap (λ p. if is_cooldown p then 1 else 0) now;
        sent = all_results;
      })

  dispatch-Speaks :
      (p : Phase) (c : Child) (e : Inputs) (r : d.D) (l before : List Effect)
      → c.state ≡ p
      → Quiet before
      → Says c l
      → Speaks l (dispatch d t_overhead l_overhead p c e r before)
  unfolding dispatch
  dispatch-Speaks warmup c e r l before now q s =
      resume-Speaks d t_overhead l_overhead e l before (warm d t_overhead l_overhead c e).2
        (warm d t_overhead l_overhead c e).0 (warm d t_overhead l_overhead c e).1 q
        (warm-Says d t_overhead l_overhead c e l now s)
  dispatch-Speaks timing_interval c e r l before now q s =
      time_interval-Speaks d t_overhead l_overhead c e r l before now q s
  dispatch-Speaks cooldown c e r l before now q s = cooldown-Speaks c e l before r now q s

  unless_orphaned-Speaks :
      (c : Child) (e : Inputs) (r : d.D) (l before : List Effect)
      → Quiet before
      → Says c l
      → Speaks l (unless_orphaned d t_overhead l_overhead c e r before)
  unfolding Speaks
  unless_orphaned-Speaks c e r l before q s = choose (e.orphaned && c.cleanup)
    where
      quiet_exit : count is_results (l ++ (before ++ clean_up c 0)) ≡ 0
      quiet_exit =
          let z = clean_up-Quiet c 0 in
          omega (
            arith,
            count-append is_results l (before ++ clean_up c 0),
            count-append is_results before (clean_up c 0),
            z.sent,
            s.sent,
            q.sent,
          )

      choose :
          (b : Bool)
          → Speaks l (
              if b
              then exited (before ++ clean_up c 0)
              else dispatch d t_overhead l_overhead c.state c e r before)
      choose true = inl quiet_exit
      choose false = dispatch-Speaks c.state c e r l before refl q s

  after_measure-Speaks :
      (c : Child) (e : Inputs) (l : List Effect) (n : ℕ)
      → Says c l
      → Speaks l (
          after_measure d t_overhead l_overhead e
            (clean_up c n)
            (measure d t_overhead l_overhead c e))
  unfolding after_measure Speaks
  after_measure-Speaks c e l n s = elim (measure-same d t_overhead l_overhead c e) [
    | inl failed ↦ rw failed tt
    | inr (r, c', run, phase, warm_too) ↦ rw run (
        unless_orphaned-Speaks c' e r l (clean_up c n) (clean_up-Quiet c n) (record {
          ready = s.ready ∙ ap (λ b. if b then 0 else 1) (sym warm_too);
          begun = s.begun ∙ ap (λ p. if is_warmup p then 0 else 1) (sym phase);
          done = s.done ∙ ap (λ p. if is_cooldown p then 1 else 0) (sym phase);
          sent = s.sent;
          fresh = rw (phase, warm_too) s.fresh;
        }))
  ]

  pub benchmp_interval-Speaks :
      (c : Child) (e : Inputs) (l : List Effect)
      → Says c l
      → Speaks l (benchmp_interval d t_overhead l_overhead c e)
  unfolding benchmp_interval
  benchmp_interval-Speaks c e l s = choose c.need_warmup
    where
      n : ℕ
      n = elim c.state [ timing_interval ↦ c.iterations | _ ↦ c.iterations_batch ]

      choose :
          (b : Bool)
          → Speaks l (
              if b
              then unless_orphaned d t_overhead l_overhead c e (d.of_u64 c.enough) []
              else after_measure d t_overhead l_overhead e
                  (clean_up c n)
                  (measure d t_overhead l_overhead c e))
      choose true = unless_orphaned-Speaks c e (d.of_u64 c.enough) l [] Quiet-none s
      choose false = after_measure-Speaks c e l n s

  intervals-Speaks :
      (es : List Inputs) (c : Child) (seen : List Effect)
      → Says c seen
      → Speaks [] (intervals d t_overhead l_overhead es c seen)
  unfolding intervals Speaks
  intervals-Speaks [] c seen s = s
  intervals-Speaks (e ∷ es) c seen s =
      next (benchmp_interval d t_overhead l_overhead c e) (benchmp_interval-Speaks c e seen s)
        (λ c' l s'. intervals-Speaks es c' l s')
    where
      next :
          (n : Next)
          → Speaks seen n
          → ((c' : Child) (l : List Effect)
              → Says c' l
              → Speaks [] (intervals d t_overhead l_overhead es c' l))
          → Speaks [] (elim n [
            | fault ↦ fault
            | exited effects ↦ exited (seen ++ effects)
            | go_on m c' effects ↦ intervals d t_overhead l_overhead es c' (seen ++ effects)
          ])
      next (go_on m c' effects) f' rest = rest c' (seen ++ effects) f'
      next (exited effects) f' rest = f'
      next fault f' rest = tt

  pub child_start-Says :
      (t : Timing) (r : ℕ) (init clean default : Bool) (enough iterations parallel reps : ℕ)
      → Says (child_start t r init clean default enough iterations parallel reps) []
  unfolding child_start count
  child_start-Says t r init clean default enough iterations parallel reps = record {
    ready = refl;
    begun = refl;
    done = refl;
    sent = refl;
    fresh = inr refl;
  }

  -- Whatever the clock reads (in range), the parent does and the pipes hold: after any sequence of calls
  -- of `benchmp_interval` from `benchmp_child` on, with a table that has room
  -- for all repetitions, of which there is one at least, the child runs and has sent `ready`
  -- once, or not at all while `need_warmup` is set, has read `start` once if it has left the warmup and
  -- not before, has sent `done` once if it is in the cooldown and not before, and has sent no results;
  -- or it has exited, with one message of each kind or without having sent results.
  pub intervals_protocol :
      (t : Timing) (r : ℕ) (init clean default : Bool) (enough iterations parallel reps : ℕ)
      → (es : List Inputs) → 0 < reps
      → reps ≤ length (t.tables r).v
      → AllSound d t_overhead l_overhead es
      → ((seen : List Effect) × (intervals d t_overhead l_overhead es
              (child_start t r init clean default enough iterations parallel reps)
              []
            ≡ exited seen)
          × ((count is_results seen ≡ 0) ⊎ Complete seen))
        ⊎ ((n : ℕ) × (c : Child) × (seen : List Effect) × (intervals d t_overhead l_overhead es
                (child_start t r init clean default enough iterations parallel reps)
                []
              ≡ go_on n c seen)
            × Says c seen)
  unfolding Speaks
  intervals_protocol t r init clean default enough iterations parallel reps es pos room ss =
      let c = child_start t r init clean default enough iterations parallel reps in
      let spoken =
        intervals-Speaks es c []
          (child_start-Says t r init clean default enough iterations parallel reps) in
      elim (intervals_room d t_overhead l_overhead t r init clean default enough iterations parallel
        reps es pos room ss) [
          | inl (seen, run) ↦ inl (seen, run, subst (Speaks []) run spoken)
          | inr (n, c', seen, run, _, _, _) ↦ inr (n, c', seen, run, subst (Speaks []) run spoken)
        ]
