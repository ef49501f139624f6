-- ===== src/Harness/Messages.antt =====
-- The messages of the measuring child of src/lib_timing.c, counted by kind, and what the parts of
-- `benchmp_interval` add to them.
use qnx_lmbench_mods.Base.{
  ℕ, ◌+◌, ◌≡◌, ◌⊎◌, inl, refl, ◌∙◌, Bool, true, false, List, [], ◌∷◌, ◌++◌, if◌then◌else◌, arith,
}
use qnx_lmbench_mods.Double.{Double}
use qnx_lmbench_mods.Harness.{
  Phase, warmup, Effect, send_ready, read_start, send_done, send_results, reset_sigchld,
  call_cleanup, call_initialize, Child, Inputs, Next, go_on, exited, fault, clean_up, is_cooldown,
  warm, settle, resume,
}

-- How many effects of a list are of one kind.
unfoldable pub count : (Effect → Bool) → List Effect → ℕ
count p [] = 0
count p (x ∷ xs) = (if p x then 1 else 0) + count p xs

abbrev pub is_ready : Effect → Bool
is_ready x = elim x [ send_ready ↦ true | _ ↦ false ]

abbrev pub is_start : Effect → Bool
is_start x = elim x [ read_start ↦ true | _ ↦ false ]

abbrev pub is_done : Effect → Bool
is_done x = elim x [ send_done ↦ true | _ ↦ false ]

abbrev pub is_results : Effect → Bool
is_results x = elim x [ send_results _ ↦ true | _ ↦ false ]

abbrev pub is_warmup : Phase → Bool
is_warmup p = elim p [ warmup ↦ true | _ ↦ false ]

-- The messages so far fit the state.
pub record Says (c : Child) (l : List Effect) : Type 0 where
  pub ready : count is_ready l ≡ (if c.need_warmup then 0 else 1)
  pub begun : count is_start l ≡ (if is_warmup c.state then 0 else 1)
  pub done : count is_done l ≡ (if is_cooldown c.state then 1 else 0)
  pub sent : count is_results l ≡ 0
  pub fresh : (c.need_warmup ≡ false) ⊎ (c.state ≡ warmup)

-- All messages of a child that has exited: without results, or one of each kind.
pub record Complete (l : List Effect) : Type 0 where
  pub ready : count is_ready l ≡ 1
  pub begun : count is_start l ≡ 1
  pub done : count is_done l ≡ 1
  pub sent : count is_results l ≡ 1

unfoldable pub Speaks : List Effect → Next → Type 0
Speaks l (go_on n c seen) = Says c (l ++ seen)
Speaks l (exited seen) = (count is_results (l ++ seen) ≡ 0) ⊎ Complete (l ++ seen)
Speaks l fault = Unit

pub count-append :
    (p : Effect → Bool) (xs ys : List Effect) → count p (xs ++ ys) ≡ count p xs + count p ys
unfolding count
count-append p [] ys = omega arith
count-append p (x ∷ xs) ys = omega (arith, count-append p xs ys)

pub Says-append_nil : (c : Child) (l : List Effect) → Says c l → Says c (l ++ [])
unfolding count
Says-append_nil c l s = record {
  ready = omega (arith, count-append is_ready l [], s.ready);
  begun = omega (arith, count-append is_start l [], s.begun);
  done = omega (arith, count-append is_done l [], s.done);
  sent = omega (arith, count-append is_results l [], s.sent);
  fresh = s.fresh;
}

pub count-clean_up :
    (p : Effect → Bool) (c : Child) (n : ℕ)
    → p reset_sigchld ≡ false
    → p (call_cleanup n) ≡ false
    → count p (clean_up c n) ≡ 0
unfolding count
count-clean_up p c n a b = ground arith

count-resume :
    (p : Effect → Bool) (l before seen : List Effect) (b : Bool) (n : ℕ)
    → p (call_initialize n) ≡ false
    → count p before ≡ 0
    → count p (l ++ (before ++ seen ++ (if b then call_initialize n ∷ [] else [])))
      ≡ count p (l ++ seen)
unfolding count
count-resume p l before seen b n quiet none_there =
    let tail = if b then call_initialize n ∷ [] else [] in
    let none_last : count p tail ≡ 0 = ground arith in
    omega (
      arith,
      count-append p l (before ++ seen ++ tail),
      count-append p (before ++ seen) tail,
      count-append p before seen,
      count-append p l seen,
    )

-- The effects before the `switch` are no messages.
pub record Quiet (l : List Effect) : Type 0 where
  pub ready : count is_ready l ≡ 0
  pub begun : count is_start l ≡ 0
  pub done : count is_done l ≡ 0
  pub sent : count is_results l ≡ 0

pub clean_up-Quiet : (c : Child) (n : ℕ) → Quiet (clean_up c n)
clean_up-Quiet c n = record {
  ready = count-clean_up is_ready c n refl refl;
  begun = count-clean_up is_start c n refl refl;
  done = count-clean_up is_done c n refl refl;
  sent = count-clean_up is_results c n refl refl;
}

pub Quiet-none : Quiet []
unfolding count
Quiet-none = record { ready = refl; begun = refl; done = refl; sent = refl }

pub Speaks-fault : (l : List Effect) → Speaks l fault
unfolding Speaks
Speaks-fault l = tt

module _ (d : Double) (t_overhead : ℕ) (l_overhead : d.D) where
  pub resume-Speaks :
      (e : Inputs) (l before seen : List Effect) (n : ℕ) (c : Child)
      → Quiet before
      → Says c (l ++ seen)
      → Speaks l (resume d t_overhead l_overhead e before (n, c, seen))
  unfolding resume Speaks
  resume-Speaks e l before seen n c q s = record {
    ready = count-resume is_ready l before seen c.initialize n refl q.ready ∙ s.ready;
    begun = count-resume is_start l before seen c.initialize n refl q.begun ∙ s.begun;
    done = count-resume is_done l before seen c.initialize n refl q.done ∙ s.done;
    sent = count-resume is_results l before seen c.initialize n refl q.sent ∙ s.sent;
    fresh = s.fresh;
  }

  pub warm-Says :
      (c : Child) (e : Inputs) (l : List Effect)
      → c.state ≡ warmup
      → Says c l
      → Says (warm d t_overhead l_overhead c e).1 (l ++ (warm d t_overhead l_overhead c e).2)
  unfolding warm count
  warm-Says c e l now s =
      let seen = (warm d t_overhead l_overhead c e).2 in
      record {
        ready = ground (arith, count-append is_ready l seen, s.ready);
        begun = ground (arith, now, count-append is_start l seen, s.begun);
        done = ground (arith, now, count-append is_done l seen, s.done);
        sent = ground (arith, count-append is_results l seen, s.sent);
        fresh = inl refl;
      }

  pub settle-Says :
      (c : Child) (n : ℕ) (give_up : Bool) (l : List Effect)
      → c.need_warmup ≡ false
      → is_warmup c.state ≡ false
      → count is_ready l ≡ 1
      → count is_start l ≡ 1
      → count is_done l ≡ 0
      → count is_results l ≡ 0
      → Says
          (settle d t_overhead l_overhead c (n, give_up)).1
          (l ++ (settle d t_overhead l_overhead c (n, give_up)).2)
  unfolding settle count
  settle-Says c n give_up l later warmed r b k z =
      let seen = (settle d t_overhead l_overhead c (n, give_up)).2 in
      record {
        ready = ground (arith, count-append is_ready l seen);
        begun = ground (arith, count-append is_start l seen);
        done = ground (arith, count-append is_done l seen);
        sent = ground (arith, count-append is_results l seen);
        fresh = inl later;
      }
