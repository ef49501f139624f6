-- ===== src/Harness/Room.antt =====
-- The table of the measuring child in src/lib_timing.c has room for every measurement that
-- `benchmp_interval` enters.
use qnx_lmbench_mods.Base.{
  ℕ, ◌+◌, ◌<◌, ◌≤◌, ◌≡◌, ◌⊎◌, inl, inr, refl, ◌∙◌, Bool, true, false, some, List, length, leb, ◌==◌,
  if◌then◌else◌, arith, Bool-cases,
}
use qnx_lmbench_mods.Clock.{Clock, start, stop, settime, gettime, save_n, get_n}
use qnx_lmbench_mods.Clock.Delta.{IsNormal, tvdelta-normal, gettime-settime-some, zero_tv-IsNormal}
use qnx_lmbench_mods.Double.{Double}
use qnx_lmbench_mods.Results.{Table, Timing, current, insertsort}
use qnx_lmbench_mods.Results.Insert.{insertsort_no_time, insertsort_lem}
use qnx_lmbench_mods.Harness.{
  Phase, warmup, timing_interval, cooldown, Effect, Child, Inputs, Next, go_on, exited, fault, put,
  measure, warm, long_enough, record_result, adjust, settle, time_interval, resume,
}

-- The table has room for all repetitions, holds at most one measurement for each that was counted,
-- and there is a repetition to go while the child measures; the clock was read in range.
pub record Fits (c : Child) : Type 0 where
  pub room : c.repetitions ≤ length (current c.timing).v
  pub count : (current c.timing).count ≤ c.i
  pub bound : c.i ≤ c.repetitions
  pub active : (c.state ≡ cooldown) ⊎ (c.i < c.repetitions)
  pub begun : IsNormal c.timing.clock.start_tv
  pub fresh : (c.need_warmup ≡ false) ⊎ (c.state ≡ warmup)

-- What the clock gives.
pub record Sound (e : Inputs) : Type 0 where
  pub stopped : IsNormal e.stopped
  pub restarted : IsNormal e.restarted

-- A clock whose time was set, or is not read.
unfoldable pub SetTime : Clock → Type 0
SetTime c = (v : ℕ) × (gettime c ≡ some v)

Phase-cases : (p : Phase) → (p ≡ warmup) ⊎ (p ≡ timing_interval) ⊎ (p ≡ cooldown)
Phase-cases warmup = inl refl
Phase-cases timing_interval = inr (inl refl)
Phase-cases cooldown = inr (inr refl)

-- The run is the same: what is to be measured, and how.
unfoldable pub SameRun : Child → Child → Type 0
SameRun c c' =
    (c'.i ≡ c.i)
    × (c'.repetitions ≡ c.repetitions)
    × (c'.parallel ≡ c.parallel)
    × (c'.cleanup ≡ c.cleanup)

-- No fault, and room for what comes.
unfoldable pub Safe : Next → Type 0
Safe (go_on n c seen) = Fits c
Safe (exited seen) = Unit
Safe fault = ⊥

pub Safe-exited : (seen : List Effect) → Safe (exited seen)
unfolding Safe
Safe-exited seen = tt

pub Safe-if :
    (b : Bool) (x y : Next) → (b ≡ true → Safe x) → (b ≡ false → Safe y) → Safe (if b then x else y)
Safe-if true x y hx hy = hx refl
Safe-if false x y hx hy = hy refl

module _ (d : Double) (t_overhead : ℕ) (l_overhead : d.D) where
  pub insertsort-room :
      (u n : ℕ) (r : Table)
      → r.count < length r.v
      → (t : Table) × (insertsort d u n r ≡ some t)
        × (t.count ≤ r.count + 1)
        × (length t.v ≡ length r.v)
  insertsort-room u n r room = elim (Bool-cases (u == 0)) [
    | inl none_at_all ↦
        let z : u ≡ 0 = ground arith in (r, rw z (insertsort_no_time d n r), omega arith, refl)
    | inr some_time ↦
        let (t, run, _, one, same) = insertsort_lem d u n r (ground arith) room in
        (t, run, omega arith, same)
  ]

  current-put : (t : Table) (x : Timing) → current (put x.results t x) ≡ t
  current-put t x = ground arith

  pub measuring : (c : Child) → Fits c → c.state ≡ timing_interval → c.need_warmup ≡ false
  measuring c f now = elim f.fresh [ inl later ↦ later | inr first ↦ ground (arith, now, first) ]

  pub record_result-Fits :
      (c : Child)
      → Fits c
      → c.i < c.repetitions
      → c.state ≡ timing_interval
      → SetTime c.timing.clock
      → (c' : Child) × (record_result d t_overhead l_overhead c ≡ some c')
        × Fits c'
        × (c'.i ≡ c.i + 1)
        × (c'.repetitions ≡ c.repetitions)
        × (c'.state ≡ (if leb c.repetitions (c.i + 1) then cooldown else c.state))
        × (c'.need_warmup ≡ c.need_warmup)
        × (c'.parallel ≡ c.parallel)
        × (c'.cleanup ≡ c.cleanup)
  unfolding record_result SetTime
  record_result-Fits c f lt now (v, read) =
      let (t, run, count, same) =
        insertsort-room v (get_n c.timing.clock) (current c.timing)
          (omega (arith, f.count, f.room)) in
      let state = if leb c.repetitions (c.i + 1) then cooldown else c.state in
      let c' = record c { timing = put c.timing.results t c.timing; i = c.i + 1; state = state } in
      let kept = current-put t c.timing in
      let going : (state ≡ cooldown) ⊎ (c.i + 1 < c.repetitions) =
        elim (Bool-cases (leb c.repetitions (c.i + 1))) [
          | inl over ↦ inl (rw over)
          | inr more ↦ inr (ground arith)
        ] in
      (
        c',
        rw (read, run, record_result),
        record {
          room = rw kept (omega (arith, f.room, same));
          count = rw kept (omega (arith, f.count, count));
          bound = omega arith;
          active = going;
          begun = f.begun;
          fresh = inl (measuring c f now);
        },
        refl,
        refl,
        refl,
        refl,
        refl,
        refl,
      )

  -- The table, the count and the phase alone decide whether the measurements fit.
  Fits-same :
      (c c' : Child)
      → Fits c
      → current c'.timing ≡ current c.timing
      → c'.i ≡ c.i
      → c'.repetitions ≡ c.repetitions
      → (c'.state ≡ cooldown) ⊎ (c'.state ≡ c.state) ⊎ (c.i < c.repetitions)
      → IsNormal c'.timing.clock.start_tv
      → (c'.need_warmup ≡ false) ⊎ (c'.state ≡ warmup)
      → Fits c'
  Fits-same c c' f table same reps phase begun fresh = record {
    room = rw (table, reps) f.room;
    count = rw (table, same) f.count;
    bound = rw (same, reps) f.bound;
    active =
        rw (same, reps)
          (elim phase [
            | inl done ↦ inl done
            | inr (inl stays) ↦ elim f.active [
              | inl done ↦ inl (stays ∙ done)
              | inr going ↦ inr going
            ]
            | inr (inr going) ↦ inr going
          ]);
    begun = begun;
    fresh = fresh;
  }

  pub resume-Safe :
      (e : Inputs) (before seen : List Effect) (n : ℕ) (c : Child)
      → Sound e
      → Fits c
      → Safe (resume d t_overhead l_overhead e before (n, c, seen))
  unfolding resume Safe start
  resume-Safe e before seen n c s f =
      Fits-same c
        (record c { timing = record c.timing { clock = start e.restarted c.timing.clock } }) f refl
        refl refl (inr (inl refl)) s.restarted f.fresh

  pub measure-Fits :
      (c : Child) (e : Inputs)
      → Sound e
      → Fits c
      → (r : d.D) × (c' : Child) × (measure d t_overhead l_overhead c e ≡ some (r, c'))
        × Fits c'
        × SetTime c'.timing.clock
        × (c'.state ≡ c.state)
        × SameRun c c'
  unfolding SameRun measure SetTime stop settime save_n
  measure-Fits c e s f =
      let (u, spent) = tvdelta-normal f.begun s.stopped in
      let counted = save_n c.iterations (stop e.stopped c.timing.clock).1 in
      let overhead = d.add (d.of_u64 t_overhead) (d.mul (d.of_u64 (get_n counted)) l_overhead) in
      let result = d.sub (d.of_u64 u) overhead in
      let time = if d.less_eq (d.lit 0 1) result then d.to_u64 result else 0 in
      let c' = record c { timing = record c.timing { clock = settime time counted } } in
      (
        result,
        c',
        rw (spent, measure),
        Fits-same c c' f refl refl refl (inr (inl refl)) zero_tv-IsNormal f.fresh,
        gettime-settime-some time counted,
        refl,
        (refl, refl, refl, refl),
      )

  pub settle-Fits :
      (c : Child) (n : ℕ) (give_up : Bool)
      → Fits c
      → c.need_warmup ≡ false
      → Fits (settle d t_overhead l_overhead c (n, give_up)).1
  unfolding settle
  settle-Fits c n true f later =
      Fits-same c (record c { state = cooldown; iterations = n }) f refl refl refl (inl refl)
        f.begun (inl later)
  settle-Fits c n false f later =
      Fits-same c (record c { iterations = n }) f refl refl refl (inr (inl refl)) f.begun
        (inl later)

  pub time_interval-Fits :
      (c : Child) (r : d.D)
      → Fits c
      → c.state ≡ timing_interval
      → SetTime c.timing.clock
      → (next : ℕ × Child × List Effect) × (time_interval d t_overhead l_overhead c r ≡ some next)
        × Fits next.1
  unfolding time_interval
  time_interval-Fits c r f now set_time =
      elim (Bool-cases (long_enough d t_overhead l_overhead c r)) [
        | inl long ↦
            let lt : c.i < c.repetitions = elim f.active [
              | inl done ↦ ground (arith, now, done)
              | inr going ↦ going
            ] in
            let (c', run, f', _, _, _, later, _, _) = record_result-Fits c f lt now set_time in
            (
              settle d t_overhead l_overhead c' (adjust d t_overhead l_overhead c r),
              rw (long, run, time_interval),
              settle-Fits c' (adjust d t_overhead l_overhead c r).0
                  (adjust d t_overhead l_overhead c r).1 f' (later ∙ measuring c f now),
            )
        | inr short ↦ (
          settle d t_overhead l_overhead c (adjust d t_overhead l_overhead c r),
          rw (short, time_interval),
          settle-Fits c (adjust d t_overhead l_overhead c r).0
              (adjust d t_overhead l_overhead c r).1 f (measuring c f now),
        )
      ]

  pub warm-Fits :
      (c : Child) (e : Inputs)
      → Fits c
      → c.state ≡ warmup
      → Fits (warm d t_overhead l_overhead c e).1
  unfolding warm
  warm-Fits c e f now =
      Fits-same c
        (record c {
          state = if e.start_ready then timing_interval else c.state;
          need_warmup = false;
        })
        f refl refl refl
        (elim f.active [ inl done ↦ ground (arith, now, done) | inr going ↦ inr (inr going) ])
        f.begun (inl refl)
