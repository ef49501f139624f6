-- ===== src/Parent/Merge.antt =====
-- What `benchmp_parent` of src/lib_timing.c makes of the measurements of its children.
use mathlib.Core.List.{Perm, append_assoc, append-nil, perm_append_comm}
use mathlib.Core.List.Perm
use qnx_lmbench_mods.Base.{
  ℕ, zero, suc, ◌+◌, ◌*◌, ◌≤◌, ◌≡◌, refl, sym, subst, ap, ap₂, ◌∙◌, true, false, some, List, [],
  ◌∷◌, ◌++◌, length, take, drop, length-take, length-append, take-append_length, drop-append_length,
  Bool-cases, inl, inr, arith, leb, ◌==◌,
}
use qnx_lmbench_mods.Double.{Double, RatioOrder}
use qnx_lmbench_mods.Harness.{put}
use qnx_lmbench_mods.Results.{
  Value, Table, Timing, current, insertinit, set_results, save_median, sizeof_result,
}
use qnx_lmbench_mods.Results.Insert.{entries}
use qnx_lmbench_mods.Results.Order.{IsSorted, timed, insert_all_lem, insert_all-count}
use qnx_lmbench_mods.Parent.{
  Round, Act, ask_result, send_start, send_exit, reset_sigchld, collected, collect, merge, gathered,
  gather, finished, warmup_pause, benchmp_parent,
}
use qnx_lmbench_mods.Parent.Collect.{Calm, fruitful, collect-Calm}

-- One list after the other.
abbrev pub join {ℓ} : {A : Type ℓ} → List (List A) → List A
join [] = []
join (x ∷ xs) = x ++ join xs

-- The parent's requests for results.
abbrev pub requests : ℕ → List Act
requests zero = []
requests (suc n) = ask_result ∷ requests n

pub timed-append : (xs ys : List Value) → timed (xs ++ ys) ≡ timed xs ++ timed ys
timed-append [] ys = refl
timed-append (x ∷ xs) ys = elim (Bool-cases (x.u == 0)) [
  | inl none_at_all ↦ rw none_at_all (timed-append xs ys)
  | inr some_time ↦ rw some_time (ap (λ l. x ∷ l) (timed-append xs ys))
]

module _ (d : Double) (o : RatioOrder d) (decode : List ℕ → Table) where
  -- The messages of the children: each fills the buffer, and reads as a table that holds no more
  -- measurements than there are repetitions, and no more than it has room for.
  abbrev pub Replies : (repetitions : ℕ) → List (List ℕ) → Type 0
  Replies repetitions [] = Unit
  Replies repetitions (b ∷ bs) =
      (length b ≡ sizeof_result repetitions)
      × ((decode b).count ≤ length (decode b).v)
      × ((decode b).count ≤ repetitions)
      × Replies repetitions bs

  -- All measurements in the messages.
  abbrev pub measurements : List (List ℕ) → List Value
  measurements [] = []
  measurements (b ∷ bs) = entries (decode b) ++ measurements bs

  merge-reply :
      (b : List ℕ) (repetitions : ℕ) (r : Table)
      → (decode b).count ≤ length (decode b).v
      → (decode b).count ≤ repetitions
      → IsSorted d o r
      → r.count + repetitions ≤ length r.v
      → (t : Table) × (merge d decode (decode b) r ≡ some t)
        × IsSorted d o t
        × Perm (entries t) (timed (entries (decode b)) ++ entries r)
        × (length t.v ≡ length r.v)
        × (t.count ≤ r.count + repetitions)
  merge-reply b repetitions r fits few sorted room =
      let size : length (entries (decode b)) ≡ (decode b).count =
        length-take (decode b).count (decode b).v ∙ omega arith in
      let (t, run, sorted', perm, len) =
        insert_all_lem d o (entries (decode b)) r sorted (omega (arith, size)) in
      let inside : leb (decode b).count (length (decode b).v) ≡ true = ground arith in
      let count = insert_all-count d o (entries (decode b)) r t (omega (arith, size)) run in
      (t, rw (merge, inside) run, sorted', perm, len, omega (arith, count, size))

  gather-Replies :
      (replies : List (List ℕ)) (repetitions : ℕ) (rounds : List Round) (rest : List ℕ) (r : Table)
      → (acts : List Act) → Replies repetitions replies
      → Calm rounds
      → sizeof_result repetitions * length replies ≤ fruitful rounds
      → IsSorted d o r
      → r.count + repetitions * length replies ≤ length r.v
      → (t : Table) × (gather d decode
            (length replies)
            (sizeof_result repetitions)
            rounds
            (join replies ++ rest)
            r
            acts
          ≡ gathered t (acts ++ requests (length replies)))
        × IsSorted d o t
        × Perm (entries t) (timed (measurements replies) ++ entries r)
        × (length t.v ≡ length r.v)
  unfolding gather
  gather-Replies [] repetitions rounds rest r acts h calm enough sorted room =
      (r, ap (gathered r) (sym (append-nil acts)), sorted, Perm.rfl, refl)
  gather-Replies (b ∷ bs) repetitions rounds rest r acts (len, fits, few, more) calm enough sorted
        room =
      let size = sizeof_result repetitions in
      let pipe = join (b ∷ bs) ++ rest in
      let sizes : size * suc (length bs) ≡ size + size * length bs = grind arith in
      let counts : repetitions * suc (length bs) ≡ repetitions + repetitions * length bs =
        grind arith in
      let whole : pipe ≡ b ++ (join bs ++ rest) = append_assoc b (join bs) rest in
      let long : size ≤ length pipe =
        omega (arith, len, ap length whole, length-append b (join bs ++ rest)) in
      let (rounds', read, calm', left_over) =
        collect-Calm size rounds pipe [] calm (omega (arith, sizes, enough)) long in
      let got : take size pipe ≡ b =
        ap₂ take (sym len) whole ∙ take-append_length b (join bs ++ rest) in
      let kept : drop size pipe ≡ join bs ++ rest =
        ap₂ drop (sym len) whole ∙ drop-append_length b (join bs ++ rest) in
      let (r', merged, sorted', perm, len', count) =
        merge-reply b repetitions r fits few sorted (omega (arith, counts, room)) in
      let (t, done, sorted2, perm2, len2) =
        gather-Replies bs repetitions rounds' rest r' (acts ++ (ask_result ∷ [])) more calm'
          (omega (arith, left_over, sizes, enough)) sorted'
          (omega (arith, counts, room, count, len')) in
      let read' : collect size rounds pipe [] ≡ collected b (join bs ++ rest) rounds' =
        read ∙ ap₂ (λ g p. collected g p rounds') got kept in
      let step : gather d decode (suc (length bs)) size rounds pipe r acts
          ≡ gather d decode (length bs) size rounds' (join bs ++ rest) r'
              (acts ++ (ask_result ∷ [])) =
        rw (gather, read', merged) refl in
      (
        t,
        step ∙ done ∙ ap (gathered t) (append_assoc acts (ask_result ∷ []) (requests (length bs))),
        sorted2,
        Perm.trans perm2 (
            Perm.trans (Perm.append_left (timed (measurements bs)) perm) (
              rw (timed-append (entries (decode b)) (measurements bs)) (
                subst
                  (λ l.
                    Perm l ((timed (entries (decode b)) ++ timed (measurements bs)) ++ entries r))
                  (append_assoc (timed (measurements bs)) (timed (entries (decode b))) (entries r))
                  (Perm.append_right (entries r)
                    (perm_append_comm (timed (measurements bs)) (timed (entries (decode b)))))))),
        len2 ∙ len',
      )

  -- The table that the parent leaves is the merged one.
  merged-current :
      (m : ℕ) (merged : Table) (t : Timing) → current (set_results m (put m merged t)) ≡ merged
  unfolding set_results save_median
  merged-current m merged t = let here : (m == m) ≡ true = ground arith in rw here refl

  -- If no signal comes and no call fails, every child sends a byte when it is ready, a byte when it is
  -- done, and its table, the merged table has room for all repetitions of all children, and as many
  -- rounds of `select` read something as there are bytes, in whatever pieces, then `benchmp_parent`
  -- ends with the merged table as the current one, in order, and in it all measurements of all children
  -- that took some time, each as often as it was measured; after the warmup it has started the
  -- children, asked each for its results, and let them exit.
  pub benchmp_parent_merges :
      (rounds : List Round) (ready done : List ℕ) (replies : List (List ℕ))
      (warmup repetitions m : ℕ)
      → (t : Timing) → Calm rounds
      → length ready ≡ length replies
      → length done ≡ length replies
      → Replies repetitions replies
      → repetitions * length replies ≤ length (t.tables m).v
      → length replies + (length replies + sizeof_result repetitions * length replies)
        ≤ fruitful rounds
      → (t' : Timing) × (benchmp_parent d decode false true rounds
            (ready ++ (done ++ join replies))
            (length replies)
            warmup
            repetitions
            m
            t
          ≡ finished t' (
              warmup_pause warmup
              ++ (send_start (length replies) ∷ [])
              ++ requests (length replies)
              ++ (reset_sigchld ∷ send_exit (length replies) ∷ [])))
        × (t'.results ≡ m)
        × IsSorted d o (current t')
        × Perm (entries (current t')) (timed (measurements replies))
  unfolding benchmp_parent set_results save_median insertinit
  benchmp_parent_merges rounds ready done replies warmup repetitions m t calm one two proper room
        enough =
      let n = length replies in
      let tail = done ++ join replies in
      let size = sizeof_result repetitions in
      let (rounds1, read1, calm1, left1) =
        collect-Calm n rounds (ready ++ tail) [] calm (omega (arith, enough))
          (omega (arith, one, length-append ready tail)) in
      let first : collect n rounds (ready ++ tail) [] ≡ collected ready tail rounds1 =
        read1
        ∙ ap₂ (λ g p. collected g p rounds1)
            (ap (λ k. take k (ready ++ tail)) (sym one) ∙ take-append_length ready tail)
            (ap (λ k. drop k (ready ++ tail)) (sym one) ∙ drop-append_length ready tail) in
      let (rounds2, read2, calm2, left2) =
        collect-Calm n rounds1 tail [] calm1 (omega (arith, enough, left1))
          (omega (arith, two, length-append done (join replies))) in
      let second : collect n rounds1 tail [] ≡ collected done (join replies) rounds2 =
        read2
        ∙ ap₂ (λ g p. collected g p rounds2)
            (ap (λ k. take k tail) (sym two) ∙ take-append_length done (join replies))
            (ap (λ k. drop k tail) (sym two) ∙ drop-append_length done (join replies)) in
      let started = warmup_pause warmup ++ (send_start n ∷ []) in
      let empty = insertinit (t.tables m) in
      let sorted : IsSorted d o empty = record { desc = tt; pos = tt } in
      let (merged, run, sorted', perm, _) =
        gather-Replies replies repetitions rounds2 [] empty started proper calm2
          (omega (arith, enough, left1, left2)) sorted (omega (arith, room)) in
      let run' : gather d decode n size rounds2 (join replies) empty started
          ≡ gathered merged (started ++ requests n) =
        ap (λ p. gather d decode n size rounds2 p empty started) (sym (append-nil (join replies)))
        ∙ run in
      let now = merged-current m merged t in
      (
        set_results m (put m merged t),
        rw (benchmp_parent, first, second, run') refl,
        refl,
        subst (λ r. IsSorted d o r) (sym now) sorted',
        subst (λ r. Perm (entries r) (timed (measurements replies))) (sym now)
            (subst (λ l. Perm (entries merged) l) (append-nil (timed (measurements replies))) perm),
      )
