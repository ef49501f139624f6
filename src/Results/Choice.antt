-- ===== src/Results/Choice.antt =====
-- The measurement that `save_minimum`, `save_median` and `set_results` of src/lib_timing.c choose, and
-- the room that `sizeof_result` asks for.
use qnx_lmbench_mods.Base.{
  ℕ, zero, suc, ◌+◌, ◌-◌, ◌*◌, ◌/◌, ◌%◌, ◌<◌, ◌≤◌, ◌≡◌, refl, subst, ap, false, some, List, [], ◌∷◌,
  length, take, arith, ◌==◌, Bool-cases, inl, inr, ◌^◌,
}
use qnx_lmbench_mods.Clock.{u64, gettime, get_n, save_n}
use qnx_lmbench_mods.Clock.Delta.{gettime-settime, gettime-settime-some}
use qnx_lmbench_mods.Double.{Double, RatioOrder}
use qnx_lmbench_mods.Results.{
  Value, Table, value_at, above, tries, sizeof_value_t, sizeof_result, Timing, current,
  save_minimum, median, save_median, set_results, get_results,
}
use qnx_lmbench_mods.Results.Insert.{entries}
use qnx_lmbench_mods.Results.Order.{Bounds, IsDesc, IsSorted}

value_at-take : (v : List Value) (n i : ℕ) → i < n → value_at (take n v) i ≡ value_at v i
value_at-take v zero i h = absurd (omega arith)
value_at-take [] (suc n) i h = refl
value_at-take (x ∷ v) (suc n) zero h = refl
value_at-take (x ∷ v) (suc n) (suc i) h = value_at-take v n i (omega arith)

length-take_le : (v : List Value) (n : ℕ) → n ≤ length v → length (take n v) ≡ n
length-take_le v zero h = refl
length-take_le [] (suc n) h = absurd (omega arith)
length-take_le (x ∷ v) (suc n) h = ap suc (length-take_le v n (omega arith))

module _ (d : Double) where
  Bounds-value_at :
      (x : Value) (l : List Value) (j : ℕ)
      → Bounds d x l
      → j < length l
      → above d (value_at l j) x ≡ false
  Bounds-value_at x [] j b h = absurd (omega arith)
  Bounds-value_at x (y ∷ l) zero (b, bs) h = b
  Bounds-value_at x (y ∷ l) (suc j) (b, bs) h = Bounds-value_at x l j bs (omega arith)

  IsDesc-value_at :
      (l : List Value) (i j : ℕ)
      → IsDesc d l
      → i < j
      → j < length l
      → above d (value_at l j) (value_at l i) ≡ false
  IsDesc-value_at [] i j s lt h = absurd (omega arith)
  IsDesc-value_at (x ∷ l) i zero s lt h = absurd (omega arith)
  IsDesc-value_at (x ∷ l) zero (suc j) (b, s) lt h = Bounds-value_at x l j b (omega arith)
  IsDesc-value_at (x ∷ l) (suc i) (suc j) (b, s) lt h =
      IsDesc-value_at l i j s (omega arith) (omega arith)

  module _ (o : RatioOrder d) (r : Table) (s : IsSorted d o r) (fits : r.count ≤ length r.v) where
    -- No measurement of a sorted table exceeds an earlier one.
    later_below :
        (i j : ℕ) → i < j → j < r.count → above d (value_at r.v j) (value_at r.v i) ≡ false
    later_below i j lt h =
        let below =
          IsDesc-value_at (entries r) i j s.desc lt (rw (length-take_le r.v r.count fits) h) in
        subst (λ x. above d x (value_at r.v i) ≡ false) (value_at-take r.v r.count j h)
          (subst (λ x. above d (value_at (entries r) j) x ≡ false)
            (value_at-take r.v r.count i (omega arith)) below)

    -- If `>` orders the quotients of positive numbers, then after an odd number of measurements that
    -- stand in the memory of the table `save_median` takes the middle one of the sorted table: as
    -- many measurements stand before it as behind it, it exceeds none of those before it, and none of
    -- those behind it exceeds it.
    pub median_odd :
        (j k : ℕ)
        → r.count % 2 ≡ 1
        → j < r.count / 2
        → r.count / 2 < k
        → k < r.count
        → (median r ≡ value_at r.v (r.count / 2))
          × (r.count / 2 + r.count / 2 + 1 ≡ r.count)
          × (above d (median r) (value_at r.v j) ≡ false)
          × (above d (value_at r.v k) (median r) ≡ false)
    unfolding median
    median_odd j k odd lt gt h =
        let middle : median r ≡ value_at r.v (r.count / 2) = ground arith in
        (
          middle,
          omega arith,
          rw middle (later_below j (r.count / 2) lt (omega arith)),
          rw middle (later_below (r.count / 2) k gt h),
        )

  -- If `>` orders the quotients of positive numbers, then after `save_minimum` on a sorted table of
  -- more than one measurement, which stand in its memory and the last of which took a time of 64 bits,
  -- `gettime` and `get_n` read a measurement of the table that exceeds none of those before the last.
  pub save_minimum_least :
      (o : RatioOrder d) (t : Timing) (j : ℕ)
      → IsSorted d o (current t)
      → (current t).count ≤ length (current t).v
      → j + 1 < (current t).count
      → (value_at (current t).v ((current t).count - 1)).u < u64
      → (x : Value) × (gettime (save_minimum t).clock ≡ some x.u)
        × (get_n (save_minimum t).clock ≡ x.n)
        × ((i : ℕ) × (i < (current t).count) × (value_at (current t).v i ≡ x))
        × (above d x (value_at (current t).v j) ≡ false)
  unfolding save_minimum
  save_minimum_least o t j s fits earlier small =
      let r = current t in
      let last = value_at r.v (r.count - 1) in
      let (time, _, n) = gettime-settime last.u last.n t.clock small in
      let nonempty : (r.count == 0) ≡ false = ground arith in
      rw nonempty (
        last,
        time,
        n,
        (r.count - 1, omega arith, refl),
        later_below o r s fits j (r.count - 1) (omega arith) (omega arith),
      )

-- `set_results` makes its argument the current table, changes no table, and leaves in `gettime` and
-- `get_n` the median of that table.
pub set_results_lem :
    (p : ℕ) (t : Timing)
    → (median (t.tables p)).u < u64
    → (get_results (set_results p t) ≡ p)
      × ((set_results p t).tables ≡ t.tables)
      × (gettime (set_results p t).clock ≡ some (median (t.tables p)).u)
      × (get_n (set_results p t).clock ≡ (median (t.tables p)).n)
unfolding set_results save_median get_results
set_results_lem p t small =
    let m = median (t.tables p) in
    let (time, _, n) = gettime-settime m.u m.n t.clock small in (refl, refl, time, n)

-- Whatever the table holds, the time that `save_minimum` leaves can be read, and no table changes.
pub save_minimum-reads :
    (t : Timing)
    → (u : ℕ) × (gettime (save_minimum t).clock ≡ some u)
      × ((save_minimum t).tables ≡ t.tables)
      × (get_results (save_minimum t) ≡ get_results t)
unfolding save_minimum get_results
save_minimum-reads t =
    let r = current t in
    let last = value_at r.v (r.count - 1) in
    elim (Bool-cases (r.count == 0)) [
      | inl empty ↦
          let (u, read) = gettime-settime-some 0 (save_n 1 t.clock) in
          rw empty (u, read, refl, refl)
      | inr more ↦
          let (u, read) = gettime-settime-some last.u (save_n last.n t.clock) in
          rw more (u, read, refl, refl)
    ]

-- Memory of `sizeof_result(repetitions)` bytes holds the count and as many values as there are
-- repetitions, and at least `TRIES` of them, if the size fits the `int` that is returned.
pub sizeof_result_room :
    (repetitions : ℕ)
    → repetitions + tries < 2 ^ 27
    → (8 + repetitions * sizeof_value_t ≤ sizeof_result repetitions)
      × (8 + tries * sizeof_value_t ≤ sizeof_result repetitions)
      × (sizeof_result repetitions ≤ 8 + (repetitions + tries) * sizeof_value_t)
unfolding sizeof_result
sizeof_result_room repetitions small = (ground arith, ground arith, ground arith)
