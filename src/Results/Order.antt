-- ===== src/Results/Order.antt =====
-- The order that `insertsort` of src/lib_timing.c keeps, "biggest to smallest", and what a table holds
-- after a run of measurements.
use mathlib.Core.List.{Perm, perm_middle}
use mathlib.Core.List.Perm
use mathlib.Core.Option.{some-injective}
use qnx_lmbench_mods.Base.{
  ◌+◌, ◌<◌, ◌≤◌, ◌≡◌, refl, ap, ◌∙◌, false, some, List, [], ◌∷◌, ◌++◌, length, inl, inr, arith,
  Bool-cases, ◌==◌, if◌then◌else◌,
}
use qnx_lmbench_mods.Double.{Double, RatioOrder}
use qnx_lmbench_mods.Results.{Value, Table, above, insertsort, insert_all}
use qnx_lmbench_mods.Results.Insert.{entries, insert_desc, insertsort_lem, insertsort_no_time}

-- Every measurement took some time.
abbrev pub AllPos : List Value → Type 0
AllPos [] = Unit
AllPos (x ∷ l) = (0 < x.u) × AllPos l

-- The measurements that took some time.
abbrev pub timed : List Value → List Value
timed [] = []
timed (x ∷ l) = if x.u == 0 then timed l else x ∷ timed l

module _ (d : Double) where
  -- No value of the list exceeds `x`.
  abbrev pub Bounds : Value → List Value → Type 0
  Bounds x [] = Unit
  Bounds x (y ∷ l) = (above d y x ≡ false) × Bounds x l

  -- Biggest to smallest: no later value exceeds an earlier one.
  abbrev pub IsDesc : List Value → Type 0
  IsDesc [] = Unit
  IsDesc (x ∷ l) = Bounds x l × IsDesc l

  insert_desc-perm : (x : Value) (l : List Value) → Perm (insert_desc d x l) (x ∷ l)
  unfolding insert_desc
  insert_desc-perm x [] = Perm.rfl
  insert_desc-perm x (y ∷ l) = elim (Bool-cases (above d x y)) [
    | inl e ↦ rw e Perm.rfl
    | inr e ↦ rw e (Perm.trans (Perm.cons y (insert_desc-perm x l)) (Perm.swap x y l))
  ]

  insert_desc-AllPos :
      (x : Value) (l : List Value) → 0 < x.u → AllPos l → AllPos (insert_desc d x l)
  unfolding insert_desc
  insert_desc-AllPos x [] p h = (p, tt)
  insert_desc-AllPos x (y ∷ l) p (hy, hl) = elim (Bool-cases (above d x y)) [
    | inl e ↦ rw e (p, (hy, hl))
    | inr e ↦ rw e (hy, insert_desc-AllPos x l p hl)
  ]

  module _ (o : RatioOrder d) where
    Bounds-trans :
        (x y : Value) (l : List Value)
        → 0 < x.u
        → 0 < y.u
        → AllPos l
        → above d y x ≡ false
        → Bounds y l
        → Bounds x l
    Bounds-trans x y [] px py pl h b = tt
    Bounds-trans x y (z ∷ l) px py (pz, pl) h (b, bs) =
        (o.trans z.u z.n y.u y.n x.u x.n pz py px b h, Bounds-trans x y l px py pl h bs)

    Bounds-insert_desc :
        (x y : Value) (l : List Value)
        → above d x y ≡ false
        → Bounds y l
        → Bounds y (insert_desc d x l)
    unfolding insert_desc
    Bounds-insert_desc x y [] h b = (h, tt)
    Bounds-insert_desc x y (z ∷ l) h (b, bs) = elim (Bool-cases (above d x z)) [
      | inl e ↦ rw e (h, (b, bs))
      | inr e ↦ rw e (b, Bounds-insert_desc x y l h bs)
    ]

    insert_desc-IsDesc :
        (x : Value) (l : List Value) → 0 < x.u → AllPos l → IsDesc l → IsDesc (insert_desc d x l)
    unfolding insert_desc
    insert_desc-IsDesc x [] p pl s = (tt, tt)
    insert_desc-IsDesc x (y ∷ l) p (py, pl) (b, s) = elim (Bool-cases (above d x y)) [
      | inl e ↦
          let below : above d y x ≡ false = o.asym x.u x.n y.u y.n p py e in
          rw e ((below, Bounds-trans x y l p py pl below b), (b, s))
      | inr e ↦ rw e (Bounds-insert_desc x y l e b, insert_desc-IsDesc x l p pl s)
    ]

    -- A table that holds measurements of some time, in order.
    pub record IsSorted (r : Table) : Type 0 where
      pub desc : IsDesc (entries r)
      pub pos : AllPos (entries r)

    -- A run of measurements that a sorted table has room for is taken completely, if `>` orders the
    -- quotients of positive numbers: the table then holds
    -- those of them that took some time, beside what it held, each as often as it was measured,
    -- biggest to smallest.
    pub insert_all_lem :
        (xs : List Value) (r : Table)
        → IsSorted r
        → r.count + length xs ≤ length r.v
        → (t : Table) × (insert_all d xs r ≡ some t)
          × IsSorted t
          × Perm (entries t) (timed xs ++ entries r)
          × (length t.v ≡ length r.v)
    unfolding insert_all
    insert_all_lem [] r s room = (r, refl, s, Perm.rfl, refl)
    insert_all_lem (x ∷ xs) r s room = elim (Bool-cases (x.u == 0)) [
      | inl none_at_all ↦
          let same : insertsort d x.u x.n r ≡ some r =
            (let z : x.u ≡ 0 = ground arith in rw z (insertsort_no_time d x.n r)) in
          rw (none_at_all, same, insert_all) (insert_all_lem xs r s (omega arith))
      | inr some_time ↦
          let p : 0 < x.u = ground arith in
          let (r', eq, put, more, room') = insertsort_lem d x.u x.n r p (omega arith) in
          let s' : IsSorted r' = record {
            desc = rw put (insert_desc-IsDesc x (entries r) p s.pos s.desc);
            pos = rw put (insert_desc-AllPos x (entries r) p s.pos);
          } in
          let (t, run, sorted, perm, len) = insert_all_lem xs r' s' (omega arith) in
          (
            t,
            rw (eq, insert_all) run,
            sorted,
            rw some_time (
                Perm.trans perm (
                  Perm.trans (Perm.append_left (timed xs) (rw put (insert_desc-perm x (entries r))))
                    (perm_middle (timed xs) (entries r)))),
            len ∙ room',
          )
    ]

    -- No measurement is entered twice.
    pub insert_all-count :
        (xs : List Value) (r t : Table)
        → r.count + length xs ≤ length r.v
        → insert_all d xs r ≡ some t
        → t.count ≤ r.count + length xs
    unfolding insert_all
    insert_all-count [] r t room e =
        let same : r ≡ t = some-injective r t e in
        let n : r.count ≡ t.count = ap (λ (x : Table). x.count) same in omega (arith, n)
    insert_all-count (x ∷ xs) r t room e = elim (Bool-cases (x.u == 0)) [
      | inl none_at_all ↦
          let same : insertsort d x.u x.n r ≡ some r =
            (let z : x.u ≡ 0 = ground arith in rw z (insertsort_no_time d x.n r)) in
          omega (arith, insert_all-count xs r t (omega arith) (rw (same, insert_all) at e))
      | inr some_time ↦
          let p : 0 < x.u = ground arith in
          let (r', eq, put, more, room') = insertsort_lem d x.u x.n r p (omega arith) in
          omega (arith, insert_all-count xs r' t (omega arith) (rw (eq, insert_all) at e), more)
    ]
