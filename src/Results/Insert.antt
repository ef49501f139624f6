-- ===== src/Results/Insert.antt =====
-- `insertsort` of src/lib_timing.c against insertion into a list.
use qnx_lmbench_mods.Base.{
  ℕ, zero, suc, ◌+◌, ◌-◌, ◌<◌, ◌≤◌, ◌≡◌, refl, sym, subst, ap, ap₂, ◌∙◌, none, some, List, [], ◌∷◌,
  ◌++◌, length, set, take, drop, length-set, get_or-set_ne, get_or-set_self, inl, inr, arith,
  Bool-cases, if◌then◌else◌,
}
use qnx_lmbench_mods.Double.{Double}
use qnx_lmbench_mods.Results.{Value, unset, Table, value_at, shift, above, position, insertsort}

-- The measurements of a table.
abbrev pub entries : Table → List Value
entries r = take r.count r.v

length-shift : (k i : ℕ) (v : List Value) → length (shift k i v) ≡ length v
unfolding shift
length-shift zero i v = refl
length-shift (suc k) i v =
    length-shift k i (set v (i + suc k) (value_at v (i + k))) ∙ length-set v (i + suc k) _

-- The part of the table before the index is not touched.
shift-cons : (k i : ℕ) (y : Value) (v : List Value) → shift k (suc i) (y ∷ v) ≡ y ∷ shift k i v
unfolding shift
shift-cons zero i y v = refl
shift-cons (suc k) i y v =
    let a : suc i + suc k ≡ suc (i + suc k) = omega arith in
    let b : suc i + k ≡ suc (i + k) = omega arith in
    rw (a, b) (shift-cons k i y (set v (i + suc k) (value_at v (i + k))))

-- The part behind the shifted values is not touched either.
value_at-shift_after : (k j : ℕ) (v : List Value) → k < j → value_at (shift k 0 v) j ≡ value_at v j
unfolding shift
value_at-shift_after zero j v h = refl
value_at-shift_after (suc k) j v h =
    value_at-shift_after k j (set v (0 + suc k) (value_at v (0 + k))) (omega arith)
    ∙ get_or-set_ne v (0 + suc k) j (value_at v (0 + k)) unset (λ e. omega arith)

take-set_ge : (v : List Value) (k j : ℕ) (x : Value) → k ≤ j → take k (set v j x) ≡ take k v
take-set_ge v zero j x h = refl
take-set_ge [] (suc k) j x h = refl
take-set_ge (y ∷ v) (suc k) zero x h = absurd (omega arith)
take-set_ge (y ∷ v) (suc k) (suc j) x h = ap (◌∷◌ y) (take-set_ge v k j x (omega arith))

take-suc :
    (v : List Value) (k : ℕ) → k < length v → take (suc k) v ≡ take k v ++ (value_at v k ∷ [])
take-suc [] k h = absurd (omega arith)
take-suc (y ∷ v) zero h = refl
take-suc (y ∷ v) (suc k) h = ap (◌∷◌ y) (take-suc v k (omega arith))

-- Shifting the first `k` values by one and writing the first puts the new value before them.
take-shift :
    (k : ℕ) (v : List Value) (x : Value)
    → k < length v
    → take (suc k) (set (shift k 0 v) 0 x) ≡ x ∷ take k v
unfolding shift
take-shift zero [] x h = absurd (omega arith)
take-shift zero (y ∷ v) x h = refl
take-shift (suc k) v x h =
    let w : List Value = set v (0 + suc k) (value_at v (0 + k)) in
    let in_w : length w ≡ length v = length-set v (0 + suc k) (value_at v (0 + k)) in
    let moved : List Value = set (shift k 0 w) 0 x in
    let room : suc k < length moved =
      omega (arith, length-set (shift k 0 w) 0 x, length-shift k 0 w) in
    let at_end : value_at moved (suc k) ≡ value_at v k =
      get_or-set_ne (shift k 0 w) 0 (suc k) x unset (λ e. omega arith)
      ∙ value_at-shift_after k (suc k) w (omega arith)
      ∙ subst (λ i. value_at (set v i (value_at v (0 + k))) (suc k) ≡ value_at v k) (sym zero_suc)
          (get_or-set_self v (suc k) (value_at v (0 + k)) unset h ∙ ap (value_at v) zero_left) in
    take-suc moved (suc k) room
    ∙ ap₂ (λ a b. a ++ (b ∷ [])) (take-shift k w x (omega arith)) at_end
    ∙ ap (λ l. x ∷ (l ++ (value_at v k ∷ [])))
        (take-set_ge v k (0 + suc k) (value_at v (0 + k)) (omega arith))
    ∙ ap (◌∷◌ x) (sym (take-suc v k (omega arith)))
  where
    zero_suc : 0 + suc k ≡ suc k
    zero_suc = omega arith

    zero_left : 0 + k ≡ k
    zero_left = omega arith

-- At any index: the values before it stay, and the next `k` move up.
take-shift_at :
    (i k : ℕ) (v : List Value) (x : Value)
    → i + k < length v
    → take (suc (i + k)) (set (shift k i v) i x) ≡ take i v ++ (x ∷ take k (drop i v))
take-shift_at zero k v x h =
    let z : 0 + k ≡ k = omega arith in rw z (take-shift k v x (omega arith))
take-shift_at (suc i) k [] x h = absurd (omega arith)
take-shift_at (suc i) k (y ∷ v) x h =
    let s : suc i + k ≡ suc (i + k) = omega arith in
    rw (s, shift-cons k i y v) (ap (◌∷◌ y) (take-shift_at i k v x (omega arith)))

module _ (d : Double) where
  -- Insertion before the first value that the new one exceeds.
  unfoldable pub insert_desc : Value → List Value → List Value
  insert_desc x [] = x ∷ []
  insert_desc x (y ∷ l) = if above d x y then x ∷ y ∷ l else y ∷ insert_desc x l

  position-cons :
      (k i : ℕ) (y : Value) (v : List Value) (x : Value)
      → position d k (suc i) (y ∷ v) x ≡ suc (position d k i v x)
  unfolding position
  position-cons zero i y v x = refl
  position-cons (suc k) i y v x =
      let a : suc i + 1 ≡ suc (i + 1) = omega arith in
      ground (arith, a, position-cons k (i + 1) y v x)

  -- The loop stops inside the measurements or right behind them, where insertion puts the value.
  position-insert_desc :
      (k : ℕ) (v : List Value) (x : Value)
      → k ≤ length v
      → (position d k 0 v x ≤ k)
        × (take (position d k 0 v x) v
              ++ (x ∷ take (k - position d k 0 v x) (drop (position d k 0 v x) v))
            ≡ insert_desc x (take k v))
  unfolding position insert_desc
  position-insert_desc zero v x h = (omega arith, refl)
  position-insert_desc (suc k) [] x h = absurd (omega arith)
  position-insert_desc (suc k) (y ∷ v) x h = elim (Bool-cases (above d x y)) [
    | inl e ↦ let z : suc k - 0 ≡ suc k = omega arith in rw (e, z) (omega arith, refl)
    | inr e ↦
        let p : ℕ = position d k 0 v x in
        let (le, eq) = position-insert_desc k v x (omega arith) in
        let s : suc k - suc p ≡ k - p = omega arith in
        rw (e, position-cons k 0 y v x, s) (omega arith, ap (◌∷◌ y) eq)
  ]

  -- A measurement of no time is dropped.
  pub insertsort_no_time : (n : ℕ) (r : Table) → insertsort d 0 n r ≡ some r
  unfolding insertsort
  insertsort_no_time n r = refl

  -- Without room for one more value the call writes outside the table.
  pub insertsort_overflow :
      (u n : ℕ) (r : Table) → 0 < u → length r.v ≤ r.count → insertsort d u n r ≡ none
  unfolding insertsort
  insertsort_overflow u n r pos full = ground arith

  -- A measurement that took some time is inserted before the first measurement whose time per
  -- iteration it exceeds, if the table has room for one more: the table then holds one more
  -- measurement in the same memory.
  pub insertsort_lem :
      (u n : ℕ) (r : Table)
      → 0 < u
      → r.count < length r.v
      → (t : Table) × (insertsort d u n r ≡ some t)
        × (entries t ≡ insert_desc (record { u = u; n = n }) (entries r))
        × (t.count ≡ r.count + 1)
        × (length t.v ≡ length r.v)
  unfolding insertsort
  insertsort_lem u n r pos room =
      let x : Value = record { u = u; n = n } in
      let i = position d r.count 0 r.v x in
      let moved = set (shift (r.count - i) i r.v) i x in
      let (le, eq) = position-insert_desc r.count r.v x (omega arith) in
      let one : suc (i + (r.count - i)) ≡ r.count + 1 = omega arith in
      let placed : take (r.count + 1) moved ≡ insert_desc x (entries r) =
        subst (λ m. take m moved ≡ take i r.v ++ (x ∷ take (r.count - i) (drop i r.v))) one
          (take-shift_at i (r.count - i) r.v x (omega arith))
        ∙ eq in
      (
        record { count = r.count + 1; v = moved },
        ground arith,
        placed,
        refl,
        length-set (shift (r.count - i) i r.v) i x ∙ length-shift (r.count - i) i r.v,
      )
