-- ===== src/Stats/Tests.antt =====
-- The statistics at concrete inputs.
use mathlib.Core.List.{Perm}
use mathlib.Core.List.Perm
use qnx_lmbench_mods.Base.{
  ℕ, ◌*◌, ◌≤◌, ◌≡◌, refl, ◌∙◌, true, some, List, [], ◌∷◌, ltb, Bool-cases, inl, inr, if◌then◌else◌,
  arith, ◌<◌, ◌^◌, ◌-◌, map,
}
use qnx_lmbench_mods.Base.Int.{ℤ, pos, pos_part, ltb_ℤ}
use qnx_lmbench_mods.Clock.{u64}
use qnx_lmbench_mods.Double.Whole.{whole}
use qnx_lmbench_mods.Stats.{uint64_mean}
use qnx_lmbench_mods.Stats.Spread.{add_up, over_less_one, moment_of, uint64_variance, uint64_moment}
use qnx_lmbench_mods.Stats.Spread.Wraps.{gap, variance_and_moment}
use qnx_lmbench_mods.Stats.Medians.{uint64_median}
use qnx_lmbench_mods.Stats.Medians.Middle.{
  number, NotAfter, NotAfterAll, Ordered, IsOrder, uint64_median_lem,
}

-- Insertion sort by the comparison for `qsort`.
insert : (ℕ → ℕ → ℤ) → ℕ → List ℕ → List ℕ
insert compare x [] = x ∷ []
insert compare x (y ∷ ys) =
    if ltb_ℤ (pos 0) (compare x y) then y ∷ insert compare x ys else x ∷ y ∷ ys

sort : (ℕ → ℕ → ℤ) → List ℕ → List ℕ
sort compare [] = []
sort compare (x ∷ xs) = insert compare x (sort compare xs)

insert-perm : (compare : ℕ → ℕ → ℤ) (x : ℕ) (xs : List ℕ) → Perm (insert compare x xs) (x ∷ xs)
unfolding insert
insert-perm compare x [] = Perm.refl (x ∷ [])
insert-perm compare x (y ∷ ys) = elim (Bool-cases (ltb_ℤ (pos 0) (compare x y))) [
  | inl e ↦ rw e (Perm.trans (Perm.cons y (insert-perm compare x ys)) (Perm.swap x y ys))
  | inr e ↦ rw e (Perm.refl (x ∷ y ∷ ys))
]

sort-perm : (compare : ℕ → ℕ → ℤ) (xs : List ℕ) → Perm (sort compare xs) xs
unfolding sort
sort-perm compare [] = Perm.refl []
sort-perm compare (x ∷ xs) =
    Perm.trans (insert-perm compare x (sort compare xs)) (Perm.cons x (sort-perm compare xs))

module _ (compare : ℕ → ℕ → ℤ) (order : IsOrder compare) where
  -- What belongs behind another does not belong before it.
  turned : (x y : ℕ) → ltb_ℤ (pos 0) (compare x y) ≡ true → NotAfter compare y x
  turned x y e =
      let less : ltb_ℤ (compare y x) (pos 0) ≡ true = order.opposite y x ∙ e in ground arith

  NotAfterAll-insert :
      (b x : ℕ) (xs : List ℕ)
      → NotAfter compare b x
      → NotAfterAll compare b xs
      → NotAfterAll compare b (insert compare x xs)
  unfolding insert
  NotAfterAll-insert b x [] h a = (h, tt)
  NotAfterAll-insert b x (y ∷ ys) h a = elim (Bool-cases (ltb_ℤ (pos 0) (compare x y))) [
    | inl e ↦ rw e (a.0, NotAfterAll-insert b x ys h a.1)
    | inr e ↦ rw e (h, a)
  ]

  lower_start :
      (b c : ℕ) (xs : List ℕ)
      → NotAfter compare b c
      → NotAfterAll compare c xs
      → NotAfterAll compare b xs
  lower_start b c [] h a = tt
  lower_start b c (y ∷ ys) h a = (order.transitive b c y h a.0, lower_start b c ys h a.1)

  insert-Ordered :
      (x : ℕ) (xs : List ℕ) → Ordered compare xs → Ordered compare (insert compare x xs)
  unfolding insert
  insert-Ordered x [] s = (tt, tt)
  insert-Ordered x (y ∷ ys) s = elim (Bool-cases (ltb_ℤ (pos 0) (compare x y))) [
    | inl e ↦ rw e (NotAfterAll-insert y x ys (turned x y e) s.0, insert-Ordered x ys s.1)
    | inr e ↦ rw e ((e, lower_start x y ys e s.0), s)
  ]

sort-Ordered :
    (compare : ℕ → ℕ → ℤ) → IsOrder compare → (xs : List ℕ) → Ordered compare (sort compare xs)
unfolding sort
sort-Ordered compare order [] = tt
sort-Ordered compare order (x ∷ xs) =
    insert-Ordered compare order x (sort compare xs) (sort-Ordered compare order xs)

abbrev three_values : List ℕ
three_values = 7 ∷ 10 ∷ 13 ∷ []

variance_and_moment_example :
    (m : ℕ) × (uint64_mean three_values ≡ some m)
    × (m < 2 ^ 32)
    × (uint64_variance whole pos_part (λ r. r) three_values
        ≡ some (
            over_less_one whole pos_part
              (λ r. r)
              three_values
              (add_up whole pos_part
                (λ r. r)
                0
                (map (λ v. whole.of_u64 (gap v m * gap v m)) three_values))))
    × (uint64_moment whole pos_part (λ r. r) 3 three_values
        ≡ some (
            moment_of whole pos_part
              (λ r. r)
              3
              three_values
              (λ v. whole.of_u64 (if ltb v m then u64 - gap v m else gap v m))))
variance_and_moment_example =
    variance_and_moment whole pos_part (λ r. r) 3 7 (10 ∷ 13 ∷ [])
      (omega arith, (omega arith, (omega arith, tt)))

uint64_median_lem_example :
    (m : ℕ) × (uint64_median sort (9 ∷ 4 ∷ 7 ∷ 1 ∷ []) ≡ some m)
    × (2 * number (λ y. ltb y m) (9 ∷ 4 ∷ 7 ∷ 1 ∷ []) ≤ 4)
    × (2 * number (λ y. ltb m y) (9 ∷ 4 ∷ 7 ∷ 1 ∷ []) ≤ 4)
uint64_median_lem_example = uint64_median_lem sort sort-Ordered sort-perm 9 (4 ∷ 7 ∷ 1 ∷ []) refl
