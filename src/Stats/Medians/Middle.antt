-- ===== src/Stats/Medians/Middle.antt =====
-- The median of src/lib_stats.c lies in the middle of the values.
use mathlib.Core.List.{Perm, Permᴰ}
use mathlib.Core.Logic.{∥∥₁_elim}
use native.Mathlib.Nat.{ℕ_set}
use qnx_lmbench_mods.Base.{
  ℕ, zero, suc, ◌+◌, ◌-◌, ◌*◌, ◌/◌, ◌%◌, ◌≤◌, ◌<◌, ◌≡◌, refl, sym, ap, ◌∙◌, Bool, true, false,
  Option, some, List, [], ◌∷◌, length, get_elem?, ltb, leb, ◌==◌, ==_iff, ◌^◌, if◌then◌else◌,
  Bool-cases, arith, inl, inr,
}
use qnx_lmbench_mods.Base.Int.{ℤ, pos, ltb_ℤ}
use qnx_lmbench_mods.Clock.{u64}
use qnx_lmbench_mods.Stats.{compare_by, uint64_compare}
use qnx_lmbench_mods.Stats.Medians.{middle, uint64_median}

abbrev pub number : (ℕ → Bool) → List ℕ → ℕ
number p [] = 0
number p (x ∷ xs) = (if p x then 1 else 0) + number p xs

-- No value behind another is less than it.
abbrev pub AllFrom : ℕ → List ℕ → Type 0
AllFrom x [] = Unit
AllFrom x (y ∷ ys) = (x ≤ y) × AllFrom x ys

abbrev pub IsSorted : List ℕ → Type 0
IsSorted [] = Unit
IsSorted (x ∷ xs) = AllFrom x xs × IsSorted xs

number-all : (xs : List ℕ) → number (λ y. true) xs ≡ length xs
number-all [] = refl
number-all (x ∷ xs) = omega (arith, number-all xs)

number-le : (p : ℕ → Bool) (xs : List ℕ) → number p xs ≤ length xs
number-le p [] = omega arith
number-le p (x ∷ xs) = ground (arith, number-le p xs)

number_less-AllFrom : (v x : ℕ) (xs : List ℕ) → v ≤ x → AllFrom x xs → number (λ y. ltb y v) xs ≡ 0
number_less-AllFrom v x [] h a = refl
number_less-AllFrom v x (y ∷ ys) h a = ground (arith, number_less-AllFrom v x ys h a.1, a.0)

AllFrom-get : (x i v : ℕ) (xs : List ℕ) → AllFrom x xs → get_elem? xs i ≡ some v → x ≤ v
AllFrom-get x i v [] a h = cc
AllFrom-get x zero v (y ∷ ys) a h = ground (arith, a.0)
AllFrom-get x (suc i) v (y ∷ ys) a h = AllFrom-get x i v ys a.1 h

-- Of a sorted array at most `i` values are less than one that is not above the value at `i`.
less-sorted :
    (i m v : ℕ) (xs : List ℕ)
    → IsSorted xs
    → get_elem? xs i ≡ some v
    → m ≤ v
    → number (λ y. ltb y m) xs ≤ i
less-sorted i m v [] s h k = cc
less-sorted zero m v (x ∷ xs) s h k = ground (arith, number_less-AllFrom m x xs (ground arith) s.0)
less-sorted (suc i) m v (x ∷ xs) s h k = ground (arith, less-sorted i m v xs s.1 h k)

-- And at most those behind `i` are greater than one that is not below it.
greater-sorted :
    (i m v : ℕ) (xs : List ℕ)
    → IsSorted xs
    → get_elem? xs i ≡ some v
    → v ≤ m
    → number (λ y. ltb m y) xs + i < length xs
greater-sorted i m v [] s h k = cc
greater-sorted zero m v (x ∷ xs) s h k = ground (arith, number-le (λ y. ltb m y) xs)
greater-sorted (suc i) m v (x ∷ xs) s h k =
    ground (arith, greater-sorted i m v xs s.1 h k, AllFrom-get x i v xs s.0 h)

sorted-le :
    (i a b : ℕ) (xs : List ℕ)
    → IsSorted xs
    → get_elem? xs i ≡ some a
    → get_elem? xs (suc i) ≡ some b
    → a ≤ b
sorted-le i a b [] s h k = cc
sorted-le zero a b (x ∷ xs) s h k = ground (arith, AllFrom-get x 0 b xs s.0 k)
sorted-le (suc i) a b (x ∷ xs) s h k = sorted-le i a b xs s.1 h k

get_elem?-total : (i : ℕ) (xs : List ℕ) → i < length xs → (v : ℕ) × (get_elem? xs i ≡ some v)
get_elem?-total i [] h = absurd (omega arith)
get_elem?-total zero (x ∷ xs) h = (x, refl)
get_elem?-total (suc i) (x ∷ xs) h = get_elem?-total i xs (omega arith)

none-number :
    (p : ℕ → Bool) (i v : ℕ) (xs : List ℕ) → number p xs ≡ 0 → get_elem? xs i ≡ some v → p v ≡ false
none-number p i v [] z h = cc
none-number p zero v (x ∷ xs) z h = ground arith
none-number p (suc i) v (x ∷ xs) z h = none-number p i v xs (ground arith) h

number-permᴰ : (p : ℕ → Bool) {xs ys : List ℕ} → Permᴰ xs ys → number p xs ≡ number p ys
number-permᴰ p Permᴰ.nil = refl
number-permᴰ p (Permᴰ.cons e d) = rw e (omega (arith, number-permᴰ p d))
number-permᴰ p (Permᴰ.swap e f) = rw (e, f) (omega arith)
number-permᴰ p (Permᴰ.trans d e) = number-permᴰ p d ∙ number-permᴰ p e

number-perm : (p : ℕ → Bool) {xs ys : List ℕ} → Perm xs ys → number p xs ≡ number p ys
number-perm p d = ∥∥₁_elim d (ℕ_set _ _) (number-permᴰ p)

-- The comparison says that `x` does not belong behind `y`.
abbrev pub NotAfter : (ℕ → ℕ → ℤ) → ℕ → ℕ → Type 0
NotAfter compare x y = ltb_ℤ (pos 0) (compare x y) ≡ false

-- A comparison of the kind that `qsort` asks for: with exchanged arguments it has the opposite sign, and
-- it is transitive.
pub record IsOrder (compare : ℕ → ℕ → ℤ) : Type 0 where
  pub opposite : (x y : ℕ) → ltb_ℤ (compare x y) (pos 0) ≡ ltb_ℤ (pos 0) (compare y x)
  pub transitive : (x y z : ℕ) → NotAfter compare x y → NotAfter compare y z → NotAfter compare x z

abbrev pub NotAfterAll : (ℕ → ℕ → ℤ) → ℕ → List ℕ → Type 0
NotAfterAll compare x [] = Unit
NotAfterAll compare x (y ∷ ys) = NotAfter compare x y × NotAfterAll compare x ys

-- No value belongs behind another that follows it.
abbrev pub Ordered : (ℕ → ℕ → ℤ) → List ℕ → Type 0
Ordered compare [] = Unit
Ordered compare (x ∷ xs) = NotAfterAll compare x xs × Ordered compare xs

-- What `uint64_compare` says is the order of the numbers.
uint64_compare-sign :
    (x y : ℕ)
    → (ltb_ℤ (pos 0) (uint64_compare x y) ≡ ltb y x)
      × (ltb_ℤ (uint64_compare x y) (pos 0) ≡ ltb x y)
unfolding uint64_compare compare_by
uint64_compare-sign x y = elim (Bool-cases (ltb x y)) [
  | inl less ↦ let back : ltb y x ≡ false = ground arith in rw (less, back) (refl, refl)
  | inr more ↦ elim (Bool-cases (ltb y x)) [
    | inl greater ↦ rw (more, greater) (refl, refl)
    | inr equal ↦ rw (more, equal) (refl, refl)
  ]
]

uint64_compare-IsOrder : IsOrder uint64_compare
uint64_compare-IsOrder = record {
  opposite = λ x y. (uint64_compare-sign x y).1 ∙ sym (uint64_compare-sign y x).0;
  transitive = λ x y z p q.
      let a = sym (uint64_compare-sign x y).0 ∙ p in
      let b = sym (uint64_compare-sign y z).0 ∙ q in
      (uint64_compare-sign x z).0 ∙ ground (arith, a, b);
}

Ordered-AllFrom : (x : ℕ) (xs : List ℕ) → NotAfterAll uint64_compare x xs → AllFrom x xs
Ordered-AllFrom x [] h = tt
Ordered-AllFrom x (y ∷ ys) h =
    let e = sym (uint64_compare-sign x y).0 ∙ h.0 in (ground (arith, e), Ordered-AllFrom x ys h.1)

Ordered-IsSorted : (xs : List ℕ) → Ordered uint64_compare xs → IsSorted xs
Ordered-IsSorted [] h = tt
Ordered-IsSorted (x ∷ xs) h = (Ordered-AllFrom x xs h.0, Ordered-IsSorted xs h.1)

-- At most half of the values are less, and at most half are greater.
abbrev IsMiddle : List ℕ → Option ℕ → Type 0
IsMiddle ys o =
    (m : ℕ) × (o ≡ some m)
    × (2 * number (λ y. ltb y m) ys ≤ length ys)
    × (2 * number (λ y. ltb m y) ys ≤ length ys)

middle-IsMiddle :
    (ys : List ℕ)
    → 0 < length ys
    → IsSorted ys
    → number (λ y. leb (2 ^ 63) y) ys ≡ 0
    → IsMiddle ys (middle 0 (λ a b. (a + b) % u64 / 2) ys)
unfolding middle
middle-IsMiddle ys n s h =
    let k = length ys / 2 in
    let some_there : (length ys == 0) ≡ false = ground arith in
    let (b, at_b) = get_elem?-total k ys (omega arith) in
    elim (Bool-cases (length ys % 2 == 1)) [
      | inl odd ↦ (
        b,
        rw (some_there, odd) at_b,
        omega (arith, less-sorted k b b ys s at_b (omega arith)),
        omega
            (arith, (==_iff (length ys % 2) 1).0 odd, greater-sorted k b b ys s at_b (omega arith)),
      )
      | inr even ↦
          let (a, at_a) = get_elem?-total (k - 1) ys (omega arith) in
          let even' : length ys % 2 ≡ 0 = ground arith in
          let ordered = sorted-le (k - 1) a b ys s at_a (ap (get_elem? ys) (omega arith) ∙ at_b) in
          let small_a : a < 2 ^ 63 =
            ground (arith, none-number (λ y. leb (2 ^ 63) y) (k - 1) a ys h at_a) in
          let small_b : b < 2 ^ 63 =
            ground (arith, none-number (λ y. leb (2 ^ 63) y) k b ys h at_b) in
          let m = (a + b) % u64 / 2 in
          (
            m,
            rw (some_there, even, at_a, at_b) refl,
            omega (arith, even', less-sorted k m b ys s at_b (omega arith)),
            omega (arith, even', greater-sorted (k - 1) m a ys s at_a (omega arith)),
          )
    ]

module _ (qsort : (ℕ → ℕ → ℤ) → List ℕ → List ℕ)
    (sorts : (compare : ℕ → ℕ → ℤ)
      → IsOrder compare
      → (xs : List ℕ) → Ordered compare (qsort compare xs))
    (permutes : (compare : ℕ → ℕ → ℤ) (xs : List ℕ) → Perm (qsort compare xs) xs) where
  -- Of an array with values below 2 ^ 63, at most half of the values are less than `uint64_median`, and
  -- at most half are greater, if `qsort` returns the values in the order of the comparison it is given,
  -- whenever that is one.
  pub uint64_median_lem :
      (x : ℕ) (xs : List ℕ)
      → number (λ y. leb (2 ^ 63) y) (x ∷ xs) ≡ 0
      → (m : ℕ) × (uint64_median qsort (x ∷ xs) ≡ some m)
        × (2 * number (λ y. ltb y m) (x ∷ xs) ≤ length (x ∷ xs))
        × (2 * number (λ y. ltb m y) (x ∷ xs) ≤ length (x ∷ xs))
  unfolding uint64_median
  uint64_median_lem x xs h =
      let ys = qsort uint64_compare (x ∷ xs) in
      let same = λ (p : ℕ → Bool). number-perm p (permutes uint64_compare (x ∷ xs)) in
      let size : length ys ≡ length (x ∷ xs) =
        sym (number-all ys) ∙ same (λ y. true) ∙ number-all (x ∷ xs) in
      let (m, e, less, greater) =
        middle-IsMiddle ys (omega (arith, size))
          (Ordered-IsSorted ys (sorts uint64_compare uint64_compare-IsOrder (x ∷ xs)))
          (same (λ y. leb (2 ^ 63) y) ∙ h) in
      (m, e, omega (arith, size, same (λ y. ltb y m)), omega (arith, size, same (λ y. ltb m y)))
