-- ===== src/Stats/Extremes.antt =====
-- The minima and maxima of src/lib_stats.c, over any order.
use qnx_lmbench_mods.Base.{
  ℕ, zero, suc, get_elem?, ◌≡◌, refl, Bool, true, false, some, List, [], ◌∷◌, arith, if◌then◌else◌,
  inl, inr, Bool-cases,
}
use qnx_lmbench_mods.Stats.{scan, first_least}

-- `<` of a C type on the values at hand: no value is less than itself, and of three values the first
-- is not less than the last if neither step goes down.
pub record StrictOrder {A : Type 0} (less : A → A → Bool) : Type 0 where
  pub irrefl : (a : A) → less a a ≡ false
  pub trans : (a b c : A) → less a b ≡ false → less b c ≡ false → less a c ≡ false
  pub asym : (a b : A) → less a b ≡ true → less b a ≡ false

module _ {A : Type 0} (less : A → A → Bool) (o : StrictOrder less) where
  -- One step does not go up.
  better : (best x : A) → A
  better best x = if less x best then x else best

  better-first : (best x : A) → less best (better best x) ≡ false
  unfolding better
  better-first best x = elim (Bool-cases (less x best)) [
    | inl lower ↦ rw lower (o.asym x best lower)
    | inr higher ↦ rw higher (o.irrefl best)
  ]

  better-second : (best x : A) → less x (better best x) ≡ false
  unfolding better
  better-second best x = elim (Bool-cases (less x best)) [
    | inl lower ↦ rw lower (o.irrefl x)
    | inr higher ↦ rw higher higher
  ]

  scan-first : (best : A) (xs : List A) → less best (scan less best xs) ≡ false
  unfolding scan better
  scan-first best [] = o.irrefl best
  scan-first best (x ∷ xs) =
      o.trans best (better best x) (scan less (better best x) xs) (better-first best x)
        (scan-first (better best x) xs)

  scan-all :
      (best : A) (xs : List A) (i : ℕ) (y : A)
      → get_elem? xs i ≡ some y
      → less y (scan less best xs) ≡ false
  unfolding scan better
  scan-all best [] i y h = ground arith
  scan-all best (x ∷ xs) zero y h =
      let same : x ≡ y = ground arith in
      rw (← same) (
        o.trans x (better best x) (scan less (better best x) xs) (better-second best x)
          (scan-first (better best x) xs))
  scan-all best (x ∷ xs) (suc i) y h = scan-all (better best x) xs i y h

  scan_found :
      (best : A) (xs : List A) → (i : ℕ) × (get_elem? (best ∷ xs) i ≡ some (scan less best xs))
  unfolding scan better
  scan_found best [] = (0, refl)
  scan_found best (x ∷ xs) = elim (Bool-cases (less x best)) [
    | inl lower ↦ let (i, h) = scan_found x xs in (suc i, rw lower h)
    | inr higher ↦ later higher (scan_found best xs)
  ]
    where
      later :
          less x best ≡ false
          → (i : ℕ) × (get_elem? (best ∷ xs) i ≡ some (scan less best xs))
          → (i : ℕ) × (get_elem? (best ∷ x ∷ xs) i ≡ some (scan less (better best x) xs))
      later higher (zero, h) = (0, rw higher h)
      later higher (suc i, h) = (suc (suc i), rw higher h)

  -- The scan behind every minimum and maximum, for any order: of an array with values it finds one of
  -- them, and none of them is less.
  pub first_least_lem :
      (x : A) (xs : List A) (i : ℕ) (y : A)
      → get_elem? (x ∷ xs) i ≡ some y
      → (m : A) × (first_least less (x ∷ xs) ≡ some m)
        × (less y m ≡ false)
        × ((j : ℕ) × (get_elem? (x ∷ xs) j ≡ some m))
  unfolding first_least
  first_least_lem x xs zero y h =
      let same : x ≡ y = ground arith in
      (scan less x xs, refl, rw (← same) (scan-first x xs), scan_found x xs)
  first_least_lem x xs (suc i) y h = (scan less x xs, refl, scan-all x xs i y h, scan_found x xs)
