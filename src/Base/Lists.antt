-- ===== src/Base/Lists.antt =====
-- Lists measured and indexed by native numbers, under the library's names.
use Prim.Native.Nat.{ℕ, zero, suc, ◌+◌, ◌-◌, ◌<◌, min}
use mathlib.Core.Path.{◌≡◌, refl, ap}
use mathlib.Core.Logic.{◌≢◌}
use mathlib.Core.List.{List, [], ◌∷◌, ◌++◌, map}
use mathlib.Core.Option.{Option, none, some}
use native.Mathlib.Omega.{arith}

module _ {ℓ} {A : Type ℓ} where
  abbrev pub length : List A → ℕ
  length [] = 0
  length (x ∷ xs) = suc (length xs)

  abbrev pub get_elem? : List A → ℕ → Option A
  get_elem? [] i = none
  get_elem? (x ∷ xs) zero = some x
  get_elem? (x ∷ xs) (suc i) = get_elem? xs i

  -- A write out of bounds changes nothing.
  abbrev pub set : List A → ℕ → A → List A
  set [] i v = []
  set (x ∷ xs) zero v = v ∷ xs
  set (x ∷ xs) (suc i) v = x ∷ set xs i v

  pub length-append : (xs ys : List A) → length (xs ++ ys) ≡ length xs + length ys
  length-append [] ys = omega arith
  length-append (x ∷ xs) ys = omega (arith, length-append xs ys)

module _ {ℓ} {A : Type ℓ} where
  pub length-set : (xs : List A) (i : ℕ) (v : A) → length (set xs i v) ≡ length xs
  length-set [] i v = refl
  length-set (x ∷ xs) zero v = refl
  length-set (x ∷ xs) (suc i) v = ap suc (length-set xs i v)

  pub get_elem?-set_self :
      (xs : List A) (i : ℕ) (v : A) → i < length xs → get_elem? (set xs i v) i ≡ some v
  get_elem?-set_self [] i v h = elim h [ ]
  get_elem?-set_self (x ∷ xs) zero v h = refl
  get_elem?-set_self (x ∷ xs) (suc i) v h = get_elem?-set_self xs i v (omega arith)

  pub get_elem?-set_ne :
      (xs : List A) {i j : ℕ} (v : A) → i ≢ j → get_elem? (set xs i v) j ≡ get_elem? xs j
  get_elem?-set_ne [] v h = refl
  get_elem?-set_ne (x ∷ xs) {i = zero} {j = zero} v h = absurd (h refl)
  get_elem?-set_ne (x ∷ xs) {i = zero} {j = suc j} v h = refl
  get_elem?-set_ne (x ∷ xs) {i = suc i} {j = zero} v h = refl
  get_elem?-set_ne (x ∷ xs) {i = suc i} {j = suc j} v h = get_elem?-set_ne xs v (λ e. h (ap suc e))

module _ {ℓ} {A : Type ℓ} where
  abbrev pub get_or : List A → ℕ → A → A
  get_or [] i d = d
  get_or (x ∷ xs) zero d = x
  get_or (x ∷ xs) (suc i) d = get_or xs i d

  abbrev pub take : ℕ → List A → List A
  take zero xs = []
  take (suc n) [] = []
  take (suc n) (x ∷ xs) = x ∷ take n xs

  abbrev pub drop : ℕ → List A → List A
  drop zero xs = xs
  drop (suc n) [] = []
  drop (suc n) (x ∷ xs) = drop n xs

  abbrev pub replicate : ℕ → A → List A
  replicate zero a = []
  replicate (suc n) a = a ∷ replicate n a

  pub take-append-drop : (n : ℕ) (xs : List A) → take n xs ++ drop n xs ≡ xs
  take-append-drop zero xs = refl
  take-append-drop (suc n) [] = refl
  take-append-drop (suc n) (x ∷ xs) = rw (take-append-drop n xs)

  pub length-take : (n : ℕ) (xs : List A) → length (take n xs) ≡ min n (length xs)
  length-take zero xs = omega arith
  length-take (suc n) [] = omega arith
  length-take (suc n) (x ∷ xs) = omega (arith, length-take n xs)

  pub length-drop : (n : ℕ) (xs : List A) → length (drop n xs) ≡ length xs - n
  length-drop zero xs = omega arith
  length-drop (suc n) [] = omega arith
  length-drop (suc n) (x ∷ xs) = omega (arith, length-drop n xs)

  pub length-replicate : (n : ℕ) (a : A) → length (replicate n a) ≡ n
  length-replicate zero a = refl
  length-replicate (suc n) a = ap suc (length-replicate n a)

  pub length-map {κ} : {B : Type κ} (xs : List A) (f : A → B) → length (map f xs) ≡ length xs
  length-map [] f = refl
  length-map (x ∷ xs) f = ap suc (length-map xs f)

-- What a list holds from an index on.
module _ {ℓ} {A : Type ℓ} where
  pub get_elem?_of_drop :
      (xs : List A) (i : ℕ) {y : A} {ys : List A} → drop i xs ≡ y ∷ ys → get_elem? xs i ≡ some y
  get_elem?_of_drop [] zero e = ground arith
  get_elem?_of_drop [] (suc i) e = ground arith
  get_elem?_of_drop (x ∷ xs) zero e = ground arith
  get_elem?_of_drop (x ∷ xs) (suc i) e = get_elem?_of_drop xs i e

  pub get_or_of_drop :
      (xs : List A) (i : ℕ) (d : A) {y : A} {ys : List A} → drop i xs ≡ y ∷ ys → get_or xs i d ≡ y
  get_or_of_drop [] zero d e = ground arith
  get_or_of_drop [] (suc i) d e = ground arith
  get_or_of_drop (x ∷ xs) zero d e = ground arith
  get_or_of_drop (x ∷ xs) (suc i) d e = get_or_of_drop xs i d e

  pub lt_of_drop : (xs : List A) (i : ℕ) {y : A} {ys : List A} → drop i xs ≡ y ∷ ys → i < length xs
  lt_of_drop [] zero e = ground arith
  lt_of_drop [] (suc i) e = ground arith
  lt_of_drop (x ∷ xs) zero e = omega arith
  lt_of_drop (x ∷ xs) (suc i) e = omega (arith, lt_of_drop xs i e)

  pub drop_step :
      (xs : List A) (i : ℕ) {y : A} {ys : List A} → drop i xs ≡ y ∷ ys → drop (i + 1) xs ≡ ys
  drop_step [] zero e = ground arith
  drop_step [] (suc i) e = ground arith
  drop_step (x ∷ xs) zero e = ground arith
  drop_step (x ∷ xs) (suc i) e =
      let s : suc i + 1 ≡ suc (i + 1) = omega arith in rw s (drop_step xs i e)

  pub get_or-drop : (xs : List A) (i j : ℕ) (d : A) → get_or (drop i xs) j d ≡ get_or xs (i + j) d
  get_or-drop xs zero j d = ap (λ k. get_or xs k d) (omega arith)
  get_or-drop [] (suc i) j d = ground arith
  get_or-drop (x ∷ xs) (suc i) j d =
      let s : suc i + j ≡ suc (i + j) = omega arith in rw s (get_or-drop xs i j d)

  pub get_elem?-drop : (xs : List A) (i j : ℕ) → get_elem? (drop i xs) j ≡ get_elem? xs (i + j)
  get_elem?-drop xs zero j = ap (get_elem? xs) (omega arith)
  get_elem?-drop [] (suc i) j = refl
  get_elem?-drop (x ∷ xs) (suc i) j =
      let s : suc i + j ≡ suc (i + j) = omega arith in rw s (get_elem?-drop xs i j)

  pub drop-append_length : (xs ys : List A) → drop (length xs) (xs ++ ys) ≡ ys
  drop-append_length [] ys = refl
  drop-append_length (x ∷ xs) ys = drop-append_length xs ys

  pub get_elem?_of_drop_nil : (xs : List A) (i : ℕ) → drop i xs ≡ [] → get_elem? xs i ≡ none
  get_elem?_of_drop_nil [] i e = refl
  get_elem?_of_drop_nil (x ∷ xs) zero e = ground arith
  get_elem?_of_drop_nil (x ∷ xs) (suc i) e = get_elem?_of_drop_nil xs i e

  pub get_or_of_drop_nil : (xs : List A) (i : ℕ) (d : A) → drop i xs ≡ [] → get_or xs i d ≡ d
  get_or_of_drop_nil [] i d e = refl
  get_or_of_drop_nil (x ∷ xs) zero d e = ground arith
  get_or_of_drop_nil (x ∷ xs) (suc i) d e = get_or_of_drop_nil xs i d e

  pub get_or-set_self :
      (xs : List A) (i : ℕ) (v d : A) → i < length xs → get_or (set xs i v) i d ≡ v
  get_or-set_self [] i v d h = absurd (omega arith)
  get_or-set_self (x ∷ xs) zero v d h = refl
  get_or-set_self (x ∷ xs) (suc i) v d h = get_or-set_self xs i v d (omega arith)

  pub get_or-set_ne :
      (xs : List A) (i j : ℕ) (v d : A) → i ≢ j → get_or (set xs i v) j d ≡ get_or xs j d
  get_or-set_ne [] i j v d h = refl
  get_or-set_ne (x ∷ xs) zero zero v d h = absurd (h refl)
  get_or-set_ne (x ∷ xs) zero (suc j) v d h = refl
  get_or-set_ne (x ∷ xs) (suc i) zero v d h = refl
  get_or-set_ne (x ∷ xs) (suc i) (suc j) v d h = get_or-set_ne xs i j v d (λ e. h (ap suc e))

  pub take-add : (a b : ℕ) (xs : List A) → take (a + b) xs ≡ take a xs ++ take b (drop a xs)
  take-add zero b xs = ap (λ n. take n xs) (omega arith)
  take-add (suc a) zero [] = let z : suc a + 0 ≡ suc a = omega arith in rw z refl
  take-add (suc a) (suc b) [] = let s : suc a + suc b ≡ suc (a + suc b) = omega arith in rw s refl
  take-add (suc a) b (x ∷ xs) =
      let s : suc a + b ≡ suc (a + b) = omega arith in rw s (ap (λ l. x ∷ l) (take-add a b xs))

  pub drop-drop : (a b : ℕ) (xs : List A) → drop b (drop a xs) ≡ drop (a + b) xs
  drop-drop zero b xs = ap (λ n. drop n xs) (omega arith)
  drop-drop (suc a) zero [] = let s : suc a + 0 ≡ suc a = omega arith in rw s refl
  drop-drop (suc a) (suc b) [] = let s : suc a + suc b ≡ suc (a + suc b) = omega arith in rw s refl
  drop-drop (suc a) b (x ∷ xs) =
      let s : suc a + b ≡ suc (a + b) = omega arith in rw s (drop-drop a b xs)

  pub take-append_length : (xs ys : List A) → take (length xs) (xs ++ ys) ≡ xs
  take-append_length [] ys = refl
  take-append_length (x ∷ xs) ys = ap (λ l. x ∷ l) (take-append_length xs ys)
