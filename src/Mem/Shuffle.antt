-- ===== src/Mem/Shuffle.antt =====
-- `permutation` of src/lib_timing.c returns what its name says, for every random number generator.
use Prim.Native.Nat.{bit_xor}
use mathlib.Core.List.{Perm}
use mathlib.Core.List.Perm
use native.Mathlib.Nat.{mod-lt}
use qnx_lmbench_mods.Base.{
  ℕ, zero, suc, ◌+◌, ◌*◌, ◌%◌, ◌<◌, ◌≡◌, refl, ap, ◌∙◌, true, false, some, none, List, [], ◌∷◌,
  length, set, length-set, arith, ◌==◌, if◌then◌else◌,
}
use qnx_lmbench_mods.Mem.{size_max, at, swap, multiples, shuffle, permutation}

-- Taking a value out of a list and putting another one in its place.
exchange-perm : (x : ℕ) (xs : List ℕ) (j : ℕ) → j < length xs → Perm (at xs j ∷ set xs j x) (x ∷ xs)
exchange-perm x [] j h = absurd (omega arith)
exchange-perm x (y ∷ ys) zero h = Perm.swap x y ys
exchange-perm x (y ∷ ys) (suc j) h =
    Perm.trans (Perm.swap y (at ys j) (set ys j x))
      (Perm.trans (Perm.cons y (exchange-perm x ys j (omega arith))) (Perm.swap x y ys))

-- The three assignments exchange two elements, also an element with itself.
pub swap-perm : (o i : ℕ) (xs : List ℕ) → o < length xs → i < length xs → Perm (swap o i xs) xs
unfolding swap
swap-perm o i [] ho hi = absurd (omega arith)
swap-perm zero zero (x ∷ xs) ho hi = Perm.rfl
swap-perm zero (suc i) (x ∷ xs) ho hi = exchange-perm x xs i (omega arith)
swap-perm (suc o) zero (x ∷ xs) ho hi = exchange-perm x xs o (omega arith)
swap-perm (suc o) (suc i) (x ∷ xs) ho hi =
    Perm.cons x (swap-perm o i xs (omega arith) (omega arith))

pub length-swap : (o i : ℕ) (xs : List ℕ) → length (swap o i xs) ≡ length xs
unfolding swap
length-swap o i xs = length-set (set xs o (at xs i)) i (at xs o) ∙ length-set xs o (at xs i)

pub length-multiples : (left i scale : ℕ) → length (multiples left i scale) ≡ left
unfolding multiples
length-multiples zero i scale = refl
length-multiples (suc left) i scale = ap suc (length-multiples left (i + 1) scale)

module _ (rand : ℕ → ℕ) where
  shuffle-perm :
      (left i max r calls : ℕ) (xs : List ℕ)
      → length xs ≡ max
      → i + left ≡ max
      → Perm (shuffle rand left i max r calls xs).0 xs
  unfolding shuffle
  shuffle-perm zero i max r calls xs len e = Perm.rfl
  shuffle-perm (suc left) i max r calls xs len e =
      let r' = bit_xor (r * 2 % size_max) (rand calls) in
      let in_range : r' % max < max = mod-lt r' (omega arith) in
      Perm.trans
        (shuffle-perm left (i + 1) max r' (calls + 1) (swap (r' % max) i xs)
          (length-swap (r' % max) i xs ∙ len) (omega arith))
        (swap-perm (r' % max) i xs (rw len in_range) (omega arith))

  -- If `malloc` succeeds, `permutation` returns the multiples of `scale` below `max * scale` (of 64
  -- bits), each as often as it is one, in some order; if not, it returns no array and draws no number.
  pub permutation-perm :
      (seed : ℕ → ℕ → ℕ) (r calls max scale : ℕ)
      → (xs : List ℕ) × ((permutation rand seed true r calls max scale).0 ≡ some xs)
        × Perm xs (multiples max 0 scale)
        × (permutation rand seed false r calls max scale ≡ (none, r, calls))
  unfolding permutation
  permutation-perm seed r calls max scale =
      let r' = if r == 0 then seed (rand calls) (rand (calls + 1)) else r in
      let calls' = if r == 0 then calls + 2 else calls in
      (
        (shuffle rand max 0 max r' calls' (multiples max 0 scale)).0,
        refl,
        shuffle-perm max 0 max r' calls' (multiples max 0 scale) (length-multiples max 0 scale)
            (omega arith),
        refl,
      )
