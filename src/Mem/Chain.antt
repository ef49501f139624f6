-- ===== src/Mem/Chain.antt =====
-- Following a chain of pointers, as the benchmarks do with `p = *(char**)p`.
use native.Mathlib.Decide.{dec_lt}
use qnx_lmbench_mods.Base.{
  ℕ, zero, suc, ◌+◌, ◌<◌, ◌≡◌, refl, subst, arith, ◌*◌, ◌≤◌, false, Bool-cases, inl, inr, ◌==◌,
}
use qnx_lmbench_mods.Mem.{Memory, write, pointer_size, overlap}

-- Pointers at these addresses share a byte.
abbrev pub Near : ℕ → ℕ → Type 0
Near x a = (x < a + pointer_size) × (a < x + pointer_size)

-- And none.
abbrev pub Far : ℕ → ℕ → Type 0
Far x a = Near x a → ⊥

-- `n` times `p = *(char**)p;`
pub follow : ℕ → Memory → ℕ → ℕ
follow zero m p = p
follow (suc n) m p = follow n m (m p)

pub follow-add : (a b : ℕ) (m : Memory) (p : ℕ) → follow (a + b) m p ≡ follow b m (follow a m p)
unfolding follow
follow-add zero b m p = let z : 0 + b ≡ b = omega arith in rw z
follow-add (suc a) b m p =
    let s : suc a + b ≡ suc (a + b) = omega arith in rw (s, follow) (follow-add a b m (m p))

pub follow_zero : (m : Memory) (p : ℕ) → follow 0 m p ≡ p
unfolding follow
follow_zero m p = refl

pub follow_one : (m : Memory) (p : ℕ) → follow 1 m p ≡ m p
unfolding follow
follow_one m p = refl

-- If each of `n` slots points to the next one, `n` steps lead from the first to the last.
pub follow_slots :
    (m : Memory) (slot : ℕ → ℕ) (i n : ℕ)
    → ((k : ℕ) → k < n → m (slot (i + k)) ≡ slot (i + k + 1))
    → follow n m (slot i) ≡ slot (i + n)
unfolding follow
follow_slots m slot i zero h = let z : i + 0 ≡ i = omega arith in rw z
follow_slots m slot i (suc n) h =
    let z : i + 0 ≡ i = omega arith in
    let first : m (slot i) ≡ slot (i + 1) =
      subst (λ j. m (slot j) ≡ slot (j + 1)) z (h 0 (omega arith)) in
    let s : i + suc n ≡ i + 1 + n = omega arith in
    rw (first, s)
      (follow_slots m slot (i + 1) n λ k lt.
        let t : i + suc k ≡ i + 1 + k = omega arith in
        subst (λ j. m (slot j) ≡ slot (j + 1)) t (h (suc k) (omega arith)))

pub write_self : (m : Memory) (a v : ℕ) → write m a v a ≡ v
write_self m a v = ground arith

-- A pointer that shares no byte with the one stored is as before.
pub write_ne : (m : Memory) (a v x : ℕ) → Far x a → write m a v x ≡ m x
write_ne m a v x h = elim (Bool-cases (overlap x a)) [
  | inl e ↦ absurd (h (ground arith, ground arith))
  | inr e ↦ let ne : (x == a) ≡ false = ground arith in rw (ne, e) refl
]

-- Pointers at multiples of `sizeof(char*)` share a byte only where they are the same.
pub Near-multiples : (unit a b : ℕ) → pointer_size ≤ unit → Near (a * unit) (b * unit) → a ≡ b
Near-multiples unit a b wide n = elim (dec_lt a b) [
  | yes less ↦
      let step : (a + 1) * unit ≤ b * unit = grind arith in absurd (omega (arith, n.1, step, wide))
  | no more ↦ elim (dec_lt b a) [
    | yes less ↦
        let step : (b + 1) * unit ≤ a * unit = grind arith in
        absurd (omega (arith, n.0, step, wide))
    | no more' ↦ omega arith
  ]
]
