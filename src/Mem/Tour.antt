-- ===== src/Mem/Tour.antt =====
-- What the benchmarks of memory expect of a chain of src/lib_mem.c, whatever its order.
use native.Mathlib.Decide.{dec_lt}
use native.Mathlib.Nat.{mod-lt, mod-add-div, div-lt_iff_lt-mul}
use qnx_lmbench_mods.Base.{
  ℕ, ◌+◌, ◌-◌, ◌*◌, ◌/◌, ◌%◌, ◌<◌, ◌≤◌, ◌≡◌, refl, sym, ap, ◌∙◌, List, arith,
}
use qnx_lmbench_mods.Mem.{at, Memory, pointer_size}
use qnx_lmbench_mods.Mem.Chain.{Near-multiples, follow}
use qnx_lmbench_mods.Mem.Line.{AllApart}
use qnx_lmbench_mods.Mem.Order.{Permutes}

-- The pointers form a circle of `n` loads from `start`, which comes through each of the `n` places
-- `unit` bytes apart from `base` on.
unfoldable pub Tour : Memory → (start base unit n : ℕ) → Type 0
Tour m start base unit n =
    (follow n m start ≡ start)
    × ((a : ℕ) → a < n → (k : ℕ) × (k < n) × (follow k m start ≡ base + a * unit))

-- A number has one quotient and one remainder.
pub one_place : (n q r q' r' : ℕ) → r < n → r' < n → n * q + r ≡ n * q' + r' → (q ≡ q') × (r ≡ r')
one_place n q r q' r' h h' e = elim (dec_lt q q') [
  | yes less ↦ let step : n * (q + 1) ≤ n * q' = grind arith in absurd (omega (arith, e, step, h))
  | no more ↦ elim (dec_lt q' q) [
    | yes less ↦
        let step : n * (q' + 1) ≤ n * q = grind arith in absurd (omega (arith, e, step, h'))
    | no more' ↦
        let same : q ≡ q' = omega arith in
        let product : n * q ≡ n * q' = ap (λ k. n * k) same in (same, omega (arith, e, product))
  ]
]

-- Which of `n` steps from `i` around leads to `w`.
pub turn : ℕ → ℕ → ℕ → ℕ
turn n i w = (w + (n - i % n)) % n

pub turn_lem : (n i w : ℕ) → w < n → (turn n i w < n) × ((i + turn n i w) % n ≡ w)
unfolding turn
turn_lem n i w h =
    let pos : 0 < n = omega arith in
    let x = w + (n - i % n) in
    let y = i + x % n in
    let sum : n * (y / n + x / n) + y % n ≡ n * (i / n + 1) + w =
      grind (arith, mod-add-div i n, mod-add-div x n, mod-add-div y n, mod-lt i pos) in
    let (_, e) = one_place n (y / n + x / n) (y % n) (i / n + 1) w (mod-lt y pos) h sum in
    (mod-lt x pos, e)

-- Pages of `nlines` lines of `line` bytes each, in any order, with the lines in any order.
module _ (npages nlines line base : ℕ) (pages lines : List ℕ)
    (order : Permutes npages (nlines * line) pages) (inside : Permutes nlines line lines)
    (wide : pointer_size ≤ line) (some_line : 0 < nlines) where
  -- Which line of memory stands at a place of the two tables.
  place_value :
      (i j : ℕ)
      → i < npages
      → j < nlines
      → base + at pages i + at lines j ≡ base + (nlines * order.number i + inside.number j) * line
  place_value i j hi hj =
      let p = order.at_number i hi in let l = inside.at_number j hj in rw (p, l) (grind arith)

  pub Permutes-AllApart : AllApart npages nlines base pages lines
  unfolding AllApart
  Permutes-AllApart i j k l hi hj hk hl e =
      let from = place_value i j hi hj in
      let to = place_value k l hk hl in
      let (page, row) =
        one_place nlines (order.number i) (inside.number j) (order.number k) (inside.number l)
          (inside.number_lt j hj) (inside.number_lt l hl)
          (Near-multiples line (nlines * order.number i + inside.number j)
            (nlines * order.number k + inside.number l) wide
            (omega (arith, from, to, e.0), omega (arith, from, to, e.1))) in
      (
        sym (order.place_number i hi) ∙ ap order.place page ∙ order.place_number k hk,
        sym (inside.place_number j hj) ∙ ap inside.place row ∙ inside.place_number l hl,
      )

  -- A circle that comes through all places of the tables is a tour of the memory.
  pub places-Tour :
      (chain : Memory) (start : ℕ)
      → follow (npages * nlines) chain start ≡ start
      → ((i j : ℕ)
          → i < npages
          → j < nlines
          → (k : ℕ) × (k < npages * nlines)
            × (follow k chain start ≡ base + at pages i + at lines j))
      → Tour chain start base line (npages * nlines)
  unfolding Tour
  places-Tour chain start around through = (
    around,
    λ a h.
        let r = a % nlines in
        let q = a / nlines in
        let hr : r < nlines = mod-lt a some_line in
        let hq : q < npages = (div-lt_iff_lt-mul some_line).1 h in
        let (k, hk, walk) =
          through (order.place q) (inside.place r) (order.place_lt q hq) (inside.place_lt r hr) in
        let v =
          place_value (order.place q) (inside.place r) (order.place_lt q hq)
            (inside.place_lt r hr) in
        let eq = order.number_place q hq in
        let er = inside.number_place r hr in
        let parts : nlines * q + r ≡ a = omega (arith, mod-add-div a nlines) in
        (k, hk, walk ∙ v ∙ rw (eq, er, parts) refl),
  )
