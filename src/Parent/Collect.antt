-- ===== src/Parent/Collect.antt =====
-- The loops of `benchmp_parent` of src/lib_timing.c that read a number of bytes, in whatever pieces the
-- pipe gives them.
use Prim.Native.Nat.{min}
use mathlib.Core.List.{append_assoc, append-nil}
use qnx_lmbench_mods.Base.{
  ℕ, ◌+◌, ◌-◌, ◌<◌, ◌≤◌, ◌≡◌, refl, sym, ap, ap₂, ◌∙◌, Bool, true, false, Option, none, some, List,
  [], ◌∷◌, ◌++◌, length, take, drop, length-take, length-drop, take-add, drop-drop, Bool-cases, inl,
  inr, arith, ◌==◌, if◌then◌else◌,
}
use qnx_lmbench_mods.Parent.{Round, is_broken, bytes_read, collected, collect}

-- No signal comes, and no call fails.
abbrev pub Calm : List Round → Type 0
Calm [] = Unit
Calm (e ∷ es) = (is_broken e ≡ false) × Calm es

-- The rounds that read a byte, if one is asked for.
abbrev pub fruitful : List Round → ℕ
fruitful [] = 0
fruitful (e ∷ es) = bytes_read e 1 + fruitful es

abbrev read_by : Bool → Option ℕ → ℕ → ℕ
read_by readable arrived left =
    if readable then elim arrived [ none ↦ 0 | some k ↦ min k left ] else 0

read_by_le :
    (readable : Bool) (arrived : Option ℕ) (n : ℕ)
    → (read_by readable arrived n ≤ n)
      × (read_by readable arrived 1 ≤ read_by readable arrived n + (1 - n))
      × (read_by readable arrived 1 ≤ 1)
read_by_le false arrived n = (omega arith, omega arith, omega arith)
read_by_le true none n = (omega arith, omega arith, omega arith)
read_by_le true (some k) n = (omega arith, omega arith, omega arith)

bytes_read_le :
    (e : Round) (n : ℕ)
    → (bytes_read e n ≤ n) × (bytes_read e 1 ≤ bytes_read e n + (1 - n)) × (bytes_read e 1 ≤ 1)
bytes_read_le e n = read_by_le e.readable e.arrived n

-- While nothing goes wrong, and the children send enough, the loop reads exactly the bytes it is to
-- read, once there are as many fruitful rounds.
pub collect-Calm :
    (left : ℕ) (rounds : List Round) (pipe got : List ℕ)
    → Calm rounds
    → left ≤ fruitful rounds
    → left ≤ length pipe
    → (rounds' : List Round) × (collect left rounds pipe got
        ≡ collected (got ++ take left pipe) (drop left pipe) rounds')
      × Calm rounds'
      × (fruitful rounds ≤ left + fruitful rounds')
unfolding collect
collect-Calm left [] pipe got calm enough here =
    let z : left ≡ 0 = omega arith in
    ([], rw z (ap (λ g. collected g pipe []) (sym (append-nil got))), tt, omega arith)
collect-Calm left (e ∷ es) pipe got (ok, calm) enough here = elim (Bool-cases (left == 0)) [
  | inl all ↦
      let z : left ≡ 0 = ground arith in
      (
        e ∷ es,
        rw (all, z) (ap (λ g. collected g pipe (e ∷ es)) (sym (append-nil got))),
        (ok, calm),
        omega arith,
      )
  | inr more ↦
      let some_left : 0 < left = ground arith in
      let b = bytes_read e left in
      let (le, useful, one) = bytes_read_le e left in
      let len : length (take b pipe) ≡ b = omega (arith, length-take b pipe, le, here) in
      let step : collect left (e ∷ es) pipe got
          ≡ collect (left - b) es (drop b pipe) (got ++ take b pipe) =
        rw (more, ok, len) refl in
      let split : b + (left - b) ≡ left = omega (arith, le) in
      let (rounds', done, calm', left_over) =
        collect-Calm (left - b) es (drop b pipe) (got ++ take b pipe) calm
          (omega (arith, useful, enough)) (omega (arith, length-drop b pipe, here)) in
      (
        rounds',
        step
            ∙ done
            ∙ ap₂ (λ g p. collected g p rounds')
                (append_assoc got (take b pipe) (take (left - b) (drop b pipe))
                  ∙ ap (λ l. got ++ l)
                      (sym (take-add b (left - b) pipe) ∙ ap (λ n. take n pipe) split))
                (drop-drop b (left - b) pipe ∙ ap (λ n. drop n pipe) split),
        calm',
        omega (arith, left_over, le, one, useful),
      )
]
