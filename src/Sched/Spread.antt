-- ===== src/Sched/Spread.antt =====
-- The processors that `handle_scheduler` of src/lib_sched.c chooses.
use native.Mathlib.Nat.{pow-suc, one-le-pow, mod-eq_of_lt}
use qnx_lmbench_mods.Base.{
  ℕ, zero, suc, ◌+◌, ◌-◌, ◌*◌, ◌/◌, ◌%◌, ◌^◌, ◌<◌, ◌≡◌, ap, ◌∙◌, Bool, Option, some, List, arith,
  ◌≤◌, ◌≢◌, sym, ◌==◌, true, false, if◌then◌else◌, refl,
}
use qnx_lmbench_mods.BitReverse.{nbits_of, reverse_loop}
use qnx_lmbench_mods.BitReverse.Laws.{
  reverse_bits, reverse_bits-lt, reverse_bits_involutive, nbits_of_lem, nbits_of-zero,
  reverse_loop-whole,
}
use qnx_lmbench_mods.Mem.Tour.{one_place}
use qnx_lmbench_mods.Sched.{
  Str, Keyword, default, single, balanced, balanced_spread, unique, unique_spread, custom_list,
  custom_spread, Placement, pinned, reverse_cpu, choose_cpu, place, handle_scheduler,
}

nbits_of-cpus : (k : ℕ) → nbits_of ((2 ^ suc k - 1) / 2) 1 ≡ suc k
nbits_of-cpus zero = nbits_of-zero 1
nbits_of-cpus (suc k) =
    let p = pow-suc 2 k in
    let p' = pow-suc 2 (suc k) in
    let pos = one-le-pow k 2 (omega arith) in
    nbits_of_lem k ((2 ^ suc (suc k) - 1) / 2) 1 (omega (arith, p, p', pos))
      (omega (arith, p, p', pos))
    ∙ omega arith

reverse_cpu-reverse_bits : (k cpu : ℕ) → reverse_cpu (2 ^ suc k) cpu ≡ reverse_bits (suc k) cpu
unfolding reverse_cpu
reverse_cpu-reverse_bits k cpu =
    ap (λ n. reverse_loop n 0 n cpu 0) (nbits_of-cpus k) ∙ reverse_loop-whole (suc k) cpu

-- On 2 ^ (k + 1) processors `reverse_bits` gives every process number below that a processor of its
-- own: the number with its bits reversed, whose reversal is the number again. Neighbours, an even
-- number and the odd one after it, are half of the processors apart.
pub reverse_cpu_spreads :
    (k cpu i : ℕ)
    → cpu < 2 ^ suc k
    → (reverse_cpu (2 ^ suc k) cpu < 2 ^ suc k)
      × (reverse_cpu (2 ^ suc k) (reverse_cpu (2 ^ suc k) cpu) ≡ cpu)
      × (reverse_cpu (2 ^ suc k) (2 * i + 1) ≡ reverse_cpu (2 ^ suc k) (2 * i) + 2 ^ k)
unfolding reverse_bits
reverse_cpu_spreads k cpu i h =
    let c = reverse_cpu-reverse_bits k in
    let low : (2 * i + 1) % 2 ≡ 1 = omega arith in
    let even : 2 * i % 2 ≡ 0 = omega arith in
    let high : (2 * i + 1) / 2 ≡ i = omega arith in
    let half : 2 * i / 2 ≡ i = omega arith in
    (
      rw (c cpu) (reverse_bits-lt (suc k) cpu),
      ap (reverse_cpu (2 ^ suc k)) (c cpu)
          ∙ c (reverse_bits (suc k) cpu)
          ∙ reverse_bits_involutive (suc k) cpu h,
      c (2 * i + 1) ∙ rw (low, high) (omega (arith, c (2 * i), odd_even low even high half)),
    )
  where
    odd_even :
        (2 * i + 1) % 2 ≡ 1
        → 2 * i % 2 ≡ 0
        → (2 * i + 1) / 2 ≡ i
        → 2 * i / 2 ≡ i
        → reverse_bits (suc k) (2 * i) ≡ reverse_bits k i
    odd_even low even high half = rw (even, half) (omega arith)

-- Numbers below that of the processors keep apart.
reverse_cpu-apart :
    (k a b : ℕ)
    → a < 2 ^ suc k
    → b < 2 ^ suc k
    → a ≢ b
    → reverse_cpu (2 ^ suc k) a ≢ reverse_cpu (2 ^ suc k) b
reverse_cpu-apart k a b ha hb ne e =
    let (_, back, _) = reverse_cpu_spreads k a 0 ha in
    let (_, back', _) = reverse_cpu_spreads k b 0 hb in
    ne (sym back ∙ ap (reverse_cpu (2 ^ suc k)) e ∙ back')

-- A keyword's place in the `if` chain of `handle_scheduler`.
abbrev pub place_of : Keyword → ℕ
place_of k = elim k [
  | default ↦ 0
  | single ↦ 1
  | balanced ↦ 2
  | balanced_spread ↦ 3
  | unique ↦ 4
  | unique_spread ↦ 5
  | custom_list ↦ 6
  | custom_spread ↦ 7
]

module _ (digit : ℕ → Bool) (scan : Str → ℕ) (is : Keyword → Str → Bool) where
  -- The text is this keyword, and no other one.
  abbrev pub Names : Str → Keyword → Type 0
  Names s k = (j : Keyword) → is j s ≡ (place_of j == place_of k)

  module _ (k : ℕ) (table : Option (List ℕ)) (nbenchprocs : ℕ) (s : Str) where
    abbrev pub pinned_by : (childno benchproc : ℕ) → Placement
    pinned_by childno benchproc =
        (handle_scheduler digit scan is (some s) childno benchproc nbenchprocs (2 ^ suc k) table).0

    -- Where a number below that of the processors leads, in order or spread.
    abbrev spot : Bool → ℕ → ℕ
    spot spread n = if spread then reverse_cpu (2 ^ suc k) n else n

    spot-lt : (spread : Bool) (n : ℕ) → n < 2 ^ suc k → spot spread n < 2 ^ suc k
    spot-lt true n h = (reverse_cpu_spreads k n 0 h).0
    spot-lt false n h = h

    spot-apart :
        (spread : Bool) (n n' : ℕ)
        → n < 2 ^ suc k
        → n' < 2 ^ suc k
        → n ≢ n'
        → spot spread n ≢ spot spread n'
    spot-apart true n n' h h' ne = reverse_cpu-apart k n n' h h' ne
    spot-apart false n n' h h' ne = ne

    pinned_at :
        (cpu : ℕ) (t : Option (List ℕ))
        → cpu < 2 ^ suc k
        → (place digit scan is (2 ^ suc k) table (some (some cpu, t))).0 ≡ pinned cpu
    unfolding place
    pinned_at cpu t small =
        let some_cpu : (2 ^ suc k == 0) ≡ false = ground arith in
        rw some_cpu (ap pinned (mod-eq_of_lt small))

    chosen-unique :
        (spread : Bool) (c b : ℕ)
        → Names s (if spread then unique_spread else unique)
        → choose_cpu digit scan is s c b nbenchprocs (2 ^ suc k) table
          ≡ some (some (spot spread (c * (nbenchprocs + 1) + b)), table)
    unfolding choose_cpu
    chosen-unique true c b n =
        rw (n default, n single, n balanced, n balanced_spread, n unique, n unique_spread) refl
    chosen-unique false c b n =
        rw (n default, n single, n balanced, n balanced_spread, n unique) refl

    chosen-balanced :
        (spread : Bool) (c b : ℕ)
        → Names s (if spread then balanced_spread else balanced)
        → choose_cpu digit scan is s c b nbenchprocs (2 ^ suc k) table
          ≡ some (some (spot spread c), table)
    unfolding choose_cpu
    chosen-balanced true c b n = rw (n default, n single, n balanced, n balanced_spread) refl
    chosen-balanced false c b n = rw (n default, n single, n balanced) refl

    pinned_by-chosen :
        (c b cpu : ℕ)
        → choose_cpu digit scan is s c b nbenchprocs (2 ^ suc k) table ≡ some (some cpu, table)
        → cpu < 2 ^ suc k
        → pinned_by c b ≡ pinned cpu
    unfolding handle_scheduler
    pinned_by-chosen c b cpu chosen small =
        ap
          (λ (x : Option (Option ℕ × Option (List ℕ))). (place digit scan is (2 ^ suc k) table x).0)
          chosen
        ∙ pinned_at cpu table small

    pinned-unique :
        (spread : Bool) (c b : ℕ)
        → Names s (if spread then unique_spread else unique)
        → c * (nbenchprocs + 1) + b < 2 ^ suc k
        → pinned_by c b ≡ pinned (spot spread (c * (nbenchprocs + 1) + b))
    pinned-unique spread c b n h =
        pinned_by-chosen c b (spot spread (c * (nbenchprocs + 1) + b)) (chosen-unique spread c b n)
          (spot-lt spread (c * (nbenchprocs + 1) + b) h)

    pinned-balanced :
        (spread : Bool) (c b : ℕ)
        → Names s (if spread then balanced_spread else balanced)
        → c < 2 ^ suc k
        → pinned_by c b ≡ pinned (spot spread c)
    pinned-balanced spread c b n h =
        pinned_by-chosen c b (spot spread c) (chosen-balanced spread c b n) (spot-lt spread c h)

    -- On 2 ^ (k + 1) processors, a number that an `int` holds, with LMBENCH_SCHED set to UNIQUE or to
    -- UNIQUE_SPREAD: two different benchmark processes, of the same child or of different ones, whose
    -- numbers are below that of the processors, are pinned to different processors of the host.
    pub unique_apart :
        (spread : Bool) (c b c' b' : ℕ)
        → k < 30
        → Names s (if spread then unique_spread else unique)
        → b ≤ nbenchprocs
        → b' ≤ nbenchprocs
        → (c ≡ c' → b ≢ b')
        → c * (nbenchprocs + 1) + b < 2 ^ suc k
        → c' * (nbenchprocs + 1) + b' < 2 ^ suc k
        → (p : ℕ) × (q : ℕ) × (pinned_by c b ≡ pinned p)
          × (pinned_by c' b' ≡ pinned q)
          × (p < 2 ^ suc k)
          × (q < 2 ^ suc k)
          × (p ≢ q)
    unique_apart spread c b c' b' width n hb hb' ne h h' =
        let first = c * (nbenchprocs + 1) + b in
        let second = c' * (nbenchprocs + 1) + b' in
        let other : first ≢ second = λ e.
          let (row, column) =
            one_place (nbenchprocs + 1) c b c' b' (omega arith) (omega arith) (grind arith) in
          ne row column in
        (
          spot spread first,
          spot spread second,
          pinned-unique spread c b n h,
          pinned-unique spread c' b' n h',
          spot-lt spread first h,
          spot-lt spread second h',
          spot-apart spread first second h h' other,
        )

    -- On such a host with LMBENCH_SCHED set to BALANCED or to BALANCED_SPREAD: two different children,
    -- whose numbers are below that of the processors, are pinned to different processors of the host,
    -- and all processes of a child to the same one.
    pub balanced_shares :
        (spread : Bool) (c c' b b' : ℕ)
        → k < 30
        → Names s (if spread then balanced_spread else balanced)
        → c ≢ c'
        → c < 2 ^ suc k
        → c' < 2 ^ suc k
        → (p : ℕ) × (q : ℕ) × (pinned_by c b ≡ pinned p)
          × (pinned_by c b' ≡ pinned p)
          × (pinned_by c' b ≡ pinned q)
          × (p < 2 ^ suc k)
          × (q < 2 ^ suc k)
          × (p ≢ q)
    balanced_shares spread c c' b b' width n ne h h' = (
      spot spread c,
      spot spread c',
      pinned-balanced spread c b n h,
      pinned-balanced spread c b' n h,
      pinned-balanced spread c' b n h',
      spot-lt spread c h,
      spot-lt spread c' h',
      spot-apart spread c c' h h' ne,
    )
