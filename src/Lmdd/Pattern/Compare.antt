-- ===== src/Lmdd/Pattern/Compare.antt =====
-- The check for the pattern of src/lmdd.c, against the words that differ from it.
use qnx_lmbench_mods.Base.{
  ℕ, zero, suc, ◌+◌, ◌-◌, ◌*◌, ◌/◌, ◌^◌, ◌≤◌, ◌<◌, ◌≡◌, ◌≢◌, refl, ◌∙◌, inl, inr, true, false, ◌&&◌,
  Option, none, some, List, [], ◌∷◌, length, take, leb, ltb, ◌==◌, ==_iff, if◌then◌else◌,
  Bool-cases, arith,
}
use qnx_lmbench_mods.Base.Int.{ℤ, pos, negsuc, ◌-ℤ◌, -ℤ_parts, eq_of_parts}
use qnx_lmbench_mods.Lmdd.Pattern.{
  Buffer, Mismatch, mismatch_at, load, store, expected, fill_from, fill, check_from, check, clear,
}

-- Each 4096th byte of what was moved is cleared.
pub clear_lem : (k moved : ℕ) (b : Buffer) → k * 4096 < moved → clear moved b (k * 4096) ≡ 0
unfolding clear
clear_lem k moved b h = ground arith

load-store_self : (b : Buffer) (i v : ℕ) → v < 2 ^ 32 → load (store b i v) i ≡ v
unfolding load store
load-store_self b i v h =
    let a : (4 * i + 1 == 4 * i) ≡ false = ground arith in
    let a2 : (4 * i + 2 == 4 * i) ≡ false = ground arith in
    let a3 : (4 * i + 3 == 4 * i) ≡ false = ground arith in
    let b2 : (4 * i + 2 == 4 * i + 1) ≡ false = ground arith in
    let b3 : (4 * i + 3 == 4 * i + 1) ≡ false = ground arith in
    let c3 : (4 * i + 3 == 4 * i + 2) ≡ false = ground arith in
    let e0 : (4 * i == 4 * i) ≡ true = ground arith in
    let e1 : (4 * i + 1 == 4 * i + 1) ≡ true = ground arith in
    let e2 : (4 * i + 2 == 4 * i + 2) ≡ true = ground arith in
    let e3 : (4 * i + 3 == 4 * i + 3) ≡ true = ground arith in
    rw (e0, a, e1, a2, b2, e2, a3, b3, c3, e3) (omega arith)

store_byte_ne : (b : Buffer) (i v j : ℕ) → j / 4 ≢ i → store b i v j ≡ b j
unfolding store
store_byte_ne b i v j h = ground arith

load-store_ne : (b : Buffer) (i v j : ℕ) → j ≢ i → load (store b i v) j ≡ load b j
unfolding load
load-store_ne b i v j h = omega (
  arith,
  store_byte_ne b i v (4 * j) (λ (e : 4 * j / 4 ≡ i). omega arith),
  store_byte_ne b i v (4 * j + 1) (λ (e : (4 * j + 1) / 4 ≡ i). omega arith),
  store_byte_ne b i v (4 * j + 2) (λ (e : (4 * j + 2) / 4 ≡ i). omega arith),
  store_byte_ne b i v (4 * j + 3) (λ (e : (4 * j + 3) / 4 ≡ i). omega arith),
)

expected-lt : (off foo : ℕ) → expected off foo < 2 ^ 32
unfolding expected
expected-lt off foo = omega arith

load-fill_from :
    (cnt foo off : ℕ) (b : Buffer) (i : ℕ)
    → load (fill_from cnt foo off b) i
      ≡ (if leb foo i && ltb i (foo + cnt) then expected off i else load b i)
unfolding fill_from
load-fill_from zero foo off b i = ground arith
load-fill_from (suc cnt) foo off b i =
    let rest = load-fill_from cnt (foo + 1) off (store b foo (expected off foo)) i in
    elim (Bool-cases (i == foo)) [
      | inl e ↦
          let i_is = (==_iff i foo).0 e in
          let early : (leb (foo + 1) i && ltb i (foo + 1 + cnt)) ≡ false = ground arith in
          let inside : (leb foo i && ltb i (foo + suc cnt)) ≡ true = ground arith in
          rest
          ∙ rw (early, inside, i_is)
              (load-store_self b foo (expected off foo) (expected-lt off foo))
      | inr e ↦
          let same_range : (leb (foo + 1) i && ltb i (foo + 1 + cnt))
              ≡ (leb foo i && ltb i (foo + suc cnt)) =
            ground arith in
          let kept = load-store_ne b foo (expected off foo) i (λ (e : i ≡ foo). ground arith) in
          rest ∙ rw (same_range, kept) refl
    ]

-- The words that differ from the pattern, in order.
pub differing : (cnt foo off : ℕ) → Buffer → List Mismatch
differing zero foo off b = []
differing (suc cnt) foo off b =
    let rest = differing cnt (foo + 1) off b in
    if load b foo == expected off foo then rest else mismatch_at off foo b ∷ rest

check_from_without_limit :
    (cnt foo off : ℕ) (misses : ℤ) (b : Buffer)
    → check_from cnt foo off false misses b ≡ (differing cnt foo off b, some misses)
unfolding check_from differing
check_from_without_limit zero foo off misses b = refl
check_from_without_limit (suc cnt) foo off misses b =
    let rest = check_from_without_limit cnt (foo + 1) off misses b in
    elim (Bool-cases (load b foo == expected off foo)) [
      | inl e ↦ rw e rest
      | inr e ↦ rw (e, rest) refl
    ]

-- With a limit of `suc m` mismatches: the first ones up to the limit, and what is left of it.
limited : ℕ → List Mismatch → List Mismatch × Option ℤ
limited m ms =
    (take (suc m) ms, if leb (suc m) (length ms) then none else some (pos (suc m - length ms)))

one_less : (m : ℕ) → pos (suc m) -ℤ pos 1 ≡ pos m
one_less m =
    eq_of_parts (pos (suc m) -ℤ pos 1) (pos m) (omega (arith, -ℤ_parts (pos (suc m)) (pos 1)))

limited-cons :
    (m : ℕ) (x : Mismatch) (ms : List Mismatch)
    → (let fewer = limited m ms in (x ∷ fewer.0, fewer.1)) ≡ limited (suc m) (x ∷ ms)
unfolding limited
limited-cons m x ms = ground arith

limited_first : (x : Mismatch) (ms : List Mismatch) → (x ∷ [], none) ≡ limited 0 (x ∷ ms)
unfolding limited
limited_first x ms = ground arith

check_from-limited :
    (cnt foo off m : ℕ) (b : Buffer)
    → check_from cnt foo off true (pos (suc m)) b ≡ limited m (differing cnt foo off b)
unfolding check_from differing
check_from-limited zero foo off m b = unfold limited in ground arith
check_from-limited (suc cnt) foo off zero b = elim (Bool-cases (load b foo == expected off foo)) [
  | inl e ↦ rw e (check_from-limited cnt (foo + 1) off zero b)
  | inr e ↦ rw (e, one_less 0) (limited_first (mismatch_at off foo b) _)
]
check_from-limited (suc cnt) foo off (suc m) b =
    elim (Bool-cases (load b foo == expected off foo)) [
      | inl e ↦ rw e (check_from-limited cnt (foo + 1) off (suc m) b)
      | inr e ↦
          let more : (suc m == 0) ≡ false = ground arith in
          rw (e, one_less (suc m), more, check_from-limited cnt (foo + 1) off m b)
            (limited-cons m (mismatch_at off foo b) _)
    ]

-- With no limit (`mismatch=` not given) the check reports exactly the words of the block that are not
-- their own offsets, in order. With a limit of which `m + 1` are left it reports the first `m + 1` of
-- these, ends the program if there are so many, and otherwise keeps what is left of the limit.
pub check_lem :
    (moved off limit m : ℕ) (misses : ℤ) (b : Buffer)
    → (check moved off (negsuc 0) misses b ≡ (differing (moved / 4) 0 off b, some misses))
      × (check moved off (pos limit) (pos (suc m)) b ≡ (
        take (suc m) (differing (moved / 4) 0 off b),
        (if leb (suc m) (length (differing (moved / 4) 0 off b))
            then none
            else some (pos (suc m - length (differing (moved / 4) 0 off b)))),
      ))
unfolding check limited
check_lem moved off limit m misses b =
    (check_from_without_limit (moved / 4) 0 off misses b, check_from-limited (moved / 4) 0 off m b)

same-words :
    (cnt foo off : ℕ) (b : Buffer)
    → ((i : ℕ) → foo ≤ i → i < foo + cnt → load b i ≡ expected off i)
    → differing cnt foo off b ≡ []
unfolding differing
same-words zero foo off b h = refl
same-words (suc cnt) foo off b h =
    let e : (load b foo == expected off foo) ≡ true = ground (arith, h foo) in
    rw e (
      same-words cnt (foo + 1) off b
        (λ (i : ℕ) (p : foo + 1 ≤ i) (q : i < foo + 1 + cnt). h i (omega arith) (omega arith)))

-- What `opat=` writes into a block, `ipat=` finds without a mismatch at the same offset, whatever the
-- limit. (Only the whole words of the block are looked at.)
pub check-fill :
    (moved off limit m : ℕ) (misses : ℤ) (b : Buffer)
    → (check moved off (negsuc 0) misses (fill moved off b) ≡ ([], some misses))
      × (check moved off (pos limit) (pos (suc m)) (fill moved off b) ≡ ([], some (pos (suc m))))
unfolding fill limited
check-fill moved off limit m misses b =
    let rule = check_lem moved off limit m misses (fill_from (moved / 4) 0 off b) in
    let clean =
      same-words (moved / 4) 0 off (fill_from (moved / 4) 0 off b)
        (λ (i : ℕ) (p : 0 ≤ i) (q : i < 0 + moved / 4).
          ground (arith, load-fill_from (moved / 4) 0 off b i)) in
    let none_left : limited m [] ≡ ([], some (pos (suc m))) = ground arith in
    (rw clean at rule.0, (rw clean at rule.1) ∙ none_left)
