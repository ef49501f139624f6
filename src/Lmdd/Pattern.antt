-- ===== src/Lmdd/Pattern.antt =====
-- The block buffer of src/lmdd.c: the pattern that `opat=` writes into it and `ipat=` looks for, and the
-- bytes that `touch=` clears. A buffer is a function from places to bytes; a word is four bytes, the
-- lowest one first.
pub mod Compare
use qnx_lmbench_mods.Base.{
  ℕ, zero, suc, ◌+◌, ◌-◌, ◌*◌, ◌/◌, ◌%◌, ◌^◌, ◌<◌, Bool, true, false, not, ◌&&◌, Option, none, some,
  List, [], ◌∷◌, ltb, ◌==◌, if◌then◌else◌,
}
use qnx_lmbench_mods.Base.Int.{ℤ, pos, negsuc, ◌-ℤ◌}

abbrev pub Buffer : Type 0
Buffer = ℕ → ℕ

-- `buf[i]`, as an unsigned int.
pub load : Buffer → ℕ → ℕ
load b i = b (4 * i) + 256 * b (4 * i + 1) + 65536 * b (4 * i + 2) + 16777216 * b (4 * i + 3)

-- `buf[i] = v`
pub store : Buffer → (i v : ℕ) → Buffer
store b i v j =
    if j == 4 * i
    then v % 256
    else if j == 4 * i + 1
    then v / 256 % 256
    else if j == 4 * i + 2
    then v / 65536 % 256
    else if j == 4 * i + 3
    then v / 16777216 % 256
    else b j

-- `(uint)(off + foo * sizeof(int))`
pub expected : (off foo : ℕ) → ℕ
expected off foo = (off + foo * 4) % 2 ^ 32

abbrev pub is_zero : ℤ → Bool
is_zero (pos n) = n == 0
is_zero (negsuc n) = false

abbrev pub is_minus_one : ℤ → Bool
is_minus_one (pos n) = false
is_minus_one (negsuc n) = n == 0

-- `for (foo = 0, cnt = moved/sizeof(int); cnt--; foo++)` of `opat=`, with `cnt` rounds to go.
pub fill_from : (cnt foo off : ℕ) → Buffer → Buffer
unfolding expected store
fill_from zero foo off b = b
fill_from (suc cnt) foo off b = fill_from cnt (foo + 1) off (store b foo (expected off foo))

pub fill : (moved off : ℕ) → Buffer → Buffer
fill moved off b = fill_from (moved / 4) 0 off b

-- What a message of `ipat=` names: the word wanted and the word found.
pub record Mismatch : Type 0 where
  pub want : ℕ
  pub got : ℕ

abbrev pub mismatch_at : (off foo : ℕ) → Buffer → Mismatch
mismatch_at off foo b = record { want = expected off foo; got = load b foo }

-- The loop of `ipat=`: the messages, the words that differ with what they should be, and what is left
-- of `misses`. `none` for the latter: the last mismatch allowed, at which the program ends.
pub check_from : (cnt foo off : ℕ) (limited : Bool) (misses : ℤ) → Buffer → List Mismatch × Option ℤ
check_from zero foo off limited misses b = ([], some misses)
check_from (suc cnt) foo off limited misses b =
    let rest = check_from cnt (foo + 1) off limited misses b in
    let fewer = check_from cnt (foo + 1) off limited (misses -ℤ pos 1) b in
    let message = mismatch_at off foo b in
    if load b foo == expected off foo
    then rest
    else if not limited
    then (message ∷ rest.0, rest.1)
    else if is_zero (misses -ℤ pos 1)
    then (message ∷ [], none)
    else (message ∷ fewer.0, fewer.1)

pub check : (moved off : ℕ) (mismatch misses : ℤ) → Buffer → List Mismatch × Option ℤ
check moved off mismatch misses b =
    check_from (moved / 4) 0 off (not (is_minus_one mismatch)) misses b

-- `for (i = 0; i < moved; i += 4096) ((char *)buf)[i] = 0;`
pub clear : (moved : ℕ) → Buffer → Buffer
clear moved b j = if j % 4096 == 0 && ltb j moved then 0 else b j
