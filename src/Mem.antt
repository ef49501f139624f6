-- ===== src/Mem.antt =====
-- The pointer chains of src/lib_mem.c, and `permutation` of src/lib_timing.c from which they are made.
-- Memory is a function from addresses to the pointers that are loaded there: the eight bytes from the
-- address on, so that a store changes what is loaded from the addresses beside its own as well.
pub mod Words
pub mod Shuffle
pub mod Chain
pub mod Grid
pub mod Stride
pub mod Thrash
pub mod Line
pub mod Order
pub mod Tour
mod Tests
use Prim.Native.Nat.{bit_xor}
use qnx_lmbench_mods.Base.{
  ℕ, zero, suc, ◌+◌, ◌-◌, ◌*◌, ◌/◌, ◌%◌, ◌^◌, Bool, true, false, Option, none, some, List, [], ◌∷◌,
  length, get_or, set, ltb, ◌==◌, if◌then◌else◌, ◌&&◌,
}
use qnx_lmbench_mods.BitReverse.{nbits_of, reverse_loop}

abbrev pub size_max : ℕ
size_max = 2 ^ 64

abbrev pub Memory : Type 0
Memory = ℕ → ℕ

-- `sizeof(char*)`.
abbrev pub pointer_size : ℕ
pointer_size = 8

-- Pointers at these addresses share a byte.
abbrev pub overlap : ℕ → ℕ → Bool
overlap x a = ltb x (a + pointer_size) && ltb a (x + pointer_size)

-- The pointer at `x` behind a store of `v` at `a` that takes some of its bytes, which are its lowest ones
-- where the store begins before it, and its highest ones where the store begins in it; the bytes of a
-- pointer are stored from the lowest one on.
pub overlaid : Memory → (a v x : ℕ) → ℕ
overlaid m a v x =
    if ltb a x
    then v / 256 ^ (x - a) + m x / 256 ^ (pointer_size - (x - a)) * 256 ^ (pointer_size - (x - a))
    else m x % 256 ^ (a - x) + v % 256 ^ (pointer_size - (a - x)) * 256 ^ (a - x)

-- `*(char**)a = v`, which takes `sizeof(char*)` bytes.
abbrev pub write : Memory → ℕ → ℕ → Memory
write m a v = λ x. if x == a then v else if overlap x a then overlaid m a v x else m x

-- `xs[i]`
abbrev pub at : List ℕ → ℕ → ℕ
at xs i = get_or xs i 0

-- The `for` over `i` of `words_initialize`, with `left` rounds to go.
pub words_loop : (left i nbits scale : ℕ) → List ℕ
unfolding reverse_loop
words_loop zero i nbits scale = []
words_loop (suc left) i nbits scale =
    (reverse_loop nbits 0 nbits i 0 * scale % size_max) ∷ words_loop left (i + 1) nbits scale

-- `words_initialize(max, scale)`, where `scale` is not negative and `max` is below 2 ^ 32, so that the
-- shifts stay inside an `int`; `allocated` says that `malloc` gave memory.
pub words_initialize : Bool → ℕ → ℕ → Option (List ℕ)
unfolding words_loop nbits_of
words_initialize allocated max scale =
    if allocated then some (words_loop max 0 (nbits_of (max / 2) 0) scale) else none

-- `for (i = 0; i < max; ++i) result[i] = i * scale;`
pub multiples : (left i scale : ℕ) → List ℕ
multiples zero i scale = []
multiples (suc left) i scale = (i * scale % size_max) ∷ multiples left (i + 1) scale

-- `v = result[o]; result[o] = result[i]; result[i] = v;`
pub swap : ℕ → ℕ → List ℕ → List ℕ
swap o i xs = set (set xs o (at xs i)) i (at xs o)

-- The `for` that randomizes the sequence: `rand` gives the values of `rand()` in order, from the
-- call `calls` on, and `r` is the static variable.
pub shuffle : (rand : ℕ → ℕ) (left i max r calls : ℕ) → List ℕ → List ℕ × ℕ × ℕ
unfolding swap
shuffle rand zero i max r calls xs = (xs, r, calls)
shuffle rand (suc left) i max r calls xs =
    let r' = bit_xor (r * 2 % size_max) (rand calls) in
    shuffle rand left (i + 1) max r' (calls + 1) (swap (r' % max) i xs)

-- `permutation(max, scale)`, with the static `r` before and after. `seed` stands for the process ids
-- that the first call mixes with two random numbers.
pub permutation :
    (rand : ℕ → ℕ) (seed : ℕ → ℕ → ℕ) → Bool → (r calls max scale : ℕ) → Option (List ℕ) × ℕ × ℕ
unfolding shuffle multiples
permutation rand seed allocated r calls max scale =
    let first = r == 0 in
    let r' = if first then seed (rand calls) (rand (calls + 1)) else r in
    let calls' = if first then calls + 2 else calls in
    let (xs, r'', calls'') = shuffle rand max 0 max r' calls' (multiples max 0 scale) in
    if allocated then (some xs, r'', calls'') else (none, r, calls)

-- `for (i = stride; i < range; i += stride) *(char **)&addr[i - stride] = (char*)&addr[i];` and the
-- store behind it. `none`: out of fuel.
pub stride_loop : (fuel i range stride addr : ℕ) → Memory → Option Memory
stride_loop zero i range stride addr m = none
stride_loop (suc fuel) i range stride addr m =
    let more =
      stride_loop fuel ((i + stride) % size_max) range stride addr
        (write m (addr + (i - stride)) (addr + i)) in
    if ltb i range then more else some (write m (addr + (i - stride)) addr)

-- `stride_initialize` behind `base_initialize`: the chain and `p[0]`.
pub stride_initialize : (fuel len line base : ℕ) → Memory → Option (Memory × ℕ)
unfolding stride_loop
stride_initialize fuel len line base m = elim (stride_loop fuel line len line base m) [
  | none ↦ none
  | some m' ↦ some (m', base)
]

-- `for (i = 0; i < nwords - 1; ++i) addr[words[i]] = &addr[words[i+1]];` with `left` rounds to go,
-- and `addr[words[i]] = addr`.
pub thrash_words : (left i addr : ℕ) → List ℕ → Memory → Memory
thrash_words zero i addr words m = write m (addr + at words i) addr
thrash_words (suc left) i addr words m =
    thrash_words left (i + 1) addr words (write m (addr + at words i) (addr + at words (i + 1)))

-- The branch of `thrash_initialize` for a length that is no whole number of pages.
pub thrash_initialize_words : Bool → (len line base : ℕ) → Memory → Option (Memory × ℕ)
thrash_initialize_words allocated len line base m =
    elim (words_initialize allocated (len / line) line) [
      | none ↦ none
      | some words ↦ some (thrash_words (len / line - 1) 0 base words m, base)
    ]

-- The `for` over `j` of `line_initialize`, with `left` rounds to go: the first words of the lines of
-- one page, `page` bytes behind `p`.
pub line_page : (left j p page : ℕ) → List ℕ → Memory → Memory
line_page zero j p page lines m = m
line_page (suc left) j p page lines m =
    line_page left (j + 1) p page lines
      (write m (p + page + at lines j) (p + page + at lines (j + 1)))

-- The `for` over `i` of `line_initialize`, with `left` pages to go.
pub line_pages : (left i npages nlines p : ℕ) → (pages lines : List ℕ) → Memory → Memory
unfolding line_page
line_pages zero i npages nlines p pages lines m = m
line_pages (suc left) i npages nlines p pages lines m =
    let next = if ltb i (npages - 1) then i + 1 else 0 in
    let inside = line_page (nlines - 1) 0 p (at pages i) lines m in
    line_pages left (i + 1) npages nlines p pages lines
      (write inside (p + at pages i + at lines (nlines - 1)) (p + at pages next + at lines 0))

-- The chain of `line_initialize` and `p[0]`.
pub line_initialize : (npages nlines p : ℕ) → (pages lines : List ℕ) → Memory → Memory × ℕ
unfolding line_pages
line_initialize npages nlines p pages lines m =
    (line_pages npages 0 npages nlines p pages lines m, p + at pages 0 + at lines 0)
