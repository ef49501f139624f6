-- ===== src/Setup/Lines.antt =====
-- The arithmetic of pages and lines in the initializers of src/lib_mem.c.
use native.Mathlib.Nat.{
  mul_assoc, mul-div_cancel, one-le-pow, mod-lt, mod-add-div, mul-lt-mul_of_pos_right, mul-le-mul,
  le_refl, div-mul-le_self,
}
use qnx_lmbench_mods.Base.{
  ℕ, zero, suc, suc, ◌+◌, ◌-◌, ◌*◌, ◌/◌, ◌%◌, ◌^◌, ◌<◌, ◌≤◌, ◌≡◌, refl, sym, ap, ◌∙◌, true, some,
  List, arith,
}
use qnx_lmbench_mods.Mem.{size_max, at, words_initialize}
use qnx_lmbench_mods.Mem.Order.{Permutes, words_initialize-Permutes}
use qnx_lmbench_mods.Mem.Tour.{one_place}

-- The pages that a length takes.
abbrev pub pages_of : ℕ → ℕ → ℕ
pages_of len pagesize = (len + pagesize - 1) / pagesize

pub pages_fit_in :
    (len pagesize : ℕ)
    → 0 < pagesize
    → len + pagesize ≤ size_max
    → pages_of len pagesize * pagesize ≤ size_max
pages_fit_in len pagesize pos fits = omega (arith, div-mul-le_self (len + pagesize - 1) pagesize)

pub row_lt : (rows cols i j : ℕ) → i < rows → j < cols → i * cols + j < rows * cols
row_lt rows cols i j hi hj =
    let below : suc i * cols ≤ rows * cols = mul-le-mul hi (le_refl cols) in omega (arith, below)

pub count_lines :
    (len pagesize line n : ℕ)
    → 0 < pagesize
    → 0 < line
    → pagesize ≡ n * line
    → len % pagesize ≡ 0
    → (pages_of len pagesize * (pagesize / line) ≡ len / line) × (len / line * line ≡ len)
count_lines len pagesize line n pos some_line power no_rest =
    let q = len / pagesize in
    let x = len + pagesize - 1 in
    let parts : pagesize * (x / pagesize) + x % pagesize ≡ pagesize * q + (pagesize - 1) =
      omega (arith, mod-add-div x pagesize, mod-add-div len pagesize, no_rest) in
    let (pages, _) =
      one_place pagesize (x / pagesize) (x % pagesize) q (pagesize - 1) (mod-lt x pos) (omega arith)
        parts in
    let lines : pagesize / line ≡ n = rw power (mul-div_cancel n some_line) in
    let bytes : q * n * line ≡ len =
      mul_assoc q n line
      ∙ ap (λ b. q * b) (sym power)
      ∙ omega (arith, mod-add-div len pagesize, no_rest) in
    let count : len / line ≡ q * n =
      ap (λ b. b / line) (sym bytes) ∙ mul-div_cancel (q * n) some_line in
    (rw (pages, lines, count) refl, rw count bytes)

pub positive : (n unit : ℕ) → 0 < n * unit → 0 < n
positive zero unit h = absurd (omega arith)
positive (suc n) unit h = omega arith

pub before_last : (n unit len : ℕ) → 0 < unit → 0 < n → n * unit ≡ len → (n - 1) * unit < len
before_last n unit len pos some_row e =
    omega (arith, e, mul-lt-mul_of_pos_right {m = n - 1} {n = n} {k = unit} (omega arith) pos)

pub line_le_page : (k line : ℕ) → line ≤ 2 ^ k * line
line_le_page k line =
    omega (arith, mul-le-mul {m₁ = line} {m₂ = line} (one-le-pow k 2 (omega arith)) (le_refl line))

-- The lines of a page, if they are a power of two.
pub lines_of :
    (k line pagesize : ℕ)
    → 0 < line
    → pagesize ≤ size_max
    → pagesize ≡ 2 ^ k * line
    → (lines : List ℕ) × (words_initialize true (pagesize / line) line ≡ some lines)
      × Permutes (pagesize / line) line lines
      × (pagesize ≡ pagesize / line * line)
      × (0 < pagesize / line)
      × (at lines 0 ≡ 0)
lines_of k line pagesize pos fits e =
    let n : pagesize / line ≡ 2 ^ k = rw e (mul-div_cancel (2 ^ k) pos) in
    let (lines, made, inside, first) = words_initialize-Permutes k line (rw (sym e) fits) pos in
    (lines, rw n made, rw n inside, rw n e, rw n (one-le-pow k 2 (omega arith)), first)
