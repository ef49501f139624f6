-- ===== src/Setup/Tlb/Order.antt =====
-- The random order of the pages in `tlb_initialize` of src/lib_mem.c.
use Prim.Native.Nat.{bit_xor}
use native.Mathlib.Nat.{mod-lt}
use mathlib.Core.List.{Perm}
use mathlib.Core.List.Perm
use qnx_lmbench_mods.Base.{
  ℕ, zero, suc, ◌+◌, ◌-◌, ◌*◌, ◌/◌, ◌%◌, ◌<◌, ◌≤◌, ◌≡◌, refl, sym, ap, ◌∙◌, List, length, arith,
}
use qnx_lmbench_mods.Mem.{at, swap}
use qnx_lmbench_mods.Mem.Shuffle.{swap-perm, length-swap}
use qnx_lmbench_mods.Mem.Order.{
  transpose, transpose-lt, transpose_involutive, transpose_other, at-swap,
}
use qnx_lmbench_mods.Setup.Tlb.{shuffle_pages, uint_max}

-- The elements before the `n`-th differ from each other.
unfoldable pub Distinct : ℕ → List ℕ → Type 0
Distinct n xs = (i j : ℕ) → i < n → j < n → at xs i ≡ at xs j → i ≡ j

swap-Distinct :
    (n o i : ℕ) (xs : List ℕ)
    → length xs ≡ n
    → o < n
    → i < n
    → Distinct n xs
    → Distinct n (swap o i xs)
unfolding Distinct
swap-Distinct n o i xs len ho hi d a b ha hb e =
    let e' : at xs (transpose o i a) ≡ at xs (transpose o i b) =
      sym (at-swap o i a xs (rw len ho) (rw len hi))
      ∙ e
      ∙ at-swap o i b xs (rw len ho) (rw len hi) in
    let same =
      d (transpose o i a) (transpose o i b) (transpose-lt n o i a ho hi ha)
        (transpose-lt n o i b ho hi hb) e' in
    sym (transpose_involutive o i a) ∙ ap (transpose o i) same ∙ transpose_involutive o i b

-- The loop leaves the zeroth page where it is, and the others in some order.
pub shuffle_pages_lem :
    (rand : ℕ → ℕ) (n size i r calls : ℕ) (pages : List ℕ)
    → length pages ≡ n
    → i ≤ n - 2
    → Distinct n pages
    → ((j : ℕ) → j < n → at pages j % size ≡ 0)
    → Perm (shuffle_pages rand i r calls pages) pages
      × (at (shuffle_pages rand i r calls pages) 0 ≡ at pages 0)
      × Distinct n (shuffle_pages rand i r calls pages)
      × ((j : ℕ) → j < n → at (shuffle_pages rand i r calls pages) j % size ≡ 0)
unfolding shuffle_pages
shuffle_pages_lem rand n size zero r calls pages len h d even = (Perm.rfl, refl, d, even)
shuffle_pages_lem rand n size (suc i) r calls pages len h d even =
    let r' = bit_xor (r * 2 % uint_max) (rand calls / 16) in
    let o = r' % suc i + 1 in
    let small : r' % suc i < suc i = mod-lt r' (omega arith) in
    let ho : o < n = omega (arith, small) in
    let hi : suc i + 1 < n = omega arith in
    let next = swap o (suc i + 1) pages in
    let (perm, first, distinct, even') =
      shuffle_pages_lem rand n size i r' (calls + 1) next (length-swap o (suc i + 1) pages ∙ len)
        (omega arith) (swap-Distinct n o (suc i + 1) pages len ho hi d)
        (λ j lt.
          ap (λ x. x % size) (at-swap o (suc i + 1) j pages (rw len ho) (rw len hi))
          ∙ even (transpose o (suc i + 1) j) (transpose-lt n o (suc i + 1) j ho hi lt)) in
    let kept : transpose o (suc i + 1) 0 ≡ 0 =
      transpose_other o (suc i + 1) 0 (omega arith) (omega arith) in
    (
      Perm.trans perm (swap-perm o (suc i + 1) pages (rw len ho) (rw len hi)),
      first ∙ at-swap o (suc i + 1) 0 pages (rw len ho) (rw len hi) ∙ ap (at pages) kept,
      distinct,
      even',
    )
