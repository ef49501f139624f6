-- ===== src/Setup/Bounds.antt =====
-- Where `base_initialize` of src/lib_mem.c puts the memory.
use native.Mathlib.Nat.{mod-lt, mod-add-div, mod-eq_of_lt, div-mul-le_self, mul-add-mod_self_left}
use qnx_lmbench_mods.Base.{
  ℕ, ◌+◌, ◌-◌, ◌*◌, ◌/◌, ◌%◌, ◌<◌, ◌≤◌, ◌≡◌, ◌≢◌, refl, ◌∙◌, true, Bool-cases, inl, inr, arith,
  ◌==◌, ap,
}
use qnx_lmbench_mods.Mem.{Memory, size_max}
use qnx_lmbench_mods.Setup.{MemState, Env, block_of, returns, align, base_initialize}
use qnx_lmbench_mods.Setup.Ready.{ready, base_initialize-ready}

pub next_multiple : (p pagesize : ℕ) → 0 < pagesize → (p + (pagesize - p % pagesize)) % pagesize ≡ 0
next_multiple p pagesize pos =
    let next : p + (pagesize - p % pagesize) ≡ pagesize * (p / pagesize + 1) + 0 =
      grind (arith, mod-add-div p pagesize, mod-lt p pos) in
    rw next (mul-add-mod_self_left pagesize (p / pagesize + 1) 0 ∙ mod-eq_of_lt pos)

align-mod : (p pagesize : ℕ) → 0 < pagesize → align p pagesize % pagesize ≡ 0
align-mod p pagesize pos = elim (Bool-cases (p % pagesize == 0)) [
  | inl even ↦ rw even (ground arith)
  | inr odd ↦ rw odd (next_multiple p pagesize pos)
]

align-between :
    (p pagesize : ℕ) → 0 < pagesize → (p ≤ align p pagesize) × (align p pagesize < p + pagesize)
align-between p pagesize pos = ground (arith, mod-lt p pos)

-- If `malloc` gives memory and the table of pages can be allocated, a page is not empty and the size of the
-- memory with two more pages fits 64 bits, `base_initialize` succeeds: memory is as before, the base is the start of a page,
-- and all pages of `maxlen` bytes from there on lie in the `maxlen + 2 * pagesize` bytes that `malloc` was asked for.
pub base_initialize_bounds :
    (e : Env) (s : MemState) (m : Memory)
    → block_of e s ≢ 0
    → e.pages_fit ≡ true
    → 0 < s.pagesize
    → s.maxlen + 2 * s.pagesize < size_max
    → (s' : MemState) × (base_initialize e 0 s m ≡ returns s' m)
      × (s'.initialized ≡ true)
      × (s'.base % s.pagesize ≡ 0)
      × (s'.addr ≡ e.malloc (s.maxlen + 2 * s.pagesize))
      × (s'.addr ≤ s'.base)
      × (s'.base + (s.maxlen + s.pagesize - 1) / s.pagesize * s.pagesize
          ≤ s'.addr + (s.maxlen + 2 * s.pagesize))
base_initialize_bounds e s m block pages_fit pos fits =
    let (pages, r, calls, done, _) = base_initialize-ready e s m block pages_fit pos fits in
    let (above, below) = align-between (block_of e s) s.pagesize pos in
    (
      ready e s pages r calls,
      done,
      refl,
      align-mod (block_of e s) s.pagesize pos,
      ap e.malloc (mod-eq_of_lt fits),
      above,
      omega (arith, below, div-mul-le_self (s.maxlen + s.pagesize - 1) s.pagesize),
    )
