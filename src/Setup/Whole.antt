-- ===== src/Setup/Whole.antt =====
-- The initializers of src/lib_mem.c from their call to the chain that they leave: whatever the order,
-- the benchmark that starts at `p[0]` comes through the whole memory.
use qnx_lmbench_mods.Base.{
  ◌==◌, false, ℕ, ◌+◌, ◌*◌, ◌^◌, ◌<◌, ◌≤◌, ◌≡◌, ◌≢◌, true, false, arith, ◌==◌,
}
use qnx_lmbench_mods.Mem.{size_max, Memory, line_initialize as line_chain}
use qnx_lmbench_mods.Mem.Tour.{Tour}
use qnx_lmbench_mods.Setup.{MemState, Env, block_of, pointer_size, line_initialize}

not_empty : {line : ℕ} → pointer_size ≤ line → 0 < line
not_empty wide = omega arith

-- A successful initialization: the state is marked, and its chain is a tour of the `n` places that are
-- `unit` bytes apart from its base on.
unfoldable pub Toured : MemState → Memory → (unit n : ℕ) → Type 0
Toured s m unit n = (s.initialized ≡ true) × Tour m (s.p 0) s.base unit n

module _ (e : Env) (s : MemState) (m : Memory) (k : ℕ) (block : block_of e s ≢ 0)
    (pages_fit : e.pages_fit ≡ true) (fits : s.maxlen + 2 * s.pagesize < size_max)
    (whole : s.len ≡ s.maxlen) (some_memory : 0 < s.len) (wide : pointer_size ≤ s.line)
    (power : s.pagesize ≡ 2 ^ k * s.line) where
  abbrev some_line : 0 < s.line
  some_line = not_empty wide
