-- ===== src/Setup/Cleanup.antt =====
-- `mem_cleanup` and `tlb_cleanup` of src/lib_mem.c.
use qnx_lmbench_mods.Base.{
  ℕ, suc, ◌≡◌, refl, false, not, Option, none, some, List, [], ◌∷◌, ◌++◌, ◌==◌, if◌then◌else◌,
  arith,
}
use qnx_lmbench_mods.Setup.{MemState}

-- A block that is given to `free`.
pub data Block : Type 0 where
  memory_at : ℕ → Block
  lines_of : List ℕ → Block
  pages_of : List ℕ → Block
  words_of : List ℕ → Block

abbrev pub free_memory : ℕ → List Block
free_memory a = if a == 0 then [] else memory_at a ∷ []

abbrev pub free_table : (List ℕ → Block) → Option (List ℕ) → List Block
free_table f o = elim o [ none ↦ [] | some xs ↦ f xs ∷ [] ]

-- `mem_cleanup(iterations, state)`: the state after it, and the blocks that it frees.
pub mem_cleanup : (iterations : ℕ) → MemState → MemState × List Block
mem_cleanup iterations s = if not (iterations == 0) then (s, []) else (
  record s { addr = 0; lines = none; pages = none; words = none },
  free_memory s.addr
      ++ free_table lines_of s.lines
      ++ free_table pages_of s.pages
      ++ free_table words_of s.words,
)

-- `for (i = 0; i < state->npages; ++i) if (addr[i]) free(addr[i]);`
pub free_pages : List ℕ → List Block
free_pages [] = []
free_pages (a ∷ addr) = free_memory a ++ free_pages addr

-- `tlb_cleanup(iterations, state)`, where `addr` is the table of pages that `state->addr` points to.
pub tlb_cleanup : (iterations : ℕ) (addr : List ℕ) → MemState → MemState × List Block
unfolding free_pages
tlb_cleanup iterations addr s =
    let blocks = if s.addr == 0 then [] else free_pages addr ++ free_memory s.addr in
    if not (iterations == 0) then (s, []) else (
      record s { addr = 0; pages = none; lines = none },
      blocks ++ free_table pages_of s.pages ++ free_table lines_of s.lines,
    )

-- The tables and the memory that a state still holds.
pub owned : MemState → List Block
owned s =
    free_memory s.addr
    ++ free_table lines_of s.lines
    ++ free_table pages_of s.pages
    ++ free_table words_of s.words

-- `mem_cleanup` outside the timed rounds frees exactly what the state holds and leaves a state that
-- holds nothing, so that a second one frees nothing; in a timed round it does nothing.
pub mem_cleanup_frees :
    (n : ℕ) (s : MemState)
    → ((mem_cleanup 0 s).1 ≡ owned s)
      × (owned (mem_cleanup 0 s).0 ≡ [])
      × ((mem_cleanup 0 (mem_cleanup 0 s).0).1 ≡ [])
      × (mem_cleanup (suc n) s ≡ (s, []))
unfolding mem_cleanup owned
mem_cleanup_frees n s =
    let timed : (suc n == 0) ≡ false = ground arith in (refl, refl, refl, rw timed)
