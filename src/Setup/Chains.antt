-- ===== src/Setup/Chains.antt =====
-- `mem_initialize` of src/lib_mem.c: a chain through all words of memory, line by line and page by
-- page.
use qnx_lmbench_mods.Base.{
  ℕ, zero, suc, ◌+◌, ◌-◌, ◌*◌, ◌/◌, ◌%◌, true, not, ◌&&◌, ◌||◌, List, ltb, ◌==◌, if◌then◌else◌,
}
use qnx_lmbench_mods.Mem.{Memory, write, at, words_initialize}
use qnx_lmbench_mods.Setup.{
  MemState, Env, Run, returns, exits, ◌>>=◌, pointer_size, is_none, table, base_initialize,
}

-- `MAX_MEM_PARALLELISM`.
abbrev pub max_parallelism : ℕ
max_parallelism = 16

-- `for (k = 0; k < line; k += sizeof(char*))`: every word of a line leads to the same word of another
-- one, with `left` words to go.
pub link_line : (left k from to : ℕ) → Memory → Memory
link_line zero k from to m = m
link_line (suc left) k from to m =
    link_line left (k + 1) from to (write m (from + k * pointer_size) (to + k * pointer_size))

-- `for (k = 0; k < nwords; ++k)` between two pages, with `left` words to go.
pub link_words : (left k from to : ℕ) → List ℕ → Memory → Memory
link_words zero k from to words m = m
link_words (suc left) k from to words m =
    link_words left (k + 1) from to words (write m (from + at words k) (to + at words k))

-- The last loop: the words of the last line lead to the next word of the first line.
pub close_words : (left k nwords from to : ℕ) → List ℕ → Memory → Memory
close_words zero k nwords from to words m = m
close_words (suc left) k nwords from to words m =
    let nw = if k == nwords - 1 then 0 else k + 1 in
    close_words left (k + 1) nwords from to words (write m (from + at words k) (to + at words nw))

-- Where the loops stand: the line `j` of the page, the links `l` so far, the start pointers and memory.
pub record Progress : Type 0 where
  pub j : ℕ
  pub l : ℕ
  pub p : ℕ → ℕ
  pub m : Memory

module _ (npointers width line nwords : ℕ) (words : List ℕ) where
  -- `if (l % chunk == 0 && l / chunk < MAX_MEM_PARALLELISM) state->p[l / chunk] = …`
  abbrev pub start_at : (l place : ℕ) → (ℕ → ℕ) → ℕ → ℕ
  start_at l place p =
      let chunk = npointers / width in
      if (l % chunk == 0) && ltb (l / chunk) max_parallelism
      then (λ (n : ℕ). if n == l / chunk then place + at words (l / chunk % nwords) else p n)
      else p

  -- `for (j = 0; j < nlines - 1 && l < npointers - 1; ++j, ++l)` on the page at `page`, with `left`
  -- rounds to go.
  pub link_lines : (left page : ℕ) → List ℕ → Progress → Progress
  unfolding link_line
  link_lines zero page lines g = g
  link_lines (suc left) page lines g =
      let from = page + at lines g.j in
      let rest = link_lines left page lines (record {
        j = g.j + 1;
        l = g.l + 1;
        p = start_at g.l from g.p;
        m =
            link_line ((line + pointer_size - 1) / pointer_size) 0 from (page + at lines (g.j + 1))
              g.m;
      }) in
      if ltb g.l (npointers - 1) then rest else g

  -- `for (i = 0; i < npages; ++i)`, with `left` pages to go.
  pub link_pages : (left i nlines base : ℕ) → (pages lines : List ℕ) → Progress → Progress
  unfolding link_lines link_words
  link_pages zero i nlines base pages lines g = g
  link_pages (suc left) i nlines base pages lines g =
      let g' = link_lines (nlines - 1) (base + at pages i) lines (record g { j = 0 }) in
      let jump =
        link_words nwords 0 (base + at pages i + at lines g'.j)
          (base + at pages (i + 1) + at lines 0) words g'.m in
      link_pages left (i + 1) nlines base pages lines
        (record g' { m = if left == 0 then g'.m else jump })

  -- All loops.
  pub build_chain : (npages nlines base : ℕ) → (pages lines : List ℕ) → (ℕ → ℕ) → Memory → Progress
  unfolding link_pages close_words
  build_chain npages nlines base pages lines p m =
      let g =
        link_pages npages 0 nlines base pages lines
          (record { j = nlines - 1; l = 0; p = p; m = m }) in
      record g {
        m =
            close_words nwords 0 nwords (base + at pages (npages - 1) + at lines g.j)
              (base + at pages 0 + at lines 0) words g.m;
      }

-- `mem_initialize(iterations, state)`.
unfoldable pub mem_initialize : Env → (iterations : ℕ) → MemState → Memory → Run
unfolding build_chain
mem_initialize e iterations s m =
    if not (iterations == 0)
    then returns s m
    else (base_initialize e iterations s m >>= λ s m.
        let words = words_initialize e.words_fit s.nwords pointer_size in
        let lines = words_initialize e.lines_fit s.nlines s.line in
        let g =
          build_chain (s.len / s.line) s.width s.line s.nwords (table words) s.npages s.nlines
            s.base (table s.pages) (table lines) s.p m in
        if not s.initialized
        then returns s m
        else if (s.addr == 0) || is_none s.pages || is_none lines || is_none words
        then exits 1
        else returns
            (record s { words = words; lines = lines; p = g.p; rerun = true; initialized = true })
            g.m)
