-- ===== src/Setup/Pages.antt =====
-- The chain that `thrash_initialize` of src/lib_mem.c builds over whole pages: it changes the page with
-- every load, and comes through every word of every page before it starts again.
use native.Mathlib.Decide.{dec_lt}
use native.Mathlib.Nat.{mod-lt, mod-add-div, mod-eq_of_lt, mod_self}
use qnx_lmbench_mods.Base.{
  ℕ, zero, suc, ◌+◌, ◌-◌, ◌*◌, ◌/◌, ◌%◌, ◌<◌, ◌≤◌, ◌≡◌, ◌≢◌, refl, sym, subst, ap, ◌∙◌, List, arith,
}
use qnx_lmbench_mods.Mem.{at, Memory, write}
use qnx_lmbench_mods.Mem.Chain.{Far, follow, write_self, write_ne}
use qnx_lmbench_mods.Mem.Grid.{grid_cycle, next_row}
use qnx_lmbench_mods.Mem.Line.{AllApart}
use qnx_lmbench_mods.Setup.{thrash_page, thrash_pages}

-- Numbers less than `n` apart have different remainders.
mod_ne : (n i t u : ℕ) → t < u → u < n → (i + t) % n ≢ (i + u) % n
mod_ne n i t u lt h e = elim (dec_lt ((i + t) / n) ((i + u) / n)) [
  | yes up ↦
      let step : n * ((i + t) / n + 1) ≤ n * ((i + u) / n) = grind arith in
      omega (arith, mod-add-div (i + t) n, mod-add-div (i + u) n, e, step)
  | no same ↦
      let step : n * ((i + u) / n) ≤ n * ((i + t) / n) = grind arith in
      omega (arith, mod-add-div (i + t) n, mod-add-div (i + u) n, e, step)
]

module _ (npages nwords addr : ℕ) (pages words : List ℕ) where
  -- The `w`-th word of the `i`-th page.
  abbrev pub word_at : ℕ → ℕ → ℕ
  word_at i w = addr + (at pages i + at words w)

  module _ (differ : AllApart npages nwords addr pages words) (some_word : 0 < nwords) where
    other_word :
        (i t u : ℕ)
        → i < npages
        → t < u
        → u < nwords
        → Far (word_at i ((i + t) % nwords)) (word_at i ((i + u) % nwords))
    unfolding AllApart
    other_word i t u hi lt h e =
        let (_, same) =
          differ i ((i + t) % nwords) i ((i + u) % nwords) hi (mod-lt (i + t) some_word) hi
            (mod-lt (i + u) some_word) (omega (arith, e.0), omega (arith, e.1)) in
        mod_ne nwords i t u lt h same

    other_page :
        (i k v w : ℕ)
        → i < npages
        → k < npages
        → i ≢ k
        → v < nwords
        → w < nwords
        → Far (word_at i v) (word_at k w)
    unfolding AllApart
    other_page i k v w hi hk ne hv hw e =
        let (same, _) = differ i v k w hi hv hk hw (omega (arith, e.0), omega (arith, e.1)) in
        ne same

    -- One page of the chain, from the page `i` into the page `to`.
    module _ (i enter to : ℕ) (hi : i < npages) where
      abbrev page_from : ℕ → ℕ → Memory → Memory
      page_from left j m = thrash_page left j i enter nwords addr (at pages i) (at pages to) words m

      page_from-kept :
          (left j : ℕ) (m : Memory) (x : ℕ)
          → ((u : ℕ) → j ≤ u → u < j + left → Far x (word_at i ((i + u) % nwords)))
          → page_from left j m x ≡ m x
      unfolding thrash_page
      page_from-kept zero j m x h = refl
      page_from-kept (suc left) j m x h =
          let next = word_at to ((enter + j + 1) % nwords) in
          page_from-kept left (j + 1) (write m (word_at i ((i + j) % nwords)) next) x
            (λ u le lt. h u (omega arith) (omega arith))
          ∙ write_ne m (word_at i ((i + j) % nwords)) next x (h j (omega arith) (omega arith))

      page_from-link :
          (left j : ℕ) (m : Memory) (t : ℕ)
          → j + left ≡ nwords
          → j ≤ t
          → t < nwords
          → page_from left j m (word_at i ((i + t) % nwords))
            ≡ word_at to ((enter + t + 1) % nwords)
      unfolding thrash_page
      page_from-link zero j m t e le lt = absurd (omega arith)
      page_from-link (suc left) j m t e le lt =
          let m' = write m (word_at i ((i + j) % nwords)) (word_at to ((enter + j + 1) % nwords)) in
          elim (dec_lt j t) [
            | yes later ↦ page_from-link left (j + 1) m' t (omega arith) (omega arith) lt
            | no now ↦
                let here : j ≡ t = omega arith in
                page_from-kept left (j + 1) m' (word_at i ((i + t) % nwords))
                  (λ u a b. other_word i t u hi (omega arith) (omega arith))
                ∙ subst
                    (λ k. m' (word_at i ((i + k) % nwords)) ≡ word_at to ((enter + k + 1) % nwords))
                    here
                    (write_self m (word_at i ((i + j) % nwords))
                      (word_at to ((enter + j + 1) % nwords)))
          ]

      page_from-other :
          (m : Memory) (k w : ℕ)
          → k < npages
          → k ≢ i
          → w < nwords
          → page_from nwords 0 m (word_at k w) ≡ m (word_at k w)
      page_from-other m k w hk ne hw =
          page_from-kept nwords 0 m (word_at k w)
            (λ u a b. other_page k i w ((i + u) % nwords) hk hi ne hw (mod-lt (i + u) some_word))

    thrash_pages-kept :
        (left i : ℕ) (m : Memory) (k w : ℕ)
        → i + left + 1 ≡ npages
        → k < i
        → w < nwords
        → thrash_pages left i nwords addr pages words m (word_at k w) ≡ m (word_at k w)
    unfolding thrash_pages
    thrash_pages-kept zero i m k w e lt hw =
        page_from-other i 0 0 (omega arith) m k w (omega arith) (omega arith) hw
    thrash_pages-kept (suc left) i m k w e lt hw =
        thrash_pages-kept left (i + 1) (page_from i i (i + 1) (omega arith) nwords 0 m) k w
          (omega arith) (omega arith) hw
        ∙ page_from-other i i (i + 1) (omega arith) m k w (omega arith) (omega arith) hw

    -- Before the last page, a word leads to the word behind it on the next page.
    thrash_pages-link :
        (left i : ℕ) (m : Memory) (k t : ℕ)
        → i + left + 1 ≡ npages
        → i ≤ k
        → k + 1 < npages
        → t < nwords
        → thrash_pages left i nwords addr pages words m (word_at k ((k + t) % nwords))
          ≡ word_at (k + 1) ((k + t + 1) % nwords)
    unfolding thrash_pages
    thrash_pages-link zero i m k t e le lt ht = absurd (omega arith)
    thrash_pages-link (suc left) i m k t e le lt ht =
        let m' = page_from i i (i + 1) (omega arith) nwords 0 m in
        elim (dec_lt i k) [
          | yes later ↦ thrash_pages-link left (i + 1) m' k t (omega arith) (omega arith) lt ht
          | no now ↦
              let here : i ≡ k = omega arith in
              thrash_pages-kept left (i + 1) m' k ((k + t) % nwords) (omega arith) (omega arith)
                (mod-lt (k + t) some_word)
              ∙ subst
                  (λ x. m' (word_at x ((x + t) % nwords)) ≡ word_at (x + 1) ((x + t + 1) % nwords))
                  here
                  (page_from-link i i (i + 1) (omega arith) nwords 0 m t (omega arith) (omega arith)
                    ht)
        ]

    -- The words of the last page lead back to the zeroth page.
    thrash_pages-jump :
        (left i : ℕ) (m : Memory) (t : ℕ)
        → i + left + 1 ≡ npages
        → t < nwords
        → thrash_pages left i nwords addr pages words m
            (word_at (npages - 1) ((npages - 1 + t) % nwords))
          ≡ word_at 0 ((0 + t + 1) % nwords)
    unfolding thrash_pages
    thrash_pages-jump zero i m t e ht =
        let last : i ≡ npages - 1 = omega arith in
        subst
          (λ x.
            thrash_pages zero i nwords addr pages words m (word_at x ((x + t) % nwords))
            ≡ word_at 0 ((0 + t + 1) % nwords))
          last (page_from-link i 0 0 (omega arith) nwords 0 m t (omega arith) (omega arith) ht)
    thrash_pages-jump (suc left) i m t e ht =
        thrash_pages-jump left (i + 1) (page_from i i (i + 1) (omega arith) nwords 0 m) t
          (omega arith) ht

    -- The word behind the `t`-th, and around.
    around_words : (t : ℕ) → t < nwords → (0 + t + 1) % nwords ≡ (0 + next_row nwords t) % nwords
    around_words t h = elim (dec_lt t (nwords - 1)) [
      | yes inside ↦
          let next : next_row nwords t ≡ t + 1 = ground arith in
          let e : 0 + t + 1 ≡ 0 + (t + 1) = omega arith in rw (next, e)
      | no last ↦
          let next : next_row nwords t ≡ 0 = ground arith in
          let e : 0 + t + 1 ≡ nwords = omega arith in
          let z : 0 + 0 ≡ 0 = refl in
          rw (next, e, z) (mod_self nwords ∙ sym (mod-eq_of_lt some_word))
    ]

    -- If the pointers in all words of all pages share no byte, and there are a page and a word, the loops of
    -- `thrash_initialize` over whole pages leave one cycle through all of them, which changes the page
    -- with every load: from the zeroth word of the zeroth page, j * npages + i loads lead to the i-th
    -- page, and there to the word i + j (modulo the number of words), and npages * nwords loads back.
    pub thrash_pages_cycle :
        (m : Memory) (i j : ℕ)
        → i < npages
        → j < nwords
        → (follow
              (j * npages + i)
              (thrash_pages (npages - 1) 0 nwords addr pages words m)
              (word_at 0 0)
            ≡ word_at i ((i + j) % nwords))
          × (follow
                (nwords * npages)
                (thrash_pages (npages - 1) 0 nwords addr pages words m)
                (word_at 0 0)
              ≡ word_at 0 0)
    thrash_pages_cycle m i j hi hj =
        let chain = thrash_pages (npages - 1) 0 nwords addr pages words m in
        let slot = λ (a : ℕ) (b : ℕ). word_at b ((b + a) % nwords) in
        let first : (0 + 0) % nwords ≡ 0 = mod-eq_of_lt some_word in
        let start : slot 0 0 ≡ word_at 0 0 = ap (word_at 0) first in
        let (walk, cycle) =
          grid_cycle nwords npages slot chain
            (λ a b lt more.
              thrash_pages-link (npages - 1) 0 m b a (omega arith) (omega arith) more lt
              ∙ ap (λ w. word_at (b + 1) (w % nwords)) (omega arith))
            (λ a lt.
              thrash_pages-jump (npages - 1) 0 m a (omega arith) lt
              ∙ ap (word_at 0) (around_words a lt))
            (omega arith) some_word j i hj hi in
        (
          ap (follow (j * npages + i) chain) (sym start) ∙ walk,
          ap (follow (nwords * npages) chain) (sym start) ∙ cycle ∙ start,
        )
