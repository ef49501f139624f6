-- ===== src/Readers.antt =====
-- Reading and writing buffers in src/lib_timing.c: `bread`, which adds up the words, and `touch`, which
-- writes to each page. A word is a 64-bit `long`, and sums wrap around.
pub mod Sums
pub mod Pages
mod Tests
use qnx_lmbench_mods.Base.{
  ℕ, zero, suc, ◌+◌, ◌-◌, ◌*◌, ◌/◌, ◌%◌, List, [], ◌∷◌, leb, ◌==◌, if◌then◌else◌,
}
use qnx_lmbench_mods.Clock.{u64}

-- `p[0] + … + p[n - 1]`, where `p` is the index of a word of the buffer.
unfoldable pub add_words : (ℕ → ℕ) → (n p : ℕ) → ℕ
add_words words zero p = 0
add_words words (suc n) p = words p + add_words words n (p + 1)

-- `for (next = p + block; next <= end; p = next, next += block) sum += p[0] + … + p[block - 1];`, for
-- the index `p` and the sum, which it returns. The fuel is one more than the rounds.
pub read_blocks : (words : ℕ → ℕ) (nbytes block fuel p sum : ℕ) → ℕ × ℕ
unfolding add_words
read_blocks words nbytes block zero p sum = (p, sum)
read_blocks words nbytes block (suc fuel) p sum =
    let rest =
      read_blocks words nbytes block fuel (p + block) ((sum + add_words words block p) % u64) in
    if leb ((p + block) * 8) nbytes then rest else (p, sum)

-- `bread(buf, nbytes)`: blocks of 128 words, of 16 words, and single words.
pub bread : (ℕ → ℕ) → ℕ → ℕ
unfolding read_blocks
bread words nbytes =
    let fuel = nbytes + 1 in
    let (p1, sum1) = read_blocks words nbytes 128 fuel 0 0 in
    let (p2, sum2) = read_blocks words nbytes 16 fuel p1 sum1 in
    (read_blocks words nbytes 1 fuel p2 sum2).1

-- `while (nbytes >= psize) { *buf = 1; buf += psize; nbytes -= psize; }`: the addresses that are
-- written. The fuel is one more than the rounds.
pub touch_loop : (psize fuel buf nbytes : ℕ) → List ℕ
touch_loop psize zero buf nbytes = []
touch_loop psize (suc fuel) buf nbytes =
    let rest = touch_loop psize fuel (buf + psize) (nbytes - psize) in
    if leb psize nbytes then buf ∷ rest else []

-- `touch(buf, nbytes)`, with the static `psize` before and after.
pub touch : (getpagesize psize buf nbytes : ℕ) → List ℕ × ℕ
unfolding touch_loop
touch getpagesize psize buf nbytes =
    let size = if psize == 0 then getpagesize else psize in
    (touch_loop size (nbytes + 1) buf nbytes, size)
