-- ===== src/Readers/Tests.antt =====
-- `bread` at concrete inputs: word `i` of the buffer holds 3 * i + 1.
use qnx_lmbench_mods.Base.{◌+◌, ◌*◌, ◌≡◌}
use qnx_lmbench_mods.Readers.{add_words, bread}
use qnx_lmbench_mods.Readers.Sums.{bread_lem}

-- 19 words and 3 bytes: a block of 16 and three single words.
bread_lem_example : bread (λ i. 3 * i + 1) 155 ≡ 532
unfolding add_words
bread_lem_example = bread_lem (λ i. 3 * i + 1) 155
