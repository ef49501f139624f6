-- ===== src/Sizes/Tests.antt =====
-- Sizes as an option gives them.
use qnx_lmbench_mods.Base.{ℕ, ◌≡◌, refl, some, List, [], ◌∷◌}
use qnx_lmbench_mods.Sizes.{bytes}

-- `64k`
abbrev sixty_four_k : List ℕ
sixty_four_k = 54 ∷ 52 ∷ 107 ∷ []

bytes-sixty_four_k : bytes (λ s. some 64) sixty_four_k ≡ some 65536
unfolding bytes
bytes-sixty_four_k = refl
