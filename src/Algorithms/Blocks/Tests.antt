-- ===== src/Algorithms/Blocks/Tests.antt =====
-- The split of ranges, at concrete sizes.
use playground_cpp.Common.{◌≡◌, refl, [], ◌∷◌}
use playground_cpp.Algorithms.Blocks.{split_ranges}

four_threads : split_ranges 4 101 ≡ (0, 25) ∷ (25, 50) ∷ (50, 75) ∷ (75, 101) ∷ []
unfolding split_ranges
four_threads = refl
