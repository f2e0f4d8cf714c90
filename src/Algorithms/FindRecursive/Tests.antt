-- ===== src/Algorithms/FindRecursive/Tests.antt =====
-- FindRecursive on 60 elements: the left half stops when the right one has found its match.
use playground_cpp.Common.{ℕ, ◌<◌, ◌≡◌, ◌⊎◌, refl, Bool, true, false, ◌==◌}
use playground_cpp.Algorithms.FindRecursive.{core_stores, find_recursive}
use playground_cpp.Algorithms.FindRecursive.Answer.{find_recursive_finds}

abbrev forty : ℕ → Bool
forty i = i == 40

abbrev ten : ℕ → Bool
ten i = i == 10

finds_forty : find_recursive forty ten 60 ≡ 40
unfolding find_recursive
finds_forty = refl

stores_forty : core_stores forty ten 60 0 60 ≡ true
unfolding core_stores
stores_forty = refl

find_recursive_finds_example :
    (find_recursive forty ten 60 < 60) × (forty (find_recursive forty ten 60) ≡ true)
    ⊎ (find_recursive forty ten 60 ≡ 60) × ((i : ℕ) → i < 60 → forty i ≡ false)
find_recursive_finds_example = find_recursive_finds forty ten 60 (λ j e. stores_forty)
