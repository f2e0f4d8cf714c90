-- ===== src/Algorithms/ForEach/Tests.antt =====
-- ForEach on 30 elements with two threads, and its theorems there.
use playground_cpp.Common.{ℕ, ◌+◌, ◌≡◌, refl, List, ◌++◌, map, replicate}
use playground_cpp.Algorithms.Blocks.{split}
use playground_cpp.Algorithms.ForEach.{start, run, contents}
use playground_cpp.Algorithms.ForEach.Laws.{AllDone, for_each-map}

abbrev ones : List ℕ
ones = replicate 30 1

abbrev bump : ℕ → ℕ
bump n = n + 1

-- The second thread first.
abbrev order : List ℕ
order = replicate 15 1 ++ replicate 15 0

all_done : AllDone bump (run bump order (start 2 ones))
unfolding run start split
all_done = (refl, (refl, tt))

for_each-map_example : contents (run bump order (start 2 ones)) ≡ map bump ones
for_each-map_example = for_each-map bump 2 ones order all_done
