-- ===== src/Algorithms/Accumulate/Tests.antt =====
-- ParallelAccumulate of 30 numbers with two threads.
use playground_cpp.Common.{ℕ, ◌+◌, ◌≡◌, refl, arith, replicate}
use playground_cpp.Algorithms.Accumulate.{accumulate, parallel_accumulate}
use playground_cpp.Algorithms.Accumulate.Laws.{parallel_accumulate-accumulate}

plus_assoc : (a b c : ℕ) → a + b + c ≡ a + (b + c)
plus_assoc a b c = omega arith

plus-zero : (a : ℕ) → a + 0 ≡ a
plus-zero a = omega arith

runs : parallel_accumulate ◌+◌ 0 2 (replicate 30 3) 5 ≡ 95
unfolding parallel_accumulate
runs = refl

parallel_accumulate-accumulate_example :
    parallel_accumulate ◌+◌ 0 2 (replicate 30 3) 5 ≡ accumulate ◌+◌ 0 5 (replicate 30 3)
parallel_accumulate-accumulate_example =
    parallel_accumulate-accumulate ◌+◌ 0 plus_assoc plus-zero 2 (replicate 30 3) 5
