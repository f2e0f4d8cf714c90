-- ===== src/Algorithms/Accumulate.antt =====
-- experiments/concurrent_algorithms/include/concurrent/parallel_accumulate.hpp. `plus` is the
-- `+` of the type T, and `zero_value` is T(), with which std::vector fills `results`.
pub mod Laws
mod Tests
use mathlib.Core.List.{foldl}
use playground_cpp.Common.{
  ℕ, ◌+◌, ◌-◌, ◌/◌, ◌%◌, ◌^◌, min, List, [], ◌∷◌, map, length, ◌==◌, if◌then◌else◌,
}
use playground_cpp.Algorithms.Blocks.{max_threads, cut}

unfoldable pub num_threads : (hardware length : ℕ) → ℕ
unfolding max_threads
num_threads hardware length = min (if hardware == 0 then 2 else hardware) (max_threads length)

module _ {ℓ} {T : Type ℓ} (plus : T → T → T) (zero_value : T) where
  -- std::accumulate
  abbrev pub accumulate : T → List T → T
  accumulate = foldl plus

  -- `AccumulateBlock`, with a result that starts as T().
  unfoldable pub accumulate_block : List T → T
  accumulate_block block = accumulate zero_value block

  unfoldable pub parallel_accumulate : (hardware : ℕ) → List T → T → T
  unfolding accumulate_block cut num_threads
  parallel_accumulate hardware xs init =
      if length xs == 0
      then init
      else let n = num_threads hardware (length xs) in
        accumulate init (map accumulate_block (cut (length xs / n) (n - 1) xs))
