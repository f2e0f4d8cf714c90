-- ===== src/Algorithms/PartialSum.antt =====
-- experiments/concurrent_algorithms/include/concurrent/partial_sum.hpp. `plus` is the `+` of the
-- element type. A chunk's thread waits for the future of the chunk before it, so the values that
-- the chunks hand on are those of running them in order.
pub mod Laws
mod Tests
use playground_cpp.Common.{
  ℕ, zero, suc, ◌+◌, ◌-◌, Option, none, some, List, [], ◌∷◌, ◌++◌, map, take, drop, length, ◌==◌,
  if◌then◌else◌,
}
use playground_cpp.Algorithms.Blocks.{num_threads, block_size}

module _ {ℓ} {T : Type ℓ} (plus : T → T → T) where
  sums_from : T → List T → List T
  sums_from acc [] = []
  sums_from acc (x ∷ xs) = plus acc x ∷ sums_from (plus acc x) xs

  -- std::partial_sum onto the range itself
  unfoldable pub partial_sum : List T → List T
  unfolding sums_from
  partial_sum [] = []
  partial_sum (x ∷ xs) = x ∷ sums_from x xs

  -- The last element, `*last`.
  unfoldable pub last_of : List T → Option T
  last_of [] = none
  last_of (x ∷ []) = some x
  last_of (x ∷ y ∷ xs) = last_of (y ∷ xs)

  -- `*last += pre`, and then `val += pre` from `begin` up to `last`.
  unfoldable pub add_to_all : T → List T → List T
  add_to_all pre = map λ val. plus val pre

  -- `ChunkProcess`: the chunk afterwards, whose last element is what it hands on.
  unfoldable pub chunk_process : (pre_res : Option T) → List T → List T
  unfolding partial_sum add_to_all
  chunk_process none chunk = partial_sum chunk
  chunk_process (some pre) chunk = add_to_all pre (partial_sum chunk)

  -- The loop that starts the threads: `n` chunks of the size, and the rest for the calling thread.
  unfoldable pub chunks : (size n : ℕ) → (pre_res : Option T) → List T → List T
  unfolding chunk_process last_of
  chunks size zero pre_res xs = chunk_process pre_res xs
  chunks size (suc n) pre_res xs =
      let chunk = chunk_process pre_res (take size xs) in
      chunk ++ chunks size n (last_of chunk) (drop size xs)

  -- The program's `PartialSum`
  unfoldable pub parallel_partial_sum : (hardware : ℕ) → List T → List T
  unfolding chunks num_threads block_size
  parallel_partial_sum hardware xs =
      if length xs == 0
      then xs
      else chunks (block_size hardware (length xs)) (num_threads hardware (length xs) - 1) none xs
