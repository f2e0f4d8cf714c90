-- ===== src/Algorithms/Blocks/Bounds.antt =====
-- The number of threads and the size of a block are never out of range.
use playground_cpp.Common.{ℕ, ◌+◌, ◌*◌, ◌/◌, ◌^◌, ◌≤◌, ◌<◌, max, arith}
use playground_cpp.Algorithms.Blocks.{num_threads, block_size}

divide_bounds : (len n : ℕ) → 1 ≤ n → n ≤ len → (1 ≤ len / n) × (n * (len / n) ≤ len)
divide_bounds len n h k = grind arith

-- A range that is not empty, of fewer than 2^63 elements, gets at least one thread and no more
-- than one for each 25 elements or part of 25, at most the hardware's number, or 2 if that is
-- less; a block has at least one element; and the blocks of all threads fit into the range.
pub split_bounds :
    (hardware length : ℕ)
    → 0 < length
    → length < 2 ^ 63
    → (1 ≤ num_threads hardware length)
      × (num_threads hardware length ≤ (length + 24) / 25)
      × (num_threads hardware length ≤ max 2 hardware)
      × (1 ≤ block_size hardware length)
      × (num_threads hardware length * block_size hardware length ≤ length)
unfolding block_size
split_bounds hardware length pos small =
    let few : num_threads hardware length ≤ (length + 24) / 25 = omega arith in
    let some : 1 ≤ num_threads hardware length = omega arith in
    let (size, fit) = divide_bounds length (num_threads hardware length) some (omega arith) in
    (some, few, omega arith, size, fit)
