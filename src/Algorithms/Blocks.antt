-- ===== src/Algorithms/Blocks.antt =====
-- How Find, ForEach and PartialSum (find.hpp, for_each.hpp, partial_sum.hpp) split a range over
-- threads: the same lines stand in each. `hardware` is std::thread::hardware_concurrency(), and
-- unsigned long has 64 bits.
pub mod Bounds
pub mod Cover
mod Tests
use playground_cpp.Common.{
  ℕ, zero, suc, ◌+◌, ◌-◌, ◌*◌, ◌/◌, ◌%◌, ◌^◌, min, max, List, [], ◌∷◌, ◌++◌, take, drop, length,
}

abbrev pub min_per_thread : ℕ
min_per_thread = 25

unfoldable pub max_threads : ℕ → ℕ
max_threads length = (length + min_per_thread - 1) % 2 ^ 64 / min_per_thread

unfoldable pub num_threads : (hardware length : ℕ) → ℕ
unfolding max_threads
num_threads hardware length = min (max_threads length) (max 2 hardware)

unfoldable pub block_size : (hardware length : ℕ) → ℕ
unfolding num_threads
block_size hardware length = length / num_threads hardware length

-- The half-open ranges of `block_start` and `block_end`: `n` blocks of the size, and the rest
-- of the range up to `last` for the calling thread.
unfoldable pub ranges : (size block_start n last : ℕ) → List (ℕ × ℕ)
ranges size block_start zero last = (block_start, last) ∷ []
ranges size block_start (suc n) last =
    (block_start, block_start + size) ∷ ranges size (block_start + size) n last

unfoldable pub split_ranges : (hardware length : ℕ) → List (ℕ × ℕ)
unfolding ranges block_size
split_ranges hardware length =
    ranges (block_size hardware length) 0 (num_threads hardware length - 1) length

-- The same split of the elements themselves.
module _ {ℓ} {A : Type ℓ} where
  unfoldable pub cut : (size n : ℕ) → List A → List (List A)
  cut size zero xs = xs ∷ []
  cut size (suc n) xs = take size xs ∷ cut size n (drop size xs)

  unfoldable pub split : (hardware : ℕ) → List A → List (List A)
  unfolding cut block_size
  split hardware xs =
      cut (block_size hardware (length xs)) (num_threads hardware (length xs) - 1) xs
