-- ===== src/Algorithms/FindRecursive.antt =====
-- experiments/concurrent_algorithms/include/concurrent/find.hpp, FindRecursive, where
-- comparisons do not throw. `matches i` is `*begin == match` at position i, and `sees i` is
-- what the one `done->load()` before position i gives, which depends on the interleaving.
pub mod Answer
mod Tests
use playground_cpp.Common.{
  ℕ, zero, suc, ◌+◌, ◌-◌, ◌*◌, ◌/◌, Bool, true, false, ◌||◌, ltb, ◌==◌, if◌then◌else◌,
}
use playground_cpp.Algorithms.Blocks.{min_per_thread}

module _ (matches sees : ℕ → Bool) where
  -- The loop over `n` elements from `begin`.
  unfoldable pub search : (n begin end : ℕ) → ℕ
  search zero begin end = end
  search (suc n) begin end =
      let rest = search n (begin + 1) end in
      if sees begin then end else if matches begin then begin else rest

  -- Whether that loop stores true in `done`.
  unfoldable pub search_stores : (n begin : ℕ) → Bool
  search_stores zero begin = false
  search_stores (suc n) begin =
      let rest = search_stores n (begin + 1) in
      if sees begin then false else if matches begin then true else rest

  -- `FindRecursiveCore` on fuel.
  unfoldable pub find_core : (fuel begin length : ℕ) → ℕ
  unfolding search
  find_core zero begin length = begin + length
  find_core (suc fuel) begin length =
      let mid_point = begin + length / 2 in
      let direct_res = find_core fuel begin (length / 2) in
      let async_res = find_core fuel mid_point (length - length / 2) in
      if length == 0
      then begin + length
      else if ltb length (2 * min_per_thread)
      then search length begin (begin + length)
      else if direct_res == mid_point
      then async_res
      else direct_res

  -- Whether one of its loops stores true in `done`.
  unfoldable pub core_stores : (fuel begin length : ℕ) → Bool
  unfolding search_stores
  core_stores zero begin length = false
  core_stores (suc fuel) begin length =
      let direct = core_stores fuel begin (length / 2) in
      let async = core_stores fuel (begin + length / 2) (length - length / 2) in
      if length == 0
      then false
      else if ltb length (2 * min_per_thread)
      then search_stores length begin
      else direct || async

  unfoldable pub find_recursive : ℕ → ℕ
  unfolding find_core
  find_recursive length = find_core length 0 length
