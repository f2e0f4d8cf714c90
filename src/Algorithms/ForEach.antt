-- ===== src/Algorithms/ForEach.antt =====
-- experiments/concurrent_algorithms/include/concurrent/for_each.hpp. `f` changes an element in
-- place. A thread's block is what it has done and what it has yet to do; the blocks lie one
-- behind the other in the range.
pub mod Laws
mod Tests
use playground_cpp.Common.{
  ℕ, zero, suc, ◌+◌, ◌*◌, ◌/◌, List, [], ◌∷◌, ◌++◌, map, take, drop, length, ltb, if◌then◌else◌,
}
use playground_cpp.Algorithms.Blocks.{split, min_per_thread}

pub record Block {ℓ} (A : Type ℓ) : Type ℓ where
  pub done : List A
  pub todo : List A

module _ {ℓ} {A : Type ℓ} where
  -- The threads when they have been started, and the calling thread's own block last.
  unfoldable pub start : (hardware : ℕ) → List A → List (Block A)
  start hardware xs = map (λ b. record { done = []; todo = b }) (split hardware xs)

  -- One round of std::for_each in a block.
  unfoldable pub block_step : (A → A) → Block A → Block A
  block_step f b = elim b.todo [ [] ↦ b | x ∷ xs ↦ record { done = b.done ++ f x ∷ []; todo = xs } ]

  -- One step of thread number `i`.
  unfoldable pub step : (A → A) → ℕ → List (Block A) → List (Block A)
  unfolding block_step
  step f i [] = []
  step f zero (b ∷ bs) = block_step f b ∷ bs
  step f (suc i) (b ∷ bs) = b ∷ step f i bs

  unfoldable pub run : (A → A) → List ℕ → List (Block A) → List (Block A)
  unfolding step
  run f [] bs = bs
  run f (i ∷ is) bs = run f is (step f i bs)

  -- The range as the blocks leave it.
  unfoldable pub contents : List (Block A) → List A
  contents [] = []
  contents (b ∷ bs) = b.done ++ b.todo ++ contents bs

  -- `ForEachRecursive`: both halves, on fuel.
  unfoldable pub for_each_recursive : ℕ → (A → A) → List A → List A
  for_each_recursive zero f xs = xs
  for_each_recursive (suc fuel) f xs =
      let mid = length xs / 2 in
      let halves =
        for_each_recursive fuel f (take mid xs) ++ for_each_recursive fuel f (drop mid xs) in
      if ltb (length xs) (2 * min_per_thread) then map f xs else halves
