-- ===== src/Algorithms/PartialSum/Tests.antt =====
-- PartialSum of 30 numbers with two threads; and what it does when `+` does not commute.
use playground_cpp.Common.{
  ℕ, ◌+◌, ◌≡◌, refl, arith, replicate, some, get_elem?, List, [], ◌∷◌, ◌++◌,
}
use playground_cpp.Algorithms.PartialSum.{partial_sum, parallel_partial_sum}
use playground_cpp.Algorithms.PartialSum.Laws.{parallel_partial_sum-partial_sum}

plus_assoc : (a b c : ℕ) → a + b + c ≡ a + (b + c)
plus_assoc a b c = omega arith

plus_comm : (a b : ℕ) → a + b ≡ b + a
plus_comm a b = omega arith

parallel_partial_sum-partial_sum_example :
    parallel_partial_sum ◌+◌ 2 (replicate 30 3) ≡ partial_sum ◌+◌ (replicate 30 3)
parallel_partial_sum-partial_sum_example =
    parallel_partial_sum-partial_sum ◌+◌ plus_assoc plus_comm 2 (replicate 30 3) (omega arith)

-- Texts with concatenation: the first 15 are "a", the others "b". The sixteenth sum should be
-- fifteen times "a" and then "b"; PartialSum has the "b" in front.
abbrev texts : List (List ℕ)
texts = replicate 15 (0x61 ∷ []) ++ replicate 15 (0x62 ∷ [])

concat_wrong :
    (get_elem? (partial_sum ◌++◌ texts) 15 ≡ some (replicate 15 0x61 ++ 0x62 ∷ []))
    × (get_elem? (parallel_partial_sum ◌++◌ 2 texts) 15 ≡ some (0x62 ∷ replicate 15 0x61))
unfolding partial_sum parallel_partial_sum
concat_wrong = (refl, refl)
