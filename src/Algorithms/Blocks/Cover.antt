-- ===== src/Algorithms/Blocks/Cover.antt =====
-- The blocks are the range: nothing is left out, and nothing comes twice.
use playground_cpp.Common.{
  ℕ, zero, suc, ◌+◌, ◌≤◌, ◌<◌, ◌≡◌, List, [], ◌∷◌, ◌++◌, take, drop, length, arith,
  take-append-drop, ap, ◌∙◌, append-nil, dec_lt, ◌⊎◌, inl, inr,
}
use mathlib.Core.List.{flatten}
use playground_cpp.Algorithms.Blocks.{ranges, split_ranges, cut, split}

module _ {ℓ} {A : Type ℓ} where
  pub flatten-cut : (size n : ℕ) (xs : List A) → flatten (cut size n xs) ≡ xs
  unfolding cut flatten
  flatten-cut size zero xs = append-nil xs
  flatten-cut size (suc n) xs =
      ap (λ l. take size xs ++ l) (flatten-cut size n (drop size xs)) ∙ take-append-drop size xs

-- The position is in one of the ranges.
abbrev pub Covered : ℕ → List (ℕ × ℕ) → Type 0
Covered j [] = ⊥
Covered j ((a, b) ∷ rs) = ((a ≤ j) × (j < b)) ⊎ Covered j rs

pub ranges-Covered :
    (size start n last j : ℕ) → start ≤ j → j < last → Covered j (ranges size start n last)
unfolding ranges
ranges-Covered size start zero last j h k = inl (h, k)
ranges-Covered size start (suc n) last j h k = elim (dec_lt j (start + size)) [
  | yes here ↦ inl (h, here)
  | no later ↦ inr (ranges-Covered size (start + size) n last j (omega arith) k)
]

-- Every position of the range is in the range of some thread.
pub split_ranges-Covered :
    (hardware length j : ℕ) → j < length → Covered j (split_ranges hardware length)
unfolding split_ranges
split_ranges-Covered hardware length j h = ranges-Covered _ 0 _ length j (omega arith) h

-- Blocks put together again are the elements, in order.
pub flatten-split {ℓ} : {A : Type ℓ} (hardware : ℕ) (xs : List A) → flatten (split hardware xs) ≡ xs
unfolding split
flatten-split hardware xs = flatten-cut _ _ xs
