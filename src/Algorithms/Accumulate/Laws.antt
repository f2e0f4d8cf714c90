-- ===== src/Algorithms/Accumulate/Laws.antt =====
-- ParallelAccumulate against std::accumulate.
use mathlib.Core.List.{foldl, foldl-append, flatten}
use playground_cpp.Common.{
  ℕ, ◌-◌, ◌/◌, ◌≡◌, refl, List, [], ◌∷◌, map, length, arith, ap, sym, ◌∙◌, false, ◌==◌,
}
use playground_cpp.Algorithms.Blocks.{cut}
use playground_cpp.Algorithms.Blocks.Cover.{flatten-cut}
use playground_cpp.Algorithms.Accumulate.{
  num_threads, accumulate, accumulate_block, parallel_accumulate,
}

module _ {ℓ} {T : Type ℓ} (plus : T → T → T) (zero_value : T)
    (plus_assoc : (a b c : T) → plus (plus a b) c ≡ plus a (plus b c))
    (plus-zero : (a : T) → plus a zero_value ≡ a) where
  foldl-plus : (a b : T) (xs : List T) → foldl plus (plus a b) xs ≡ plus a (foldl plus b xs)
  foldl-plus a b [] = refl
  foldl-plus a b (x ∷ xs) =
      ap (λ c. foldl plus c xs) (plus_assoc a b x) ∙ foldl-plus a (plus b x) xs

  -- A block's sum from T() on is added like its elements.
  from_zero : (a : T) (b : List T) → plus a (accumulate_block plus zero_value b) ≡ foldl plus a b
  unfolding accumulate_block
  from_zero a b = sym (foldl-plus a zero_value b) ∙ ap (λ c. foldl plus c b) (plus-zero a)

  accumulate-blocks :
      (a : T) (bs : List (List T))
      → foldl plus a (map (accumulate_block plus zero_value) bs) ≡ foldl plus a (flatten bs)
  unfolding accumulate_block flatten
  accumulate-blocks a [] = refl
  accumulate-blocks a (b ∷ bs) =
      ap (λ c. foldl plus c (map (accumulate_block plus zero_value) bs)) (from_zero a b)
      ∙ (accumulate-blocks (foldl plus a b) bs ∙ sym (foldl-append plus a b (flatten bs)))

  -- If `+` is associative and T() is neutral on its right, the parallel sum is the sum that
  -- std::accumulate computes from left to right, for any number of hardware threads.
  pub parallel_accumulate-accumulate :
      (hardware : ℕ) (xs : List T) (init : T)
      → parallel_accumulate plus zero_value hardware xs init ≡ accumulate plus zero_value init xs
  unfolding parallel_accumulate
  parallel_accumulate-accumulate hardware [] init = refl
  parallel_accumulate-accumulate hardware (x ∷ xs) init =
      let n = num_threads hardware (length (x ∷ xs)) in
      let whole = flatten-cut (length (x ∷ xs) / n) (n - 1) (x ∷ xs) in
      let nonempty : (length (x ∷ xs) == 0) ≡ false = ground arith in
      rw nonempty (
        accumulate-blocks init (cut (length (x ∷ xs) / n) (n - 1) (x ∷ xs))
        ∙ ap (foldl plus init) whole)
