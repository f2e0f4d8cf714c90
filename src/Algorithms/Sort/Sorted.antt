-- ===== src/Algorithms/Sort/Sorted.antt =====
-- Ascending lists, as sort.hpp makes them: no element is less than one before it.
use playground_cpp.Common.{
  ◌≡◌, Bool, true, false, not, List, [], ◌∷◌, ◌++◌, weight, count, count-append, count-none, arith,
}

module _ {ℓ} {T : Type ℓ} (lt : T → T → Bool) where
  abbrev pub IsSorted : List T → Type 0
  IsSorted [] = Unit
  IsSorted (x ∷ l) = (count (λ y. lt y x) l ≡ 0) × IsSorted l

  -- `<` orders the elements strictly.
  pub record IsStrict : Type ℓ where
    pub asym : (x y : T) → lt x y ≡ true → lt y x ≡ false
    pub trans : (x y z : T) → lt x y ≡ true → lt y z ≡ true → lt x z ≡ true

  weight_zero : (f : T → Bool) (x : T) → weight (λ y. not (f y)) x ≡ 0 → f x ≡ true
  weight_zero f x h = ground arith

  -- What is less than `x`, which is less than `d`, is less than `d`.
  below_less :
      IsStrict
      → (x d : T) (l : List T) → lt x d ≡ true
      → count (λ y. lt y d) l ≡ 0
      → count (λ y. lt y x) l ≡ 0
  below_less o x d l h = count-none (λ y. lt y d) (λ y. lt y x) l (λ y e. o.trans y x d e h)

  -- Two ascending lists round a pivot.
  pub IsSorted-pivot :
      IsStrict
      → (d : T) (l r : List T) → IsSorted l
      → IsSorted r
      → count (λ y. not (lt y d)) l ≡ 0
      → count (λ y. lt y d) r ≡ 0
      → IsSorted (l ++ (d ∷ r))
  IsSorted-pivot o d [] r sl sr low high = (high, sr)
  IsSorted-pivot o d (x ∷ l) r sl sr low high =
      let less = weight_zero (λ y. lt y d) x (omega arith) in
      let split = count-append (λ y. lt y x) l (d ∷ r) in
      let rest = below_less o x d r less high in
      let pivot = o.asym x d less in
      let head = sl.0 in (ground arith, IsSorted-pivot o d l r sl.1 sr (omega arith) high)
