-- ===== src/Algorithms/Sort/Tests.antt =====
-- Both sorts of sort.hpp on numbers, with a stable partition.
use playground_cpp.Common.{
  ℕ, ◌+◌, ◌≡◌, refl, Bool, not, List, [], ◌∷◌, ltb, count, SameItems, keep, arith,
}
use playground_cpp.Algorithms.Sort.{sorter_do_sort, do_sort}
use playground_cpp.Algorithms.Sort.Sorted.{IsSorted, IsStrict}
use playground_cpp.Algorithms.Sort.Laws.{Partitions, sorts_sort}

abbrev stable : (ℕ → Bool) → List ℕ → List ℕ × List ℕ
stable p l = (keep p l, keep (λ x. not (p x)) l)

stable_same :
    (p f : ℕ → Bool) (l : List ℕ) → count f (stable p l).0 + count f (stable p l).1 ≡ count f l
stable_same p f [] = refl
stable_same p f (x ∷ l) = ground (arith, stable_same p f l)

stable_passing : (p : ℕ → Bool) (l : List ℕ) → count (λ x. not (p x)) (stable p l).0 ≡ 0
stable_passing p [] = refl
stable_passing p (x ∷ l) = ground (arith, stable_passing p l)

stable_failing : (p : ℕ → Bool) (l : List ℕ) → count p (stable p l).1 ≡ 0
stable_failing p [] = refl
stable_failing p (x ∷ l) = ground (arith, stable_failing p l)

stable-Partitions : Partitions stable
stable-Partitions = record {
  same = stable_same;
  passing = stable_passing;
  failing = stable_failing;
}

ltb-IsStrict : IsStrict ltb
ltb-IsStrict = record { asym = λ x y h. ground arith; trans = λ x y z h k. ground arith }

abbrev shuffled : List ℕ
shuffled = 5 ∷ 2 ∷ 9 ∷ 2 ∷ 0 ∷ 7 ∷ []

abbrev greater : ℕ → ℕ → Bool
greater x y = ltb y x

sorted_shuffled : do_sort ltb stable greater shuffled ≡ 0 ∷ 2 ∷ 2 ∷ 5 ∷ 7 ∷ 9 ∷ []
unfolding do_sort
sorted_shuffled = refl

sorts_sort_example :
    (SameItems (sorter_do_sort ltb stable shuffled) shuffled
      × IsSorted ltb (sorter_do_sort ltb stable shuffled))
    × (SameItems (do_sort ltb stable greater shuffled) shuffled
        × IsSorted ltb (do_sort ltb stable greater shuffled))
sorts_sort_example = sorts_sort ltb stable ltb-IsStrict stable-Partitions greater shuffled
