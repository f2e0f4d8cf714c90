-- ===== src/Algorithms/Sort.antt =====
-- experiments/concurrent_algorithms/include/concurrent/sort.hpp: the quicksorts of Sorter and
-- SorterThreadPool. The lower part of a list is moved to a task, which another thread or the caller
-- itself runs; it works on a list of its own, so that what the future gives is what the call
-- gives. `lt` and `gt` are the operators of the element type, `partition` is std::partition with
-- the two parts of its result.
pub mod Median
pub mod Sorted
pub mod Laws
mod Tests
use playground_cpp.Common.{
  ℕ, zero, suc, ◌-◌, ◌/◌, Bool, Option, none, some, List, [], ◌∷◌, ◌++◌, length, get_elem?, set,
  ltb, if◌then◌else◌,
}

module _ {ℓ} {T : Type ℓ} where
  unfoldable pub iter_swap : (i j : ℕ) → List T → List T
  iter_swap i j l = elim (get_elem? l i) [
    | none ↦ l
    | some x ↦ elim (get_elem? l j) [ none ↦ l | some y ↦ set (set l i y) j x ]
  ]

module _ {ℓ} {T : Type ℓ} (gt : T → T → Bool) where
  -- `*i > *j`, and the swap of the two.
  unfoldable pub swap_if_greater : (i j : ℕ) → List T → List T
  swap_if_greater i j l = elim (get_elem? l i) [
    | none ↦ l
    | some x ↦ elim (get_elem? l j) [
      | none ↦ l
      | some y ↦ if gt x y then set (set l i y) j x else l
    ]
  ]

  -- `MoveMedianOfThree2Begin`
  unfoldable pub move_median_to_begin : List T → List T
  unfolding swap_if_greater iter_swap
  move_median_to_begin l =
      let mid = length l / 2 in
      let right = length l - 1 in
      if ltb (length l) 3
      then l
      else iter_swap 0 mid
          (swap_if_greater mid right (swap_if_greater 0 right (swap_if_greater 0 mid l)))

module _ {ℓ} {T : Type ℓ} (lt : T → T → Bool)
    (partition : (T → Bool) → List T → List T × List T) where
  -- From the first element on, which is the pivot; `sort` is the recursive call.
  unfoldable pub sort_parts : (sort : List T → List T) → List T → List T
  sort_parts sort [] = []
  sort_parts sort (divide_point ∷ rest) =
      let (lower_chunk, higher) = partition (λ val. lt val divide_point) rest in
      sort lower_chunk ++ (divide_point ∷ sort higher)

  -- One call on fuel; `prepare` is what it does to the list before it takes the first element.
  unfoldable pub sort_with : (prepare : List T → List T) → ℕ → List T → List T
  unfolding sort_parts
  sort_with prepare zero l = l
  sort_with prepare (suc fuel) l =
      let sorted = sort_parts (sort_with prepare fuel) (prepare l) in
      if ltb (length l) 2 then l else sorted

  -- `Sorter::DoSort`
  unfoldable pub sorter_do_sort : List T → List T
  unfolding sort_with
  sorter_do_sort l = sort_with (λ x. x) (length l) l

  -- `SorterThreadPool::DoSort`
  unfoldable pub do_sort : (gt : T → T → Bool) → List T → List T
  unfolding sort_with move_median_to_begin
  do_sort gt l = sort_with (move_median_to_begin gt) (length l) l
