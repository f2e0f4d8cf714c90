-- ===== src/Algorithms/Sort/Laws.antt =====
-- The two quicksorts of sort.hpp sort.
use playground_cpp.Common.{
  ℕ, zero, suc, ◌+◌, ◌≤◌, ◌<◌, ◌≡◌, refl, ◌∙◌, inl, inr, Bool, true, not, List, [], ◌∷◌, ◌++◌,
  length, ltb, count, count-append, count_all, SameItems, arith, Bool-cases,
}
use playground_cpp.Algorithms.Sort.{
  move_median_to_begin, sort_parts, sort_with, sorter_do_sort, do_sort,
}
use playground_cpp.Algorithms.Sort.Median.{move_median-SameItems}
use playground_cpp.Algorithms.Sort.Sorted.{IsSorted, IsStrict, IsSorted-pivot}

-- What std::partition promises: the elements that pass, then those that do not, in some order.
pub record Partitions {ℓ} {T : Type ℓ} (partition : (T → Bool) → List T → List T × List T)
    : Type ℓ where
  pub same :
      (p f : T → Bool) (l : List T)
      → count f (partition p l).0 + count f (partition p l).1 ≡ count f l
  pub passing : (p : T → Bool) (l : List T) → count (λ x. not (p x)) (partition p l).0 ≡ 0
  pub failing : (p : T → Bool) (l : List T) → count p (partition p l).1 ≡ 0

module _ {ℓ} {T : Type ℓ} (lt : T → T → Bool) (partition : (T → Bool) → List T → List T × List T)
    (o : IsStrict lt) (parts : Partitions partition) where
  Sorts : List T → List T → Type ℓ
  Sorts r l = SameItems r l × IsSorted lt r

  SameItems-length : (xs ys : List T) → SameItems xs ys → length xs ≡ length ys
  SameItems-length xs ys h = omega (arith, count_all xs, count_all ys, h (λ x. true))

  short-IsSorted : (l : List T) → length l < 2 → IsSorted lt l
  short-IsSorted [] h = tt
  short-IsSorted (x ∷ []) h = (refl, tt)
  short-IsSorted (x ∷ y ∷ l) h = absurd (omega arith)

  -- The sorted parts round the pivot.
  pivot-Sorts :
      (d : T) (rest lower higher : List T)
      → Sorts lower (partition (λ x. lt x d) rest).0
      → Sorts higher (partition (λ x. lt x d) rest).1
      → Sorts (lower ++ (d ∷ higher)) (d ∷ rest)
  unfolding Sorts
  pivot-Sorts d rest lower higher (si, ss) (ti, ts) =
      let p = λ (x : T). lt x d in
      (
        λ f. omega (arith, count-append f lower (d ∷ higher), si f, ti f, parts.same p f rest),
        IsSorted-pivot lt o d lower higher ss ts (si (λ x. not (p x)) ∙ parts.passing p rest)
            (ti p ∙ parts.failing p rest),
      )

  SameItems-trans-Sorts : (r xs ys : List T) → Sorts r xs → SameItems xs ys → Sorts r ys
  unfolding Sorts
  SameItems-trans-Sorts r xs ys (s, sorted) h = (λ f. s f ∙ h f, sorted)

  sort_parts-Sorts :
      (fuel : ℕ) (sort : List T → List T)
      → ((l : List T) → length l ≤ fuel → Sorts (sort l) l)
      → (l : List T) → length l ≤ suc fuel
      → Sorts (sort_parts lt partition sort l) l
  unfolding Sorts sort_parts
  sort_parts-Sorts fuel sort ih [] le = (λ f. refl, tt)
  sort_parts-Sorts fuel sort ih (d ∷ rest) le =
      let p = λ (x : T). lt x d in
      let (lower, higher) = partition p rest in
      let s = parts.same p (λ x. true) rest in
      let a = count_all lower in
      let b = count_all higher in
      let c = count_all rest in
      pivot-Sorts d rest (sort lower) (sort higher) (ih lower (omega arith))
        (ih higher (omega arith))

  sort_with-Sorts :
      (prepare : List T → List T)
      → ((l : List T) → SameItems (prepare l) l)
      → (fuel : ℕ) (l : List T) → length l ≤ fuel
      → Sorts (sort_with lt partition prepare fuel l) l
  unfolding sort_with
  sort_with-Sorts prepare keeps zero l le =
      unfold Sorts in (λ f. refl, short-IsSorted l (omega arith))
  sort_with-Sorts prepare keeps (suc fuel) l le = elim (Bool-cases (ltb (length l) 2)) [
    | inl short ↦ rw (short) (unfold Sorts in (λ f. refl, short-IsSorted l (ground arith)))
    | inr long ↦
        let same = SameItems-length (prepare l) l (keeps l) in
        rw (long) (
          SameItems-trans-Sorts
            (sort_parts lt partition (sort_with lt partition prepare fuel) (prepare l)) (prepare l)
            l
            (sort_parts-Sorts fuel (sort_with lt partition prepare fuel)
              (sort_with-Sorts prepare keeps fuel) (prepare l) (omega arith))
            (keeps l))
  ]

  -- For a strict order and a partition as std::partition promises, both sorts return the
  -- items of the list, each as often, with no element less than one before it.
  pub sorts_sort :
      (gt : T → T → Bool) (l : List T)
      → (SameItems (sorter_do_sort lt partition l) l × IsSorted lt (sorter_do_sort lt partition l))
        × (SameItems (do_sort lt partition gt l) l × IsSorted lt (do_sort lt partition gt l))
  unfolding Sorts sorter_do_sort do_sort
  sorts_sort gt l = (
    sort_with-Sorts (λ x. x) (λ x f. refl) (length l) l (omega arith),
    sort_with-Sorts (move_median_to_begin gt) (move_median-SameItems gt) (length l) l (omega arith),
  )
