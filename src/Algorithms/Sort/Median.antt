-- ===== src/Algorithms/Sort/Median.antt =====
-- MoveMedianOfThree2Begin of sort.hpp only moves elements.
use playground_cpp.Common.{
  ℕ, ◌-◌, ◌/◌, ◌≡◌, ◌∙◌, inl, inr, Bool, some, List, length, get_elem?, set, count-set, SameItems,
  arith, Option-cases, get_elem?-bound, get_elem?-set_self, get_elem?-set_ne, ℕ_discrete, subst,
}
use playground_cpp.Algorithms.Sort.{swap_if_greater, iter_swap, move_median_to_begin}

module _ {ℓ} {T : Type ℓ} where
  after_set :
      (l : List T) (i j : ℕ) (x y : T)
      → get_elem? l i ≡ some x
      → get_elem? l j ≡ some y
      → get_elem? (set l i y) j ≡ some y
  after_set l i j x y ei ej = elim (ℕ_discrete i j) [
    | yes e ↦
        subst (λ k. get_elem? (set l i y) k ≡ some y) e
          (get_elem?-set_self l i y (get_elem?-bound l i x ei))
    | no ne ↦ get_elem?-set_ne l i j y ne ∙ ej
  ]

  exchange-SameItems :
      (l : List T) (i j : ℕ) (x y : T)
      → get_elem? l i ≡ some x
      → get_elem? l j ≡ some y
      → SameItems (set (set l i y) j x) l
  exchange-SameItems l i j x y ei ej f =
      omega
        (arith, count-set f l i x y ei, count-set f (set l i y) j y x (after_set l i j x y ei ej))

  swap_if_greater-SameItems :
      (gt : T → T → Bool) (i j : ℕ) (l : List T) → SameItems (swap_if_greater gt i j l) l
  unfolding swap_if_greater
  swap_if_greater-SameItems gt i j l f = elim (Option-cases (get_elem? l i)) [
    | inl n ↦ rw (n, swap_if_greater)
    | inr (x, ei) ↦ elim (Option-cases (get_elem? l j)) [
      | inl n ↦ rw (ei, n, swap_if_greater)
      | inr (y, ej) ↦ let e = exchange-SameItems l i j x y ei ej f in ground arith
    ]
  ]

  iter_swap-SameItems : (i j : ℕ) (l : List T) → SameItems (iter_swap i j l) l
  unfolding iter_swap
  iter_swap-SameItems i j l f = elim (Option-cases (get_elem? l i)) [
    | inl n ↦ rw (n, iter_swap)
    | inr (x, ei) ↦ elim (Option-cases (get_elem? l j)) [
      | inl n ↦ rw (ei, n, iter_swap)
      | inr (y, ej) ↦ rw (ei, ej, iter_swap) (exchange-SameItems l i j x y ei ej f)
    ]
  ]

  pub move_median-SameItems :
      (gt : T → T → Bool) (l : List T) → SameItems (move_median_to_begin gt l) l
  unfolding move_median_to_begin
  move_median-SameItems gt l f =
      let mid = length l / 2 in
      let right = length l - 1 in
      let a = swap_if_greater gt 0 mid l in
      let b = swap_if_greater gt 0 right a in
      let c = swap_if_greater gt mid right b in
      let ea = swap_if_greater-SameItems gt 0 mid l f in
      let eb = swap_if_greater-SameItems gt 0 right a f in
      let ec = swap_if_greater-SameItems gt mid right b f in
      let ed = iter_swap-SameItems 0 mid c f in ground arith
