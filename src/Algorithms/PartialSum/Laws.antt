-- ===== src/Algorithms/PartialSum/Laws.antt =====
-- PartialSum against std::partial_sum.
use playground_cpp.Common.{
  ℕ, zero, suc, ◌-◌, ◌*◌, ◌^◌, ◌≤◌, ◌<◌, ◌≡◌, refl, false, Option, none, some, List, [], ◌∷◌, ◌++◌,
  take, drop, length, arith, ap, sym, ◌∙◌, ◌==◌, take-append-drop, length-take, length-drop,
}
use playground_cpp.Algorithms.Blocks.{num_threads, block_size}
use playground_cpp.Algorithms.Blocks.Bounds.{split_bounds}
use playground_cpp.Algorithms.PartialSum.{
  sums_from, partial_sum, last_of, add_to_all, chunk_process, chunks, parallel_partial_sum,
}

fits : (n size length : ℕ) → n * size ≤ length → (n - 1) * size ≤ length
fits n size length h = grind arith

module _ {ℓ} {T : Type ℓ} (plus : T → T → T)
    (plus_assoc : (a b c : T) → plus (plus a b) c ≡ plus a (plus b c))
    (plus_comm : (a b : T) → plus a b ≡ plus b a) where
  -- Adding a value behind is starting from it.
  add_to_all-sums_from :
      (pre acc : T) (xs : List T)
      → add_to_all plus pre (sums_from plus acc xs) ≡ sums_from plus (plus pre acc) xs
  unfolding add_to_all sums_from
  add_to_all-sums_from pre acc [] = refl
  add_to_all-sums_from pre acc (x ∷ xs) = rw moved (
      ap (◌∷◌ (plus (plus pre acc) x)) (
        add_to_all-sums_from pre (plus acc x) xs
        ∙ ap (λ a. sums_from plus a xs) (sym (plus_assoc pre acc x))))
    where
      moved : plus (plus acc x) pre ≡ plus (plus pre acc) x
      moved = plus_comm (plus acc x) pre ∙ sym (plus_assoc pre acc x)

  -- The sums that go on from what came before.
  abbrev sums_after : Option T → List T → List T
  sums_after none xs = partial_sum plus xs
  sums_after (some pre) xs = sums_from plus pre xs

  chunk_process-sums :
      (pre : Option T) (xs : List T) → chunk_process plus pre xs ≡ sums_after pre xs
  unfolding chunk_process sums_from
  chunk_process-sums none xs = refl
  chunk_process-sums (some pre) [] = refl
  chunk_process-sums (some pre) (x ∷ xs) =
      rw (plus_comm x pre) (ap (◌∷◌ (plus pre x)) (add_to_all-sums_from pre x xs))

  sums_from-append :
      (acc : T) (x : T) (xs ys : List T)
      → sums_from plus acc (x ∷ xs ++ ys)
        ≡ sums_from plus acc (x ∷ xs) ++ sums_after (last_of plus (sums_from plus acc (x ∷ xs))) ys
  unfolding sums_from last_of
  sums_from-append acc x [] ys = refl
  sums_from-append acc x (y ∷ xs) ys = ap (◌∷◌ (plus acc x)) (sums_from-append (plus acc x) y xs ys)

  sums_after-append :
      (pre : Option T) (xs ys : List T)
      → 0 < length xs
      → sums_after pre (xs ++ ys)
        ≡ sums_after pre xs ++ sums_after (last_of plus (sums_after pre xs)) ys
  unfolding partial_sum last_of
  sums_after-append pre [] ys h = absurd (omega arith)
  sums_after-append none (x ∷ []) ys h = refl
  sums_after-append none (x ∷ y ∷ xs) ys h = ap (◌∷◌ x) (sums_from-append x y xs ys)
  sums_after-append (some acc) (x ∷ xs) ys h = sums_from-append acc x xs ys

  chunks-sums :
      (size n : ℕ) (pre : Option T) (xs : List T)
      → 1 ≤ size
      → n * size ≤ length xs
      → chunks plus size n pre xs ≡ sums_after pre xs
  unfolding chunks
  chunks-sums size zero pre xs h k = chunk_process-sums pre xs
  chunks-sums size (suc n) pre xs h k =
      ap (λ c. c ++ chunks plus size n (last_of plus c) (drop size xs))
        (chunk_process-sums pre (take size xs))
      ∙ (ap (λ l. sums_after pre (take size xs) ++ l)
            (chunks-sums size n _ (drop size xs) h (omega (arith, length-drop size xs)))
          ∙ (sym (
                sums_after-append pre (take size xs) (drop size xs)
                  (omega (arith, length-take size xs)))
              ∙ ap (sums_after pre) (take-append-drop size xs)))

  -- If `+` is associative and commutative, `PartialSum` leaves in a range of fewer than 2^63
  -- elements the sums that std::partial_sum leaves there, for any number of hardware
  -- threads.
  pub parallel_partial_sum-partial_sum :
      (hardware : ℕ) (xs : List T)
      → length xs < 2 ^ 63
      → parallel_partial_sum plus hardware xs ≡ partial_sum plus xs
  unfolding parallel_partial_sum
  parallel_partial_sum-partial_sum hardware [] small = refl
  parallel_partial_sum-partial_sum hardware (x ∷ xs) small =
      let n = num_threads hardware (length (x ∷ xs)) in
      let size = block_size hardware (length (x ∷ xs)) in
      let (_, _, _, some_size, fit) = split_bounds hardware (length (x ∷ xs)) (omega arith) small in
      let nonempty : (length (x ∷ xs) == 0) ≡ false = ground arith in
      rw nonempty (chunks-sums size (n - 1) none (x ∷ xs) some_size (fits n size _ fit))
