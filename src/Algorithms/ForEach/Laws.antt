-- ===== src/Algorithms/ForEach/Laws.antt =====
-- ForEach applies the function once to each element, whatever the interleaving.
use mathlib.Core.List.{flatten, map-append}
use playground_cpp.Common.{
  ℕ, zero, suc, ◌/◌, ◌≤◌, ◌<◌, ◌≡◌, refl, inl, inr, List, [], ◌∷◌, ◌++◌, map, take, drop, length,
  arith, ap, sym, ◌∙◌, append_assoc, take-append-drop, length-take, length-drop, Bool-cases, ltb,
}
use playground_cpp.Algorithms.Blocks.{split}
use playground_cpp.Algorithms.Blocks.Cover.{flatten-split}
use playground_cpp.Algorithms.ForEach.{
  Block, start, block_step, step, run, contents, for_each_recursive,
}

module _ {ℓ} {A : Type ℓ} (f : A → A) where
  -- What the range will be when every thread has finished.
  goal : List (Block A) → List A
  goal [] = []
  goal (b ∷ bs) = b.done ++ map f b.todo ++ goal bs

  block_step-goal :
      (d t rest : List A)
      → (let b = block_step f (record { done = d; todo = t }) in b.done ++ map f b.todo ++ rest)
        ≡ d ++ map f t ++ rest
  unfolding block_step
  block_step-goal d [] rest = refl
  block_step-goal d (x ∷ t) rest =
      append_assoc (d ++ f x ∷ []) (map f t) rest
      ∙ (append_assoc d (f x ∷ []) (map f t ++ rest) ∙ sym (append_assoc d (f x ∷ map f t) rest))

  step-goal : (i : ℕ) (bs : List (Block A)) → goal (step f i bs) ≡ goal bs
  unfolding goal step
  step-goal i [] = refl
  step-goal zero (b ∷ bs) = block_step-goal b.done b.todo (goal bs)
  step-goal (suc i) (b ∷ bs) = ap (λ l. b.done ++ map f b.todo ++ l) (step-goal i bs)

  run-goal : (is : List ℕ) (bs : List (Block A)) → goal (run f is bs) ≡ goal bs
  unfolding run
  run-goal [] bs = refl
  run-goal (i ∷ is) bs = run-goal is (step f i bs) ∙ step-goal i bs

  goal-start :
      (bs : List (List A))
      → goal (map (λ b. record { done = []; todo = b }) bs) ≡ map f (flatten bs)
  unfolding goal flatten
  goal-start [] = refl
  goal-start (b ∷ bs) = ap (λ l. map f b ++ l) (goal-start bs) ∙ sym (map-append f b (flatten bs))

  -- Every thread is at the end of its block.
  abbrev pub AllDone : List (Block A) → Type ℓ
  AllDone [] = Unit
  AllDone (b ∷ bs) = (b.todo ≡ []) × AllDone bs

  contents-goal : (bs : List (Block A)) → AllDone bs → contents bs ≡ goal bs
  unfolding contents goal
  contents-goal [] d = refl
  contents-goal (b ∷ bs) d = rw (d.0, contents-goal bs d.1) refl

  -- `ForEach` with `f` leaves the image of every element, once, in its place, however the steps of
  -- its threads are interleaved, for any number of hardware threads.
  pub for_each-map :
      (hardware : ℕ) (xs : List A) (schedule : List ℕ)
      → AllDone (run f schedule (start hardware xs))
      → contents (run f schedule (start hardware xs)) ≡ map f xs
  unfolding start
  for_each-map hardware xs schedule d =
      contents-goal (run f schedule (start hardware xs)) d
      ∙ (run-goal schedule (start hardware xs)
          ∙ (goal-start (split hardware xs) ∙ ap (map f) (flatten-split hardware xs)))

  halves :
      (mid : ℕ) (xs : List A) {l r : List A}
      → l ≡ map f (take mid xs)
      → r ≡ map f (drop mid xs)
      → l ++ r ≡ map f xs
  halves mid xs p q =
      rw (p, q)
        (sym (map-append f (take mid xs) (drop mid xs)) ∙ ap (map f) (take-append-drop mid xs))

  -- `ForEachRecursive` does the same, and as much fuel as there are elements is enough.
  for_each_recursive-map :
      (fuel : ℕ) (xs : List A) → length xs ≤ fuel → for_each_recursive fuel f xs ≡ map f xs
  unfolding for_each_recursive
  for_each_recursive-map zero [] h = refl
  for_each_recursive-map zero (x ∷ xs) h = absurd (omega arith)
  for_each_recursive-map (suc fuel) xs h = elim (Bool-cases (ltb (length xs) 50)) [
    | inl few ↦ rw few
    | inr many ↦
        let mid = length xs / 2 in
        let room : (1 ≤ mid) × (mid < length xs) = ground arith in
        rw many (
          halves mid xs
            (for_each_recursive-map fuel (take mid xs) (omega (arith, length-take mid xs)))
            (for_each_recursive-map fuel (drop mid xs) (omega (arith, length-drop mid xs))))
  ]
