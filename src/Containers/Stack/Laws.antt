-- ===== src/Containers/Stack/Laws.antt =====
-- The overload of Pop that loses the value.
use playground_cpp.Common.{◌≡◌, ◌≢◌, refl, true, some, List, ◌∷◌, sym}
use playground_cpp.Containers.Stack.{pop, pop_into}

module _ {ℓ} {T : Type ℓ} where
  -- `Pop(value)` removes the top of a stack that is not empty and reports success, but what it
  -- leaves in `value` is the caller's own value, moved to itself, whatever the top was; `Pop()`
  -- on the same stack returns the top.
  pop_into_loses_top :
      (self_move : T → T) (value x : T) (s : List T)
      → (pop_into self_move value (x ∷ s) ≡ (true, self_move value, s))
        × (pop (x ∷ s) ≡ (some x, s))
        × (x ≢ self_move value → (pop_into self_move value (x ∷ s)).1 ≢ x)
  unfolding pop_into pop
  pop_into_loses_top self_move value x s = (refl, refl, λ ne e. ne (sym e))
