-- ===== src/Containers/NodeList.antt =====
-- include/playground/threading/threadsafe_list.hpp: a list with a mutex in each node and in
-- the head. A traversal holds the mutex of its current node, and takes that of the next before
-- it goes on.
pub mod Linear
mod Tests
use playground_cpp.Common.{
  ℕ, zero, suc, Bool, true, false, Option, none, some, List, [], ◌∷◌, ◌++◌, if◌then◌else◌,
}

-- The list while nobody traverses it, or while a RemoveIf with the test `p` does: the nodes up
-- to its current one, which is the head where there are none, and those behind.
pub data State {ℓ} (T : Type ℓ) : Type ℓ where
  resting : List T → State T
  removing : (p : T → Bool) (before behind : List T) → State T

module _ {ℓ} {T : Type ℓ} where
  -- `none` while the mutex of the head is taken.
  unfoldable pub push_front : T → State T → Option (State T)
  push_front v (resting l) = some (resting (v ∷ l))
  push_front v (removing p [] behind) = none
  push_front v (removing p (x ∷ before) behind) = some (removing p (v ∷ x ∷ before) behind)

  -- RemoveIf takes the mutex of the head. A second one at the same time is not in the model.
  unfoldable pub begin_remove : (T → Bool) → State T → Option (State T)
  begin_remove p (resting l) = some (removing p [] l)
  begin_remove p (removing q before behind) = none

  -- One round of the loop of the RemoveIf under way, or its end.
  unfoldable pub remove_step : State T → State T
  remove_step (resting l) = resting l
  remove_step (removing p before []) = resting before
  remove_step (removing p before (x ∷ behind)) =
      if p x then removing p before behind else removing p (before ++ x ∷ []) behind

  -- The rounds of RemoveIf with no other thread, on fuel.
  unfoldable pub remove_if : ℕ → State T → State T
  unfolding remove_step
  remove_if zero s = s
  remove_if (suc fuel) s = remove_if fuel (remove_step s)

  unfoldable pub find_first_if : (T → Bool) → List T → Option T
  find_first_if p [] = none
  find_first_if p (x ∷ l) = if p x then some x else find_first_if p l

-- `f` may change a state of its own.
module _ {ℓ} {S T : Type ℓ} where
  unfoldable pub for_each : (S → T → S) → S → List T → S
  for_each f s [] = s
  for_each f s (x ∷ l) = for_each f (f s x) l
