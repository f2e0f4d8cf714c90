-- ===== src/Containers/Stack.antt =====
-- include/playground/threading/threadsafe_stack.hpp: a std::stack under one mutex, so each method
-- is one step. The top is the head of the list.
pub mod Laws
use playground_cpp.Common.{
  ℕ, zero, suc, Bool, true, false, Option, none, some, List, [], ◌∷◌, length,
}

module _ {ℓ} {T : Type ℓ} where
  unfoldable pub push : T → List T → List T
  push new_value data_ = new_value ∷ data_

  -- `Pop()`: null if the stack is empty.
  unfoldable pub pop : List T → Option T × List T
  pop [] = (none, [])
  pop (tmp ∷ data_) = (some tmp, data_)

  -- `Pop(value)`. It ends with `value = std::move(value)`, and `self_move` is what the type's move
  -- assignment does when it moves an object to itself. The results are what is returned, `value`
  -- afterwards, and the stack.
  unfoldable pub pop_into : (self_move : T → T) → T → List T → Bool × T × List T
  pop_into self_move value [] = (false, value, [])
  pop_into self_move value (tmp ∷ data_) = (true, self_move value, data_)

  unfoldable pub size : List T → ℕ
  size data_ = length data_
