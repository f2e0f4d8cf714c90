-- ===== src/Containers/CountedStack/Tests.antt =====
-- Threads of lockfree_stack_reference_counting.hpp in concrete orders of their moves.
use playground_cpp.Common.{
  ℕ, zero, suc, ◌≡◌, ◌≢◌, refl, Bool, true, false, some, List, [], ◌∷◌, ◌++◌, arith, ◌⊎◌,
}
use playground_cpp.Containers.SharedStack.{same_pointer}
use playground_cpp.Containers.HazardStack.{Call, push, pop}
use playground_cpp.Containers.CountedStack.{
  unborn, released, stacked, same_counted, is_unborn, returned, init, run,
}
use playground_cpp.Containers.CountedStack.Invariant.{holds, keeps, Contents}
use playground_cpp.Containers.CountedStack.Safety.{deletes_once}

abbrev moves : ℕ → ℕ → List (ℕ × (Call ℕ × Bool))
moves zero t = []
moves (suc n) t = (t, (pop, false)) ∷ moves n t

-- Thread 0 pushes 5 at address 9; threads 1 and 2 take references to it, and thread 2, whose
-- count is the last one, removes it.
abbrev two_poppers : List (ℕ × (Call ℕ × Bool))
two_poppers = ((0, (push 5 9, false)) ∷ moves 2 0) ++ moves 4 1 ++ moves 7 2

removed_in_use : (run two_poppers init).lives 9 ≡ released
unfolding run same_pointer same_counted is_unborn
removed_in_use = refl

has_result : (run two_poppers init).pcs 2 ≡ returned (some 5)
unfolding run same_pointer same_counted is_unborn
has_result = refl

-- Thread 1 fails, gives its reference back, and deletes the node.
deleted_by_other : (run (two_poppers ++ moves 3 1) init).lives 9 ≡ unborn
unfolding run same_pointer same_counted is_unborn
deleted_by_other = refl

deletes_once_example :
    let s = run two_poppers init in
    ((t a : ℕ) → (holds a (s.pcs t) ≡ true) ⊎ (keeps a (s.pcs t) ≡ true) → s.lives a ≢ unborn)
    × (((a : ℕ)
          → ((t : ℕ) → (holds a (s.pcs t) ≡ false) × (keeps a (s.pcs t) ≡ false))
          → (s.lives a ≡ unborn) ⊎ ((k : ℕ) × (s.lives a ≡ stacked k)))
        × ((xs : List ℕ) × Contents s.lives s.nodes s.externals s.head_ xs))
deletes_once_example = deletes_once 3 two_poppers (omega arith) (omega arith) (
    (
      omega arith,
      (
        omega arith,
        (
          omega arith,
          (
            omega arith,
            (
              omega arith,
              (
                omega arith,
                (
                  omega arith,
                  (
                    omega arith,
                    (
                      omega arith,
                      (omega arith, (omega arith, (omega arith, (omega arith, (omega arith, tt))))),
                    ),
                  ),
                ),
              ),
            ),
          ),
        ),
      ),
    ))
