-- ===== src/Containers/DeleteListStack/Tests.antt =====
-- Threads of lockfree_statck_delete_list.hpp in concrete orders of their moves.
use playground_cpp.Common.{
  Distinct, ℕ, zero, suc, ◌≡◌, ◌≢◌, refl, Bool, false, none, some, List, [], ◌∷◌, ◌++◌, In, arith,
}
use playground_cpp.Containers.SharedStack.{unborn, removed, same_pointer}
use playground_cpp.Containers.SharedStack.Chain.{Represents}
use playground_cpp.Containers.HazardStack.{Call, push, pop, is_free}
use playground_cpp.Containers.DeleteListStack.{following, init, run}
use playground_cpp.Containers.DeleteListStack.Segments.{Segment}
use playground_cpp.Containers.DeleteListStack.Invariant.{Uses, hand}
use playground_cpp.Containers.DeleteListStack.Safety.{deletes_unused}

abbrev move : ℕ → ℕ × (Call ℕ × Bool)
move t = (t, (pop, false))

abbrev moves : ℕ → ℕ → List (ℕ × (Call ℕ × Bool))
moves zero t = []
moves (suc n) t = move t ∷ moves n t

-- Thread 0 pushes 5 at address 9, threads 1 and 2 load it, and thread 1 removes it: it is not
-- alone, and puts the node into the list.
abbrev two_poppers : List (ℕ × (Call ℕ × Bool))
two_poppers = ((0, (push 5 9, false)) ∷ moves 2 0) ++ moves 2 1 ++ moves 2 2 ++ moves 7 1

kept_for_later : (run two_poppers init).pending ≡ 9 ∷ []
unfolding run same_pointer is_free
kept_for_later = refl

still_used : (run two_poppers init).pcs 2 ≡ following 9
unfolding run same_pointer is_free
still_used = refl

-- Thread 2 goes on alone, finds an empty stack and deletes the node of the list.
deleted_later : (run (two_poppers ++ moves 8 2) init).status 9 ≡ unborn
unfolding run same_pointer is_free
deleted_later = refl

deletes_unused_example :
    let s = run two_poppers init in
    ((t a : ℕ) → Uses a (s.pcs t) → s.status a ≢ unborn)
    × (((t a : ℕ)
          → In a (hand (s.pcs t) (s.chains t))
          → (s.status a ≡ removed) × (s.holder a ≡ some t))
        × (((t : ℕ) → Distinct (hand (s.pcs t) (s.chains t)))
            × ((Segment s.nodes s.to_delete_list_ s.pending none
                  × (Distinct s.pending
                      × ((a : ℕ) → In a s.pending → (s.status a ≡ removed) × (s.holder a ≡ none))))
                × ((xs : List ℕ) × Represents s.status s.nodes s.head_ xs))))
deletes_unused_example = deletes_unused 3 two_poppers (omega arith) (
  omega arith,
  (
    omega arith,
    (
      omega arith,
      (
        omega arith,
        (
          omega arith,
          (
            omega arith,
            (
              omega arith,
              (
                omega arith,
                (
                  omega arith,
                  (omega arith, (omega arith, (omega arith, (omega arith, (omega arith, tt))))),
                ),
              ),
            ),
          ),
        ),
      ),
    ),
  ),
)
