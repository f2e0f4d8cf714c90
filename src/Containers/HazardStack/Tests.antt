-- ===== src/Containers/HazardStack/Tests.antt =====
-- Threads of lockfree_stack_hazard_pointer.hpp in concrete orders of their moves.
use playground_cpp.Common.{Distinct, ℕ, ◌≡◌, ◌≢◌, refl, Bool, false, some, List, [], ◌∷◌, In}
use playground_cpp.Containers.SharedStack.{unborn, removed, same_pointer}
use playground_cpp.Containers.SharedStack.Chain.{Represents}
use playground_cpp.Containers.HazardStack.{following, collecting, Call, push, pop, init, run}
use playground_cpp.Containers.HazardStack.Invariant.{Uses, hand}
use playground_cpp.Containers.HazardStack.Safety.{no_use_after_delete}

abbrev move : ℕ → ℕ × (Call ℕ × Bool)
move t = (t, (pop, false))

-- Thread 0 pushes 5 at address 9, threads 1 and 2 guard it, and thread 1 removes it.
abbrev two_poppers : List (ℕ × (Call ℕ × Bool))
two_poppers =
    (0, (push 5 9, false))
    ∷ move 0
    ∷ move 0
    ∷ move 1
    ∷ move 1
    ∷ move 1
    ∷ move 2
    ∷ move 2
    ∷ move 2
    ∷ move 1
    ∷ move 1
    ∷ move 1
    ∷ move 1
    ∷ move 1
    ∷ move 1
    ∷ move 1
    ∷ []

-- Thread 1 finds the hazard pointer of thread 2 and keeps the node for later.
kept_for_later : (run two_poppers init).reclaim ≡ 9 ∷ []
unfolding run same_pointer
kept_for_later = refl

still_used : (run two_poppers init).pcs 2 ≡ following 9
unfolding run same_pointer
still_used = refl

has_result : (run two_poppers init).pcs 1 ≡ collecting (some 5)
unfolding run same_pointer
has_result = refl

no_use_after_delete_example :
    let s = run two_poppers init in
    ((t a : ℕ) → Uses a (s.pcs t) → s.status a ≢ unborn)
    × (((t a : ℕ) → In a (hand (s.pcs t)) → (s.status a ≡ removed) × (s.holder a ≡ some t))
        × (((t : ℕ) → Distinct (hand (s.pcs t)))
            × ((xs : List ℕ) × Represents s.status s.nodes s.head_ xs)))
no_use_after_delete_example = no_use_after_delete two_poppers
