-- ===== src/Containers/SharedStack/Tests.antt =====
-- Threads of lockfree_stack_shared_ptr.hpp on concrete schedules.
use playground_cpp.Common.{ℕ, ◌≡◌, refl, true, Option, none, some, List, [], ◌∷◌}
use playground_cpp.Containers.SharedStack.{
  returned, silent, pushes, pops, finds_empty, Move, init, step, run,
}
use playground_cpp.Containers.SharedStack.Chain.{Represents}
use playground_cpp.Containers.SharedStack.Linear.{DoesAll, run_linearizes}
use playground_cpp.Containers.SharedStack.Alone.{steady, pop-push}

-- Threads 0 and 1 push 5 and 6 and lose an exchange each, thread 2 loads the head before 6 is
-- pushed and pops 6.
abbrev schedule : List (ℕ × Move ℕ)
schedule =
    (0, steady (some 5))
    ∷ (1, steady (some 6))
    ∷ (0, steady none)
    ∷ (1, steady none)
    ∷ (0, record { call = none; fails = true })
    ∷ (0, steady none)
    ∷ (2, steady none)
    ∷ (2, steady none)
    ∷ (1, steady none)
    ∷ (1, steady none)
    ∷ (2, steady none)
    ∷ (2, steady none)
    ∷ (2, steady none)
    ∷ (2, steady none)
    ∷ (2, steady none)
    ∷ []

schedule_actions :
    (run schedule init).0
    ≡ silent
      ∷ silent
      ∷ silent
      ∷ silent
      ∷ silent
      ∷ pushes 5
      ∷ silent
      ∷ silent
      ∷ silent
      ∷ pushes 6
      ∷ silent
      ∷ silent
      ∷ pops (some 6)
      ∷ silent
      ∷ silent
      ∷ []
unfolding run step
schedule_actions = refl

abbrev thread_zero_alone : List (ℕ × Move ℕ)
thread_zero_alone = (0, steady none) ∷ (0, steady none) ∷ []

empty_pop : (run thread_zero_alone init).0 ≡ finds_empty ∷ silent ∷ []
unfolding run step
empty_pop = refl

run_linearizes_example :
    let s = (run schedule init).1 in
    (xs : List ℕ) × (DoesAll ((run schedule init).0) [] xs
      × (Represents s.status s.nodes s.head_ xs
          × ((t : ℕ) (r : Option ℕ) → s.pcs t ≡ returned r → s.claimed t ≡ r)))
run_linearizes_example = run_linearizes schedule

pop-push_example :
    let push : ℕ × Move ℕ = (3, steady (some 7)) in
    let pop : ℕ × Move ℕ = (3, steady none) in
    let out = run (push ∷ push ∷ push ∷ pop ∷ pop ∷ pop ∷ pop ∷ pop ∷ []) ((run schedule init).1) in
    (out.0 ≡ silent ∷ silent ∷ pushes 7 ∷ silent ∷ silent ∷ pops (some 7) ∷ silent ∷ silent ∷ [])
    × ((out.1.pcs 3 ≡ returned (some 7)) × (out.1.head_ ≡ ((run schedule init).1).head_))
unfolding run step
pop-push_example = pop-push 7 3 ((run schedule init).1) refl
