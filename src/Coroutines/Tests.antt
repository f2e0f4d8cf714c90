-- ===== src/Coroutines/Tests.antt =====
-- The programs of experiments/cpp20/coroutines with their own arguments.
use playground_cpp.Common.{◌≡◌, refl, some, [], ◌∷◌, ◌++◌, arith}
use playground_cpp.Coroutines.{
  construction, initial_suspension, readiness, suspension, resumption, void_return,
  final_suspension, func, got, foo_made, counter, print_all, run_example,
}
use playground_cpp.Coroutines.Laws.{programs_end, from, countdown}

counter_prints : print_all 8 (counter 5) ≡ some (0 ∷ 1 ∷ 2 ∷ 3 ∷ 4 ∷ [])
unfolding print_all counter
counter_prints = refl

foo_prints :
    run_example 6 1
    ≡ some (
        func construction
        ∷ func initial_suspension
        ∷ func readiness
        ∷ func suspension
        ∷ func resumption
        ∷ got 1
        ∷ func readiness
        ∷ func resumption
        ∷ func void_return
        ∷ func final_suspension
        ∷ [])
unfolding run_example
foo_prints = refl

programs_end_example :
    (print_all 8 (counter 5) ≡ some (from 0 5)) × (run_example 8 5 ≡ some (foo_made ++ countdown 5))
programs_end_example = programs_end 5 8 (omega arith)
